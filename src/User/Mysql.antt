-- ===== src/User/Mysql.antt =====
-- user-order-api/internal/user/mysql_repository.go: the users in MySQL. `events` tells whether the repository has an
-- outbox, and `factory` builds the event of a user. The driver is asked, in order, for the
-- transaction, its statements, the IDs of their results, and the commit.
pub mod Atomic
use codex_go_web_api.Prelude.{
  ℕ, ◌+◌, Bool, true, false, Option, none, some, List, map, select, take, ltb, nat_beq,
  if◌then◌else◌, trim_space,
}
use codex_go_web_api.Prelude.Outcome.{Result, ok, err}
use codex_go_web_api.Platform.Page.{Request, Page, ListError, paginate}
use codex_go_web_api.Platform.Page
use codex_go_web_api.User.{
  User, CreateUserRequest, RepoError, not_found, email_taken, failed, normalized, new_user, user_id,
}
use codex_go_web_api.Outbox.Event.{Event, EventError}
use codex_go_web_api.Outbox.Append.{write_after}
use codex_go_web_api.Auth
use codex_go_web_api.Database.{
  Engine, Fate, works, is_works, DriverError, duplicate, no_parent, other_error, Turn, in_tx,
  autocommit, query_row, End, transact,
}
use codex_go_web_api.Database.Tables.{UserRow, Database, first, insert_user}

-- A user without a password; the role and the version are the columns' defaults.
abbrev pub user_row : (ℕ → ℕ) → ℕ → CreateUserRequest → ℕ → UserRow
user_row wide id input at = record {
  id = id;
  name = trim_space input.name;
  email = normalized wide input.email;
  password_hash = none;
  role = Auth.user;
  auth_version = 1;
  created_at = at;
}

-- `scanUser`
abbrev pub user_of : UserRow → User
user_of row = record {
  id = row.id;
  name = row.name;
  email = row.email;
  created_at = row.created_at;
}

abbrev pub user_of_row : Option UserRow → Option User
user_of_row none = none
user_of_row (some row) = some (user_of row)

unfoldable pub find_by_id : Fate → ℕ → Database → Result RepoError User
find_by_id fate id db =
    query_row not_found failed fate
      (user_of_row (first (λ (row : UserRow). nat_beq row.id id) db.users))

abbrev pub insert_error : DriverError → RepoError
insert_error duplicate = email_taken
insert_error no_parent = failed
insert_error other_error = failed

abbrev pub inserted :
    Turn → Database × Result DriverError (Unit {0}) → Database × Result RepoError User
inserted turn (db, err e) = (db, err (insert_error e))
inserted turn (db, ok _) =
    (db, if is_works (turn.fates 2) then find_by_id (turn.fates 3) turn.id db else err failed)

-- 1 is the INSERT, 2 its ID, 3 the query.
unfoldable pub create :
    (ℕ → ℕ) → Engine → Turn → CreateUserRequest → Database → Database × Result RepoError User
create wide engine turn input db = inserted turn (
    autocommit (turn.fates 1) db
      (insert_user engine (user_row wide turn.id input (engine.kept turn.server_now)) db))

-- The SELECT of a listing, with one row more than the page holds.
unfoldable pub selected : Request → Database → List User
selected request db =
    take (request.limit + 1)
      (map user_of (select (λ (row : UserRow). ltb request.after_id row.id) db.users))

-- The error of a listing in the model's terms: the query or its rows fail.
unfoldable pub list : Fate → Request → Database → Result ListError (Page User)
list works request db = paginate user_id (selected request db) request.limit
list _ request db = err ListError.cancelled

abbrev pub without_event :
    Database × Result RepoError User → Database × Result RepoError (User × Bool)
without_event (db, ok u) = (db, ok (u, false))
without_event (db, err e) = (db, err e)

module _ (wide : ℕ → ℕ) (engine : Engine) (factory : User → Result EventError Event)
    (turn : Turn) where
  -- 1 is the INSERT, 2 its ID.
  abbrev pub with_id : Result DriverError Database → Result RepoError Database
  with_id (err e) = err (insert_error e)
  with_id (ok db) = if is_works (turn.fates 2) then ok db else err failed

  abbrev pub insert_stage : CreateUserRequest → Database → Result RepoError Database
  insert_stage input db = with_id (
      in_tx (turn.fates 1)
        (insert_user engine (user_row wide turn.id input (engine.kept turn.now)) db))

  -- 3 is the INSERT of the event.
  abbrev pub create_body :
      CreateUserRequest → Database → Result RepoError (End Database (User × Bool))
  create_body input db =
      let u = new_user wide turn.id input turn.now in
      write_after wide engine turn failed (turn.fates 3) (factory u) (u, true)
        (insert_stage input db)

  unfoldable pub create_with_event :
      Bool → CreateUserRequest → Database → Database × Result RepoError (User × Bool)
  create_with_event false input db = without_event (create wide engine turn input db)
  create_with_event true input db =
      transact failed (turn.fates 0) (turn.fates 4) (create_body input) db
