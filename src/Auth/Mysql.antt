-- ===== src/Auth/Mysql.antt =====
-- user-order-api/internal/auth/mysql_repository.go: identities and sessions in MySQL. `events` tells whether the
-- repository has an outbox, and a factory builds the event. The driver is asked, in order, for the
-- transaction, its statements, the IDs and counts of their results, and the commit.
pub mod Events
pub mod Atomic
pub mod Rotations
pub mod Stored
use codex_go_web_api.Prelude.{
  ℕ, ◌+◌, Bool, true, false, not, ◌&&◌, Option, none, some, List, [], ◌∷◌, select, length, ltb,
  nat_beq, if◌then◌else◌, is_some, Text, is_empty, trim_space, to_lower,
}
use codex_go_web_api.Prelude.Outcome.{Result, ok, err}
use codex_go_web_api.Auth.{
  Role, user, admin, other_role, Identity, NewIdentity, Session, NewSession, RepoError,
  session_not_found, identity_not_found, email_taken, failed,
}
use codex_go_web_api.Outbox.Event.{Event, EventError}
use codex_go_web_api.Outbox.Append.{write_event}
use codex_go_web_api.Database.{
  Engine, Fate, works, is_works, DriverError, duplicate, no_parent, other_error, Turn, in_tx,
  autocommit, query_row, End, returns, commits, transact,
}
use codex_go_web_api.Database.Tables.{UserRow, Database, first, update, insert_user, insert_session}

-- The empty role stands for the user's.
abbrev pub role_or_user : Role → Role
role_or_user user = user
role_or_user admin = admin
role_or_user (other_role []) = user
role_or_user (other_role (c ∷ name)) = other_role (c ∷ name)

abbrev pub normalized : (ℕ → ℕ) → Text → Text
normalized wide email = to_lower wide (trim_space email)

-- The row of a new identity; `auth_version` is the column's default.
abbrev pub identity_row : (ℕ → ℕ) → ℕ → NewIdentity → ℕ → UserRow
identity_row wide id input at = record {
  id = id;
  name = trim_space input.name;
  email = normalized wide input.email;
  password_hash = some input.password_hash;
  role = role_or_user input.role;
  auth_version = 1;
  created_at = at;
}

abbrev pub session_of : NewSession → ℕ → Session
session_of input now = record {
  id = input.id;
  user_id = input.user_id;
  token_hash = input.token_hash;
  expires_at = input.expires_at;
  revoked_at = none;
  created_at = now;
  last_used_at = now;
}

-- The row of a session: its times as the columns keep them.
abbrev pub session_row : Engine → NewSession → ℕ → Session
session_row engine input now = record (session_of input (engine.kept now)) {
  expires_at = engine.kept input.expires_at;
}

-- `Scan` into a string fails on NULL.
abbrev pub scan_hash : UserRow → Option Text → Result RepoError Identity
scan_hash row none = err failed
scan_hash row (some hash) = ok (record {
  id = row.id;
  name = row.name;
  email = row.email;
  password_hash = hash;
  role = row.role;
  auth_version = row.auth_version;
  created_at = row.created_at;
})

abbrev pub scan_identity : Result RepoError UserRow → Result RepoError Identity
scan_identity (err e) = err e
scan_identity (ok row) = scan_hash row row.password_hash

unfoldable pub find_identity_by_id : Fate → ℕ → Database → Result RepoError Identity
find_identity_by_id fate id db = scan_identity (
    query_row identity_not_found failed fate
      (first (λ (row : UserRow). nat_beq row.id id) db.users))

unfoldable pub find_identity_by_email :
    (ℕ → ℕ) → Engine → Fate → Text → Database → Result RepoError Identity
find_identity_by_email wide engine fate email db = scan_identity (
    query_row identity_not_found failed fate
      (first (λ (row : UserRow). engine.collates row.email (normalized wide email)) db.users))

abbrev pub insert_identity_error : DriverError → RepoError
insert_identity_error duplicate = email_taken
insert_identity_error no_parent = failed
insert_identity_error other_error = failed

abbrev pub identity_inserted :
    Turn → Database × Result DriverError (Unit {0}) → Database × Result RepoError Identity
identity_inserted turn (db, err e) = (db, err (insert_identity_error e))
identity_inserted turn (db, ok _) = (
  db,
  if is_works (turn.fates 2) then find_identity_by_id (turn.fates 3) turn.id db else err failed,
)

-- 1 is the INSERT, 2 its ID, 3 the query.
unfoldable pub create_identity :
    (ℕ → ℕ) → Engine → Turn → NewIdentity → Database → Database × Result RepoError Identity
create_identity wide engine turn input db = identity_inserted turn (
    autocommit (turn.fates 1) db
      (insert_user engine (identity_row wide turn.id input (engine.kept turn.server_now)) db))

abbrev pub or_failed : Result DriverError Database → Result RepoError Database
or_failed (ok db) = ok db
or_failed (err e) = err failed

abbrev pub has_id : Engine → Text → Session → Bool
has_id engine id item = engine.collates item.id id

unfoldable pub find_by_id : Engine → Fate → Text → Database → Result RepoError Session
find_by_id engine fate id db =
    query_row session_not_found failed fate (first (has_id engine id) db.sessions)

-- `revoked_at IS NULL AND expires_at > ?`
abbrev pub is_live : ℕ → Session → Bool
is_live now item = not (is_some item.revoked_at) && ltb now item.expires_at

unfoldable pub find_active_by_token_hash :
    Engine → Fate → Text → ℕ → Database → Result RepoError Session
find_active_by_token_hash engine fate hash now db = query_row session_not_found failed fate (
    first
      (λ (item : Session). engine.collates item.token_hash hash && is_live (engine.kept now) item)
      db.sessions)

unfoldable pub find_active_by_id : Engine → Fate → Text → ℕ → Database → Result RepoError Session
find_active_by_id engine fate id now db = query_row session_not_found failed fate (
    first (λ (item : Session). has_id engine id item && is_live (engine.kept now) item) db.sessions)

abbrev pub session_inserted :
    Engine
    → Fate
    → Text
    → Database × Result DriverError (Unit {0})
    → Database × Result RepoError Session
session_inserted engine fate id (db, err e) = (db, err failed)
session_inserted engine fate id (db, ok _) = (db, find_by_id engine fate id db)

-- 1 is the INSERT, 2 the query.
unfoldable pub create : Engine → Turn → NewSession → Database → Database × Result RepoError Session
create engine turn input db = session_inserted engine (turn.fates 2) input.id (
    autocommit (turn.fates 1) db
      (insert_session engine (session_row engine input turn.server_now) db))

-- The UPDATE that revokes, on one row.
abbrev pub revoked_row : ℕ → Session → Session
revoked_row at item = record item { revoked_at = some at; last_used_at = at }

unfoldable pub revoke_where : (Session → Bool) → ℕ → Database → Database
revoke_where p at db = record db { sessions = update p (revoked_row at) db.sessions }

-- `RowsAffected`
unfoldable pub affected : (Session → Bool) → Database → ℕ
affected p db = length (select p db.sessions)

abbrev pub rotatable : Engine → Text → ℕ → Session → Bool
rotatable engine id now item = has_id engine id item && is_live now item

abbrev pub revocable : Engine → Text → Session → Bool
revocable engine id item = has_id engine id item && not (is_some item.revoked_at)

abbrev pub counted :
    Database × Result DriverError (Unit {0}) → Fate → ℕ → Database × Result RepoError (Unit {0})
counted (db, err e) fate n = (db, err failed)
counted (db, ok _) fate n = (
  db,
  if is_works fate then (if nat_beq n 1 then ok tt else err session_not_found) else err failed,
)

-- 1 is the UPDATE, 2 its count.
unfoldable pub revoke : Engine → Turn → Text → ℕ → Database → Database × Result RepoError (Unit {0})
revoke engine turn id now db =
    let p = revocable engine id in
    counted (autocommit (turn.fates 1) db (ok (revoke_where p (engine.kept now) db))) (turn.fates 2)
      (affected p db)

-- The first two steps of a rotation: 1 is the UPDATE, 2 its count, 3 the INSERT. `created` is
-- the clock that the new row takes.
unfoldable pub replace :
    Engine → Turn → Text → NewSession → ℕ → Database → Result RepoError Database
replace engine turn id replacement created db =
    let p = rotatable engine id (engine.kept turn.server_now) in
    let revoked = revoke_where p (engine.kept turn.server_now) db in
    let inserted =
      in_tx (turn.fates 3)
        (insert_session engine (session_row engine replacement created) revoked) in
    if is_works (turn.fates 1) && is_works (turn.fates 2)
    then (if nat_beq (affected p db) 1 then or_failed inserted else err session_not_found)
    else err failed

abbrev pub rotate_body :
    Engine → Turn → Text → NewSession → Database → Result RepoError (End Database (Unit {0}))
rotate_body engine turn id replacement db =
    elim (replace engine turn id replacement turn.server_later db) [
      | err e ↦ err e
      | ok after ↦ ok (commits after tt)
    ]

abbrev pub rotated :
    Engine
    → Fate
    → Text
    → Database × Result RepoError (Unit {0})
    → Database × Result RepoError Session
rotated engine fate id (db, err e) = (db, err e)
rotated engine fate id (db, ok _) = (db, find_by_id engine fate id db)

-- 4 is the commit, 5 the query.
unfoldable pub rotate :
    Engine → Turn → Text → NewSession → Database → Database × Result RepoError Session
rotate engine turn id replacement db =
    rotated engine (turn.fates 5) replacement.id
      (transact failed (turn.fates 0) (turn.fates 4) (rotate_body engine turn id replacement) db)
