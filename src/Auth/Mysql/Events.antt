-- ===== src/Auth/Mysql/Events.antt =====
-- user-order-api/internal/auth/mysql_repository.go: the changes that write an event with them.
use codex_go_web_api.Prelude.{
  ℕ, ◌+◌, Bool, true, false, ◌&&◌, if◌then◌else◌, nat_beq, Text, trim_space,
}
use codex_go_web_api.Prelude.Outcome.{Result, ok, err}
use codex_go_web_api.Auth.{
  Identity, NewIdentity, Session, NewSession, RepoError, session_not_found, failed,
}
use codex_go_web_api.Outbox.Event.{Event, EventError}
use codex_go_web_api.Outbox.Append.{write_event, write_after}
use codex_go_web_api.Database.{Engine, is_works, DriverError, Turn, in_tx, End, transact}
use codex_go_web_api.Database.Tables.{Database, insert_user, insert_session}
use codex_go_web_api.Auth.Mysql.{
  or_failed, identity_row, normalized, role_or_user, session_of, session_row, insert_identity_error,
  create_identity, create, rotate, revoke, replace, find_by_id, revocable, revoke_where, affected,
}

-- The identity that a registration answers with: its times are Go's, not the column's.
abbrev pub identity_of : (ℕ → ℕ) → ℕ → NewIdentity → ℕ → Identity
identity_of wide id input now = record {
  id = id;
  name = trim_space input.name;
  email = normalized wide input.email;
  password_hash = input.password_hash;
  role = role_or_user input.role;
  auth_version = 1;
  created_at = now;
}

-- A session of no user is the new identity's.
abbrev pub owned_by : ℕ → NewSession → NewSession
owned_by id session = record session {
  user_id = if nat_beq session.user_id 0 then id else session.user_id;
}

abbrev pub with_flag :
    {A : Type 0} → Database × Result RepoError A → Database × Result RepoError (A × Bool)
with_flag (db, err e) = (db, err e)
with_flag (db, ok a) = (db, ok (a, false))

abbrev pub registered :
    Identity
    → Database × Result RepoError Session
    → Database × Result RepoError (Identity × Session × Bool)
registered i (db, err e) = (db, err e)
registered i (db, ok session) = (db, ok (i, session, false))

-- The driver's answers from the third on.
abbrev pub rest_of : Turn → Turn
rest_of turn = record turn { fates = λ i. turn.fates (i + 3) }

module _ (wide : ℕ → ℕ) (engine : Engine) (turn : Turn) where
  abbrev pub identity_created :
      NewSession
      → Database × Result RepoError Identity
      → Database × Result RepoError (Identity × Session × Bool)
  identity_created session (db, err e) = (db, err e)
  identity_created session (db, ok i) = registered i (create engine (rest_of turn) session db)

  -- After the INSERT of the identity: 2 is its ID, 3 the INSERT of the session.
  abbrev pub and_session : NewSession → Result DriverError Database → Result RepoError Database
  and_session session (err e) = err (insert_identity_error e)
  and_session session (ok mid) =
      let row = session_row engine (owned_by turn.id session) turn.now in
      if is_works (turn.fates 2)
      then or_failed (in_tx (turn.fates 3) (insert_session engine row mid))
      else err failed

  abbrev pub insert_both : NewIdentity → NewSession → Database → Result RepoError Database
  insert_both input session db =
      let row = identity_row wide turn.id input (engine.kept turn.now) in
      and_session session (in_tx (turn.fates 1) (insert_user engine row db))

  -- 4 is the INSERT of the event, 5 the commit.
  abbrev pub register_body :
      (Identity → Session → Result EventError Event)
      → NewIdentity
      → NewSession
      → Database
      → Result RepoError (End Database (Identity × Session × Bool))
  register_body factory input session db =
      let i = identity_of wide turn.id input turn.now in
      let s = session_of (owned_by turn.id session) turn.now in
      write_after wide engine turn failed (turn.fates 4) (factory i s) (i, s, true)
        (insert_both input session db)

  unfoldable pub register_with_event :
      Bool
      → (Identity → Session → Result EventError Event)
      → NewIdentity
      → NewSession
      → Database
      → Database × Result RepoError (Identity × Session × Bool)
  register_with_event false factory input session db =
      identity_created session (create_identity wide engine turn input db)
  register_with_event true factory input session db =
      transact failed (turn.fates 0) (turn.fates 5) (register_body factory input session) db

  module _ (factory : Session → Result EventError Event) where
    -- 1 is the INSERT of the session, 2 that of the event.
    abbrev pub create_session_body :
        NewSession → Database → Result RepoError (End Database (Session × Bool))
    create_session_body input db =
        let s = session_of input turn.now in
        write_after wide engine turn failed (turn.fates 2) (factory s) (s, true)
          (or_failed
            (in_tx (turn.fates 1) (insert_session engine (session_row engine input turn.now) db)))

    unfoldable pub create_session_with_event :
        Bool → NewSession → Database → Database × Result RepoError (Session × Bool)
    create_session_with_event false input db = with_flag (create engine turn input db)
    create_session_with_event true input db =
        transact failed (turn.fates 0) (turn.fates 3) (create_session_body input) db

    -- 4 is the INSERT of the event.
    abbrev pub rotate_event_body :
        Text → NewSession → Database → Result RepoError (End Database (Session × Bool))
    rotate_event_body id replacement db =
        let s = session_of replacement turn.now in
        write_after wide engine turn failed (turn.fates 4) (factory s) (s, true)
          (replace engine turn id replacement turn.now db)

    unfoldable pub rotate_with_event :
        Bool → Text → NewSession → Database → Database × Result RepoError (Session × Bool)
    rotate_with_event false id replacement db = with_flag (rotate engine turn id replacement db)
    rotate_with_event true id replacement db =
        transact failed (turn.fates 0) (turn.fates 5) (rotate_event_body id replacement) db

    -- After the UPDATE and its count: the query for the session fails with any error, no row too.
    abbrev pub read_revoked :
        Database → Result RepoError Session → Result RepoError (End Database Bool)
    read_revoked after (err e) = err failed
    read_revoked after (ok s) =
        write_event wide engine turn failed (turn.fates 4) (factory s) true after

    -- 1 is the UPDATE, 2 its count, 3 the query, 4 the INSERT of the event.
    abbrev pub revoke_body : Text → ℕ → Database → Result RepoError (End Database Bool)
    revoke_body id now db =
        let p = revocable engine id in
        let after = revoke_where p (engine.kept now) db in
        let read = read_revoked after (find_by_id engine (turn.fates 3) id after) in
        if is_works (turn.fates 1) && is_works (turn.fates 2)
        then (if nat_beq (affected p db) 1 then read else err session_not_found)
        else err failed

    abbrev pub unflagged : Database × Result RepoError (Unit {0}) → Database × Result RepoError Bool
    unflagged (db, err e) = (db, err e)
    unflagged (db, ok _) = (db, ok false)

    unfoldable pub revoke_with_event : Bool → Text → ℕ → Database → Database × Result RepoError Bool
    revoke_with_event false id now db = unflagged (revoke engine turn id now db)
    revoke_with_event true id now db =
        transact failed (turn.fates 0) (turn.fates 5) (revoke_body id now) db
