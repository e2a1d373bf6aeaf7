-- ===== src/Auth/Mysql/Stored.antt =====
-- user-order-api/internal/app/composition.go: the service of authentication over MySQL, as NewProduction builds it.
pub mod Passwordless
use codex_go_web_api.Prelude.{ℕ, Bool, true, false, some, if◌then◌else◌}
use codex_go_web_api.Prelude.Outcome.{Result}
use codex_go_web_api.Auth.{Identity, Session}
use codex_go_web_api.Auth.Store.{Events, Store}
use codex_go_web_api.Outbox.Event.{Event, EventError}
use codex_go_web_api.Database.{Engine, Fate, fails, Turn}
use codex_go_web_api.Database.Tables.{Database}
use codex_go_web_api.Auth.Mysql.{
  create_identity, find_identity_by_email, find_identity_by_id, create, find_active_by_token_hash,
  find_active_by_id, rotate, revoke,
}
use codex_go_web_api.Auth.Mysql.Events.{
  register_with_event, create_session_with_event, rotate_with_event, revoke_with_event,
}

-- On a context that is done, nothing that is asked of the driver is carried out.
abbrev pub turn_of : Bool → Turn → Turn
turn_of done turn = record turn { fates = λ i. if done then fails else turn.fates i }

-- The builders of the service's events.
pub record Factories : Type 0 where
  pub registered : Identity → Session → Result EventError Event
  pub logged_in : Session → Result EventError Event
  pub refreshed : Session → Result EventError Event
  pub logged_out : Session → Result EventError Event

module _ (wide : ℕ → ℕ) (engine : Engine) (turn : Turn) (factories : Factories) where
  abbrev pub mysql_events : Events Database
  mysql_events = record {
    register_with_event = λ db done input session.
        register_with_event wide engine (turn_of done turn) true factories.registered input session
          db;
    create_session_with_event = λ db done input.
        create_session_with_event wide engine (turn_of done turn) factories.logged_in true input db;
    rotate_with_event = λ db done id replacement.
        rotate_with_event wide engine (turn_of done turn) factories.refreshed true id replacement
          db;
    revoke_with_event = λ db done id now.
        revoke_with_event wide engine (turn_of done turn) factories.logged_out true id now db;
  }

  -- The times that the service passes are Go's; the statements take the server's from the turn.
  abbrev pub mysql_store : Store Database
  mysql_store = record {
    create_identity =
        λ db done input later. create_identity wide engine (turn_of done turn) input db;
    find_identity_by_email =
        λ db done email. find_identity_by_email wide engine ((turn_of done turn).fates 0) email db;
    find_identity_by_id = λ db done id. find_identity_by_id ((turn_of done turn).fates 0) id db;
    create_session = λ db done input later. create engine (turn_of done turn) input db;
    find_active_by_token_hash = λ db done hash now.
        find_active_by_token_hash engine ((turn_of done turn).fates 0) hash now db;
    find_active_by_id =
        λ db done id now. find_active_by_id engine ((turn_of done turn).fates 0) id now db;
    rotate =
        λ db done id replacement now later. rotate engine (turn_of done turn) id replacement db;
    revoke = λ db done id now. revoke engine (turn_of done turn) id now db;
    events = some mysql_events;
  }
