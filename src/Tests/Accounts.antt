-- ===== src/Tests/Accounts.antt =====
-- Runs of the identities, sessions and users in MySQL.
use codex_go_web_api.Prelude.{
  ◌≡◌, refl, ◌⊎◌, true, [], length, select, ◌∷◌, ◌++◌, arith, codes, text_beq, trim_space,
}
use codex_go_web_api.Prelude.Outcome.{Result, ok, err}
use codex_go_web_api.Auth.{Identity, NewIdentity, Session, NewSession, RepoError, user}
use codex_go_web_api.Outbox.Event.{Event, EventError, validate, decoded, contains_sensitive_key}
use codex_go_web_api.Outbox.Append.{and_event, write_event}
use codex_go_web_api.Database.{transact, works}
use codex_go_web_api.Database.Transactions.{Answers}
use codex_go_web_api.Database.Tables.{Database, any, update, insert_session}
use codex_go_web_api.Auth.Mysql.{session_of, revoke_where, affected, replace}
use codex_go_web_api.Auth.Mysql.Events.{
  identity_of, owned_by, register_with_event, rotate_with_event,
}
use codex_go_web_api.Auth.Mysql.Atomic.{
  Unwritten, with_both, live, rotated, register_with_event-atomic, rotate_with_event-atomic,
}
use codex_go_web_api.Auth.Mysql.Rotations.{rotate_with_event-once}
use codex_go_web_api.User.{User, CreateUserRequest, new_user}
use codex_go_web_api.User
use codex_go_web_api.User.Mysql.{user_row, create_with_event}
use codex_go_web_api.User.Mysql.Atomic.{create_user_with_event-atomic}
use codex_go_web_api.Tests.Stored.{wide, engine, turn, one_user, event}

abbrev identity : NewIdentity
identity = record {
  name = codes "Bob";
  email = codes "bob@x";
  password_hash = codes "h";
  role = user;
}

abbrev first_session : NewSession
first_session = record { id = codes "s1"; user_id = 7; token_hash = codes "h1"; expires_at = 100 }

abbrev next_session : NewSession
next_session = record { id = codes "s2"; user_id = 7; token_hash = codes "h2"; expires_at = 200 }

abbrev third_session : NewSession
third_session = record { id = codes "s3"; user_id = 7; token_hash = codes "h3"; expires_at = 300 }

abbrev both_factory : Identity → Session → Result EventError Event
both_factory i s = ok event

abbrev session_factory : Session → Result EventError Event
session_factory s = ok event

abbrev Registered : Type 0
Registered =
    let s =
      register_with_event wide engine turn true both_factory identity first_session one_user in
    let i = identity_of wide 1 identity 5 in
    let opened = session_of (owned_by 1 first_session) 5 in
    Unwritten one_user s
    ⊎ ((e : Event) × (both_factory i opened ≡ ok e)
        × (s.0
            ≡ and_event engine turn e (with_both wide engine turn identity first_session one_user))
        × Answers RepoError.failed works (i, opened, true) s.1)

register_with_event-atomic_example : Registered
register_with_event-atomic_example =
    register_with_event-atomic wide engine turn both_factory identity first_session one_user

abbrev one_session : Database
one_session = record one_user { sessions = session_of first_session 1 ∷ [] }

abbrev Rotated : Type 0
Rotated =
    let s =
      rotate_with_event wide engine turn session_factory true (codes "s1") next_session
        one_session in
    let opened = session_of next_session 5 in
    Unwritten one_session s
    ⊎ ((e : Event) × (length
            (select (live wide engine turn session_factory (codes "s1") 6) one_session.sessions)
          ≡ 1)
        × (session_factory opened ≡ ok e)
        × (s.0 ≡ rotated wide engine turn session_factory (codes "s1") next_session e one_session)
        × Answers RepoError.failed works (opened, true) s.1)

rotate_with_event-atomic_example : Rotated
rotate_with_event-atomic_example =
    rotate_with_event-atomic wide engine turn session_factory (codes "s1") next_session one_session

abbrev rotated_once : Database
rotated_once =
    (rotate_with_event wide engine turn session_factory true (codes "s1") next_session
      one_session).0

abbrev RefusedAgain : Type 0
RefusedAgain =
    let s =
      rotate_with_event wide engine turn session_factory true (codes "s1") third_session
        rotated_once in
    (s.0 ≡ rotated_once) × ((e : RepoError) × (s.1 ≡ err e))

rotate_with_event-once_example : RefusedAgain
unfolding rotate_with_event transact replace affected text_beq insert_session any revoke_where
    update write_event validate trim_space contains_sensitive_key decoded
rotate_with_event-once_example =
    rotate_with_event-once wide engine (λ s t. refl) turn turn session_factory session_factory
      (codes "s1") next_session third_session one_session rotated_once
      (session_of next_session 5, true) (omega arith) refl

abbrev bob : CreateUserRequest
bob = record { name = codes "Bob"; email = codes "bob@x" }

abbrev user_factory : User → Result EventError Event
user_factory u = ok event

abbrev UserCreated : Type 0
UserCreated =
    let s = create_with_event wide engine user_factory turn true bob one_user in
    let u = new_user wide 1 bob 5 in
    ((s.0 ≡ one_user) × ((e : User.RepoError) × (s.1 ≡ err e)))
    ⊎ ((e : Event) × (user_factory u ≡ ok e)
        × (s.0
            ≡ and_event engine turn e
                (record one_user { users = one_user.users ++ user_row wide 1 bob 5 ∷ [] }))
        × Answers User.failed works (u, true) s.1)

create_user_with_event-atomic_example : UserCreated
create_user_with_event-atomic_example =
    create_user_with_event-atomic wide engine user_factory turn bob one_user
