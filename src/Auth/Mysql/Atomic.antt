-- ===== src/Auth/Mysql/Atomic.antt =====
-- Identities, sessions and their events reach MySQL together or not at all.
use codex_go_web_api.Prelude.{
  ℕ, ◌≡◌, refl, ◌⊎◌, inl, inr, ap, ◌∙◌, Bool, true, [], ◌∷◌, ◌++◌, Text, ◌&&◌, nat_beq, nat_beq_iff,
  arith, not, is_some, ltb, map, select, length, some, if◌then◌else◌,
}
use codex_go_web_api.Prelude.Outcome.{Result, ok, err, if-ok, if-true}
use codex_go_web_api.Auth.{Identity, NewIdentity, Session, NewSession, RepoError, failed}
use codex_go_web_api.Outbox.Event.{Event, EventError}
use codex_go_web_api.Outbox.Append.{and_event, event_row}
use codex_go_web_api.Database.{Engine, Turn, Fate, is_works, DriverError, in_tx}
use codex_go_web_api.Database.Tables.{Database, insert_user, insert_session}
use codex_go_web_api.Database.Inserts.{
  insert_user-ok, insert_session-ok, Together, transact-Together,
}
use codex_go_web_api.Database.Transactions.{Answers, in_tx-ok}
use codex_go_web_api.Database.Queries.{update-map}
use codex_go_web_api.Auth.Mysql.{
  or_failed, identity_row, session_of, session_row, replace, rotatable, revoked_row, revoke_where,
  affected,
}
use codex_go_web_api.Auth.Mysql.Events.{
  identity_of, owned_by, insert_both, and_session, register_with_event, create_session_with_event,
  rotate_with_event,
}

-- Nothing is written, and the answer is an error.
abbrev pub Unwritten : {A : Type 0} → Database → Database × Result RepoError A → Type 0
Unwritten db s = (s.0 ≡ db) × ((e : RepoError) × (s.1 ≡ err e))

pub or_failed-ok :
    (r : Result DriverError Database) (db : Database) → or_failed r ≡ ok db → r ≡ ok db
or_failed-ok (ok x) db h = ground arith
or_failed-ok (err e) db h = cc

inserted-session :
    (engine : Engine) (fate : Fate) (row : Session) (db after : Database)
    → or_failed (in_tx fate (insert_session engine row db)) ≡ ok after
    → after ≡ record db { sessions = db.sessions ++ row ∷ [] }
inserted-session engine fate row db after h = insert_session-ok engine row db after (
    in_tx-ok fate (insert_session engine row db) after
      (or_failed-ok (in_tx fate (insert_session engine row db)) after h))

pub replace-ok :
    (engine : Engine) (turn : Turn) (id : Text) (replacement : NewSession) (created : ℕ)
    (db after : Database)
    → replace engine turn id replacement created db ≡ ok after
    → let p = rotatable engine id (engine.kept turn.server_now) in
      let revoked = revoke_where p (engine.kept turn.server_now) db in
      (affected p db ≡ 1)
      × (after ≡ record revoked {
        sessions = revoked.sessions ++ session_row engine replacement created ∷ [];
      })
unfolding replace
replace-ok engine turn id replacement created db after h =
    let p = rotatable engine id (engine.kept turn.server_now) in
    let counted = if-ok (is_works (turn.fates 1) && is_works (turn.fates 2)) _ _ _ h in
    (
      (nat_beq_iff (affected p db) 1).0 (if-true (nat_beq (affected p db) 1) _ _ _ counted),
      inserted-session engine (turn.fates 3) (session_row engine replacement created)
          (revoke_where p (engine.kept turn.server_now) db) after
          (if-ok (nat_beq (affected p db) 1) _ _ _ counted),
    )

module _ (wide : ℕ → ℕ) (engine : Engine) (turn : Turn) where
  -- The tables with a new identity and its session.
  abbrev pub with_both : NewIdentity → NewSession → Database → Database
  with_both input session db = record db {
    users = db.users ++ identity_row wide turn.id input (engine.kept turn.now) ∷ [];
    sessions = db.sessions ++ session_row engine (owned_by turn.id session) turn.now ∷ [];
  }

  and_session-ok :
      (session : NewSession) (r : Result DriverError Database) (after : Database)
      → and_session wide engine turn session r ≡ ok after
      → (mid : Database) × (r ≡ ok mid)
        × (after ≡ record mid {
          sessions = mid.sessions ++ session_row engine (owned_by turn.id session) turn.now ∷ [];
        })
  and_session-ok session (err e) after h = cc
  and_session-ok session (ok mid) after h =
      let row = session_row engine (owned_by turn.id session) turn.now in
      (
        mid,
        refl,
        inserted-session engine (turn.fates 3) row mid after
            (if-ok (is_works (turn.fates 2)) _ _ _ h),
      )

  insert_both-ok :
      (input : NewIdentity) (session : NewSession) (db after : Database)
      → insert_both wide engine turn input session db ≡ ok after
      → after ≡ with_both input session db
  insert_both-ok input session db after h =
      let row = identity_row wide turn.id input (engine.kept turn.now) in
      let (mid, inserted, stored) =
        and_session-ok session (in_tx (turn.fates 1) (insert_user engine row db)) after h in
      let at_mid = insert_user-ok engine row db mid (in_tx-ok (turn.fates 1) _ mid inserted) in
      stored
      ∙ ap
          (λ (d : Database). record d {
            sessions = d.sessions ++ session_row engine (owned_by turn.id session) turn.now ∷ [];
          })
          at_mid

  -- Whatever fails while a user registers over MySQL with an outbox, and wherever it fails: either the
  -- database is as before and the answer is an error, or the identity, its session and the event that
  -- is built of both are all in the database, and the answer is both if the commit worked, and an
  -- error if its answer was lost.
  pub register_with_event-atomic :
      (factory : Identity → Session → Result EventError Event) (input : NewIdentity)
      (session : NewSession) (db : Database)
      → let s = register_with_event wide engine turn true factory input session db in
        let i = identity_of wide turn.id input turn.now in
        let opened = session_of (owned_by turn.id session) turn.now in
        Unwritten db s
        ⊎ ((event : Event) × (factory i opened ≡ ok event)
            × (s.0 ≡ and_event engine turn event (with_both input session db))
            × Answers failed (turn.fates 5) (i, opened, true) s.1)
  unfolding register_with_event
  register_with_event-atomic factory input session db =
      let i = identity_of wide turn.id input turn.now in
      let opened = session_of (owned_by turn.id session) turn.now in
      let both : Identity × Session × Bool = (i, opened, true) in
      elim (transact-Together wide engine turn failed (turn.fates 4) (factory i opened) both
        (turn.fates 0) (turn.fates 5) (insert_both wide engine turn input session) db) [
          | inl e ↦ inl e
          | inr (mid, event, inserted, made, stored, sent) ↦ inr (
            event,
            made,
            stored
                ∙ ap (and_event engine turn event) (insert_both-ok input session db mid inserted),
            sent,
          )
        ]

  module _ (factory : Session → Result EventError Event) where
    -- The answer of a change that opens a session.
    abbrev pub sent : NewSession → Session × Bool
    sent input = (session_of input turn.now, true)

    -- Whatever fails while a session is opened over MySQL with an outbox: either the database is as
    -- before and the answer is an error, or the session and the event that is built of it are both in
    -- the database, and the answer is the session if the commit worked, and an error if its answer was
    -- lost.
    pub create_session_with_event-atomic :
        (input : NewSession) (db : Database)
        → let s = create_session_with_event wide engine turn factory true input db in
          let opened = session_of input turn.now in
          Unwritten db s
          ⊎ ((event : Event) × (factory opened ≡ ok event)
              × (s.0
                  ≡ and_event engine turn event (record db {
                    sessions = db.sessions ++ session_row engine input turn.now ∷ [];
                  }))
              × Answers failed (turn.fates 3) (opened, true) s.1)
    unfolding create_session_with_event
    create_session_with_event-atomic input db =
        let opened = session_of input turn.now in
        let row = session_row engine input turn.now in
        let answer : Session × Bool = (opened, true) in
        elim (transact-Together wide engine turn failed (turn.fates 2) (factory opened) answer
          (turn.fates 0) (turn.fates 3)
          (λ d. or_failed (in_tx (turn.fates 1) (insert_session engine row d))) db) [
            | inl e ↦ inl e
            | inr (mid, event, inserted, made, stored, sent) ↦ inr (
              event,
              made,
              stored
                  ∙ ap (and_event engine turn event)
                      (inserted-session engine (turn.fates 1) row db mid inserted),
              sent,
            )
          ]

    pub rotate-Together :
        (id : Text) (replacement : NewSession) (db : Database)
        → Together wide engine turn failed
            (turn.fates 4)
            (factory (session_of replacement turn.now))
            (sent replacement)
            (turn.fates 5)
            db
            (replace engine turn id replacement turn.now db)
            (rotate_with_event wide engine turn factory true id replacement db)
    unfolding rotate_with_event
    rotate-Together id replacement db =
        transact-Together wide engine turn failed (turn.fates 4)
          (factory (session_of replacement turn.now)) (sent replacement) (turn.fates 0)
          (turn.fates 5) (replace engine turn id replacement turn.now) db

    -- Live: under the ID, not revoked and not expired.
    abbrev pub live : Text → ℕ → Session → Bool
    live id now item =
        engine.collates item.id id && (not (is_some item.revoked_at) && ltb now item.expires_at)

    -- The live sessions under the ID revoked at the server's time, the new session and an event.
    abbrev pub rotated : Text → NewSession → Event → Database → Database
    rotated id replacement event db =
        let now = engine.kept turn.server_now in
        record db {
          sessions =
              map
                (λ (item : Session).
                  if live id now item
                  then record item { revoked_at = some now; last_used_at = now }
                  else item)
                db.sessions
              ++ session_row engine replacement turn.now ∷ [];
          outbox = db.outbox ++ event_row engine turn.event_row_id turn.now event ∷ [];
        }

    revoked-rotated :
        (id : Text) (replacement : NewSession) (event : Event) (db : Database)
        → let now = engine.kept turn.server_now in
          let revoked = revoke_where (rotatable engine id now) now db in
          and_event engine turn event (record revoked {
            sessions = revoked.sessions ++ session_row engine replacement turn.now ∷ [];
          })
          ≡ rotated id replacement event db
    unfolding revoke_where
    revoked-rotated id replacement event db =
        let now = engine.kept turn.server_now in
        ap
          (λ l. record db {
            sessions = l ++ session_row engine replacement turn.now ∷ [];
            outbox = db.outbox ++ event_row engine turn.event_row_id turn.now event ∷ [];
          })
          (update-map (rotatable engine id now) (revoked_row now) db.sessions)

    -- Whatever fails while a session is rotated over MySQL with an outbox: either the database is as
    -- before and the answer is an error, or exactly one session with the ID was neither revoked nor
    -- expired at the server's time, it is revoked at that time in the database, the other sessions there
    -- are as before, and the new session and the event that is built of it are in the database too.
    -- Then the answer is the new session if the commit worked, and an error if its answer was lost.
    pub rotate_with_event-atomic :
        (id : Text) (replacement : NewSession) (db : Database)
        → let s = rotate_with_event wide engine turn factory true id replacement db in
          let opened = session_of replacement turn.now in
          Unwritten db s
          ⊎ ((event : Event) × (length (select (live id (engine.kept turn.server_now)) db.sessions)
                ≡ 1)
              × (factory opened ≡ ok event)
              × (s.0 ≡ rotated id replacement event db)
              × Answers failed (turn.fates 5) (opened, true) s.1)
    unfolding affected
    rotate_with_event-atomic id replacement db = elim (rotate-Together id replacement db) [
      | inl e ↦ inl e
      | inr (mid, event, replaced, made, stored, answer) ↦
          let (one, at_mid) = replace-ok engine turn id replacement turn.now db mid replaced in
          inr (
            event,
            one,
            made,
            stored
                ∙ ap (and_event engine turn event) at_mid
                ∙ revoked-rotated id replacement event db,
            answer,
          )
    ]
