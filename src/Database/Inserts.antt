-- ===== src/Database/Inserts.antt =====
-- What an INSERT that succeeds has done.
use codex_go_web_api.Prelude.{ℕ, ◌≡◌, refl, arith, inl, inr, ◌⊎◌, subst, [], ◌∷◌, ◌++◌}
use codex_go_web_api.Prelude.Outcome.{Result, ok, err, Result-cases}
use codex_go_web_api.Auth.{Session}
use codex_go_web_api.Outbox.Event.{Event, EventError}
use codex_go_web_api.Outbox.Append.{
  event_row, insert_event, append_tx, write_event, write_after, and_event,
}
use codex_go_web_api.Database.{Engine, Turn, Fate, works, End, returns, commits, transact}
use codex_go_web_api.Database.Transactions.{Answers, Atomic, transact-Atomic}
use codex_go_web_api.Database.Tables.{
  UserRow, OrderRow, Database, insert_order, insert_user, insert_session,
}

pub insert_order-ok :
    (engine : Engine) (row : OrderRow) (db after : Database)
    → insert_order engine row db ≡ ok after
    → after ≡ record db { orders = db.orders ++ row ∷ [] }
unfolding insert_order
insert_order-ok engine row db after h = ground arith

pub insert_user-ok :
    (engine : Engine) (row : UserRow) (db after : Database)
    → insert_user engine row db ≡ ok after
    → after ≡ record db { users = db.users ++ row ∷ [] }
unfolding insert_user
insert_user-ok engine row db after h = ground arith

pub insert_session-ok :
    (engine : Engine) (row : Session) (db after : Database)
    → insert_session engine row db ≡ ok after
    → after ≡ record db { sessions = db.sessions ++ row ∷ [] }
unfolding insert_session
insert_session-ok engine row db after h = ground arith

pub append_tx-ok :
    (wide : ℕ → ℕ) (engine : Engine) (fate : Fate) (id clock : ℕ) (event : Event)
    (db after : Database)
    → append_tx wide engine fate id clock event db ≡ ok after
    → after ≡ record db { outbox = db.outbox ++ event_row engine id clock event ∷ [] }
unfolding append_tx insert_event
append_tx-ok wide engine works id clock event db after h = ground arith
append_tx-ok wide engine _ id clock event db after h = ground arith

module _ {E A : Type 0} (wide : ℕ → ℕ) (engine : Engine) (turn : Turn) (broken : E) (fate : Fate)
    (built : Result EventError Event) (a b : A) (db after : Database) where
  pub write_event-commits :
      write_event wide engine turn broken fate built a db ≡ ok (commits after b)
      → (event : Event) × (built ≡ ok event) × (after ≡ and_event engine turn event db) × (b ≡ a)
  unfolding write_event
  write_event-commits h = elim (Result-cases built) [
    | inr (e, q) ↦ ground arith
    | inl (event, q) ↦
        elim (Result-cases (append_tx wide engine fate turn.event_row_id turn.now event db)) [
          | inr (e, q') ↦ ground arith
          | inl (db', q') ↦ (
            event,
            q,
            ground
                (arith, append_tx-ok wide engine fate turn.event_row_id turn.now event db db' q'),
            ground arith,
          )
        ]
  ]

  -- After the build and the append, nothing is left but the commit.
  pub write_event-returns :
      {G : Type 0} → write_event wide engine turn broken fate built a db ≡ ok (returns b) → G
  unfolding write_event
  write_event-returns h = elim (Result-cases built) [
    | inr (e, q) ↦ cc
    | inl (event, q) ↦
        elim (Result-cases (append_tx wide engine fate turn.event_row_id turn.now event db)) [
          | inr (e, q') ↦ cc
          | inl (db', q') ↦ cc
        ]
  ]

module _ {E A : Type 0} (wide : ℕ → ℕ) (engine : Engine) (turn : Turn) (broken : E) (fate : Fate)
    (built : Result EventError Event) (a : A) where
  -- The change and its event, or nothing.
  abbrev pub Together : Fate → Database → Result E Database → Database × Result E A → Type 0
  Together ending db change s =
      ((s.0 ≡ db) × ((e : E) × (s.1 ≡ err e)))
      ⊎ ((mid : Database) × (event : Event) × (change ≡ ok mid)
          × (built ≡ ok event)
          × (s.0 ≡ and_event engine turn event mid)
          × Answers broken ending a s.1)

  abbrev body : Result E Database → Result E (End Database A)
  body = write_after wide engine turn broken fate built a

  after-Together :
      (ending : Fate) (db : Database) (change : Result E Database) (s : Database × Result E A)
      → Atomic broken ending db (body change) s
      → Together ending db change s
  after-Together ending db (err e) s (inl (same, inl failure)) = inl (same, failure)
  after-Together ending db (err e) s (inl (same, inr (b, returned, answer))) = cc
  after-Together ending db (err e) s (inr (b, committed, answer)) = cc
  after-Together ending db (ok mid) s (inl (same, inl failure)) = inl (same, failure)
  after-Together ending db (ok mid) s (inl (same, inr (b, returned, answer))) =
      write_event-returns wide engine turn broken fate built a b mid mid returned
  after-Together ending db (ok mid) s (inr (b, committed, answer)) =
      let (event, made, stored, got) =
        write_event-commits wide engine turn broken fate built a b mid s.0 committed in
      inr (mid, event, refl, made, stored, subst (λ c. Answers broken ending c s.1) got answer)

  -- A transaction that ends with an event has written the change and the event, or nothing.
  pub transact-Together :
      (begin ending : Fate) (stage : Database → Result E Database) (db : Database)
      → Together ending db (stage db) (transact broken begin ending (λ d. body (stage d)) db)
  transact-Together begin ending stage db =
      after-Together ending db (stage db) (transact broken begin ending (λ d. body (stage d)) db)
        (transact-Atomic broken begin ending (λ d. body (stage d)) db)
