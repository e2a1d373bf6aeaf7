-- ===== src/Order/Mysql/Atomic.antt =====
-- An order and its event reach MySQL together or not at all.
use mathlib.Core.List.{Mem}
use mathlib.Core.Option.{some-injective}
use codex_go_web_api.Prelude.{
  ℕ, ◌≡◌, refl, ◌⊎◌, inl, inr, arith, Bool, true, false, [], ◌∷◌, ◌++◌, Bool-cases, ap, ◌∙◌,
  is_empty, some, Text, subst, int_beq_iff, Option-cases, int_eq,
}
use codex_go_web_api.Prelude.Outcome.{Result, ok, err, if-ok}
use codex_go_web_api.Order.{Order, CreateOrderRequest, RepoError, failed, not_found}
use codex_go_web_api.Order.Memory.{new_order, replay}
use codex_go_web_api.Outbox.Event.{Event, EventError}
use codex_go_web_api.Outbox.Append.{event_row, and_event}
use codex_go_web_api.Database.{
  Engine, Turn, Fate, is_works, DriverError, duplicate, no_parent, other_error, returns, commits,
}
use codex_go_web_api.Database.Tables.{OrderRow, Database, first, holds}
use codex_go_web_api.Database.Inserts.{insert_order-ok, write_event-commits, write_event-returns}
use codex_go_web_api.Database.Transactions.{Answers, transact-Atomic, in_tx-ok}
use codex_go_web_api.Database.Queries.{first-found, query_row-found, holds-some}
use codex_go_web_api.Order.Mysql.{
  order_row, order_with_key, find_by_key, replayed, created, create_body, create_with_event,
  returned,
}

-- The tables with the row of a new order appended.
abbrev pub and_order : Engine → Turn → CreateOrderRequest → Database → Database
and_order engine turn input db = record db {
  orders = db.orders ++ order_row turn.id input (engine.kept turn.now) ∷ [];
}

abbrev pub turn_order : Turn → CreateOrderRequest → Order
turn_order turn input = new_order turn.id input turn.now

pub returned-commits :
    {G : Type 0} (r : Result RepoError (Order × Bool)) (after : Database) (a : Order × Bool × Bool)
    → returned r ≡ ok (commits after a)
    → G
returned-commits (ok (o, b)) after a h = cc
returned-commits (err e) after a h = cc

-- An order of a request's user and amount, in a row of its idempotency key.
pub record Claimed (engine : Engine) (input : CreateOrderRequest) (db : Database) (o : Order)
    : Type 0 where
  pub row : OrderRow
  pub key : Text
  pub stored : Mem row db.orders
  pub is_order : row.order ≡ o
  pub has_key : row.key ≡ some key
  pub collates : engine.collates key input.idempotency_key ≡ true
  pub user_id : o.user_id ≡ input.user_id
  pub amount : o.amount ≡ input.amount

find_by_key-found :
    (engine : Engine) (fate : Fate) (key : Text) (db : Database) (o : Order)
    → find_by_key engine fate key db ≡ ok o
    → (row : OrderRow) × (other : Text) × Mem row db.orders
      × (row.order ≡ o)
      × (row.key ≡ some other)
      × (engine.collates other key ≡ true)
unfolding find_by_key
find_by_key-found engine fate key db o h =
    let found = query_row-found not_found failed fate (order_with_key engine key db) o h in
    elim (Option-cases (first (λ (row : OrderRow). holds engine.collates key row.key) db.orders)) [
      | inl missing ↦ cc
      | inr (row, at) ↦
          let (member, held) = first-found _ db.orders row at in
          let is_order : row.order ≡ o = some-injective row.order o (rw at at found) in
          let (other, has, same) = holds-some engine.collates key row.key held in
          (row, other, member, is_order, has, same)
    ]

replayed-again :
    (input : CreateOrderRequest) (r : Result RepoError Order) (o : Order) (b c : Bool)
    → returned (replayed input r) ≡ ok (returns (o, b, c))
    → (b ≡ true)
      × (c ≡ false)
      × (r ≡ ok o)
      × (o.user_id ≡ input.user_id)
      × (o.amount ≡ input.amount)
unfolding replay
replayed-again input (err e) o b c h = cc
replayed-again input (ok x) o b c h =
    ground (arith, int_beq_iff x.user_id input.user_id, int_beq_iff x.amount input.amount)

module _ (wide : ℕ → ℕ) (engine : Engine) (factory : Order → Result EventError Event)
    (turn : Turn) where
  -- What the body of a creation commits.
  created-commits :
      (input : CreateOrderRequest) (db after : Database) (r : Result DriverError Database)
      (a : Order × Bool × Bool)
      → created wide engine factory turn input db r ≡ ok (commits after a)
      → (mid : Database) × (event : Event) × (r ≡ ok mid)
        × (factory (turn_order turn input) ≡ ok event)
        × (after ≡ and_event engine turn event mid)
        × (a ≡ (turn_order turn input, false, true))
  created-commits input db after (err no_parent) a h = cc
  created-commits input db after (err other_error) a h = cc
  created-commits input db after (err duplicate) a h =
      elim (Bool-cases (is_empty input.idempotency_key)) [
        | inl e ↦ cc
        | inr e ↦
            returned-commits
              (replayed input (find_by_key engine (turn.fates 2) input.idempotency_key db)) after a
              (ground arith)
      ]
  created-commits input db after (ok mid) a h =
      let o = turn_order turn input in
      let (event, made, stored, same) =
        write_event-commits wide engine turn failed (turn.fates 3) (factory o) (o, false, true) a
          mid after (if-ok (is_works (turn.fates 2)) _ _ _ h) in
      (mid, event, refl, made, stored, same)

  create_body-commits :
      (input : CreateOrderRequest) (db after : Database) (a : Order × Bool × Bool)
      → create_body wide engine factory turn input db ≡ ok (commits after a)
      → (event : Event) × (factory (turn_order turn input) ≡ ok event)
        × (after ≡ and_event engine turn event (and_order engine turn input db))
        × (a ≡ (turn_order turn input, false, true))
  create_body-commits input db after a h =
      let row = order_row turn.id input (engine.kept turn.now) in
      let (mid, event, inserted, made, stored, same) = created-commits input db after _ a h in
      let at_mid = insert_order-ok engine row db mid (in_tx-ok (turn.fates 1) _ mid inserted) in
      (event, made, stored ∙ ap (and_event engine turn event) at_mid, same)

  created-returns :
      (input : CreateOrderRequest) (db : Database) (r : Result DriverError Database) (o : Order)
      (b c : Bool)
      → created wide engine factory turn input db r ≡ ok (returns (o, b, c))
      → (b ≡ true) × (c ≡ false) × Claimed engine input db o
  created-returns input db (err no_parent) o b c h = cc
  created-returns input db (err other_error) o b c h = cc
  created-returns input db (err duplicate) o b c h =
      elim (Bool-cases (is_empty input.idempotency_key)) [
        | inl e ↦ cc
        | inr e ↦
            let key = input.idempotency_key in
            let (again, unwritten, found, user, amount) =
              replayed-again input (find_by_key engine (turn.fates 2) key db) o b c
                (ground arith) in
            let (row, other, member, is_order, has, same) =
              find_by_key-found engine (turn.fates 2) key db o found in
            (
              again,
              unwritten,
              record {
                row = row;
                key = other;
                stored = member;
                is_order = is_order;
                has_key = has;
                collates = same;
                user_id = user;
                amount = amount;
              },
            )
      ]
  created-returns input db (ok mid) o b c h =
      write_event-returns wide engine turn failed (turn.fates 3) (factory (turn_order turn input))
        (turn_order turn input, false, true) (o, b, c) mid mid
        (if-ok (is_works (turn.fates 2)) _ _ _ h)

-- The call has written nothing, and answers with an error or with an order that was there before.
abbrev pub Unwritten :
    Engine
    → CreateOrderRequest
    → Database
    → Database × Result RepoError (Order × Bool × Bool)
    → Type 0
Unwritten engine input db s =
    (s.0 ≡ db)
    × (((e : RepoError) × (s.1 ≡ err e))
        ⊎ ((o : Order) × Claimed engine input db o × (s.1 ≡ ok (o, true, false))))

module _ (wide : ℕ → ℕ) (engine : Engine) (factory : Order → Result EventError Event)
    (turn : Turn) where
  -- The order and its event are written together, and the answer is the order, or an error if the
  -- answer to the commit was lost.
  abbrev pub Written :
      CreateOrderRequest → Database → Database × Result RepoError (Order × Bool × Bool) → Type 0
  Written input db s =
      (event : Event) × (factory (turn_order turn input) ≡ ok event)
      × (s.0 ≡ record db {
        orders = db.orders ++ order_row turn.id input (engine.kept turn.now) ∷ [];
        outbox = db.outbox ++ event_row engine turn.event_row_id turn.now event ∷ [];
      })
      × Answers failed (turn.fates 4) (turn_order turn input, false, true) s.1

  -- Whatever fails while an order is created over MySQL with an outbox, and wherever it fails: either
  -- the database is as before, and the answer is an error or an order of the same user and amount
  -- that a row with the request's idempotency key holds, or both the order and the event that is
  -- built of it are in the database, and the answer is the new order if the commit worked and an
  -- error if its answer was lost.
  pub create_with_event-atomic :
      (input : CreateOrderRequest) (db : Database)
      → let s = create_with_event wide engine factory turn true input db in
        Unwritten engine input db s ⊎ Written input db s
  unfolding create_with_event
  create_with_event-atomic input db =
      elim (transact-Atomic failed (turn.fates 0) (turn.fates 4)
        (create_body wide engine factory turn input) db) [
          | inl (same, inl e) ↦ inl (same, inl e)
          | inl (same, inr ((o, b, c), body, answer)) ↦
              let (again, unwritten, claimed) =
                created-returns wide engine factory turn input db _ o b c body in
              let same_answer : (o, b, c) ≡ (o, true, false) = ground (arith, again, unwritten) in
              inl (same, inr (o, claimed, answer ∙ ap ok same_answer))
          | inr (a, body, answer) ↦
              let (event, made, stored, got) =
                create_body-commits wide engine factory turn input db _ a body in
              inr (
                event,
                made,
                stored,
                subst
                    (λ x.
                      Answers failed (turn.fates 4) x
                        (create_with_event wide engine factory turn true input db).1)
                    got answer,
              )
        ]
