-- ===== src/Order/Mysql/Refinement/Steps.antt =====
-- One call over MySQL, where nothing fails, is the call on the repository in memory.
use codex_go_web_api.Prelude.{
  ℕ, ◌≡◌, refl, sym, ap, ◌∙◌, Bool, true, false, none, some, List, [], ◌∷◌, ◌++◌, arith, text_beq,
  nat_eq, text_eq, lookup-insert, ==_refl, Text, is_empty, is_pos, lookup, insert, insert-absent,
  inl, inr, Bool-cases, is_some, ◌⊎◌,
}
use codex_go_web_api.Prelude.Outcome.{Result, ok, err}
use codex_go_web_api.Order.{Order, status_eq, CreateOrderRequest, RepoError}
use codex_go_web_api.Order.Memory.{
  MemoryRepository, claimed, replay, add_key, new_order, or_zero, add_order,
}
use codex_go_web_api.Order.Memory
use codex_go_web_api.Order.Memory.Invariant.{Entries}
use codex_go_web_api.Database.{Engine, Turn, works, duplicate}
use codex_go_web_api.Database.Tables.{
  OrderRow, Database, first, any, holds, has_user, insert_order, key_taken,
}
use codex_go_web_api.Order.Mysql.{
  create, order_row, order_of, order_with_id, order_with_key, key_of, find_by_id, find_by_key,
}
use codex_go_web_api.Order.Mysql.Refinement.{
  orders_of, keys_of, view, Agreed, query-Agreed, query-lookup, orders_of-append, keys_of-append,
  keys_of-unkeyed, lookup-above,
}

-- Nothing fails.
abbrev pub Works : Turn → Type 0
Works turn = (i : ℕ) → turn.fates i ≡ works

-- Keys are compared byte by byte.
abbrev pub Binary : Engine → Type 0
Binary engine = (s t : Text) → engine.collates s t ≡ text_beq s t

any-first : (p : OrderRow → Bool) (l : List OrderRow) → any p l ≡ is_some (order_of (first p l))
unfolding any first
any-first p [] = refl
any-first p (row ∷ l) = ground (arith, any-first p l)

-- Both sides find the key free, or both find it with the same order.
abbrev Keyed : Engine → CreateOrderRequest → ℕ → Database → Type 0
Keyed engine input n db =
    (claimed input.idempotency_key (view n db) ≡ none)
      × (key_taken engine (key_of input) db ≡ false)
    ⊎ ((id : ℕ) × (o : Order) × (claimed input.idempotency_key (view n db) ≡ some id)
        × (lookup id (orders_of db.orders) ≡ some o)
        × (is_empty input.idempotency_key ≡ false)
        × (key_taken engine (key_of input) db ≡ true)
        × (order_with_key engine input.idempotency_key db ≡ some o))

keys-Keyed :
    (engine : Engine) (input : CreateOrderRequest) (n : ℕ) (db : Database)
    → is_empty input.idempotency_key ≡ false
    → Agreed engine input.idempotency_key 0 db.orders
    → Keyed engine input n db
unfolding claimed
keys-Keyed engine input n db e (inl (absent, unread)) = inl (
  ground (arith, e, absent),
  ground (
    arith,
    e,
    unread,
    any-first (λ (row : OrderRow). holds engine.collates input.idempotency_key row.key) db.orders,
  ),
)
keys-Keyed engine input n db e (inr (id, o, above, found, stored, read)) = inr (
  id,
  o,
  ground (arith, e, found),
  stored,
  e,
  ground (
    arith,
    e,
    read,
    any-first (λ (row : OrderRow). holds engine.collates input.idempotency_key row.key) db.orders,
  ),
  read,
)

database-Keyed :
    (engine : Engine) (input : CreateOrderRequest) (n : ℕ) (db : Database)
    → Binary engine
    → Entries 0 n (orders_of db.orders)
    → Keyed engine input n db
unfolding claimed
database-Keyed engine input n db binary h = elim (Bool-cases (is_empty input.idempotency_key)) [
  | inl e ↦ inl (ground (arith, e), ground (arith, e))
  | inr e ↦
      keys-Keyed engine input n db e
        (query-Agreed engine input.idempotency_key 0 n db.orders binary h)
]

module _ (engine : Engine) (row : OrderRow) (db : Database)
    (user : has_user row.order.user_id db ≡ true) (amount : is_pos row.order.amount ≡ true) where
  insert_order-new :
      key_taken engine row.key db ≡ false
      → insert_order engine row db ≡ ok (record db { orders = db.orders ++ row ∷ [] })
  unfolding insert_order
  insert_order-new free = ground (arith, user, amount, free)

  insert_order-duplicate :
      key_taken engine row.key db ≡ true → insert_order engine row db ≡ err duplicate
  unfolding insert_order
  insert_order-duplicate taken = ground (arith, user, amount, taken)

-- After a call on both: the same entries, the same answer, and the users as before.
abbrev pub Same :
    Database
    → MemoryRepository × Result RepoError (Order × Bool)
    → Database × Result RepoError (Order × Bool)
    → Type 0
Same db m s = (m.0 ≡ view m.0.next_id s.0) × (m.1 ≡ s.1) × (s.0.users ≡ db.users)

keys-new :
    (input : CreateOrderRequest) (row : OrderRow) (id : ℕ) (db : Database)
    → row.key ≡ key_of input
    → row.order.id ≡ id
    → claimed input.idempotency_key (view id db) ≡ none
    → keys_of (db.orders ++ row ∷ []) ≡ add_key input.idempotency_key id (keys_of db.orders)
unfolding claimed
keys-new input row id db k i free = elim (Bool-cases (is_empty input.idempotency_key)) [
  | inl e ↦ keys_of-unkeyed db.orders row (ground (arith, k, e)) ∙ ground (arith, e)
  | inr e ↦
      keys_of-append db.orders row input.idempotency_key (ground (arith, k, e))
      ∙ ground (
        arith,
        e,
        i,
        insert-absent input.idempotency_key id (keys_of db.orders) (ground (arith, e, free)),
      )
]

orders-new :
    (row : OrderRow) (id : ℕ) (db : Database)
    → row.order.id ≡ id
    → Entries 0 id (orders_of db.orders)
    → orders_of (db.orders ++ row ∷ []) ≡ insert id row.order (orders_of db.orders)
orders-new row id db i h =
    orders_of-append db.orders row
    ∙ ap (λ n. orders_of db.orders ++ (n, row.order) ∷ []) i
    ∙ sym (
        insert-absent id row.order (orders_of db.orders)
          (lookup-above 0 id id (orders_of db.orders) (omega arith) h))

create-inserted :
    (engine : Engine) (turn : Turn) (input : CreateOrderRequest) (db after : Database) (o : Order)
    → Works turn
    → insert_order engine (order_row turn.id input (engine.kept turn.server_now)) db ≡ ok after
    → order_with_id turn.id after ≡ some o
    → create engine turn input db ≡ (after, ok (o, false))
unfolding create find_by_id first
create-inserted engine turn input db after o run inserted found =
    rw (inserted, run 1, run 2, run 3, found) refl

create-replayed :
    (engine : Engine) (turn : Turn) (input : CreateOrderRequest) (db : Database) (o : Order)
    → Works turn
    → insert_order engine (order_row turn.id input (engine.kept turn.server_now)) db ≡ err duplicate
    → is_empty input.idempotency_key ≡ false
    → order_with_key engine input.idempotency_key db ≡ some o
    → create engine turn input db ≡ (db, replay o input)
unfolding create find_by_key first
create-replayed engine turn input db o run refused named found =
    rw (refused, run 1, named, run 2, found) refl

memory-new :
    (input : CreateOrderRequest) (now : ℕ) (r : MemoryRepository)
    → claimed input.idempotency_key r ≡ none
    → Memory.create false input now r
      ≡ (add_order input now r, ok (new_order r.next_id input now, false))
unfolding Memory.create
memory-new input now r free = rw (free, Memory.create) refl

memory-replay :
    (input : CreateOrderRequest) (now id : ℕ) (o : Order) (r : MemoryRepository)
    → claimed input.idempotency_key r ≡ some id
    → lookup id r.orders ≡ some o
    → Memory.create false input now r ≡ (r, replay o input)
unfolding Memory.create
memory-replay input now id o r found stored =
    rw (found, Memory.create) (ap (λ x. (r, replay (or_zero x) input)) stored)

pub create-Same :
    (engine : Engine) (turn : Turn) (input : CreateOrderRequest) (db : Database)
    → Works turn
    → Binary engine
    → Entries 0 turn.id (orders_of db.orders)
    → has_user input.user_id db ≡ true
    → is_pos input.amount ≡ true
    → Same db
        (Memory.create false input (engine.kept turn.server_now) (view turn.id db))
        (create engine turn input db)
unfolding add_order
create-Same engine turn input db run binary h user amount =
    elim (database-Keyed engine input turn.id db binary h) [
      | inl (free, untaken) ↦
          let o = new_order turn.id input (engine.kept turn.server_now) in
          let row = order_row turn.id input (engine.kept turn.server_now) in
          let after : Database = record db { orders = db.orders ++ row ∷ [] } in
          let stored : orders_of after.orders ≡ insert turn.id o (orders_of db.orders) =
            orders-new row turn.id db refl h in
          let keyed : keys_of after.orders
              ≡ add_key input.idempotency_key turn.id (keys_of db.orders) =
            keys-new input row turn.id db refl refl free in
          let found : order_with_id turn.id after ≡ some o =
            query-lookup turn.id after.orders
            ∙ ap (lookup turn.id) stored
            ∙ ground
                (arith, lookup-insert turn.id turn.id o (orders_of db.orders), ==_refl turn.id) in
          let made =
            create-inserted engine turn input db after o run
              (insert_order-new engine row db user amount untaken) found in
          rw (memory-new input (engine.kept turn.server_now) (view turn.id db) free, made)
            (ground (arith, stored, keyed), refl, refl)
      | inr (id, o, found, stored, named, taken, read) ↦
          let made =
            create-replayed engine turn input db o run
              (insert_order-duplicate engine (order_row turn.id input (engine.kept turn.server_now))
                db user amount taken)
              named read in
          rw
            (
              memory-replay input (engine.kept turn.server_now) id o (view turn.id db) found stored,
              made,
            )
            (refl, refl, refl)
    ]
