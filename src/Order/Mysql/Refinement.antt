-- ===== src/Order/Mysql/Refinement.antt =====
-- What the table of orders is to the repository in memory.
pub mod Steps
pub mod Transitions
pub mod Histories
use codex_go_web_api.Prelude.{
  ℕ, ◌+◌, ◌<◌, ◌≤◌, ◌≡◌, refl, sym, ap, ◌∙◌, Bool, true, false, Option, none, some, List, [], ◌∷◌,
  ◌++◌, map, arith, nat_beq, nat_eq, text_eq, text_beq, ◌==◌, if◌then◌else◌, Text, is_empty, lookup,
  insert, insert-absent, ◌⊎◌, inl, inr, Option-cases, Bool-cases,
}
use codex_go_web_api.Prelude.Outcome.{Result, ok, err}
use codex_go_web_api.Order.{Order, Status, pending, status_eq, CreateOrderRequest, RepoError}
use codex_go_web_api.Order.Memory.{MemoryRepository, claimed, replay, add_key}
use codex_go_web_api.Order.Memory
use codex_go_web_api.Order.Memory.Invariant.{Entries, Entries-mono, lookup-Entries}
use codex_go_web_api.Database.{Engine, Turn, works}
use codex_go_web_api.Database.Tables.{
  OrderRow, Database, first, update, any, holds, has_user, insert_order,
}
use codex_go_web_api.Order.Mysql.{
  create, transition, order_of, order_with_id, is_pending, set_status, key_of,
}

-- The rows as the entries of the map of orders.
abbrev pub orders_of : List OrderRow → List (ℕ × Order)
orders_of [] = []
orders_of (row ∷ rows) = (row.order.id, row.order) ∷ orders_of rows

abbrev keyed : Option Text → ℕ → List (Text × ℕ) → List (Text × ℕ)
keyed none id keys = keys
keyed (some key) id keys = (key, id) ∷ keys

-- The rows with a key as the entries of the map of keys.
abbrev pub keys_of : List OrderRow → List (Text × ℕ)
keys_of [] = []
keys_of (row ∷ rows) = keyed row.key row.order.id (keys_of rows)

keyed-append :
    (k : Option Text) (id : ℕ) (l m : List (Text × ℕ)) → keyed k id (l ++ m) ≡ keyed k id l ++ m
keyed-append none id l m = refl
keyed-append (some key) id l m = refl

-- The repository in memory that holds what the table holds, and hands out `next_id` next.
abbrev pub view : ℕ → Database → MemoryRepository
view next_id db = record {
  next_id = next_id;
  orders = orders_of db.orders;
  keys = keys_of db.orders;
}

pub orders_of-append :
    (rows : List OrderRow) (row : OrderRow)
    → orders_of (rows ++ row ∷ []) ≡ orders_of rows ++ (row.order.id, row.order) ∷ []
orders_of-append [] row = refl
orders_of-append (x ∷ rows) row = ground (arith, orders_of-append rows row)

pub keys_of-unkeyed :
    (rows : List OrderRow) (row : OrderRow)
    → row.key ≡ none
    → keys_of (rows ++ row ∷ []) ≡ keys_of rows
keys_of-unkeyed [] row e = ap (λ k. keyed k row.order.id []) e
keys_of-unkeyed (x ∷ rows) row e = ap (keyed x.key x.order.id) (keys_of-unkeyed rows row e)

pub keys_of-append :
    (rows : List OrderRow) (row : OrderRow) (key : Text)
    → row.key ≡ some key
    → keys_of (rows ++ row ∷ []) ≡ keys_of rows ++ (key, row.order.id) ∷ []
keys_of-append [] row key e = ap (λ k. keyed k row.order.id []) e
keys_of-append (x ∷ rows) row key e =
    ap (keyed x.key x.order.id) (keys_of-append rows row key e) ∙ keyed-append x.key x.order.id _ _

-- An ID that is above all others is not stored.
pub lookup-above : (b n id : ℕ) (l : List (ℕ × Order)) → n ≤ id → Entries b n l → lookup id l ≡ none
unfolding lookup
lookup-above b n id [] q h = refl
lookup-above b n id ((j, x) ∷ l) q h = ground (arith, lookup-above j n id l q h.3)

-- The query by ID finds what the map holds.
pub query-lookup :
    (id : ℕ) (rows : List OrderRow)
    → order_of (first (λ (row : OrderRow). nat_beq row.order.id id) rows)
      ≡ lookup id (orders_of rows)
unfolding lookup first
query-lookup id [] = refl
query-lookup id (row ∷ rows) = ground (arith, query-lookup id rows)

pub update-absent :
    (id b n : ℕ) (target : Status) (rows : List OrderRow)
    → id ≤ b
    → Entries b n (orders_of rows)
    → update (is_pending id) (set_status target) rows ≡ rows
unfolding update
update-absent id b n target [] q h = refl
update-absent id b n target (row ∷ rows) q h =
    ground (arith, update-absent id row.order.id n target rows)

-- The UPDATE is the write to the map.
pub update-insert :
    (id b n : ℕ) (target : Status) (rows : List OrderRow) (o : Order)
    → Entries b n (orders_of rows)
    → lookup id (orders_of rows) ≡ some o
    → o.status ≡ pending
    → orders_of (update (is_pending id) (set_status target) rows)
      ≡ insert id (record o { status = target }) (orders_of rows)
unfolding lookup insert update
update-insert id b n target [] o h e p = cc
update-insert id b n target (row ∷ rows) o h e p = ground (
  arith,
  update-insert id row.order.id n target rows o h.3,
  update-absent id row.order.id n target rows,
  status_eq.beq_iff row.order.status pending,
)

-- The UPDATE leaves a settled order alone.
pub update-settled :
    (id b n : ℕ) (target : Status) (rows : List OrderRow) (o : Order)
    → Entries b n (orders_of rows)
    → lookup id (orders_of rows) ≡ some o
    → (o.status == pending) ≡ false
    → update (is_pending id) (set_status target) rows ≡ rows
unfolding lookup update
update-settled id b n target [] o h e p = refl
update-settled id b n target (row ∷ rows) o h e p = ground (
  arith,
  update-settled id row.order.id n target rows o h.3,
  update-absent id row.order.id n target rows,
)

pub update-keys :
    (id : ℕ) (target : Status) (rows : List OrderRow)
    → keys_of (update (is_pending id) (set_status target) rows) ≡ keys_of rows
unfolding update
update-keys id target [] = refl
update-keys id target (row ∷ rows) = ground (arith, update-keys id target rows)

-- What the query by key and the map of keys agree on: no order, or the order `o` under `id`.
abbrev pub Agreed : Engine → Text → ℕ → List OrderRow → Type 0
Agreed engine key b rows =
    (lookup key (keys_of rows) ≡ none)
      × (order_of (first (λ (row : OrderRow). holds engine.collates key row.key) rows) ≡ none)
    ⊎ ((id : ℕ) × (o : Order) × (b < id)
        × (lookup key (keys_of rows) ≡ some id)
        × (lookup id (orders_of rows) ≡ some o)
        × (order_of (first (λ (row : OrderRow). holds engine.collates key row.key) rows) ≡ some o))

-- A row without the key changes nothing.
Agreed-skip :
    (engine : Engine) (key : Text) (b : ℕ) (row : OrderRow) (rows : List OrderRow)
    → b < row.order.id
    → holds engine.collates key row.key ≡ false
    → lookup key (keyed row.key row.order.id (keys_of rows)) ≡ lookup key (keys_of rows)
    → Agreed engine key row.order.id rows
    → Agreed engine key b (row ∷ rows)
unfolding lookup first
Agreed-skip engine key b row rows q other same (inl (absent, unread)) =
    inl (same ∙ absent, ground (arith, other, unread))
Agreed-skip engine key b row rows q other same (inr (id, o, later, found, stored, read)) =
    inr
      (id, o, omega arith, same ∙ found, ground (arith, later, stored), ground (arith, other, read))

Agreed-cons :
    (engine : Engine) (key : Text) (b : ℕ) (row : OrderRow) (rows : List OrderRow)
    → ((s t : Text) → engine.collates s t ≡ text_beq s t)
    → b < row.order.id
    → Agreed engine key row.order.id rows
    → Agreed engine key b (row ∷ rows)
unfolding lookup first
Agreed-cons engine key b row rows binary later rest = by_key row.key refl
  where
    found_in : Option Text → Option ℕ
    found_in k = lookup key (keyed k row.order.id (keys_of rows))

    by_key : (k : Option Text) → row.key ≡ k → Agreed engine key b (row ∷ rows)
    by_key none e =
        Agreed-skip engine key b row rows later (ap (holds engine.collates key) e) (ap found_in e)
          rest
    by_key (some k) e = elim (Bool-cases (text_beq k key)) [
      | inl t ↦ inr (
        row.order.id,
        row.order,
        later,
        ap found_in e ∙ ground (arith, t),
        ground arith,
        ground (arith, ap (holds engine.collates key) e, t, binary k key),
      )
      | inr t ↦
          Agreed-skip engine key b row rows later
            (ap (holds engine.collates key) e ∙ binary k key ∙ t)
            (ap found_in e ∙ ground (arith, t)) rest
    ]

-- Under a binary collation, the query by key finds the order that the map of keys leads to.
pub query-Agreed :
    (engine : Engine) (key : Text) (b n : ℕ) (rows : List OrderRow)
    → ((s t : Text) → engine.collates s t ≡ text_beq s t)
    → Entries b n (orders_of rows)
    → Agreed engine key b rows
unfolding lookup first
query-Agreed engine key b n [] binary h = inl (refl, refl)
query-Agreed engine key b n (row ∷ rows) binary h =
    Agreed-cons engine key b row rows binary h.1
      (query-Agreed engine key row.order.id n rows binary h.3)
