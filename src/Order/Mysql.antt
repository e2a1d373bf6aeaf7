-- ===== src/Order/Mysql.antt =====
-- user-order-api/internal/order/mysql_repository.go: the orders in MySQL. `events` tells whether the repository has
-- an outbox, and `factory` builds the event of an order. The driver is asked, in order, for the
-- transaction, its statements, the IDs and counts of their results, and the commit.
pub mod Atomic
pub mod Moves
pub mod Listing
pub mod Refinement
use codex_go_web_api.Prelude.{
  ℕ, suc, ◌+◌, Bool, true, false, not, ◌&&◌, ◌||◌, Option, none, some, List, map, select, take, ltb,
  nat_beq, if◌then◌else◌, ◌==◌, nat_eq, int_eq, Text, is_empty, ℤ, pos, is_pos,
}
use codex_go_web_api.Prelude.Outcome.{Result, ok, err}
use codex_go_web_api.Platform.Page.{Request, Page, ListError, paginate}
use codex_go_web_api.Platform.Page
use codex_go_web_api.Order.{
  Status, pending, status_eq, Order, CreateOrderRequest, RepoError, not_found, idempotency_conflict,
  invalid_state, user_not_found, failed,
}
use codex_go_web_api.Order.Memory.{new_order, order_id, replay}
use codex_go_web_api.Outbox.Event.{Event, EventError}
use codex_go_web_api.Outbox.Append.{write_event}
use codex_go_web_api.Database.{
  Engine, Fate, works, is_works, DriverError, duplicate, no_parent, other_error, Turn, in_tx,
  autocommit, query_row, End, returns, commits, transact,
}
use codex_go_web_api.Database.Tables.{OrderRow, Database, any, first, update, holds, insert_order}

-- The key's column: an empty key is not written.
abbrev pub key_of : CreateOrderRequest → Option Text
key_of input = if is_empty input.idempotency_key then none else some input.idempotency_key

abbrev pub order_row : ℕ → CreateOrderRequest → ℕ → OrderRow
order_row id input at = record { order = new_order id input at; key = key_of input }

abbrev pub order_of : Option OrderRow → Option Order
order_of none = none
order_of (some row) = some row.order

-- SELECT … WHERE id = ?
abbrev pub order_with_id : ℕ → Database → Option Order
order_with_id id db = order_of (first (λ (row : OrderRow). nat_beq row.order.id id) db.orders)

-- SELECT … WHERE idempotency_key = ?
abbrev pub order_with_key : Engine → Text → Database → Option Order
order_with_key engine key db =
    order_of (first (λ (row : OrderRow). holds engine.collates key row.key) db.orders)

unfoldable pub find_by_id : Fate → ℕ → Database → Result RepoError Order
find_by_id fate id db = query_row not_found failed fate (order_with_id id db)

unfoldable pub find_by_key : Engine → Fate → Text → Database → Result RepoError Order
find_by_key engine fate key db = query_row not_found failed fate (order_with_key engine key db)

-- The comparison with the order that the key has claimed.
abbrev pub replayed : CreateOrderRequest → Result RepoError Order → Result RepoError (Order × Bool)
replayed input (err e) = err e
replayed input (ok existing) = replay existing input

abbrev pub answered : Fate → ℕ → Database → Result RepoError (Order × Bool)
answered fate id db = elim (find_by_id fate id db) [ err e ↦ err e | ok o ↦ ok (o, false) ]

-- After the INSERT outside a transaction: the answers 2 and 3 are the new ID and the query.
abbrev pub after_insert :
    Engine
    → CreateOrderRequest
    → Turn
    → Database × Result DriverError (Unit {0})
    → Database × Result RepoError (Order × Bool)
after_insert engine input turn (db, ok _) =
    if is_works (turn.fates 2) then ((db, answered (turn.fates 3) turn.id db)) else (db, err failed)
after_insert engine input turn (db, err no_parent) = (db, err user_not_found)
after_insert engine input turn (db, err other_error) = (db, err failed)
after_insert engine input turn (db, err duplicate) =
    if is_empty input.idempotency_key
    then (db, err failed)
    else (db, replayed input (find_by_key engine (turn.fates 2) input.idempotency_key db))

unfoldable pub create :
    Engine → Turn → CreateOrderRequest → Database → Database × Result RepoError (Order × Bool)
create engine turn input db = after_insert engine input turn (
    autocommit (turn.fates 1) db
      (insert_order engine (order_row turn.id input (engine.kept turn.server_now)) db))

abbrev pub without_event :
    Database × Result RepoError (Order × Bool) → Database × Result RepoError (Order × Bool × Bool)
without_event (db, ok (o, b)) = (db, ok (o, b, false))
without_event (db, err e) = (db, err e)

-- The UPDATE of a pending order; a row whose status stays the same does not count as changed.
abbrev pub is_pending : ℕ → OrderRow → Bool
is_pending id row = nat_beq row.order.id id && row.order.status == pending

abbrev pub set_status : Status → OrderRow → OrderRow
set_status target row = record row { order = record row.order { status = target } }

unfoldable pub update_status : ℕ → Status → Database → Database
update_status id target db = record db {
  orders = update (is_pending id) (set_status target) db.orders;
}

unfoldable pub is_changed : ℕ → Status → Database → Bool
is_changed id target db = not (target == pending) && any (is_pending id) db.orders

-- What the row says after an UPDATE that has changed nothing.
abbrev pub settled : Status → Order → Result RepoError (Order × Bool)
settled target o = if o.status == target then ok (o, false) else err invalid_state

-- After the UPDATE outside a transaction: 2 is its count, 3 the query.
abbrev pub counted :
    Turn
    → ℕ
    → Status
    → Bool
    → Database × Result DriverError (Unit {0})
    → Database × Result RepoError (Order × Bool)
counted turn id target changed (db, err e) = (db, err failed)
counted turn id target changed (db, ok _) = (
  db,
  if is_works (turn.fates 2)
      then (elim (find_by_id (turn.fates 3) id db) [
        | err e ↦ err e
        | ok o ↦ if changed then ok (o, true) else settled target o
      ])
      else err failed,
)

unfoldable pub transition :
    Turn → ℕ → Status → Database → Database × Result RepoError (Order × Bool)
transition turn id target db =
    counted turn id target (is_changed id target db)
      (autocommit (turn.fates 1) db (ok (update_status id target db)))

-- A return before the commit.
abbrev pub returned :
    Result RepoError (Order × Bool) → Result RepoError (End Database (Order × Bool × Bool))
returned (ok (o, b)) = ok (returns (o, b, false))
returned (err e) = err e

module _ (wide : ℕ → ℕ) (engine : Engine) (factory : Order → Result EventError Event)
    (turn : Turn) where
  -- After the INSERT: 2 is the new ID or the query for the key, 3 the INSERT of the event.
  abbrev pub created :
      CreateOrderRequest
      → Database
      → Result DriverError Database
      → Result RepoError (End Database (Order × Bool × Bool))
  created input before (ok db) =
      if is_works (turn.fates 2)
      then (let o = new_order turn.id input turn.now in
          write_event wide engine turn failed (turn.fates 3) (factory o) (o, false, true) db)
      else err failed
  created input before (err no_parent) = err user_not_found
  created input before (err other_error) = err failed
  created input before (err duplicate) =
      if is_empty input.idempotency_key
      then err failed
      else returned
          (replayed input (find_by_key engine (turn.fates 2) input.idempotency_key before))

  abbrev pub create_body :
      CreateOrderRequest → Database → Result RepoError (End Database (Order × Bool × Bool))
  create_body input db = created input db (
      in_tx (turn.fates 1)
        (insert_order engine (order_row turn.id input (engine.kept turn.now)) db))

  unfoldable pub create_with_event :
      Bool → CreateOrderRequest → Database → Database × Result RepoError (Order × Bool × Bool)
  create_with_event false input db = without_event (create engine turn input db)
  create_with_event true input db =
      transact failed (turn.fates 0) (turn.fates 4) (create_body input) db

  -- What follows the query for the order; 4 is the INSERT of the event.
  abbrev pub read_back :
      ℕ
      → Status
      → Database
      → Result RepoError Order
      → Result RepoError (End Database (Order × Bool × Bool))
  read_back id target before (err e) = err e
  read_back id target before (ok o) =
      let written =
        write_event wide engine turn failed (turn.fates 4) (factory o) (o, true, true)
          (update_status id target before) in
      if is_changed id target before then written else returned (settled target o)

  -- The UPDATE with its count, 1 and 2, and the query for the order, 3.
  abbrev pub transition_body :
      ℕ → Status → Database → Result RepoError (End Database (Order × Bool × Bool))
  transition_body id target db =
      if is_works (turn.fates 1) && is_works (turn.fates 2)
      then read_back id target db (find_by_id (turn.fates 3) id (update_status id target db))
      else err failed

  unfoldable pub transition_with_event :
      Bool → ℕ → Status → Database → Database × Result RepoError (Order × Bool × Bool)
  transition_with_event false id target db = without_event (transition turn id target db)
  transition_with_event true id target db =
      transact failed (turn.fates 0) (turn.fates 5) (transition_body id target) db

-- The SELECT of a listing: `user_id` counts if it is positive, and one more row than the page holds
-- is asked for.
abbrev pub of_user : ℤ → OrderRow → Bool
of_user user_id row = not (is_pos user_id) || row.order.user_id == user_id

unfoldable pub selected : ℤ → Request → Database → List Order
selected user_id request db = take (request.limit + 1) (
    map (λ (row : OrderRow). row.order)
      (select (λ (row : OrderRow). ltb request.after_id row.order.id && of_user user_id row)
        db.orders))

-- The error of a listing in the model's terms: the query or its rows fail.
unfoldable pub list_rows : Fate → ℤ → Request → Database → Result ListError (Page Order)
list_rows works user_id request db = paginate order_id (selected user_id request db) request.limit
list_rows _ user_id request db = err ListError.cancelled

unfoldable pub list : Fate → Request → Database → Result ListError (Page Order)
list fate request db = list_rows fate (pos 0) request db

unfoldable pub list_by_user_id : Fate → ℤ → Request → Database → Result ListError (Page Order)
list_by_user_id fate user_id request db = list_rows fate user_id request db
