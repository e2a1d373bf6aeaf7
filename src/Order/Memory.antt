-- ===== src/Order/Memory.antt =====
-- user-order-api/internal/order/repository.go: the repository in memory. A method takes `done`, whether `ctx.Err()`
-- is set, and returns the repository that it leaves; the mutex makes each call one step.
pub mod History
pub mod Invariant
pub mod Idempotency
pub mod Lifecycle
pub mod Listing
pub mod Owners
use codex_go_web_api.Prelude.{
  ℕ, suc, Bool, true, false, ◌&&◌, Option, none, some, List, [], ◌∷◌, map, select, ltb,
  if◌then◌else◌, ◌==◌, nat_eq, int_eq, text_eq, Text, is_empty, ℤ, inc64, lookup, insert,
}
use codex_go_web_api.Prelude.Outcome.{Result, ok, err}
use codex_go_web_api.Platform.Page.{Request, Page, ListError, sort_by_id, paginate}
use codex_go_web_api.Platform.Page
use codex_go_web_api.Order.{
  Status, pending, status_eq, Order, zero_order, CreateOrderRequest, RepoError, not_found,
  idempotency_conflict, invalid_state, context_done,
}

pub record MemoryRepository : Type 0 where
  pub next_id : ℕ
  pub orders : List (ℕ × Order)
  pub keys : List (Text × ℕ)

abbrev pub new_memory_repository : MemoryRepository
new_memory_repository = record { next_id = 1; orders = []; keys = [] }

-- The order that a key of the request has claimed; an empty key claims none.
unfoldable pub claimed : Text → MemoryRepository → Option ℕ
claimed key r = if is_empty key then none else lookup key r.keys

-- `existing := r.orders[id]` is the zero order if the ID is unknown.
abbrev pub or_zero : Option Order → Order
or_zero none = zero_order
or_zero (some o) = o

unfoldable pub replay : Order → CreateOrderRequest → Result RepoError (Order × Bool)
replay existing input =
    if existing.user_id == input.user_id && existing.amount == input.amount
    then ok (existing, true)
    else err idempotency_conflict

abbrev pub new_order : ℕ → CreateOrderRequest → ℕ → Order
new_order id input now = record {
  id = id;
  user_id = input.user_id;
  amount = input.amount;
  status = pending;
  created_at = now;
}

abbrev pub add_key : Text → ℕ → List (Text × ℕ) → List (Text × ℕ)
add_key key id keys = if is_empty key then keys else insert key id keys

unfoldable pub add_order : CreateOrderRequest → ℕ → MemoryRepository → MemoryRepository
add_order input now r = record {
  next_id = inc64 r.next_id;
  orders = insert r.next_id (new_order r.next_id input now) r.orders;
  keys = add_key input.idempotency_key r.next_id r.keys;
}

unfoldable pub create :
    Bool
    → CreateOrderRequest
    → ℕ
    → MemoryRepository
    → MemoryRepository × Result RepoError (Order × Bool)
unfolding claimed replay add_order
create true input now r = (r, err context_done)
create false input now r = elim (claimed input.idempotency_key r) [
  | some id ↦ (r, replay (or_zero (lookup id r.orders)) input)
  | none ↦ (add_order input now r, ok (new_order r.next_id input now, false))
]

-- The state machine of one order.
unfoldable pub move : Order → Status → Result RepoError (Order × Bool)
move item target =
    if item.status == target
    then ok (item, false)
    else if item.status == pending
    then ok (record item { status = target }, true)
    else err invalid_state

unfoldable pub store_move :
    ℕ
    → Result RepoError (Order × Bool)
    → MemoryRepository
    → MemoryRepository × Result RepoError (Order × Bool)
store_move id (ok (item, true)) r = (record r { orders = insert id item r.orders }, ok (item, true))
store_move id result r = (r, result)

unfoldable pub transition :
    Bool → ℕ → Status → MemoryRepository → MemoryRepository × Result RepoError (Order × Bool)
unfolding move store_move
transition true id target r = (r, err context_done)
transition false id target r = elim (lookup id r.orders) [
  | none ↦ (r, err not_found)
  | some item ↦ store_move id (move item target) r
]

unfoldable pub find_by_id : Bool → ℕ → MemoryRepository → Result RepoError Order
find_by_id true id r = err context_done
find_by_id false id r = elim (lookup id r.orders) [ none ↦ err not_found | some o ↦ ok o ]

abbrev pub order_id : Order → ℕ
order_id o = o.id

-- The filtering loop over `ranged`, the orders as `range r.orders` yields them: all, in any order.
abbrev pub included : (Order → Bool) → ℕ → List Order → List Order
included include after_id = select (λ item. ltb after_id item.id && include item)

abbrev pub values : List (ℕ × Order) → List Order
values = map (λ e. e.1)

unfoldable pub list_included :
    Bool → Request → (Order → Bool) → List Order → Result ListError (Page Order)
list_included true request include ranged = err ListError.cancelled
list_included false request include ranged =
    paginate order_id (sort_by_id order_id (included include request.after_id ranged)) request.limit

unfoldable pub list : Bool → Request → List Order → Result ListError (Page Order)
unfolding list_included
list done request ranged = list_included done request (λ _. true) ranged

unfoldable pub list_by_user_id : Bool → ℤ → Request → List Order → Result ListError (Page Order)
unfolding list_included
list_by_user_id done user_id request ranged =
    list_included done request (λ item. item.user_id == user_id) ranged
