-- ===== src/Order/Service.antt =====
-- user-order-api/internal/order/service.go, over any repository. `done` tells whether `ctx.Err()` is set, and the
-- state is the repository with the audit records so far.
use codex_go_web_api.Prelude.{
  ℕ, String, Bool, false, not, ◌&&◌, List, [], ◌∷◌, ◌++◌, ltb, if◌then◌else◌, is_empty, trim_space,
  byte_len, ℤ, is_pos,
}
use codex_go_web_api.Prelude.Outcome.{Result, ok, err}
use codex_go_web_api.Platform.Httpx.{
  AppError, bad_request, bad_request_code, not_found_code, conflict_code, internal,
}
use codex_go_web_api.Platform.Page.{Request, Page, ListError}
use codex_go_web_api.Order.{
  Status, paid, cancelled, Order, CreateOrderRequest, RepoError, not_found, idempotency_conflict,
  invalid_state, user_not_found,
}
use codex_go_web_api.Order.Memory.{MemoryRepository, values}
use codex_go_web_api.Order.Memory

-- What a repository answers to a change: the order, whether it was replayed (of `create`) or
-- changed (of `transition`), and whether it has written the event itself.
abbrev pub Change : Type 0
Change = Result RepoError (Order × Bool × Bool)

-- `Repository`, with `CreateWithEvent` and `TransitionWithEvent` where the repository has them.
pub record Repository (R : Type 0) : Type 0 where
  pub create : R → Bool → CreateOrderRequest → ℕ → R × Change
  pub transition : R → Bool → ℕ → Status → R × Change
  pub find_by_id : R → Bool → ℕ → Result RepoError Order
  pub list : R → Bool → Request → Result ListError (Page Order)
  pub list_by_user_id : R → Bool → ℤ → Request → Result ListError (Page Order)

abbrev pub without_event :
    MemoryRepository × Result RepoError (Order × Bool) → MemoryRepository × Change
without_event (r, ok (o, b)) = (r, ok (o, b, false))
without_event (r, err e) = (r, err e)

-- `ranging` is the order in which Go ranges over the map of orders.
unfoldable pub memory_repository : (List Order → List Order) → Repository MemoryRepository
memory_repository ranging = record {
  create = λ r done input now. without_event (Memory.create done input now r);
  transition = λ r done id target. without_event (Memory.transition done id target r);
  find_by_id = λ r done id. Memory.find_by_id done id r;
  list = λ r done request. Memory.list done request (ranging (values r.orders));
  list_by_user_id = λ r done user_id request.
      Memory.list_by_user_id done user_id request (ranging (values r.orders));
}

pub data FindUserError : Type 0 where
  absent unavailable : FindUserError

pub record AuditRecord : Type 0 where
  pub action : String
  pub order_id : ℕ
  pub user_id : ℤ

pub record State (R : Type 0) : Type 0 where
  pub repo : R
  pub audit : List AuditRecord

abbrev pub trimmed : CreateOrderRequest → CreateOrderRequest
trimmed input = record input { idempotency_key = trim_space input.idempotency_key }

-- The checks before the user is looked for.
unfoldable pub checked : CreateOrderRequest → Result AppError CreateOrderRequest
checked input =
    if not (is_pos input.user_id)
    then err (bad_request "userId is required")
    else if not (is_pos input.amount)
    then err (bad_request "amount must be greater than 0")
    else if input.idempotency_key_provided && is_empty (trim_space input.idempotency_key)
    then err (bad_request "Idempotency-Key must not be empty")
    else if ltb 255 (byte_len (trim_space input.idempotency_key))
    then err (bad_request "Idempotency-Key must be at most 255 characters")
    else ok (trimmed input)

abbrev pub find_user_error : FindUserError → AppError
find_user_error absent = bad_request_code "USER_NOT_FOUND" "user does not exist"
find_user_error unavailable = internal "failed to find user"

abbrev pub create_error : RepoError → AppError
create_error user_not_found = bad_request_code "USER_NOT_FOUND" "user does not exist"
create_error idempotency_conflict =
    conflict_code "IDEMPOTENCY_KEY_CONFLICT" "Idempotency-Key conflicts with an existing order"
create_error _ = internal "failed to create order"

abbrev pub transition_error : RepoError → AppError
transition_error not_found = not_found_code "ORDER_NOT_FOUND" "order not found"
transition_error invalid_state =
    conflict_code "INVALID_ORDER_STATE" "invalid order state transition"
transition_error _ = internal "failed to transition order"

abbrev pub find_error : RepoError → AppError
find_error not_found = not_found_code "ORDER_NOT_FOUND" "order not found"
find_error _ = internal "failed to find order"

abbrev pub record_of : String → Order → AuditRecord
record_of action o = record { action = action; order_id = o.id; user_id = o.user_id }

-- `s.audit.Record`, if the flag says so.
abbrev pub recorded_if : Bool → String → Order → List AuditRecord → List AuditRecord
recorded_if b action o audit = if b then audit ++ record_of action o ∷ [] else audit

abbrev pub created :
    {R : Type 0} → List AuditRecord → R × Change → State R × Result AppError (Order × Bool)
created audit (r, err e) = (record { repo = r; audit = audit }, err (create_error e))
created audit (r, ok (o, replayed, persisted)) = (
  record { repo = r; audit = recorded_if (not replayed && not persisted) "order.created" o audit },
  ok (o, replayed),
)

abbrev pub moved :
    {R : Type 0} → String → List AuditRecord → R × Change → State R × Result AppError Order
moved action audit (r, err e) = (record { repo = r; audit = audit }, err (transition_error e))
moved action audit (r, ok (o, changed, persisted)) =
    (record { repo = r; audit = recorded_if (changed && not persisted) action o audit }, ok o)

module _ {R : Type 0} (repository : Repository R) where
  -- `find_user` is the `UserFinder`; `now` is the clock at the insertion.
  unfoldable pub create :
      (ℤ → Result FindUserError (Unit {0}))
      → Bool
      → CreateOrderRequest
      → ℕ
      → State R
      → State R × Result AppError (Order × Bool)
  unfolding checked
  create find_user done input now s = elim (checked input) [
    | err e ↦ (s, err e)
    | ok request ↦ elim (find_user request.user_id) [
      | err e ↦ (s, err (find_user_error e))
      | ok _ ↦ created s.audit (repository.create s.repo done request now)
    ]
  ]

  unfoldable pub transition : Bool → ℕ → Status → String → State R → State R × Result AppError Order
  transition done id target action s =
      moved action s.audit (repository.transition s.repo done id target)

  unfoldable pub pay : Bool → ℕ → State R → State R × Result AppError Order
  unfolding transition
  pay done id s = transition done id paid "order.paid" s

  unfoldable pub cancel : Bool → ℕ → State R → State R × Result AppError Order
  unfolding transition
  cancel done id s = transition done id cancelled "order.cancelled" s

  unfoldable pub list : Bool → Request → State R → Result AppError (Page Order)
  list done request s = elim (repository.list s.repo done request) [
    | err e ↦ err (internal "failed to list orders")
    | ok page ↦ ok page
  ]

  unfoldable pub list_by_user_id : Bool → ℤ → Request → State R → Result AppError (Page Order)
  list_by_user_id done user_id request s =
      elim (repository.list_by_user_id s.repo done user_id request) [
        | err e ↦ err (internal "failed to list orders")
        | ok page ↦ ok page
      ]

  unfoldable pub find_by_id : Bool → ℕ → State R → Result AppError Order
  find_by_id done id s = elim (repository.find_by_id s.repo done id) [
    | err e ↦ err (find_error e)
    | ok o ↦ ok o
  ]
