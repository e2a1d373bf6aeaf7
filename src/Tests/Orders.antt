-- ===== src/Tests/Orders.antt =====
-- Runs of the orders in memory.
use mathlib.Core.List.Perm
use codex_go_web_api.Prelude.{
  ◌≡◌, refl, true, false, ◌&&◌, some, List, [], ◌∷◌, arith, select, if◌then◌else◌, ◌==◌, nat_eq,
  int_eq, text_eq, codes, pos, lookup, insert, inc64,
}
use codex_go_web_api.Prelude.Outcome.{ok, err}
use codex_go_web_api.Platform.Page.Sorted.{Rises}
use codex_go_web_api.Platform.Page.Walk.{walk}
use codex_go_web_api.Order.{paid, Order, CreateOrderRequest, idempotency_conflict}
use codex_go_web_api.Order.Memory.{
  MemoryRepository, new_memory_repository, new_order, create, transition, values, order_id,
  list_by_user_id,
}
use codex_go_web_api.Order.Memory.History.{Call, creates, transitions, run}
use codex_go_web_api.Order.Memory.Invariant.{IsValid, new-IsValid, run-IsValid}
use codex_go_web_api.Order.Memory.Lifecycle.{Later, run-Later}
use codex_go_web_api.Order.Memory.Idempotency.{create-again}
use codex_go_web_api.Order.Memory.Listing.{walk-list_by_user_id}

abbrev request : CreateOrderRequest
request = record {
  user_id = pos 7;
  amount = pos 900;
  idempotency_key = codes "k1";
  idempotency_key_provided = true;
}

abbrev other_request : CreateOrderRequest
other_request = record {
  user_id = pos 8;
  amount = pos 20;
  idempotency_key = [];
  idempotency_key_provided = false;
}

abbrev calls : List Call
calls = creates false request 5 ∷ creates false other_request 6 ∷ transitions false 1 paid ∷ []

run-IsValid_example : IsValid (run new_memory_repository calls)
run-IsValid_example = run-IsValid new_memory_repository calls (omega arith) new-IsValid

abbrev first_order : Order
first_order = new_order 1 request 5

abbrev paying : List Call
paying = transitions false 1 paid ∷ []

abbrev Replayed : Type 0
Replayed =
    (p : Order) × Later first_order p
    × (create false request 9 (run (create false request 5 new_memory_repository).0 paying) ≡ (
      run (create false request 5 new_memory_repository).0 paying,
      if request.user_id == request.user_id && request.amount == request.amount
          then ok (p, true)
          else err idempotency_conflict,
    ))

create-again_example : Replayed
unfolding create lookup
create-again_example =
    create-again request 5 new_memory_repository first_order false paying request 9 new-IsValid
      (omega arith) refl refl refl

abbrev one_order : MemoryRepository
one_order = record { next_id = 2; orders = (1, first_order) ∷ []; keys = (codes "k1", 1) ∷ [] }

one_order-IsValid : IsValid one_order
unfolding lookup create inc64 insert run
one_order-IsValid =
    run-IsValid new_memory_repository (creates false request 5 ∷ []) (omega arith) new-IsValid

abbrev StaysStored : Type 0
StaysStored = (p : Order) × (lookup 1 (run one_order paying).orders ≡ some p) × Later first_order p

run-Later_example : StaysStored
unfolding lookup
run-Later_example = run-Later 1 first_order one_order paying one_order-IsValid (omega arith) refl

abbrev paid_order : Order
paid_order = record first_order { status = paid }

abbrev one_paid : MemoryRepository
one_paid = record one_order { orders = (1, paid_order) ∷ [] }

one_paid-IsValid : IsValid one_paid
unfolding lookup create transition inc64 insert run
one_paid-IsValid = run-IsValid one_order paying (omega arith) one_order-IsValid

walk-list_by_user_id_example :
    (walk 3
        (λ c.
          list_by_user_id false
            (pos 7)
            (record { limit = 1; after_id = c })
            (values one_order.orders))
        0
      ≡ some (select (λ o. o.user_id == pos 7) (values one_order.orders)))
    × Rises order_id 0 (select (λ o. o.user_id == pos 7) (values one_order.orders))
walk-list_by_user_id_example =
    walk-list_by_user_id one_order (pos 7) 1 (λ c. values one_order.orders) 3 one_order-IsValid
      (omega arith) (omega arith) (omega arith) (λ c. Perm.refl _)
