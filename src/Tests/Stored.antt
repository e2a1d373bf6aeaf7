-- ===== src/Tests/Stored.antt =====
-- Runs of the orders in MySQL.
use mathlib.Core.List.Perm
use codex_go_web_api.Prelude.{
  ℕ, ◌≡◌, refl, ◌⊎◌, true, false, none, List, [], ◌∷◌, arith, text_beq, codes, pos, lookup,
}
use codex_go_web_api.Prelude.Outcome.{Result, ok}
use codex_go_web_api.Order.{Order, paid, CreateOrderRequest}
use codex_go_web_api.Order.Memory.{values}
use codex_go_web_api.Order.Memory
use codex_go_web_api.Order.Memory.Invariant.{IsValid, new-IsValid}
use codex_go_web_api.Auth.{user}
use codex_go_web_api.Outbox.Event.{Event, EventError, value, object, end}
use codex_go_web_api.Database.{Engine, Turn, works}
use codex_go_web_api.Database.Tables.{UserRow, Database, any}
use codex_go_web_api.Order.Mysql.{
  create_with_event, transition_with_event, list_by_user_id, order_row,
}
use codex_go_web_api.Order.Mysql.Atomic.{Unwritten, Written, create_with_event-atomic}
use codex_go_web_api.Order.Mysql.Moves.{Unmoved, Moved, transition_with_event-atomic}
use codex_go_web_api.Order.Mysql.Refinement.{orders_of, view}
use codex_go_web_api.Order.Mysql.Refinement.Histories.{
  Call, creates, transitions, mysql_answers, memory_answers, mysql_answers-memory,
}
use codex_go_web_api.Order.Mysql.Listing.{list_by_user_id-memory}

abbrev pub wide : ℕ → ℕ
wide c = c

abbrev pub engine : Engine
engine = record { collates = text_beq; kept = λ t. t; parent_first = false }

abbrev pub turn : Turn
turn = record {
  fates = λ i. works;
  id = 1;
  event_row_id = 1;
  now = 5;
  server_now = 6;
  server_later = 6;
}

abbrev pub owner : UserRow
owner = record {
  id = 7;
  name = codes "Ann";
  email = codes "ann@x";
  password_hash = none;
  role = user;
  auth_version = 1;
  created_at = 1;
}

abbrev pub one_user : Database
one_user = record { users = owner ∷ []; orders = []; sessions = []; outbox = [] }

abbrev request : CreateOrderRequest
request = record {
  user_id = pos 7;
  amount = pos 900;
  idempotency_key = codes "k1";
  idempotency_key_provided = true;
}

abbrev pub event : Event
event = record {
  event_id = codes "e1";
  event_type = codes "t";
  aggregate_type = codes "a";
  aggregate_id = pos 1;
  payload = value (object end);
  occurred_at = 5;
}

abbrev order_factory : Order → Result EventError Event
order_factory o = ok event

abbrev calls : List Call
calls = creates turn request ∷ transitions turn 1 paid ∷ []

empty-IsValid : IsValid (view 1 one_user)
empty-IsValid = new-IsValid

mysql_answers-memory_example :
    memory_answers engine (view 1 one_user) calls ≡ mysql_answers engine one_user calls
unfolding any
mysql_answers-memory_example =
    mysql_answers-memory engine 1 one_user calls (λ s t. refl) empty-IsValid
      ((λ i. refl), omega arith, omega arith, refl, refl, ((λ i. refl), tt))

create_with_event-atomic_example :
    let s = create_with_event wide engine order_factory turn true request one_user in
    Unwritten engine request one_user s ⊎ Written wide engine order_factory turn request one_user s
create_with_event-atomic_example =
    create_with_event-atomic wide engine order_factory turn request one_user

abbrev one_order : Database
one_order = record one_user { orders = order_row 1 request 5 ∷ [] }

transition_with_event-atomic_example :
    let s = transition_with_event wide engine order_factory turn true 1 paid one_order in
    Unmoved paid one_order s ⊎ Moved wide engine order_factory turn 1 paid one_order s
transition_with_event-atomic_example =
    transition_with_event-atomic wide engine order_factory turn 1 paid one_order

one_order-IsValid : IsValid (view 2 one_order)
unfolding lookup
one_order-IsValid = record {
  started = omega arith;
  entries = (refl, omega arith, omega arith, tt);
  keyed = λ k id h. ground arith;
}

list_by_user_id-memory_example :
    list_by_user_id works (pos 7) (record { limit = 10; after_id = 0 }) one_order
    ≡ Memory.list_by_user_id false
        (pos 7)
        (record { limit = 10; after_id = 0 })
        (values (orders_of one_order.orders))
list_by_user_id-memory_example =
    list_by_user_id-memory 2 0 10 (pos 7) one_order (values (orders_of one_order.orders))
      one_order-IsValid refl (Perm.refl _)
