-- ===== src/Tests/Access.antt =====
-- Runs of the order handler, the rate limiter, the page requests and the users in memory.
use codex_go_web_api.Prelude.{
  ℕ, ◌≤◌, ◌≡◌, refl, false, none, some, List, [], ◌∷◌, arith, nat_eq, text_eq, text_beq, codes, ℤ,
  pos, lookup, insert, inc64, trim_space, to_lower,
}
use codex_go_web_api.Prelude.Outcome.{Result, ok, err}
use codex_go_web_api.Prelude.Decimal.{parse_int}
use codex_go_web_api.Platform.Httpx.{bad_request}
use codex_go_web_api.Platform.Page.{Page, paginate}
use codex_go_web_api.Platform.Page.Walk.{paginate-total}
use codex_go_web_api.Platform.Principal.{Principal}
use codex_go_web_api.Platform.Requests.{parse_page_request}
use codex_go_web_api.Platform.Requests.Limits.{parse_page_request-bounds}
use codex_go_web_api.Order.{Order, pending}
use codex_go_web_api.Order.Memory.{MemoryRepository, order_id}
use codex_go_web_api.Order.Service.{State, FindUserError, memory_repository}
use codex_go_web_api.Order.Memory.{new_memory_repository as new_orders}
use codex_go_web_api.Order.Memory.Invariant.{new-IsValid}
use codex_go_web_api.Order.Handler.Creation.{orders-Owned}
use codex_go_web_api.Order.Handler.Pages.{ShowsPage, orders-ShowsPage}
use codex_go_web_api.Order.Handler.{get, orders, HttpRequest, post, order_by_id}
use codex_go_web_api.Order.Handler.Ownership.{Owned, order_by_id-Owned}
use codex_go_web_api.Security.Limiter.{Limits, login, limit_of}
use codex_go_web_api.Security.Limiter.Keys.{rate_key-injective}
use codex_go_web_api.Security.Limiter.Window.{Call, sent, admitted, least, admitted-limit}
use codex_go_web_api.User.{User, CreateUserRequest, create}
use codex_go_web_api.User
use codex_go_web_api.User.Emails.{run, run-refused}

abbrev order_of : ℕ → ℤ → Order
order_of id user_id = record {
  id = id;
  user_id = user_id;
  amount = pos 10;
  status = pending;
  created_at = 3;
}

abbrev two_orders : State MemoryRepository
two_orders = record {
  repo = record {
    next_id = 3;
    orders = (1, order_of 1 (pos 7)) ∷ (2, order_of 2 (pos 8)) ∷ [];
    keys = [];
  };
  audit = [];
}

abbrev seven : Principal
seven = record {
  user_id = pos 7;
  role = codes "user";
  session_id = codes "s";
  auth_version = pos 1;
}

-- User 7 tries to pay the order of user 8.
abbrev paying : HttpRequest
paying = record {
  principal = some seven;
  method = post;
  path = codes "/orders/2/pay";
  limit = [];
  after_id = [];
  body = err (bad_request "invalid JSON body");
  idempotency_key = none;
}

abbrev found : ℤ → Result FindUserError (Unit {0})
found id = ok tt

order_by_id-Owned_example :
    Owned
      (pos 7)
      two_orders
      (order_by_id (memory_repository (λ l. l)) found false paying two_orders)
unfolding text_beq
order_by_id-Owned_example = order_by_id-Owned (λ l. l) found false paying seven two_orders refl refl

abbrev no_orders : State MemoryRepository
no_orders = record { repo = new_orders; audit = [] }

-- User 7 orders without naming a user.
abbrev ordering : HttpRequest
ordering = record {
  principal = some seven;
  method = post;
  path = codes "/orders";
  limit = [];
  after_id = [];
  body = ok (record {
    user_id = pos 0;
    amount = pos 10;
    idempotency_key = [];
    idempotency_key_provided = false;
  });
  idempotency_key = some (codes "k1");
}

orders-Owned_example :
    Owned (pos 7) no_orders (orders (memory_repository (λ l. l)) found false 5 ordering no_orders)
unfolding text_beq
orders-Owned_example =
    orders-Owned (λ l. l) found false 5 ordering seven no_orders new-IsValid refl refl refl

abbrev listing : HttpRequest
listing = record paying { method = get }

orders-ShowsPage_example :
    ((orders (memory_repository (λ l. l)) found false 5 listing two_orders).0 ≡ two_orders)
    × ShowsPage (pos 7) (orders (memory_repository (λ l. l)) found false 5 listing two_orders).1
unfolding text_beq
orders-ShowsPage_example =
    orders-ShowsPage (λ l. l) found false 5 listing seven two_orders refl refl refl

abbrev limits : Limits
limits = record { login_per_minute = 2; refresh_per_minute = 2; api_per_minute = 9 }

abbrev call_at : ℕ → Call
call_at now = record { ip = codes "10.0.0.1"; class = login; now = now }

abbrev more_calls : List Call
more_calls = call_at 6 ∷ call_at 7 ∷ []

admitted-limit_example :
    admitted limits (codes "local") (codes "10.0.0.1") login (call_at 5 ∷ more_calls) []
    ≡ least (sent (codes "10.0.0.1") login (call_at 5 ∷ more_calls)) (limit_of limits login)
unfolding lookup sent text_beq
admitted-limit_example =
    admitted-limit limits (codes "local") (codes "10.0.0.1") login (call_at 5) more_calls [] refl
      refl (omega arith) ((omega arith, omega arith), ((omega arith, omega arith), tt))
      (omega arith)

rate_key-injective_example : (login ≡ login) × (codes "10.0.0.1" ≡ codes "10.0.0.1")
rate_key-injective_example =
    rate_key-injective (codes "local") (codes "10.0.0.1") (codes "10.0.0.1") login login refl

parse_page_request-bounds_example : (1 ≤ 20) × (20 ≤ 100)
unfolding parse_page_request parse_int
parse_page_request-bounds_example =
    parse_page_request-bounds (codes "20") (codes "7") (record { limit = 20; after_id = 7 }) refl

abbrev PageOfTwo : Type 0
PageOfTwo =
    (page : Page Order) × (paginate order_id (order_of 1 (pos 7) ∷ order_of 2 (pos 8) ∷ []) 1
      ≡ ok page)

paginate-total_example : PageOfTwo
paginate-total_example =
    paginate-total order_id (order_of 1 (pos 7) ∷ order_of 2 (pos 8) ∷ []) 1 (omega arith)

abbrev ada : CreateUserRequest
ada = record { name = codes "Ada"; email = codes "ada@x.org" }

abbrev ada_stored : User
ada_stored = record { id = 1; name = codes "Ada"; email = codes "ada@x.org"; created_at = 4 }

abbrev ada_again : CreateUserRequest
ada_again = record { name = codes "A."; email = codes " ADA@x.org " }

run-refused_example :
    let after =
      run
        (λ c. c)
        ((false, ada, 5) ∷ [])
        (create (λ c. c) false ada 4 User.new_memory_repository).0 in
    create (λ c. c) false ada_again 6 after ≡ (after, err User.email_taken)
unfolding create lookup insert inc64 trim_space to_lower text_beq
run-refused_example =
    run-refused (λ c. c) ((false, ada, 5) ∷ []) ada ada_again 4 6 User.new_memory_repository
      ada_stored refl refl
