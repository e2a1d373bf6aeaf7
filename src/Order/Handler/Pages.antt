-- ===== src/Order/Handler/Pages.antt =====
-- A user who is no admin is shown his own orders only.
use codex_go_web_api.Prelude.{
  ℕ, ◌≡◌, refl, Bool, true, false, ◌&&◌, some, List, arith, ltb, inl, inr, All, ◌==◌, int_eq,
  int_beq_iff, ℤ,
}
use codex_go_web_api.Prelude.Outcome.{Result, ok, err, Result-cases}
use codex_go_web_api.Platform.Httpx.{internal}
use codex_go_web_api.Platform.Page.{Request, Page, ListError}
use codex_go_web_api.Platform.Page.Contents.{Lists, All-select, All-sort, paginate-Lists}
use codex_go_web_api.Platform.Principal.{Principal, is_admin}
use codex_go_web_api.Platform.Requests.{parse_page_request}
use codex_go_web_api.Order.{Order}
use codex_go_web_api.Order.Memory.{
  MemoryRepository, order_id, values, list_included, list_by_user_id,
}
use codex_go_web_api.Order.Service.{FindUserError, State, memory_repository}
use codex_go_web_api.Order.Service
use codex_go_web_api.Order.Handler.{
  get, Response, page_reply, HttpRequest, page_or_error, list_orders, orders,
}

abbrev pub ShowsPage : ℤ → Response → Type 0
ShowsPage user_id (page_reply page) = All (λ o. o.user_id ≡ user_id) page.items
ShowsPage user_id _ = Unit {0}

list-Lists :
    (done : Bool) (user_id : ℤ) (request : Request) (ranged : List Order)
    → Lists (λ o. o.user_id ≡ user_id) (list_by_user_id done user_id request ranged)
unfolding list_by_user_id list_included
list-Lists true user_id request ranged = tt
list-Lists false user_id request ranged =
    paginate-Lists (λ o. o.user_id ≡ user_id) order_id _ request.limit
      (All-sort (λ o. o.user_id ≡ user_id) order_id _
        (All-select (λ o. o.user_id ≡ user_id)
          (λ o. ltb request.after_id o.id && (o.user_id == user_id)) ranged
          (λ o h. ground (arith, int_beq_iff o.user_id user_id))))

service-Lists :
    (ranging : List Order → List Order) (find_user : ℤ → Result FindUserError (Unit {0}))
    (done : Bool) (user_id : ℤ) (request : Request) (s : State MemoryRepository)
    → ShowsPage user_id
        (page_or_error (Service.list_by_user_id (memory_repository ranging) done user_id request s))
unfolding Service.list_by_user_id memory_repository
service-Lists ranging find_user done user_id request s =
    shown (list_by_user_id done user_id request (ranging (values s.repo.orders)))
      (list-Lists done user_id request (ranging (values s.repo.orders)))
  where
    shown :
        (r : Result ListError (Page Order))
        → Lists (λ o. o.user_id ≡ user_id) r
        → ShowsPage user_id (
            page_or_error
              (elim r [ err e ↦ err (internal "failed to list orders") | ok page ↦ ok page ]))
    shown (ok page) h = h
    shown (err e) h = tt

-- With the orders in memory: a GET to `/orders` of a user who is no admin changes nothing, and a
-- page that it is answered with has orders of that user only.
pub orders-ShowsPage :
    (ranging : List Order → List Order) (find_user : ℤ → Result FindUserError (Unit {0}))
    (done : Bool) (now : ℕ) (q : HttpRequest) (p : Principal) (s : State MemoryRepository)
    → q.principal ≡ some p
    → q.method ≡ get
    → is_admin p ≡ false
    → ((orders (memory_repository ranging) find_user done now q s).0 ≡ s)
      × ShowsPage p.user_id (orders (memory_repository ranging) find_user done now q s).1
unfolding orders list_orders
orders-ShowsPage ranging find_user done now q p s known got plain =
    elim (Result-cases (parse_page_request q.limit q.after_id)) [
      | inr (e, bad) ↦ rw (known, orders) (rw (got, orders) (rw (bad, list_orders) (refl, tt)))
      | inl (request, good) ↦
          rw (known, orders)
            (rw (got, orders)
              (rw (good, list_orders)
                (rw plain (refl, service-Lists ranging find_user done p.user_id request s))))
    ]
