-- ===== src/Order/Handler/Creation.antt =====
-- A user who is no admin creates orders for himself only.
use codex_go_web_api.Prelude.{
  ℕ, ◌≡◌, refl, ◌∙◌, inl, inr, Bool, true, false, some, List, arith, Bool-cases, nat_eq, int_eq, ℤ,
  int_beq_iff,
}
use codex_go_web_api.Prelude.Outcome.{Result, ok, err, Result-cases}
use codex_go_web_api.Platform.Principal.{Principal, is_admin}
use codex_go_web_api.Order.{Order, CreateOrderRequest, RepoError}
use codex_go_web_api.Order.Memory.{MemoryRepository, new_order}
use codex_go_web_api.Order.Memory
use codex_go_web_api.Order.Memory.Invariant.{IsValid}
use codex_go_web_api.Order.Memory.Owners.{Moves, create-Moves}
use codex_go_web_api.Order.Service.{
  Repository, FindUserError, State, memory_repository, created, checked, trimmed, without_event,
  find_user_error,
}
use codex_go_web_api.Order.Service
use codex_go_web_api.Order.Handler.{
  post, error_reply, HttpRequest, can_access, own_user, with_key, created_or_error, create_order,
  orders, forbidden,
}
use codex_go_web_api.Order.Handler.Ownership.{Owned, refused-Owned}

created-Owned :
    (user_id : ℤ) (s : State MemoryRepository)
    (t : MemoryRepository × Result RepoError (Order × Bool))
    → Moves user_id s.repo t
    → Owned user_id s
        (let (s', result) = created s.audit (without_event t) in (s', created_or_error result))
created-Owned user_id s (r, err e) m = (tt, m.1)
created-Owned user_id s (r, ok (o, b)) m = (m.0 o b refl, m.1)

checked-user :
    (input request : CreateOrderRequest)
    → checked input ≡ ok request
    → request.user_id ≡ input.user_id
unfolding checked
checked-user input request h = ground arith

-- A creation in the service for a user.
service-Owned :
    (ranging : List Order → List Order) (find_user : ℤ → Result FindUserError (Unit {0}))
    (done : Bool) (input : CreateOrderRequest) (now : ℕ) (user_id : ℤ) (s : State MemoryRepository)
    → IsValid s.repo
    → input.user_id ≡ user_id
    → Owned user_id s (
        let (s', result) = Service.create (memory_repository ranging) find_user done input now s in
        (s', created_or_error result))
unfolding Service.create memory_repository
service-Owned ranging find_user done input now user_id s v own =
    elim (Result-cases (checked input)) [
      | inr (e, bad) ↦ rw (bad, Service.create) (refused-Owned user_id s (error_reply e) tt)
      | inl (request, good) ↦ elim (Result-cases (find_user request.user_id)) [
        | inr (e, missing) ↦
            rw (good, Service.create)
              (rw (missing, Service.create)
                (refused-Owned user_id s (error_reply (find_user_error e)) tt))
        | inl (u, known) ↦
            rw (good, Service.create)
              (rw (known, Service.create)
                (created-Owned user_id s (Memory.create done request now s.repo) (
                  create-Moves done request now user_id s.repo v
                    (checked-user input request good ∙ own))))
      ]
    ]

own-id :
    (p : Principal) (user_id : ℤ)
    → is_admin p ≡ false
    → can_access p user_id ≡ true
    → user_id ≡ p.user_id
own-id p user_id plain has = ground (arith, plain, has, int_beq_iff p.user_id user_id)

-- With the orders in memory, in a valid repository: whatever the body of a POST to `/orders` of a
-- user who is no admin says, an order that the answer shows is the user's, and the orders of
-- other users stay as they were.
pub orders-Owned :
    (ranging : List Order → List Order) (find_user : ℤ → Result FindUserError (Unit {0}))
    (done : Bool) (now : ℕ) (q : HttpRequest) (p : Principal) (s : State MemoryRepository)
    → IsValid s.repo
    → q.principal ≡ some p
    → q.method ≡ post
    → is_admin p ≡ false
    → Owned p.user_id s (orders (memory_repository ranging) find_user done now q s)
unfolding orders create_order
orders-Owned ranging find_user done now q p s v known posted plain = elim (Result-cases q.body) [
  | inr (e, bad) ↦
      rw (known, orders)
        (rw (posted, orders) (rw (bad, orders) (refused-Owned p.user_id s (error_reply e) tt)))
  | inl (input, good) ↦ elim (Bool-cases (can_access p (own_user p input).user_id)) [
    | inl has ↦
        rw (known, orders)
          (rw (posted, orders)
            (rw (good, orders)
              (rw (has, create_order)
                (service-Owned ranging find_user done
                  (with_key q.idempotency_key (own_user p input)) now p.user_id s v
                  (own-id p (own_user p input).user_id plain has)))))
    | inr lacks ↦
        rw (known, orders)
          (rw (posted, orders)
            (rw (good, orders) (rw (lacks, create_order) (refused-Owned p.user_id s forbidden tt))))
  ]
]
