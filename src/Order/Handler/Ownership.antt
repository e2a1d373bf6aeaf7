-- ===== src/Order/Handler/Ownership.antt =====
-- A user who is no admin gets at no other user's order.
use codex_go_web_api.Prelude.{
  ℕ, ◌≡◌, refl, ◌⊎◌, inl, inr, String, Bool, true, false, some, List, [], ◌∷◌, ◌++◌, arith,
  Bool-cases, Option-cases, nat_eq, int_eq, Text, codes, ℤ, lookup, int_beq_iff,
}
use codex_go_web_api.Prelude.Outcome.{Result, ok, err, Result-cases}
use codex_go_web_api.Platform.Httpx.{AppError, method_not_allowed}
use codex_go_web_api.Platform.Principal.{Principal, is_admin}
use codex_go_web_api.Platform.Requests.{path_id, trim_prefix, trim_slashes, split_slash}
use codex_go_web_api.Order.{paid, cancelled, status_eq, Order, RepoError}
use codex_go_web_api.Order.Memory.{MemoryRepository, transition, find_by_id}
use codex_go_web_api.Order.Memory.Owners.{Spares, Moves, transition-Moves}
use codex_go_web_api.Order.Service.{
  Repository, FindUserError, State, memory_repository, moved, without_event,
}
use codex_go_web_api.Order.Service
use codex_go_web_api.Order.Handler.{
  Method, get, post, other_method, Response, order_reply, error_reply, refused_method, HttpRequest,
  can_access, first_part, Action, pay, cancel, unknown, action_of, order_or_error, show_order, act,
  change_order, route_order, order_by_id, forbidden, route_not_found,
}

-- An order that the response shows is the user's.
abbrev pub Shows : ℤ → Response → Type 0
Shows user_id (order_reply code o) = o.user_id ≡ user_id
Shows user_id _ = Unit {0}

abbrev pub Owned : ℤ → State MemoryRepository → State MemoryRepository × Response → Type 0
Owned user_id s t = Shows user_id t.1 × Spares user_id s.repo t.0.repo

-- Answers that leave the state alone and show no order.
pub refused-Owned :
    (user_id : ℤ) (s : State MemoryRepository) (reply : Response)
    → Shows user_id reply
    → Owned user_id s (s, reply)
refused-Owned user_id s reply h = (h, λ id o at other. at)

-- The answer to a transition of an order of the user.
moved-Owned :
    (user_id : ℤ) (s : State MemoryRepository) (action : String)
    (t : MemoryRepository × Result RepoError (Order × Bool))
    → Moves user_id s.repo t
    → Owned user_id s
        (let (s', result) = moved action s.audit (without_event t) in (s', order_or_error result))
moved-Owned user_id s action (r, err e) m = (tt, m.1)
moved-Owned user_id s action (r, ok (o, b)) m = (m.0 o b refl, m.1)

module _ (ranging : List Order → List Order) (find_user : ℤ → Result FindUserError (Unit {0}))
    (user_id : ℤ) (s : State MemoryRepository) where
  act-Owned :
      (done : Bool) (id : ℕ) (action : Action) (existing : Order)
      → lookup id s.repo.orders ≡ some existing
      → existing.user_id ≡ user_id
      → Owned user_id s (act (memory_repository ranging) find_user done id action s)
  unfolding act Service.pay Service.cancel Service.transition memory_repository
  act-Owned done id pay existing at own =
      moved-Owned user_id s "order.paid" (transition done id paid s.repo)
        (transition-Moves done id paid existing user_id s.repo at own)
  act-Owned done id cancel existing at own =
      moved-Owned user_id s "order.cancelled" (transition done id cancelled s.repo)
        (transition-Moves done id cancelled existing user_id s.repo at own)
  act-Owned done id unknown existing at own = refused-Owned user_id s route_not_found tt

  find-cases :
      (done : Bool) (id : ℕ)
      → ((e : AppError) × (Service.find_by_id (memory_repository ranging) done id s ≡ err e))
        ⊎ ((o : Order) × (Service.find_by_id (memory_repository ranging) done id s ≡ ok o)
            × (lookup id s.repo.orders ≡ some o))
  unfolding Service.find_by_id memory_repository find_by_id
  find-cases true id = inl (_, refl)
  find-cases false id = elim (Option-cases (lookup id s.repo.orders)) [
    | inl e ↦
        inl (Service.find_error RepoError.not_found, rw (e, Service.find_by_id, find_by_id) refl)
    | inr (o, e) ↦ inr (o, rw (e, Service.find_by_id, find_by_id) refl, e)
  ]

  show_order-Owned :
      (done : Bool) (id : ℕ) (method : Method) (p : Principal)
      → is_admin p ≡ false
      → p.user_id ≡ user_id
      → Owned user_id s (show_order (memory_repository ranging) find_user done id method p s)
  unfolding show_order
  show_order-Owned done id get p plain same = elim (find-cases done id) [
    | inl (e, bad) ↦ rw (bad, show_order) (refused-Owned user_id s (error_reply e) tt)
    | inr (o, good, at) ↦ elim (Bool-cases (can_access p o.user_id)) [
      | inl has ↦
          rw (good, show_order)
            (rw has (
              refused-Owned user_id s (order_reply 200 o)
                (ground (arith, has, plain, same, int_beq_iff p.user_id o.user_id))))
      | inr lacks ↦ rw (good, show_order) (rw lacks (refused-Owned user_id s forbidden tt))
    ]
  ]
  show_order-Owned done id post p plain same =
      refused-Owned user_id s (refused_method "GET" method_not_allowed) tt
  show_order-Owned done id other_method p plain same =
      refused-Owned user_id s (refused_method "GET" method_not_allowed) tt

  change_order-Owned :
      (done : Bool) (id : ℕ) (part : Text) (method : Method) (p : Principal)
      → is_admin p ≡ false
      → p.user_id ≡ user_id
      → Owned user_id s (change_order (memory_repository ranging) find_user done id part method p s)
  unfolding change_order
  change_order-Owned done id part post p plain same = elim (find-cases done id) [
    | inl (e, bad) ↦ rw (bad, change_order) (refused-Owned user_id s (error_reply e) tt)
    | inr (o, good, at) ↦ elim (Bool-cases (can_access p o.user_id)) [
      | inl has ↦
          rw (good, change_order)
            (rw (has, change_order)
              (act-Owned done id (action_of part) o at
                (ground (arith, has, plain, same, int_beq_iff p.user_id o.user_id))))
      | inr lacks ↦
          rw (good, change_order) (rw (lacks, change_order) (refused-Owned user_id s forbidden tt))
    ]
  ]
  change_order-Owned done id part get p plain same =
      refused-Owned user_id s (refused_method "POST" method_not_allowed) tt
  change_order-Owned done id part other_method p plain same =
      refused-Owned user_id s (refused_method "POST" method_not_allowed) tt

  route_order-Owned :
      (done : Bool) (id : ℕ) (parts : List Text) (method : Method) (p : Principal)
      → is_admin p ≡ false
      → p.user_id ≡ user_id
      → Owned user_id s (route_order (memory_repository ranging) find_user done id parts method p s)
  unfolding route_order
  route_order-Owned done id [] method p plain same = refused-Owned user_id s route_not_found tt
  route_order-Owned done id (part ∷ []) method p plain same =
      show_order-Owned done id method p plain same
  route_order-Owned done id (part ∷ action ∷ []) method p plain same =
      change_order-Owned done id action method p plain same
  route_order-Owned done id (part ∷ action ∷ more ∷ parts) method p plain same =
      refused-Owned user_id s route_not_found tt

-- With the orders in memory: whatever a request to `/orders/…` of a user who is no admin asks,
-- with whatever path and method, an order that the answer shows is the user's, and the orders of
-- other users stay as they were.
pub order_by_id-Owned :
    (ranging : List Order → List Order) (find_user : ℤ → Result FindUserError (Unit {0}))
    (done : Bool) (q : HttpRequest) (p : Principal) (s : State MemoryRepository)
    → q.principal ≡ some p
    → is_admin p ≡ false
    → Owned p.user_id s (order_by_id (memory_repository ranging) find_user done q s)
unfolding order_by_id
order_by_id-Owned ranging find_user done q p s known plain =
    let parts = split_slash (trim_slashes (trim_prefix q.path (codes "/orders/"))) in
    elim (Result-cases (path_id (codes "/orders/" ++ first_part parts) (codes "/orders/"))) [
      | inr (e, bad) ↦
          rw (known, order_by_id)
            (rw (bad, order_by_id) (refused-Owned p.user_id s (error_reply e) tt))
      | inl (id, good) ↦
          rw (known, order_by_id)
            (rw (good, order_by_id)
              (route_order-Owned ranging find_user p.user_id s done id parts q.method p plain refl))
    ]
