-- ===== src/Order/Memory/Owners.antt =====
-- What a transition does to the orders of one user, and to those of others.
use codex_go_web_api.Prelude.{
  ℕ, ◌≡◌, ◌∙◌, inl, inr, Bool, true, false, some, arith, Bool-cases, Option-cases, inl, inr, ◌==◌,
  nat_eq, int_eq, ℤ, lookup, lookup-insert, nat_beq_iff, int_beq_iff,
}
use codex_go_web_api.Prelude.Outcome.{Result, ok, err}
use codex_go_web_api.Order.{Status, status_eq, Order, CreateOrderRequest, RepoError}
use codex_go_web_api.Order.Memory.Invariant.{IsValid, lookup-Entries}
use codex_go_web_api.Order.Memory.{
  add_order, new_order, replay, claimed, create, MemoryRepository, move, store_move, transition,
}

-- The orders of others are as they were.
abbrev pub Spares : ℤ → MemoryRepository → MemoryRepository → Type 0
Spares user_id r r' =
    (id : ℕ) (o : Order)
    → lookup id r.orders ≡ some o
    → (o.user_id == user_id) ≡ false
    → lookup id r'.orders ≡ some o

abbrev pub Moves :
    ℤ → MemoryRepository → MemoryRepository × Result RepoError (Order × Bool) → Type 0
Moves user_id r t =
    ((o : Order) (b : Bool) → t.1 ≡ ok (o, b) → o.user_id ≡ user_id) × Spares user_id r t.0

-- Moving an order of the user.
move-user :
    (existing : Order) (target : Status) (o : Order) (b : Bool)
    → move existing target ≡ ok (o, b)
    → o.user_id ≡ existing.user_id
unfolding move
move-user existing target o b h = ground arith

store_move-Moves :
    (id : ℕ) (existing : Order) (user_id : ℤ) (moving : Result RepoError (Order × Bool))
    (r : MemoryRepository)
    → lookup id r.orders ≡ some existing
    → existing.user_id ≡ user_id
    → ((o : Order) (b : Bool) → moving ≡ ok (o, b) → o.user_id ≡ user_id)
    → Moves user_id r (store_move id moving r)
unfolding store_move
store_move-Moves id existing user_id (err e) r at own f = (f, λ j o h other. h)
store_move-Moves id existing user_id (ok (item, false)) r at own f = (f, λ j o h other. h)
store_move-Moves id existing user_id (ok (item, true)) r at own f = (
  f,
  λ j o h other. lookup-insert id j item r.orders ∙ elim (Bool-cases (id == j)) [
    | inl same ↦
        absurd (ground (arith, own, h, at, other, nat_beq_iff id j, int_beq_iff o.user_id user_id))
    | inr different ↦ rw different h
  ],
)

pub transition-Moves :
    (done : Bool) (id : ℕ) (target : Status) (existing : Order) (user_id : ℤ) (r : MemoryRepository)
    → lookup id r.orders ≡ some existing
    → existing.user_id ≡ user_id
    → Moves user_id r (transition done id target r)
unfolding transition
transition-Moves true id target existing user_id r at own = (λ o b h. cc, λ j o h other. h)
transition-Moves false id target existing user_id r at own =
    rw (at, transition)
      (store_move-Moves id existing user_id (move existing target) r at own
        (λ o b h. move-user existing target o b h ∙ own))

add_order-Spares :
    (input : CreateOrderRequest) (now : ℕ) (user_id : ℤ) (r : MemoryRepository)
    → IsValid r
    → Spares user_id r (add_order input now r)
unfolding add_order
add_order-Spares input now user_id r v id o at other =
    lookup-insert r.next_id id (new_order r.next_id input now) r.orders
    ∙ elim (Bool-cases (r.next_id == id)) [
      | inl same ↦ absurd (
          ground (
            arith,
            nat_beq_iff r.next_id id,
            same,
            lookup-Entries 0 r.next_id r.orders id o v.entries at,
          ))
      | inr different ↦ rw different at
    ]

replay-user :
    (existing : Order) (input : CreateOrderRequest) (o : Order) (b : Bool)
    → replay existing input ≡ ok (o, b)
    → o.user_id ≡ input.user_id
unfolding replay
replay-user existing input o b h = ground (arith, int_beq_iff existing.user_id input.user_id)

-- What a creation does to the orders of its user, and to those of others.
pub create-Moves :
    (done : Bool) (input : CreateOrderRequest) (now : ℕ) (user_id : ℤ) (r : MemoryRepository)
    → IsValid r
    → input.user_id ≡ user_id
    → Moves user_id r (create done input now r)
unfolding create
create-Moves true input now user_id r v own = (λ o b h. cc, λ j o h other. h)
create-Moves false input now user_id r v own =
    elim (Option-cases (claimed input.idempotency_key r)) [
      | inl free ↦
          rw (free, create) (λ o b h. ground (arith, own), add_order-Spares input now user_id r v)
      | inr (id, taken) ↦
          rw (taken, create) (λ o b h. replay-user _ input o b h ∙ own, λ j o h other. h)
    ]
