-- ===== src/Order/Memory/History.antt =====
-- Histories of calls on the repository in memory, and how a transition changes it.
use codex_go_web_api.Prelude.{
  ℕ, ◌≡◌, refl, Bool, true, false, some, List, [], ◌∷◌, Option-cases, inl, inr, nat_eq, lookup,
  insert,
}
use codex_go_web_api.Prelude.Outcome.{Result, ok, err}
use codex_go_web_api.Order.{Status, Order, CreateOrderRequest, RepoError}
use codex_go_web_api.Order.Memory.{MemoryRepository, create, move, store_move, transition}

-- A call that changes the repository, with whether its context is done.
pub data Call : Type 0 where
  creates : Bool → CreateOrderRequest → ℕ → Call
  transitions : Bool → ℕ → Status → Call

abbrev pub step : MemoryRepository → Call → MemoryRepository
step r (creates done input now) = (create done input now r).0
step r (transitions done id target) = (transition done id target r).0

unfoldable pub run : MemoryRepository → List Call → MemoryRepository
run r [] = r
run r (c ∷ cs) = run (step r c) cs

module _ {ℓ} (P : MemoryRepository → Type ℓ) (id : ℕ) (r : MemoryRepository) where
  store_move_cases :
      (m : Result RepoError (Order × Bool))
      → P r
      → ((o : Order) → m ≡ ok (o, true) → P (record r { orders = insert id o r.orders }))
      → P (store_move id m r).0
  unfolding store_move
  store_move_cases (ok (o, true)) same moved = moved o refl
  store_move_cases (ok (o, false)) same moved = same
  store_move_cases (err e) same moved = same

  -- A transition leaves the repository alone or stores the order that `move` gives.
  pub transition_cases :
      (done : Bool) (target : Status)
      → P r
      → ((old o : Order)
          → lookup id r.orders ≡ some old
          → move old target ≡ ok (o, true)
          → P (record r { orders = insert id o r.orders }))
      → P (transition done id target r).0
  unfolding transition
  transition_cases true target same moved = same
  transition_cases false target same moved = elim (Option-cases (lookup id r.orders)) [
    | inl e ↦ rw (e, transition) same
    | inr (old, e) ↦
        rw (e, transition) (store_move_cases (move old target) same (λ o m. moved old o e m))
  ]
