-- ===== src/Order/Memory/Lifecycle.antt =====
-- What a history can do to an order: its state machine, over any calls of any clients.
use codex_go_web_api.Prelude.{
  ℕ, ◌+◌, ◌<◌, ◌≡◌, refl, ◌⊎◌, Bool, true, false, Option, none, some, List, [], ◌∷◌, arith, length,
  Option-cases, Bool-cases, subst, sym, ◌==◌, inl, inr, nat_eq, two_63, lookup, insert,
  lookup-insert,
}
use codex_go_web_api.Prelude.Outcome.{ok}
use codex_go_web_api.Order.{Status, pending, Order, CreateOrderRequest}
use codex_go_web_api.Order.Memory.{MemoryRepository, claimed, new_order, add_order, create, move}
use codex_go_web_api.Order.Memory.History.{Call, creates, transitions, step, run, transition_cases}
use codex_go_web_api.Order.Memory.Invariant.{IsValid, lookup-Entries, step-IsValid, step-next_id}

-- `p` is `o` at a later time: all but the status is the same, and the status has changed only if it
-- was pending.
pub record Later (o p : Order) : Type 0 where
  pub id : p.id ≡ o.id
  pub user_id : p.user_id ≡ o.user_id
  pub amount : p.amount ≡ o.amount
  pub created_at : p.created_at ≡ o.created_at
  pub moved : (p.status ≡ o.status) ⊎ (o.status ≡ pending)

Later-refl : (o : Order) → Later o o
Later-refl o = record {
  id = refl;
  user_id = refl;
  amount = refl;
  created_at = refl;
  moved = inl refl;
}

Later-trans : (o p q : Order) → Later o p → Later p q → Later o q
Later-trans o p q a b = ground arith

move-Later : (o p : Order) (target : Status) → move o target ≡ ok (p, true) → Later o p
unfolding move
move-Later o p target h = ground arith

-- What is stored under an ID is a later form of `o`.
abbrev pub Holds : Order → Option Order → Type 0
Holds o none = ⊥
Holds o (some p) = Later o p

Holds-some : (o p : Order) (x : Option Order) → x ≡ some p → Later o p → Holds o x
Holds-some o p x e h = subst (Holds o) (sym e) h

pub Holds-stored :
    (o : Order) (x : Option Order) → Holds o x → (p : Order) × (x ≡ some p) × Later o p
Holds-stored o none h = absurd h
Holds-stored o (some p) h = (p, refl, h)

module _ (id : ℕ) (o : Order) (r : MemoryRepository) (v : IsValid r)
    (at : lookup id r.orders ≡ some o) where
  add_order-Holds :
      (input : CreateOrderRequest) (now : ℕ) → Holds o (lookup id (add_order input now r).orders)
  unfolding add_order
  add_order-Holds input now =
      Holds-some o o _
        (ground (
          arith,
          lookup-insert r.next_id id (new_order r.next_id input now) r.orders,
          lookup-Entries 0 r.next_id r.orders id o v.entries at,
        ))
        (Later-refl o)

  same-Holds : Holds o (lookup id r.orders)
  same-Holds = Holds-some o o _ at (Later-refl o)

  create-Holds :
      (done : Bool) (input : CreateOrderRequest) (now : ℕ)
      → Holds o (lookup id (create done input now r).0.orders)
  unfolding create
  create-Holds true input now = same-Holds
  create-Holds false input now = elim (Option-cases (claimed input.idempotency_key r)) [
    | inl e ↦ rw (e, create) (add_order-Holds input now)
    | inr (j, e) ↦ rw (e, create) same-Holds
  ]

  store-Holds :
      (j : ℕ) (old p : Order)
      → lookup j r.orders ≡ some old
      → Later old p
      → Holds o (lookup id (insert j p r.orders))
  store-Holds j old p found later = elim (Bool-cases (j == id)) [
    | inl same ↦
        Holds-some o p _ (ground (arith, lookup-insert j id p r.orders)) (later_of (ground arith))
    | inr other ↦ Holds-some o o _ (ground (arith, lookup-insert j id p r.orders)) (Later-refl o)
  ]
    where
      later_of : old ≡ o → Later o p
      later_of e = subst (λ x. Later x p) e later

  step-Holds : (c : Call) → Holds o (lookup id (step r c).orders)
  step-Holds (creates done input now) = create-Holds done input now
  step-Holds (transitions done j target) =
      transition_cases (λ s. Holds o (lookup id s.orders)) j r done target same-Holds
        λ old p found moved. store-Holds j old p found (move-Later old p target moved)

-- In a valid repository, whatever calls follow for which the IDs of int64 suffice, a stored order
-- stays stored under its ID with its user, its amount and its creation time, and its status can
-- only have changed from pending.
pub run-Later :
    (id : ℕ) (o : Order) (r : MemoryRepository) (cs : List Call)
    → IsValid r
    → r.next_id + length cs < two_63
    → lookup id r.orders ≡ some o
    → (p : Order) × (lookup id (run r cs).orders ≡ some p) × Later o p
unfolding run
run-Later id o r [] v room at = (o, at, Later-refl o)
run-Later id o r (c ∷ cs) v room at =
    let fits : r.next_id + 1 < two_63 = omega arith in
    let (p, at', later) = Holds-stored o _ (step-Holds id o r v at c) in
    let (q, at'', later') =
      run-Later id p (step r c) cs (step-IsValid r c fits v) (omega (arith, step-next_id r c fits))
        at' in
    (q, at'', Later-trans o p q later later')
