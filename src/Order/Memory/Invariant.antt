-- ===== src/Order/Memory/Invariant.antt =====
-- The invariant of the repository in memory, over every history of calls.
use codex_go_web_api.Prelude.{
  ℕ, ◌+◌, ◌<◌, ◌≤◌, ◌≡◌, refl, Bool, true, false, some, List, [], ◌∷◌, arith, length, Option-cases,
  is_some, ◌∙◌, inl, inr, nat_eq, text_eq, Text, inc64_lem, two_63, lookup, insert, lookup-insert,
}
use codex_go_web_api.Prelude.Outcome.{ok}
use codex_go_web_api.Order.{Status, Order, CreateOrderRequest}
use codex_go_web_api.Order.Memory.{
  MemoryRepository, new_memory_repository, claimed, new_order, add_order, create, move, transition,
}
use codex_go_web_api.Order.Memory.History.{Call, creates, transitions, step, run, transition_cases}

-- The entries of the map: each under its own ID, IDs rising, all in front of `n`.
abbrev pub Entries : ℕ → ℕ → List (ℕ × Order) → Type 0
Entries b n [] = Unit
Entries b n ((id, o) ∷ l) = (o.id ≡ id) × (b < id) × (id < n) × Entries id n l

-- IDs are handed out from 1 on and rise, and a claimed key leads to a stored order.
pub record IsValid (r : MemoryRepository) : Type 0 where
  pub started : 0 < r.next_id
  pub entries : Entries 0 r.next_id r.orders
  pub keyed : (k : Text) (id : ℕ) → lookup k r.keys ≡ some id → is_some (lookup id r.orders) ≡ true

pub new-IsValid : IsValid new_memory_repository
unfolding lookup
new-IsValid = record { started = omega arith; entries = tt; keyed = λ k id h. cc }

pub Entries-mono : (b n m : ℕ) (l : List (ℕ × Order)) → n ≤ m → Entries b n l → Entries b m l
Entries-mono b n m [] q h = tt
Entries-mono b n m ((id, o) ∷ l) q h = (h.0, h.1, omega arith, Entries-mono id n m l q h.3)

-- What is looked up carries its own ID, and that ID was handed out.
pub lookup-Entries :
    (b n : ℕ) (l : List (ℕ × Order)) (id : ℕ) (o : Order)
    → Entries b n l
    → lookup id l ≡ some o
    → (o.id ≡ id) × (b < id) × (id < n)
unfolding lookup
lookup-Entries b n [] id o h e = cc
lookup-Entries b n ((j, x) ∷ l) id o h e = ground (arith, lookup-Entries j n l id o h.3)

insert-Entries_new :
    (b n m : ℕ) (l : List (ℕ × Order)) (o : Order)
    → b < n
    → n < m
    → o.id ≡ n
    → Entries b n l
    → Entries b m (insert n o l)
unfolding insert
insert-Entries_new b n m [] o p q e h = (e, p, q, tt)
insert-Entries_new b n m ((j, x) ∷ l) o p q e h =
    ground (arith, insert-Entries_new j n m l o h.2 q e h.3)

insert-Entries_old :
    (b n id : ℕ) (l : List (ℕ × Order)) (old o : Order)
    → lookup id l ≡ some old
    → o.id ≡ id
    → Entries b n l
    → Entries b n (insert id o l)
unfolding insert lookup
insert-Entries_old b n id [] old o f e h = cc
insert-Entries_old b n id ((j, x) ∷ l) old o f e h =
    ground (arith, insert-Entries_old j n id l old o)

add_order-IsValid :
    (input : CreateOrderRequest) (now : ℕ) (r : MemoryRepository)
    → r.next_id + 1 < two_63
    → IsValid r
    → IsValid (add_order input now r)
unfolding add_order
add_order-IsValid input now r room v = record {
  started = rw (inc64_lem r.next_id room) (omega arith);
  entries = rw (inc64_lem r.next_id room) (
      insert-Entries_new 0 r.next_id (r.next_id + 1) r.orders _ v.started (omega arith) refl
        v.entries);
  keyed = λ k id h. ground (
    arith,
    lookup-insert input.idempotency_key k r.next_id r.keys,
    lookup-insert r.next_id id (new_order r.next_id input now) r.orders,
    v.keyed k id,
  );
}

store-IsValid :
    (id : ℕ) (old o : Order) (r : MemoryRepository)
    → lookup id r.orders ≡ some old
    → o.id ≡ id
    → IsValid r
    → IsValid (record r { orders = insert id o r.orders })
store-IsValid id old o r f e v = record {
  started = v.started;
  entries = insert-Entries_old 0 r.next_id id r.orders old o f e v.entries;
  keyed = λ k j h. ground (arith, lookup-insert id j o r.orders, v.keyed k j);
}

pub create-IsValid :
    (done : Bool) (input : CreateOrderRequest) (now : ℕ) (r : MemoryRepository)
    → r.next_id + 1 < two_63
    → IsValid r
    → IsValid (create done input now r).0
unfolding create
create-IsValid true input now r room v = v
create-IsValid false input now r room v = elim (Option-cases (claimed input.idempotency_key r)) [
  | inl e ↦ rw (e, create) (add_order-IsValid input now r room v)
  | inr (id, e) ↦ rw (e, create) v
]

move-id : (o p : Order) (target : Status) (b : Bool) → move o target ≡ ok (p, b) → p.id ≡ o.id
unfolding move
move-id o p target b h = ground arith

pub transition-IsValid :
    (done : Bool) (id : ℕ) (target : Status) (r : MemoryRepository)
    → IsValid r
    → IsValid (transition done id target r).0
transition-IsValid done id target r v =
    transition_cases IsValid id r done target v λ old o found moved.
      store-IsValid id old o r found
        (move-id old o target true moved
          ∙ (lookup-Entries 0 r.next_id r.orders id old v.entries found).0)
        v

pub step-IsValid :
    (r : MemoryRepository) (c : Call) → r.next_id + 1 < two_63 → IsValid r → IsValid (step r c)
step-IsValid r (creates done input now) room v = create-IsValid done input now r room v
step-IsValid r (transitions done id target) room v = transition-IsValid done id target r v

pub create-next_id :
    (done : Bool) (input : CreateOrderRequest) (now : ℕ) (r : MemoryRepository)
    → r.next_id + 1 < two_63
    → (create done input now r).0.next_id ≤ r.next_id + 1
unfolding create add_order
create-next_id done input now r room = ground (arith, inc64_lem r.next_id room)

pub step-next_id :
    (r : MemoryRepository) (c : Call) → r.next_id + 1 < two_63 → (step r c).next_id ≤ r.next_id + 1
step-next_id r (creates done input now) room = create-next_id done input now r room
step-next_id r (transitions done id target) room =
    transition_cases (λ s. s.next_id ≤ r.next_id + 1) id r done target (omega arith)
      λ old o found moved. omega arith

-- From a valid repository, every history that does not run out of int64 IDs keeps it valid: each
-- order is stored under its own ID, IDs were handed out in rising order, and each claimed key
-- belongs to a stored order.
pub run-IsValid :
    (r : MemoryRepository) (cs : List Call)
    → r.next_id + length cs < two_63
    → IsValid r
    → IsValid (run r cs)
unfolding run
run-IsValid r [] room v = v
run-IsValid r (c ∷ cs) room v =
    let fits : r.next_id + 1 < two_63 = omega arith in
    run-IsValid (step r c) cs (omega (arith, step-next_id r c fits)) (step-IsValid r c fits v)
