-- ===== src/Order/Memory/Idempotency.antt =====
-- Idempotency keys: what a second creation under a key sees, after any history in between.
use codex_go_web_api.Prelude.{
  ℕ, suc, ◌+◌, ◌<◌, ◌≡◌, refl, sym, ap, subst, ◌∙◌, Bool, true, false, ◌&&◌, none, some, List, [],
  ◌∷◌, arith, length, Option-cases, inl, inr, if◌then◌else◌, ◌==◌, nat_eq, int_eq, text_eq,
  int_beq_iff, int_beq_sym, text_beq_iff, ==_refl, Text, is_empty, two_63, lookup, lookup-insert,
  is_some→some,
}
use codex_go_web_api.Prelude.Outcome.{ok, err}
use codex_go_web_api.Order.{Order, CreateOrderRequest, idempotency_conflict}
use codex_go_web_api.Order.Memory.{MemoryRepository, claimed, replay, new_order, add_order, create}
use codex_go_web_api.Order.Memory.History.{Call, creates, transitions, step, run, transition_cases}
use codex_go_web_api.Order.Memory.Invariant.{
  IsValid, lookup-Entries, create-IsValid, create-next_id,
}
use codex_go_web_api.Order.Memory.Lifecycle.{Later, run-Later}

-- The key leads to an order of that user and amount.
record Claims (key : Text) (input : CreateOrderRequest) (o : Order) (r : MemoryRepository)
    : Type 0 where
  claim : lookup key r.keys ≡ some o.id
  stored : lookup o.id r.orders ≡ some o
  user_id : o.user_id ≡ input.user_id
  amount : o.amount ≡ input.amount

replay-Claims :
    (key : Text) (input : CreateOrderRequest) (id : ℕ) (x o : Order) (b : Bool)
    (r : MemoryRepository)
    → IsValid r
    → lookup key r.keys ≡ some id
    → lookup id r.orders ≡ some x
    → replay x input ≡ ok (o, b)
    → Claims key input o r
unfolding replay
replay-Claims key input id x o b r v claim stored e =
    let (i, _, _) = lookup-Entries 0 r.next_id r.orders id x v.entries stored in
    let same : x ≡ o = ground arith in
    record {
      claim = ground arith;
      stored = ground arith;
      user_id = ground (arith, int_beq_iff x.user_id input.user_id);
      amount = ground (arith, int_beq_iff x.amount input.amount);
    }

add_order-Claims :
    (input : CreateOrderRequest) (now : ℕ) (r : MemoryRepository)
    → is_empty input.idempotency_key ≡ false
    → Claims input.idempotency_key input (new_order r.next_id input now) (add_order input now r)
unfolding add_order
add_order-Claims input now r full = record {
  claim = rw full (
      rw (lookup-insert input.idempotency_key input.idempotency_key r.next_id r.keys)
        (rw (==_refl input.idempotency_key)));
  stored =
      rw (lookup-insert r.next_id r.next_id (new_order r.next_id input now) r.orders)
        (rw (==_refl r.next_id));
  user_id = refl;
  amount = refl;
}

claimed-full :
    (key : Text) (r : MemoryRepository) → is_empty key ≡ false → claimed key r ≡ lookup key r.keys
unfolding claimed
claimed-full key r full = rw full

-- After a creation that succeeds, its key leads to the order that it returned.
create-Claims :
    (input : CreateOrderRequest) (now : ℕ) (r : MemoryRepository) (o : Order) (b : Bool)
    → IsValid r
    → is_empty input.idempotency_key ≡ false
    → (create false input now r).1 ≡ ok (o, b)
    → Claims input.idempotency_key input o (create false input now r).0
unfolding create
create-Claims input now r o b v full e = elim (Option-cases (claimed input.idempotency_key r)) [
  | inl free ↦
      rw (free, create)
        (subst (λ x. Claims input.idempotency_key input x (add_order input now r)) (fresh free)
          (add_order-Claims input now r full))
  | inr (id, taken) ↦
      let at = sym (claimed-full input.idempotency_key r full) ∙ taken in
      let (x, stored) = is_some→some _ (v.keyed input.idempotency_key id at) in
      rw (taken, create)
        (replay-Claims input.idempotency_key input id x o b r v at stored
          (replayed id taken x stored))
]
  where
    fresh : claimed input.idempotency_key r ≡ none → new_order r.next_id input now ≡ o
    fresh free = unfold create in ground arith

    replayed :
        (id : ℕ)
        → claimed input.idempotency_key r ≡ some id
        → (x : Order) → lookup id r.orders ≡ some x
        → replay x input ≡ ok (o, b)
    replayed id taken x stored = unfold create in ground arith

key-step :
    (key : Text) (id : ℕ) (r : MemoryRepository) (c : Call)
    → lookup key r.keys ≡ some id
    → lookup key (step r c).keys ≡ some id
unfolding create claimed add_order
key-step key id r (creates true input now) h = h
key-step key id r (creates false input now) h = ground (
  arith,
  lookup-insert input.idempotency_key key r.next_id r.keys,
  text_beq_iff input.idempotency_key key,
)
key-step key id r (transitions done j target) h =
    transition_cases (λ s. lookup key s.keys ≡ some id) j r done target h λ old p found moved. h

key-run :
    (key : Text) (id : ℕ) (r : MemoryRepository) (cs : List Call)
    → lookup key r.keys ≡ some id
    → lookup key (run r cs).keys ≡ some id
unfolding run
key-run key id r [] h = h
key-run key id r (c ∷ cs) h = key-run key id (step r c) cs (key-step key id r c h)

-- The test of a replay, in terms of the request that made the order.
replay-test :
    (input : CreateOrderRequest) (p : Order) (again : CreateOrderRequest)
    → p.user_id ≡ input.user_id
    → p.amount ≡ input.amount
    → replay p again ≡ (
        if again.user_id == input.user_id && again.amount == input.amount
        then ok (p, true)
        else err idempotency_conflict)
unfolding replay
replay-test input p again u a =
    rw (u, a)
      (rw (int_beq_sym input.user_id again.user_id, int_beq_sym input.amount again.amount) refl)

-- What a creation does under a key that leads to the order `p`.
create-claimed :
    (input : CreateOrderRequest) (now : ℕ) (id : ℕ) (p : Order) (r : MemoryRepository)
    → is_empty input.idempotency_key ≡ false
    → lookup input.idempotency_key r.keys ≡ some id
    → lookup id r.orders ≡ some p
    → create false input now r ≡ (r, replay p input)
unfolding create
create-claimed input now id p r full at stored =
    rw (claimed-full input.idempotency_key r full ∙ at, create) (rw (stored, create) refl)

-- On a valid repository, a creation under a key that is not empty succeeded and returned `o`.
-- Then after any history for which the IDs of int64 suffice, a creation under the same key adds
-- nothing: for an order `p` that is `o` up to a change of its status from pending, it returns `p`
-- as replayed if user and amount are those of the first request, and a conflict if not.
pub create-again :
    (input : CreateOrderRequest) (now : ℕ) (r : MemoryRepository) (o : Order) (b : Bool)
    (cs : List Call) (again : CreateOrderRequest) (later : ℕ)
    → IsValid r
    → r.next_id + suc (length cs) < two_63
    → is_empty input.idempotency_key ≡ false
    → (create false input now r).1 ≡ ok (o, b)
    → again.idempotency_key ≡ input.idempotency_key
    → let s = run (create false input now r).0 cs in
      (p : Order) × Later o p
      × (create false again later s ≡ (
        s,
        if again.user_id == input.user_id && again.amount == input.amount
            then ok (p, true)
            else err idempotency_conflict,
      ))
create-again input now r o b cs again later v room full e same =
    let fits : r.next_id + 1 < two_63 = omega arith in
    let r' = (create false input now r).0 in
    let v' = create-IsValid false input now r fits v in
    let claims = create-Claims input now r o b v full e in
    let room' : r'.next_id + length cs < two_63 =
      omega (arith, create-next_id false input now r fits) in
    let (p, at, kept) = run-Later o.id o r' cs v' room' claims.stored in
    let key = key-run input.idempotency_key o.id r' cs claims.claim in
    (
      p,
      kept,
      create-claimed again later o.id p (run r' cs) (rw same full) (rw same key) at
          ∙ ap (λ x. (run r' cs, x))
              (replay-test input p again (kept.user_id ∙ claims.user_id)
                (kept.amount ∙ claims.amount)),
    )
