-- ===== src/Outbox/Table/Settled.antt =====
-- What any history of statements can do to the rows of the outbox.
use codex_go_web_api.Prelude.{
  ℕ, zero, suc, ◌+◌, ◌≤◌, ◌<◌, ◌≡◌, refl, sym, subst, ◌∙◌, Bool, true, false, not, ◌&&◌, List, [],
  ◌∷◌, map, arith, select, take, nat_beq, All, All-map, Text, is_empty, trim_space, Bool-cases, inl,
  inr,
}
use codex_go_web_api.Prelude.Outcome.{Result, Result-cases}
use codex_go_web_api.Database.{Fate, works, fails, lost}
use codex_go_web_api.Outbox.Table.{
  Row, Status, pending, publishing, published, dead, claimable, selected, lock_row, claim_batch,
  owned, publish_row, release_row, update_owned, mark_one, mark_each, mark_published, mark_retry,
  lock_all, carried_out, OutboxError,
}
use codex_go_web_api.Outbox.Table.Claims.{
  id_in, Keyed, Keyed-select, lock_if, selected-Keyed, id_in-below, lock_all-map,
}

abbrev pub is_settled : Status → Bool
is_settled pending = false
is_settled publishing = false
is_settled published = true
is_settled dead = true

-- `new` is the row `old` at a later time: its ID and its event are the same, its attempts have not
-- fallen, and if it was published or dead it is the same row.
pub record Since (old new : Row) : Type 0 where
  pub id : new.id ≡ old.id
  pub event : new.event ≡ old.event
  pub attempts : old.attempts ≤ new.attempts
  pub settled : is_settled old.status ≡ true → new ≡ old

-- The same rows in the same order, each at a later time.
abbrev pub Follows : List Row → List Row → Type 0
Follows [] [] = Unit
Follows [] (y ∷ ys) = ⊥
Follows (x ∷ xs) [] = ⊥
Follows (x ∷ xs) (y ∷ ys) = Since x y × Follows xs ys

Since-refl : (x : Row) → Since x x
Since-refl x = record { id = refl; event = refl; attempts = omega arith; settled = λ s. refl }

Since-trans : (x y z : Row) → Since x y → Since y z → Since x z
Since-trans x y z a b = record {
  id = b.id ∙ a.id;
  event = b.event ∙ a.event;
  attempts = omega (arith, a.attempts, b.attempts);
  settled =
      λ s. let e = a.settled s in b.settled (subst (λ r. is_settled r.status ≡ true) (sym e) s) ∙ e;
}

pub Follows-refl : (xs : List Row) → Follows xs xs
Follows-refl [] = tt
Follows-refl (x ∷ xs) = (Since-refl x, Follows-refl xs)

pub Follows-trans : (xs ys zs : List Row) → Follows xs ys → Follows ys zs → Follows xs zs
Follows-trans [] [] zs a b = b
Follows-trans [] (y ∷ ys) zs a b = absurd a
Follows-trans (x ∷ xs) [] zs a b = absurd a
Follows-trans (x ∷ xs) (y ∷ ys) [] a b = b
Follows-trans (x ∷ xs) (y ∷ ys) (z ∷ zs) a b =
    (Since-trans x y z a.0 b.0, Follows-trans xs ys zs a.1 b.1)

pub Follows-Keyed : (b : ℕ) (xs ys : List Row) → Follows xs ys → Keyed b xs → Keyed b ys
Follows-Keyed b [] [] f k = tt
Follows-Keyed b [] (y ∷ ys) f k = absurd f
Follows-Keyed b (x ∷ xs) [] f k = absurd f
Follows-Keyed b (x ∷ xs) (y ∷ ys) f k = rw (f.0.id) (k.0, Follows-Keyed x.id xs ys f.1 k.1)

-- A claim.

id_in-take_mem : (id n : ℕ) (l : List Row) → id_in id (take n l) ≡ true → id_in id l ≡ true
id_in-take_mem id zero l h = cc
id_in-take_mem id (suc n) [] h = cc
id_in-take_mem id (suc n) (x ∷ l) h = ground (arith, id_in-take_mem id n l)

-- With rising IDs, a row whose ID is among the selected ones passes the selection itself.
abbrev Chosen : (Row → Bool) → ℕ → List Row → Row → Type 0
Chosen p b xs row = (b < row.id) × (id_in row.id (select p xs) ≡ true → p row ≡ true)

chosen : (p : Row → Bool) (b : ℕ) (rows : List Row) → Keyed b rows → All (Chosen p b rows) rows
chosen p b [] h = tt
chosen p b (x ∷ l) h = (
  (h.0, λ e. ground (arith, id_in-below x.id x.id (select p l) (Keyed-select p x.id l h.1))),
  All-map (Chosen p x.id l) (Chosen p b (x ∷ l)) l
      (λ row c. (omega (arith, c.0, h.0), λ e. c.1 (ground (arith, c.0)))) (chosen p x.id l h.1),
)

lock-Since :
    (token : Text) (until now : ℕ) (row : Row)
    → claimable now row ≡ true
    → Since row (lock_row token until row)
unfolding claimable
lock-Since token until now row h = ground arith

map-Follows :
    (f : Row → Row) (rows : List Row)
    → All (λ row. Since row (f row)) rows
    → Follows rows (map f rows)
map-Follows f [] h = tt
map-Follows f (row ∷ rows) h = (h.0, map-Follows f rows h.1)

lock_if-Since :
    (token : Text) (until now : ℕ) (xs : List Row) (row : Row)
    → (id_in row.id xs ≡ true → claimable now row ≡ true)
    → Since row (lock_if token until xs row)
lock_if-Since token until now xs row h = elim (Bool-cases (id_in row.id xs)) [
  | inl e ↦ rw e (lock-Since token until now row (h e))
  | inr e ↦ rw e (Since-refl row)
]

claim-Follows :
    (skipped : ℕ → Bool) (token : Text) (now until limit b : ℕ) (rows : List Row)
    → Keyed b rows
    → Follows rows (lock_all token until (selected skipped now limit rows) rows)
unfolding selected
claim-Follows skipped token now until limit b rows k =
    rw
      (lock_all-map token until b _ rows
        (unfold selected in selected-Keyed skipped now limit b rows k))
      (map-Follows _ rows (
        All-map (Chosen p b rows) _ rows
          (λ row c.
            lock_if-Since token until now _ row
              λ e. both_left (claimable now row) _ (c.1 (id_in-take_mem row.id limit _ e)))
          (chosen p b rows k)))
  where
    p : Row → Bool
    p row = claimable now row && not (skipped row.id)

    both_left : (a c : Bool) → (a && c) ≡ true → a ≡ true
    both_left a c h = ground arith

carried_out-Follows :
    {A : Type 0} (fate : Fate) (rows after : List Row) (answer : Result OutboxError A)
    → Follows rows after
    → Follows rows (carried_out fate rows after answer).0
carried_out-Follows works rows after answer f = f
carried_out-Follows fails rows after answer f = Follows-refl rows
carried_out-Follows lost rows after answer f = f

pub claim_batch-Follows :
    (fate : Fate) (skipped : ℕ → Bool) (token : Text) (now limit lock_for b : ℕ) (rows : List Row)
    → Keyed b rows
    → Follows rows (claim_batch fate skipped token now limit lock_for rows).0
unfolding claim_batch
claim_batch-Follows fate skipped token now zero lock_for b rows k = Follows-refl rows
claim_batch-Follows fate skipped token now (suc limit) zero b rows k = Follows-refl rows
claim_batch-Follows fate skipped token now (suc limit) (suc lock_for) b rows k =
    carried_out-Follows fate rows _ _
      (claim-Follows skipped token now (now + suc lock_for) (suc limit) b rows k)

-- The marks.
update_owned-Follows :
    (p : Row → Bool) (f : Row → Row) (rows : List Row)
    → ((row : Row) → p row ≡ true → Since row (f row))
    → Follows rows (update_owned p f rows)
unfolding update_owned
update_owned-Follows p f [] h = tt
update_owned-Follows p f (row ∷ rows) h = elim (Bool-cases (p row)) [
  | inl e ↦ rw e (h row e, update_owned-Follows p f rows h)
  | inr e ↦ rw e (Since-refl row, update_owned-Follows p f rows h)
]

publish-Since : (token : Text) (row : Row) → owned token row ≡ true → Since row (publish_row row)
unfolding owned
publish-Since token row h = ground arith

release-Since :
    (token : Text) (is_dead : Bool) (at : ℕ) (row : Row)
    → owned token row ≡ true
    → Since row (release_row is_dead at row)
unfolding owned
release-Since token is_dead at row h = ground arith

mark_one-Follows :
    (fate : Fate) (token : Text) (id : ℕ) (rows : List Row)
    → Follows rows (mark_one fate token id rows).0
unfolding mark_one
mark_one-Follows fate token id rows = carried_out-Follows fate rows _ _ (
    update_owned-Follows _ publish_row rows
      λ row e. publish-Since token row (both_right (nat_beq row.id id) (owned token row) e))
  where
    both_right : (a c : Bool) → (a && c) ≡ true → c ≡ true
    both_right a c h = ground arith

mark_each-Follows :
    (fate : Fate) (token : Text) (ids : List ℕ) (rows : List Row)
    → Follows rows (mark_each fate token ids rows).0
unfolding mark_each
mark_each-Follows fate token [] rows = Follows-refl rows
mark_each-Follows fate token (id ∷ ids) rows =
    let (rows', done) = mark_one fate token id rows in
    let first = mark_one-Follows fate token id rows in
    elim (Result-cases (mark_one fate token id rows).1) [
      | inl (a, e) ↦
          rw (e, mark_each)
            (Follows-trans rows rows' _ first (mark_each-Follows fate token ids rows'))
      | inr (x, e) ↦ rw (e, mark_each) first
    ]

pub mark_published-Follows :
    (fate : Fate) (token : Text) (ids : List ℕ) (rows : List Row)
    → Follows rows (mark_published fate token ids rows).0
unfolding mark_published
mark_published-Follows fate token [] rows = Follows-refl rows
mark_published-Follows fate token (id ∷ ids) rows =
    elim (Bool-cases (is_empty (trim_space token))) [
      | inl e ↦ rw e (Follows-refl rows)
      | inr e ↦ rw e (mark_each-Follows fate token (id ∷ ids) rows)
    ]

pub mark_retry-Follows :
    (fate : Fate) (token : Text) (at : ℕ) (is_dead : Bool) (rows : List Row)
    → Follows rows (mark_retry fate token at is_dead rows).0
unfolding mark_retry
mark_retry-Follows fate token at is_dead rows = elim (Bool-cases (is_empty (trim_space token))) [
  | inl e ↦ rw e (Follows-refl rows)
  | inr e ↦ rw e (
      carried_out-Follows fate rows _ _
        (update_owned-Follows (owned token) _ rows (release-Since token is_dead at)))
]
