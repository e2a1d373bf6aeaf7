-- ===== src/Outbox/Table/Claims.antt =====
-- What a claim does: it locks the rows that it returns, and no others, for its lock duration.
use codex_go_web_api.Prelude.{
  ℕ, zero, suc, ◌+◌, ◌≤◌, ◌<◌, ◌≡◌, refl, sym, ap, ◌∙◌, Bool, true, false, ◌||◌, List, [], ◌∷◌, map,
  arith, select, take, length, nat_beq, if◌then◌else◌, Text,
}
use codex_go_web_api.Prelude.Outcome.{ok}
use codex_go_web_api.Database.{works}
use codex_go_web_api.Outbox.Table.{
  Row, ClaimedEvent, claimable, selected, lock_row, update_id, lock_all, claimed_event, claim_batch,
}

abbrev pub id_in : ℕ → List Row → Bool
id_in id [] = false
id_in id (x ∷ xs) = nat_beq x.id id || id_in id xs

-- The primary key: IDs rise along the table, from above `b`.
abbrev pub Keyed : ℕ → List Row → Type 0
Keyed b [] = Unit
Keyed b (row ∷ rows) = (b < row.id) × Keyed row.id rows

abbrev pub lock_if : Text → ℕ → List Row → Row → Row
lock_if token until xs row = if id_in row.id xs then lock_row token until row else row

Keyed-weaken : (b c : ℕ) (l : List Row) → c ≤ b → Keyed b l → Keyed c l
Keyed-weaken b c [] q h = tt
Keyed-weaken b c (x ∷ l) q h = (omega arith, h.1)

pub Keyed-select : (p : Row → Bool) (b : ℕ) (l : List Row) → Keyed b l → Keyed b (select p l)
Keyed-select p b [] h = tt
Keyed-select p b (x ∷ l) h =
    ground (arith, Keyed-select p x.id l h.1, Keyed-weaken x.id b (select p l))

pub Keyed-take : (n b : ℕ) (l : List Row) → Keyed b l → Keyed b (take n l)
Keyed-take zero b l h = tt
Keyed-take (suc n) b [] h = tt
Keyed-take (suc n) b (x ∷ l) h = (h.0, Keyed-take n x.id l h.1)

pub id_in-below : (id b : ℕ) (l : List Row) → Keyed b l → id ≤ b → id_in id l ≡ false
id_in-below id b [] h q = refl
id_in-below id b (x ∷ l) h q = ground (arith, id_in-below id x.id l h.1)

map-lock_if :
    (token : Text) (until : ℕ) (x : Row) (xs rows : List Row)
    → id_in x.id xs ≡ false
    → map (lock_if token until xs) (update_id x.id (lock_row token until) rows)
      ≡ map (lock_if token until (x ∷ xs)) rows
unfolding update_id
map-lock_if token until x xs [] h = refl
map-lock_if token until x xs (row ∷ rows) h = ground (arith, map-lock_if token until x xs rows h)

map-lock_none :
    (token : Text) (until : ℕ) (rows : List Row) → map (lock_if token until []) rows ≡ rows
map-lock_none token until [] = refl
map-lock_none token until (row ∷ rows) = ap (λ l. row ∷ l) (map-lock_none token until rows)

-- The loop of UPDATEs locks each row once if the IDs are distinct.
pub lock_all-map :
    (token : Text) (until b : ℕ) (xs rows : List Row)
    → Keyed b xs
    → lock_all token until xs rows ≡ map (lock_if token until xs) rows
unfolding lock_all
lock_all-map token until b [] rows h = sym (map-lock_none token until rows)
lock_all-map token until b (x ∷ xs) rows h =
    lock_all-map token until x.id xs (update_id x.id (lock_row token until) rows) h.1
    ∙ map-lock_if token until x xs rows (id_in-below x.id x.id xs h.1 (omega arith))

pub selected-Keyed :
    (skipped : ℕ → Bool) (now limit b : ℕ) (rows : List Row)
    → Keyed b rows
    → Keyed b (selected skipped now limit rows)
unfolding selected
selected-Keyed skipped now limit b rows h = Keyed-take limit b _ (Keyed-select _ b rows h)

length-take-le : (n : ℕ) (l : List Row) → length (take n l) ≤ n
length-take-le zero l = omega arith
length-take-le (suc n) [] = omega arith
length-take-le (suc n) (x ∷ l) = omega (arith, length-take-le n l)

length-selected-le :
    (skipped : ℕ → Bool) (now limit : ℕ) (rows : List Row)
    → length (selected skipped now limit rows) ≤ limit
unfolding selected
length-selected-le skipped now limit rows = length-take-le limit _

pub length-map : (token : Text) (l : List Row) → length (map (claimed_event token) l) ≡ length l
length-map token [] = refl
length-map token (x ∷ l) = ap suc (length-map token l)

pub claim_batch_lem :
    (skipped : ℕ → Bool) (token : Text) (now limit lock_for b : ℕ) (rows after : List Row)
    (events : List ClaimedEvent)
    → Keyed b rows
    → claim_batch works skipped token now limit lock_for rows ≡ (after, ok events)
    → let xs = selected skipped now limit rows in
      (events ≡ map (claimed_event token) xs)
      × (length events ≤ limit)
      × (after ≡ map (lock_if token (now + lock_for) xs) rows)
unfolding claim_batch
claim_batch_lem skipped token now zero lock_for b rows after events h e = cc
claim_batch_lem skipped token now (suc limit) zero b rows after events h e = cc
claim_batch_lem skipped token now (suc limit) (suc lock_for) b rows after events h e = (
  sym got,
  omega
      (arith, ap length got, length-map token xs, length-selected-le skipped now (suc limit) rows),
  sym stored
      ∙ lock_all-map token (now + suc lock_for) b xs rows
          (selected-Keyed skipped now (suc limit) b rows h),
)
  where
    xs : List Row
    xs = selected skipped now (suc limit) rows

    got : map (claimed_event token) xs ≡ events
    got = ground arith

    stored : lock_all token (now + suc lock_for) xs rows ≡ after
    stored = ground arith

-- A row that is locked until after `now` is not claimable.
locked-not-claimable :
    (token : Text) (until now : ℕ) (row : Row)
    → now < until
    → claimable now (lock_row token until row) ≡ false
unfolding claimable
locked-not-claimable token until now row h = ground arith

select-none :
    (p : Row → Bool) (token : Text) (until : ℕ) (xs : List Row) (id : ℕ) (rows : List Row)
    → ((row : Row) → p (lock_row token until row) ≡ false)
    → id_in id xs ≡ true
    → id_in id (select p (map (lock_if token until xs) rows)) ≡ false
select-none p token until xs id [] h m = refl
select-none p token until xs id (row ∷ rows) h m =
    ground (arith, h row, select-none p token until xs id rows h m)

id_in-take : (id n : ℕ) (l : List Row) → id_in id l ≡ false → id_in id (take n l) ≡ false
id_in-take id zero l h = refl
id_in-take id (suc n) [] h = refl
id_in-take id (suc n) (x ∷ l) h = ground (arith, id_in-take id n l)

-- On a table with a primary key, while the lock of a successful claim runs, another claim on the
-- table that it left selects none of the rows that the first one selected, whatever its limit and
-- the row locks it meets are.
pub claims-disjoint :
    (skipped other : ℕ → Bool) (token : Text) (now limit lock_for later limit' id b : ℕ)
    (rows after : List Row) (events : List ClaimedEvent)
    → Keyed b rows
    → claim_batch works skipped token now limit lock_for rows ≡ (after, ok events)
    → later < now + lock_for
    → id_in id (selected skipped now limit rows) ≡ true
    → id_in id (selected other later limit' after) ≡ false
unfolding selected
claims-disjoint skipped other token now limit lock_for later limit' id b rows after events k e t m =
    rw ((claim_batch_lem skipped token now limit lock_for b rows after events k e).2) (
      id_in-take id limit' _ (
        select-none _ token (now + lock_for) (selected skipped now limit rows) id rows
          (λ row. ground (arith, locked-not-claimable token (now + lock_for) later row t)) m))
