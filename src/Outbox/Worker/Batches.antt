-- ===== src/Outbox/Worker/Batches.antt =====
-- What one failed event does to its batch: all events of a claim share one lock token, and MarkRetry
-- updates by that token alone.
use codex_go_web_api.Prelude.{
  ℕ, zero, suc, ◌+◌, ◌<◌, ◌≡◌, refl, sym, ap, subst, nat_eq, ◌∙◌, Bool, true, false, List, [], ◌∷◌,
  map, arith, select, select-cong, take, All, All-map, Bool-cases, inl, inr, Text, ==_refl, text_eq,
}
use codex_go_web_api.Prelude.Outcome.{ok}
use codex_go_web_api.Database.{works}
use codex_go_web_api.Outbox.Table.{
  Row, ClaimedEvent, selected, lock_row, claimed_event, claim_batch, owned,
}
use codex_go_web_api.Outbox.Table.Claims.{
  id_in, Keyed, Keyed-take, Keyed-select, lock_if, id_in-below, lock_all-map, selected-Keyed,
}
use codex_go_web_api.Outbox.Worker.{Publisher, World, settle_each, publish_once}

pub Above : (b : ℕ) (rows : List Row) → Keyed b rows → All (λ row. b < row.id) rows
Above b [] k = tt
Above b (row ∷ rows) k = (
  k.0,
  All-map (λ r. row.id < r.id) (λ r. b < r.id) rows (λ r h. omega (arith, k.0))
      (Above row.id rows k.1),
)

abbrev Found : List Row → List Row → Type 0
Found xs rows = select (λ row. id_in row.id xs) rows ≡ xs

Found-skip :
    (x : Row) (t rows : List Row) → id_in x.id t ≡ false → Found t rows → Found t (x ∷ rows)
Found-skip x t rows h f = rw h f

Found-cons :
    (x : Row) (t rows : List Row)
    → All (λ r. x.id < r.id) rows
    → Found t rows
    → Found (x ∷ t) (x ∷ rows)
Found-cons x t rows a f = rw (==_refl x.id) (
    ap (λ l. x ∷ l)
      (select-cong (λ row. id_in row.id (x ∷ t)) (λ row. id_in row.id t) rows
          (All-map (λ r. x.id < r.id) _ rows (λ r h. ground (arith, h)) a)
        ∙ f))

-- The rows whose IDs a query with a limit returned are those that it returned.
select-id_in :
    (p : Row → Bool) (n b : ℕ) (rows : List Row)
    → Keyed b rows
    → select (λ row. id_in row.id (take n (select p rows))) rows ≡ take n (select p rows)
select-id_in p zero b [] k = refl
select-id_in p (suc n) b [] k = refl
select-id_in p zero b (x ∷ rows) k = select-id_in p zero x.id rows k.1
select-id_in p (suc n) b (x ∷ rows) k = elim (Bool-cases (p x)) [
  | inl e ↦
      let first : select p (x ∷ rows) ≡ x ∷ select p rows = rw e in
      subst (λ l. Found (take (suc n) l) (x ∷ rows)) (sym first)
        (Found-cons x (take n (select p rows)) rows (Above x.id rows k.1)
          (select-id_in p n x.id rows k.1))
  | inr e ↦
      let rest : select p (x ∷ rows) ≡ select p rows = rw e in
      subst (λ l. Found (take (suc n) l) (x ∷ rows)) (sym rest)
        (Found-skip x (take (suc n) (select p rows)) rows
          (id_in-below x.id x.id _ (Keyed-take (suc n) x.id _ (Keyed-select p x.id rows k.1))
            (omega arith))
          (select-id_in p (suc n) x.id rows k.1))
]

module _ (token : Text) (until : ℕ) (xs : List Row) where
  abbrev pub Unowned : Row → Type 0
  Unowned row = owned token row ≡ false

  owned-lock_row : (row : Row) → owned token (lock_row token until row) ≡ true
  unfolding owned
  owned-lock_row row = ==_refl token

  pub owned-lock_if :
      (row : Row) → Unowned row → owned token (lock_if token until xs row) ≡ id_in row.id xs
  owned-lock_if row u = ground (arith, owned-lock_row row)

pub claim_batch-works :
    (skipped : ℕ → Bool) (token : Text) (now limit lock_for b : ℕ) (rows : List Row)
    → 0 < limit
    → 0 < lock_for
    → Keyed b rows
    → let xs = selected skipped now limit rows in
      claim_batch works skipped token now limit lock_for rows
      ≡ (map (lock_if token (now + lock_for) xs) rows, ok (map (claimed_event token) xs))
unfolding claim_batch
claim_batch-works skipped token now zero lock_for b rows l d k = absurd (omega arith)
claim_batch-works skipped token now (suc limit) zero b rows l d k = absurd (omega arith)
claim_batch-works skipped token now (suc limit) (suc lock_for) b rows l d k =
    ap (λ t. (t, ok (map (claimed_event token) (selected skipped now (suc limit) rows))))
      (lock_all-map token (now + suc lock_for) b _ rows
        (selected-Keyed skipped now (suc limit) b rows k))

pub selected-id_in :
    (skipped : ℕ → Bool) (now limit b : ℕ) (rows : List Row)
    → Keyed b rows
    → select (λ row. id_in row.id (selected skipped now limit rows)) rows
      ≡ selected skipped now limit rows
unfolding selected
selected-id_in skipped now limit b rows k = select-id_in _ limit b rows k

pub publish_once-claimed :
    (p : Publisher) (w : World) (rows rows' : List Row) (items : List ClaimedEvent)
    → claim_batch w.claims w.skipped w.token w.now p.batch_size p.lock_for rows ≡ (rows', ok items)
    → publish_once p w rows ≡ settle_each p w items rows'
unfolding publish_once
publish_once-claimed p w rows rows' items e =
    rw (e, publish_once) (ap (λ t. settle_each p w items t.0) e)
