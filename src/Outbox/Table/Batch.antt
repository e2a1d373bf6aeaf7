-- ===== src/Outbox/Table/Batch.antt =====
-- A claim that succeeds, in full.
use codex_go_web_api.Prelude.{
  ℕ, zero, suc, ◌+◌, ◌≤◌, ◌≡◌, ◌<◌, refl, sym, ap, subst, ◌∙◌, nat_eq, Bool, true, false, not, ◌&&◌,
  Option, none, some, List, [], ◌∷◌, map, arith, select, take, length, if◌then◌else◌, All, All-map,
  take-All, select-All, Text,
}
use codex_go_web_api.Prelude.Outcome.{ok}
use codex_go_web_api.Database.{works}
use codex_go_web_api.Outbox.Table.{
  Row, Status, pending, publishing, published, dead, ClaimedEvent, claimable, selected, claim_batch,
}
use codex_go_web_api.Outbox.Table.Claims.{id_in, Keyed, claim_batch_lem, length-map}
use codex_go_web_api.Outbox.Worker.Batches.{selected-id_in}

-- Pending and available, or left publishing without a lock or with one that has run out.
pub data Open (now : ℕ) (row : Row) : Type 0 where
  available : row.status ≡ pending → row.available_at ≤ now → Open now row
  unlocked : row.status ≡ publishing → row.locked_until ≡ none → Open now row
  run_out : (t : ℕ) → row.status ≡ publishing → row.locked_until ≡ some t → t ≤ now → Open now row

module _ (now : ℕ) (row : Row) where
  claimable-Open : claimable now row ≡ true → Open now row
  unfolding claimable
  claimable-Open h = cases row.status row.locked_until refl refl h
    where
      cases :
          (s : Status) (lock : Option ℕ)
          → row.status ≡ s
          → row.locked_until ≡ lock
          → claimable now row ≡ true
          → Open now row
      cases pending lock e l h = available e (ground (arith, e, h))
      cases publishing none e l h = unlocked e l
      cases publishing (some t) e l h = run_out t e l (ground (arith, e, l, h))
      cases published lock e l h = absurd (ground (arith, e, h))
      cases dead lock e l h = absurd (ground (arith, e, h))

  Open-claimable : Open now row → claimable now row ≡ true
  unfolding claimable
  Open-claimable (available e q) = ground (arith, e, q)
  Open-claimable (unlocked e l) = ground (arith, e, l)
  Open-claimable (run_out t e l q) = ground (arith, e, l, q)

take-short : (n : ℕ) (l : List Row) → length (take n l) < n → take n l ≡ l
take-short zero l h = absurd (omega (arith, h))
take-short (suc n) [] h = refl
take-short (suc n) (x ∷ l) h = ap (λ m. x ∷ m) (take-short n l (omega (arith, h)))

id_in-select :
    (p : Row → Bool) (l : List Row) → All (λ row. p row ≡ true → id_in row.id (select p l) ≡ true) l
id_in-select p [] = tt
id_in-select p (x ∷ l) = (
  λ e. ground (arith, e),
  All-map (λ row. p row ≡ true → id_in row.id (select p l) ≡ true) _ l
      (λ row h e. ground (arith, h e)) (id_in-select p l),
)

-- What a claim did: the rows `xs` of the table are those it took.
pub record Claimed (skipped : ℕ → Bool) (token : Text) (now limit lock_for : ℕ)
    (rows after : List Row) (events : List ClaimedEvent) (xs : List Row) : Type 0 where
  pub in_table : select (λ row. id_in row.id xs) rows ≡ xs
  pub at_most : length xs ≤ limit
  pub all_open : All (λ row. Open now row × (skipped row.id ≡ false)) xs
  pub all_if_room :
      length xs < limit
      → All (λ row. Open now row → skipped row.id ≡ false → id_in row.id xs ≡ true) rows
  pub answer :
      events
      ≡ map
          (λ (row : Row). record {
            id = row.id;
            event = row.event;
            lock_token = token;
            attempts = row.attempts + 1;
          })
          xs
  pub stored :
      after
      ≡ map
          (λ (row : Row).
            if id_in row.id xs
            then record row {
              status = publishing;
              attempts = row.attempts + 1;
              locked_until = some (now + lock_for);
              lock_token = some token;
            }
            else row)
          rows

module _ (skipped : ℕ → Bool) (now limit : ℕ) where
  abbrev passes : Row → Bool
  passes row = claimable now row && not (skipped row.id)

  selected-open :
      (rows : List Row)
      → All (λ row. Open now row × (skipped row.id ≡ false)) (selected skipped now limit rows)
  unfolding selected
  selected-open rows = take-All _ limit _ (
      All-map (λ row. passes row ≡ true) _ _
        (λ row h. (claimable-Open now row (ground (arith, h)), ground (arith, h)))
        (select-All passes rows))

  selected-all :
      (rows : List Row)
      → length (selected skipped now limit rows) < limit
      → All
          (λ row.
            Open now row
            → skipped row.id ≡ false
            → id_in row.id (selected skipped now limit rows) ≡ true)
          rows
  unfolding selected
  selected-all rows short =
      subst (λ l. All (λ row. Open now row → skipped row.id ≡ false → id_in row.id l ≡ true) rows)
        (sym (take-short limit (select passes rows) short))
        (All-map (λ row. passes row ≡ true → id_in row.id (select passes rows) ≡ true) _ rows
          (λ row h o free. h (ground (arith, Open-claimable now row o, free)))
          (id_in-select passes rows))

-- A claim that succeeds on a table with a primary key takes at most `limit` of the table's rows, each
-- pending and available, or left publishing with no lock or with one that has run out, and held by
-- no other transaction; if it takes fewer, it takes all such rows. It answers with their events, with
-- one attempt more, and in the table these rows are publishing with one attempt more, the claim's
-- token and the end of its lock, and every other row stays as it was.
pub claim_batch-Claimed :
    (skipped : ℕ → Bool) (token : Text) (now limit lock_for b : ℕ) (rows after : List Row)
    (events : List ClaimedEvent)
    → Keyed b rows
    → claim_batch works skipped token now limit lock_for rows ≡ (after, ok events)
    → (xs : List Row) × Claimed skipped token now limit lock_for rows after events xs
claim_batch-Claimed skipped token now limit lock_for b rows after events k e =
    let (answer, at_most, stored) =
      claim_batch_lem skipped token now limit lock_for b rows after events k e in
    (
      selected skipped now limit rows,
      record {
        in_table = selected-id_in skipped now limit b rows k;
        at_most =
            subst (λ n. n ≤ limit)
              (ap length answer ∙ length-map token (selected skipped now limit rows)) at_most;
        all_open = selected-open skipped now limit rows;
        all_if_room = selected-all skipped now limit rows;
        answer = answer;
        stored = stored;
      },
    )
