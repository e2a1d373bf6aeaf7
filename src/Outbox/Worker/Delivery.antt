-- ===== src/Outbox/Worker/Delivery.antt =====
-- One cycle whose broker and database work.
use codex_go_web_api.Prelude.{
  ℕ, ◌+◌, ◌≤◌, ◌<◌, ◌≡◌, refl, sym, ap, nat_eq, ◌∙◌, Bool, true, false, ◌&&◌, List, [], ◌∷◌, map,
  arith, select, length, nat_beq, if◌then◌else◌, All, All-map, All-both, Text, is_empty, trim_space,
  text_eq,
}
use codex_go_web_api.Prelude.Outcome.{ok}
use codex_go_web_api.Database.{works}
use codex_go_web_api.Outbox.Table.{
  Row, ClaimedEvent, selected, lock_row, claimed_event, claim_batch, publish_row, owned,
  update_owned, affected, mark_one, mark_each, mark_published,
}
use codex_go_web_api.Outbox.Table.Claims.{id_in, Keyed, lock_if, selected-Keyed}
use codex_go_web_api.Outbox.Worker.{Publisher, World, settle, settle_each, publish_once}
use codex_go_web_api.Outbox.Worker.Batches.{
  Unowned, Above, owned-lock_if, claim_batch-works, selected-id_in, publish_once-claimed,
}

-- A world in which, from the time `t` on, nothing fails and no other transaction holds a row.
pub record Works (t : ℕ) (p : Publisher) (w : World) : Type 0 where
  pub batch : 0 < p.batch_size
  pub lock : 0 < p.lock_for
  pub late : t ≤ w.now
  pub claims : w.claims ≡ works
  pub full : is_empty (trim_space w.token) ≡ false
  pub skipped : (id : ℕ) → w.skipped id ≡ false
  pub confirms : (item : ClaimedEvent) → w.confirms item ≡ true
  pub marks : (item : ClaimedEvent) → w.marks item ≡ works

settle_each-ok :
    (p : Publisher) (w : World) (item : ClaimedEvent) (items : List ClaimedEvent)
    (rows rows' : List Row)
    → settle p w item rows ≡ (rows', ok tt)
    → settle_each p w (item ∷ items) rows ≡ settle_each p w items rows'
unfolding settle_each
settle_each-ok p w item items rows rows' e =
    rw (e, settle_each) (ap (λ t. settle_each p w items t.0) e)

module _ (token : Text) where
  abbrev mine : ℕ → Row → Bool
  mine id row = nat_beq row.id id && owned token row

  abbrev published_if : List Row → Row → Row
  published_if zs row = if id_in row.id zs && owned token row then publish_row row else row

  abbrev Once : List Row → Row → Type 0
  Once rows z = affected (mine z.id) rows ≡ 1

  publish_row-owned : (row : Row) → owned token (publish_row row) ≡ false
  unfolding owned
  publish_row-owned row = refl

  update_owned-published :
      (z : Row) (zs rows : List Row)
      → map (published_if zs) (update_owned (mine z.id) publish_row rows)
        ≡ map (published_if (z ∷ zs)) rows
  unfolding update_owned
  update_owned-published z zs [] = refl
  update_owned-published z zs (row ∷ rows) =
      ground (arith, publish_row-owned row, update_owned-published z zs rows)

  published_none : (rows : List Row) → map (published_if []) rows ≡ rows
  published_none [] = refl
  published_none (row ∷ rows) = ap (λ l. row ∷ l) (published_none rows)

  affected-other :
      (z : Row) (id : ℕ) (rows : List Row)
      → z.id < id
      → affected (mine id) (update_owned (mine z.id) publish_row rows) ≡ affected (mine id) rows
  unfolding affected update_owned
  affected-other z id [] l = refl
  affected-other z id (row ∷ rows) l =
      ground (arith, publish_row-owned row, affected-other z id rows l)

  mark_each-once :
      (id : ℕ) (rows : List Row)
      → affected (mine id) rows ≡ 1
      → mark_each works token (id ∷ []) rows ≡ (update_owned (mine id) publish_row rows, ok tt)
  unfolding mark_each mark_one
  mark_each-once id rows once = rw (once, mark_each) refl

  settle-Works :
      (t : ℕ) (p : Publisher) (w : World) (z : Row) (rows : List Row)
      → Works t p w
      → is_empty (trim_space token) ≡ false
      → Once rows z
      → settle p w (claimed_event token z) rows ≡ (update_owned (mine z.id) publish_row rows, ok tt)
  unfolding settle mark_published
  settle-Works t p w z rows good full once =
      rw (good.confirms (claimed_event token z), good.marks (claimed_event token z), full)
        (mark_each-once z.id rows once)

  settle_each-Works :
      (t : ℕ) (p : Publisher) (w : World) (b : ℕ) (zs rows : List Row)
      → Works t p w
      → is_empty (trim_space token) ≡ false
      → Keyed b zs
      → All (Once rows) zs
      → settle_each p w (map (claimed_event token) zs) rows ≡ (map (published_if zs) rows, ok tt)
  unfolding settle_each
  settle_each-Works t p w b [] rows good full k o = ap (λ l. (l, ok tt)) (sym (published_none rows))
  settle_each-Works t p w b (z ∷ zs) rows good full k o =
      settle_each-ok p w (claimed_event token z) _ rows _ (settle-Works t p w z rows good full o.0)
      ∙ (settle_each-Works t p w z.id zs (update_owned (mine z.id) publish_row rows) good full k.1 (
            All-map (λ r. (z.id < r.id) × Once rows r) _ zs
              (λ r h. affected-other z r.id rows h.0 ∙ h.1)
              (All-both _ _ zs (Above z.id zs k.1) o.1))
          ∙ ap (λ l. (l, ok tt)) (update_owned-published z zs rows))

  module _ (until : ℕ) (xs : List Row) where
    affected-locked :
        (id : ℕ) (rows : List Row)
        → All (Unowned token until xs) rows
        → affected (mine id) (map (lock_if token until xs) rows)
          ≡ length (select (λ row. nat_beq row.id id) (select (λ row. id_in row.id xs) rows))
    unfolding affected
    affected-locked id [] u = refl
    affected-locked id (row ∷ rows) u =
        ground (arith, owned-lock_if token until xs row u.0, affected-locked id rows u.1)

    published-locked :
        (rows : List Row)
        → All (Unowned token until xs) rows
        → map (published_if xs) (map (lock_if token until xs) rows)
          ≡ map
              (λ row. if id_in row.id xs then publish_row (lock_row token until row) else row)
              rows
    published-locked [] u = refl
    published-locked (row ∷ rows) u =
        ground (arith, owned-lock_if token until xs row u.0, published-locked rows u.1)

select-below :
    (id b : ℕ) (l : List Row)
    → Keyed b l
    → id ≤ b
    → length (select (λ row. nat_beq row.id id) l) ≡ 0
select-below id b [] k q = refl
select-below id b (x ∷ l) k q = ground (arith, select-below id x.id l k.1)

Keyed-once :
    (b : ℕ) (l : List Row)
    → Keyed b l
    → All (λ z. length (select (λ row. nat_beq row.id z.id) l) ≡ 1) l
Keyed-once b [] k = tt
Keyed-once b (x ∷ l) k = (
  ground (arith, select-below x.id x.id l k.1),
  All-map _ _ l (λ z h. ground arith) (All-both _ _ l (Above x.id l k.1) (Keyed-once x.id l k.1)),
)

-- A cycle in which neither the database nor the broker fails and no other transaction holds a row,
-- under a token that no row has: every row that its claim selects is published, with one more
-- attempt and no lock, every other row stays as it was, and the cycle ends without an error.
pub publish_once-Works :
    (t : ℕ) (p : Publisher) (w : World) (b : ℕ) (rows : List Row)
    → Works t p w
    → Keyed b rows
    → All (λ row. owned w.token row ≡ false) rows
    → publish_once p w rows ≡ (
      map
          (λ row.
            if id_in row.id (selected w.skipped w.now p.batch_size rows)
            then publish_row (lock_row w.token (w.now + p.lock_for) row)
            else row)
          rows,
      ok tt,
    )
publish_once-Works t p w b rows good k u =
    publish_once-claimed p w rows _ _ claimed
    ∙ settle_each-Works w.token t p w b xs locked good good.full
        (selected-Keyed w.skipped w.now p.batch_size b rows k) once
    ∙ ap (λ l. (l, ok tt)) (published-locked w.token (w.now + p.lock_for) xs rows u)
  where
    xs : List Row
    xs = selected w.skipped w.now p.batch_size rows

    locked : List Row
    locked = map (lock_if w.token (w.now + p.lock_for) xs) rows

    claimed :
        claim_batch w.claims w.skipped w.token w.now p.batch_size p.lock_for rows
        ≡ (locked, ok (map (claimed_event w.token) xs))
    claimed = rw good.claims (
        claim_batch-works w.skipped w.token w.now p.batch_size p.lock_for b rows good.batch
          good.lock k)

    once : All (Once w.token locked) xs
    once =
        All-map _ _ xs
          (λ z h.
            affected-locked w.token (w.now + p.lock_for) xs z.id rows u
            ∙ ap (λ l. length (select (λ row. nat_beq row.id z.id) l))
                (selected-id_in w.skipped w.now p.batch_size b rows k)
            ∙ h)
          (Keyed-once b xs (selected-Keyed w.skipped w.now p.batch_size b rows k))
