-- ===== src/Outbox/Worker/Draining.antt =====
-- Cycles that work, one after the other, until no event is left to publish.
use codex_go_web_api.Prelude.{
  ℕ, zero, suc, ◌+◌, ◌≤◌, ◌<◌, ◌≡◌, refl, sym, ap, subst, ◌∙◌, Bool, true, false, ◌&&◌, ◌||◌, not,
  List, [], ◌∷◌, map, arith, select, select-cong, take, length, if◌then◌else◌, All, All-map,
  take-All, select-All, Bool-cases, inl, inr, ltb, ltb→lt,
}
use codex_go_web_api.Outbox.Table.{
  Row, Status, published, claimable, selected, lock_row, publish_row, owned,
}
use codex_go_web_api.Outbox.Table.Claims.{id_in, Keyed}
use codex_go_web_api.Outbox.Table.Settled.{Follows, Follows-Keyed}
use codex_go_web_api.Outbox.Worker.{Publisher, World, publish_once}
use codex_go_web_api.Outbox.Worker.Batches.{selected-id_in}
use codex_go_web_api.Outbox.Worker.Cycle.{cycles, publish_once-Follows}
use codex_go_web_api.Outbox.Worker.Delivery.{Works, publish_once-Works}

abbrev pub is_published : Status → Bool
is_published published = true
is_published _ = false

-- What is still to publish.
abbrev pub waiting : Row → Bool
waiting row = not (is_published row.status)

-- Published, or open to a claim from the time `t` on: pending and available, or left behind locked by
-- a publisher that stopped, with a lock that has run out.
abbrev pub Due : ℕ → Row → Type 0
Due t row = (is_published row.status || claimable t row) ≡ true

abbrev pub Fresh : List Row → Publisher × World → Type 0
Fresh rows c = All (λ row. owned c.1.token row ≡ false) rows

Due-later : (t now : ℕ) (row : Row) → t ≤ now → Due t row → claimable now row ≡ waiting row
unfolding claimable
Due-later t now row l d = ground arith

select-Due :
    (t now : ℕ) (skipped : ℕ → Bool) (rows : List Row)
    → t ≤ now
    → ((id : ℕ) → skipped id ≡ false)
    → All (Due t) rows
    → select (λ row. claimable now row && not (skipped row.id)) rows ≡ select waiting rows
select-Due t now skipped rows l free d =
    select-cong _ waiting rows
      (All-map (Due t) _ rows (λ row h. ground (arith, Due-later t now row l h, free row.id)) d)

map-All :
    (P Q : Row → Type 0) (f : Row → Row) (l : List Row)
    → ((row : Row) → P row → Q (f row))
    → All P l
    → All Q (map f l)
map-All P Q f [] g h = tt
map-All P Q f (x ∷ l) g h = (g x h.0, map-All P Q f l g h.1)

select-true :
    (p : Row → Bool) (x : Row) (l : List Row) → p x ≡ true → select p (x ∷ l) ≡ x ∷ select p l
select-true p x l e = rw e refl

select-false :
    (p : Row → Bool) (x : Row) (l : List Row) → p x ≡ false → select p (x ∷ l) ≡ select p l
select-false p x l e = rw e refl

-- Changing the chosen waiting rows into published ones leaves so many fewer.
fewer-waiting :
    (p : Row → Bool) (f : Row → Row) (rows : List Row)
    → ((row : Row) → (f row).status ≡ published)
    → All (λ row. waiting row ≡ true) (select p rows)
    → length (select waiting (map (λ row. if p row then f row else row) rows))
        + length (select p rows)
      ≡ length (select waiting rows)
fewer-waiting p f [] h a = refl
fewer-waiting p f (row ∷ rows) h a = elim (Bool-cases (p row)) [
  | inl e ↦
      let chosen : All (λ r. waiting r ≡ true) (row ∷ select p rows) =
        subst (All (λ r. waiting r ≡ true)) (select-true p row rows e) a in
      ground (arith, e, h row, chosen.0, fewer-waiting p f rows h chosen.1)
  | inr e ↦
      let others : All (λ r. waiting r ≡ true) (select p rows) =
        subst (All (λ r. waiting r ≡ true)) (select-false p row rows e) a in
      ground (arith, e, fewer-waiting p f rows h others)
]

some-taken : (n : ℕ) (l : List Row) → 0 < n → 0 < length l → 0 < length (take n l)
some-taken zero l h k = absurd (omega arith)
some-taken (suc n) [] h k = absurd (omega arith)
some-taken (suc n) (x ∷ l) h k = omega arith

module _ (t : ℕ) (p : Publisher) (w : World) (b : ℕ) (rows : List Row) (works : Works t p w)
    (k : Keyed b rows) (d : All (Due t) rows) (u : Fresh rows (p, w)) where
  abbrev chosen : List Row
  chosen = selected w.skipped w.now p.batch_size rows

  abbrev after_cycle : Row → Row
  after_cycle row =
      if id_in row.id chosen then publish_row (lock_row w.token (w.now + p.lock_for) row) else row

  cycle-rows : (publish_once p w rows).0 ≡ map after_cycle rows
  cycle-rows = ap (λ o. o.0) (publish_once-Works t p w b rows works k u)

  chosen-waiting : chosen ≡ take p.batch_size (select waiting rows)
  unfolding selected
  chosen-waiting =
      ap (take p.batch_size) (select-Due t w.now w.skipped rows works.late works.skipped d)

  cycle-fewer :
      length (select waiting (map after_cycle rows)) + length chosen ≡ length (select waiting rows)
  cycle-fewer =
      ap (λ l. length (select waiting (map after_cycle rows)) + length l) (sym found)
      ∙ fewer-waiting (λ row. id_in row.id chosen)
          (λ row. publish_row (lock_row w.token (w.now + p.lock_for) row)) rows (λ row. refl)
          (subst (All (λ row. waiting row ≡ true)) (sym (found ∙ chosen-waiting))
            (take-All _ p.batch_size _ (select-All waiting rows)))
    where
      found : select (λ row. id_in row.id chosen) rows ≡ chosen
      found = selected-id_in w.skipped w.now p.batch_size b rows k

  cycle-progress :
      (n : ℕ)
      → length (select waiting rows) ≤ suc n
      → length (select waiting (map after_cycle rows)) ≤ n
  cycle-progress n h = elim (Bool-cases (ltb 0 (length (select waiting rows)))) [
    | inl e ↦
        let some = some-taken p.batch_size (select waiting rows) works.batch (ltb→lt 0 _ e) in
        omega (arith, cycle-fewer, ap length chosen-waiting, some, h)
    | inr e ↦ ground (arith, cycle-fewer, e)
  ]

  cycle-Due : All (Due t) (map after_cycle rows)
  cycle-Due = map-All (Due t) (Due t) after_cycle rows (λ row h. ground (arith, h)) d

  cycle-Fresh : (c : Publisher × World) → Fresh rows c → Fresh (map after_cycle rows) c
  unfolding owned
  cycle-Fresh c f =
      map-All (λ row. owned c.1.token row ≡ false) (λ row. owned c.1.token row ≡ false) after_cycle
        rows (λ row h. ground (arith, h)) f

none-waiting :
    (rows : List Row) → length (select waiting rows) ≤ 0 → All (λ row. row.status ≡ published) rows
none-waiting [] h = tt
none-waiting (row ∷ rows) h = (ground (arith, h), none-waiting rows (ground (arith, h)))

-- On a table with a primary key, whose rows are all published or can be claimed from the time `t`
-- on, let publishers run cycles after `t` in which neither the database nor the broker fails and no
-- other transaction holds a row, under tokens that no row has at the start. After as many cycles as
-- there were rows to publish, every row is published, whatever the sizes of the batches.
pub cycles-publish_all :
    (t b : ℕ) (rows : List Row) (cs : List (Publisher × World))
    → Keyed b rows
    → All (Due t) rows
    → All (λ c. Works t c.0 c.1) cs
    → All (Fresh rows) cs
    → length (select waiting rows) ≤ length cs
    → All (λ row. row.status ≡ published) (cycles cs rows)
unfolding cycles
cycles-publish_all t b rows [] k d works u h = none-waiting rows h
cycles-publish_all t b rows ((p, w) ∷ cs) k d works u h =
    let next = map (after_cycle t p w b rows works.0 k d u.0) rows in
    subst (λ l. All (λ row. row.status ≡ published) (cycles cs l))
      (sym (cycle-rows t p w b rows works.0 k d u.0))
      (cycles-publish_all t b next cs
        (Follows-Keyed b rows next
          (subst (Follows rows) (cycle-rows t p w b rows works.0 k d u.0)
            (publish_once-Follows p w b rows k))
          k)
        (cycle-Due t p w b rows works.0 k d u.0) works.1
        (All-map (Fresh rows) (Fresh next) cs (cycle-Fresh t p w b rows works.0 k d u.0) u.1)
        (cycle-progress t p w b rows works.0 k d u.0 (length cs) h))
