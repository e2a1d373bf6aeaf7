-- ===== src/Outbox/Worker/Cycle.antt =====
-- The cycles of publishers that run one after the other, and what one cycle does to the table.
use codex_go_web_api.Prelude.{ℕ, List, [], ◌∷◌, Bool-cases, inl, inr}
use codex_go_web_api.Prelude.Outcome.{Result-cases}
use codex_go_web_api.Outbox.Table.{Row, ClaimedEvent, claim_batch}
use codex_go_web_api.Outbox.Table.Claims.{Keyed}
use codex_go_web_api.Outbox.Table.Settled.{
  Follows, Follows-refl, Follows-trans, claim_batch-Follows, mark_published-Follows,
  mark_retry-Follows,
}
use codex_go_web_api.Outbox.Worker.{Publisher, World, settle, settle_each, publish_once}

pub settle-Follows :
    (p : Publisher) (w : World) (item : ClaimedEvent) (rows : List Row)
    → Follows rows (settle p w item rows).0
unfolding settle
settle-Follows p w item rows = elim (Bool-cases (w.confirms item)) [
  | inl e ↦ rw e (mark_published-Follows (w.marks item) item.lock_token (item.id ∷ []) rows)
  | inr e ↦ rw e (mark_retry-Follows (w.marks item) item.lock_token _ _ rows)
]

settle_each-Follows :
    (p : Publisher) (w : World) (items : List ClaimedEvent) (rows : List Row)
    → Follows rows (settle_each p w items rows).0
unfolding settle_each
settle_each-Follows p w [] rows = Follows-refl rows
settle_each-Follows p w (item ∷ items) rows =
    let rows' = (settle p w item rows).0 in
    let first = settle-Follows p w item rows in
    elim (Result-cases (settle p w item rows).1) [
      | inl (a, e) ↦
          rw (e, settle_each)
            (Follows-trans rows rows' _ first (settle_each-Follows p w items rows'))
      | inr (x, e) ↦ rw (e, settle_each) first
    ]

pub publish_once-Follows :
    (p : Publisher) (w : World) (b : ℕ) (rows : List Row)
    → Keyed b rows
    → Follows rows (publish_once p w rows).0
unfolding publish_once
publish_once-Follows p w b rows k =
    let claim = claim_batch w.claims w.skipped w.token w.now p.batch_size p.lock_for rows in
    let first =
      claim_batch-Follows w.claims w.skipped w.token w.now p.batch_size p.lock_for b rows k in
    elim (Result-cases claim.1) [
      | inl (items, e) ↦
          rw (e, publish_once)
            (Follows-trans rows claim.0 _ first (settle_each-Follows p w items claim.0))
      | inr (x, e) ↦ rw (e, publish_once) first
    ]

-- The cycles of any publishers, one after the other.
unfoldable pub cycles : List (Publisher × World) → List Row → List Row
cycles [] rows = rows
cycles ((p, w) ∷ rest) rows = cycles rest (publish_once p w rows).0
