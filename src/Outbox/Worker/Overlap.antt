-- ===== src/Outbox/Worker/Overlap.antt =====
-- user-order-api/internal/platform/outbox/worker.go: publishers that run at the same time on one table. A claim is a
-- transaction and a mark is a statement of its own, so the cycles of several publishers interleave
-- in steps of one claim or one mark each.
use codex_go_web_api.Prelude.{ℕ, ◌≡◌, refl, sym, subst, List, [], ◌∷◌, nat_beq, if◌then◌else◌}
use codex_go_web_api.Prelude.Outcome.{Result, ok, err}
use codex_go_web_api.Outbox.Table.{Row, ClaimedEvent, OutboxError, claim_batch}
use codex_go_web_api.Outbox.Table.Claims.{Keyed}
use codex_go_web_api.Outbox.Table.Settled.{
  Follows, Follows-refl, Follows-trans, Follows-Keyed, claim_batch-Follows,
}
use codex_go_web_api.Outbox.Worker.{Publisher, World, settle}
use codex_go_web_api.Outbox.Worker.Cycle.{settle-Follows}

-- Between two cycles, or in the loop of `PublishOnce` with these events left.
pub data Activity : Type 0 where
  idle : Activity
  settling : List ClaimedEvent → Activity

pub record System : Type 0 where
  pub rows : List Row
  pub activity : ℕ → Activity

abbrev after_claim : List Row × Result OutboxError (List ClaimedEvent) → List Row × Activity
after_claim (rows, ok items) = (rows, settling items)
after_claim (rows, err e) = (rows, idle)

abbrev after_mark :
    List ClaimedEvent → List Row × Result OutboxError (Unit {0}) → List Row × Activity
after_mark items (rows, ok _) = (rows, settling items)
after_mark items (rows, err e) = (rows, idle)

-- The next step of a publisher's cycle, in the world that this step meets.
unfoldable pub advance : Publisher → World → Activity → List Row → List Row × Activity
advance p w idle rows =
    after_claim (claim_batch w.claims w.skipped w.token w.now p.batch_size p.lock_for rows)
advance p w (settling []) rows = (rows, idle)
advance p w (settling (item ∷ items)) rows = after_mark items (settle p w item rows)

-- One publisher takes its next step, or stops in the middle and starts anew.
pub data Move : Type 0 where
  steps : ℕ → World → Move
  restarts : ℕ → Move

abbrev set_activity : ℕ → Activity → (ℕ → Activity) → ℕ → Activity
set_activity i a activity j = if nat_beq j i then a else activity j

abbrev moved : (ℕ → Publisher) → Move → System → System
moved publishers (steps i w) s =
    let (rows, next) = advance (publishers i) w (s.activity i) s.rows in
    record { rows = rows; activity = set_activity i next s.activity }
moved publishers (restarts i) s = record s { activity = set_activity i idle s.activity }

unfoldable pub overlapping : (ℕ → Publisher) → List Move → System → System
overlapping publishers [] s = s
overlapping publishers (m ∷ ms) s = overlapping publishers ms (moved publishers m s)

after_claim-rows : (r : List Row × Result OutboxError (List ClaimedEvent)) → (after_claim r).0 ≡ r.0
after_claim-rows (rows, ok items) = refl
after_claim-rows (rows, err e) = refl

after_mark-rows :
    (items : List ClaimedEvent) (r : List Row × Result OutboxError (Unit {0}))
    → (after_mark items r).0 ≡ r.0
after_mark-rows items (rows, ok _) = refl
after_mark-rows items (rows, err e) = refl

advance-Follows :
    (p : Publisher) (w : World) (a : Activity) (b : ℕ) (rows : List Row)
    → Keyed b rows
    → Follows rows (advance p w a rows).0
unfolding advance
advance-Follows p w idle b rows k =
    let claim = claim_batch w.claims w.skipped w.token w.now p.batch_size p.lock_for rows in
    subst (Follows rows) (sym (after_claim-rows claim))
      (claim_batch-Follows w.claims w.skipped w.token w.now p.batch_size p.lock_for b rows k)
advance-Follows p w (settling []) b rows k = Follows-refl rows
advance-Follows p w (settling (item ∷ items)) b rows k =
    subst (Follows rows) (sym (after_mark-rows items (settle p w item rows)))
      (settle-Follows p w item rows)

moved-Follows :
    (publishers : ℕ → Publisher) (m : Move) (b : ℕ) (s : System)
    → Keyed b s.rows
    → Follows s.rows (moved publishers m s).rows
moved-Follows publishers (steps i w) b s k =
    advance-Follows (publishers i) w (s.activity i) b s.rows k
moved-Follows publishers (restarts i) b s k = Follows-refl s.rows

-- On a table with a primary key, however the claims and marks of any number of publishers interleave
-- and wherever a publisher stops, whatever the broker confirms, and whether each claim and each mark
-- is carried out, is not, or is carried out and its answer lost: no event is added, dropped,
-- reordered or rewritten, no attempts fall, and a row that is published or dead never changes.
pub overlapping-Follows :
    (publishers : ℕ → Publisher) (ms : List Move) (b : ℕ) (s : System)
    → Keyed b s.rows
    → Follows s.rows (overlapping publishers ms s).rows
unfolding overlapping
overlapping-Follows publishers [] b s k = Follows-refl s.rows
overlapping-Follows publishers (m ∷ ms) b s k =
    let next = moved publishers m s in
    let first = moved-Follows publishers m b s k in
    Follows-trans s.rows next.rows _ first
      (overlapping-Follows publishers ms b next (Follows-Keyed b s.rows next.rows first k))
