-- ===== src/Audit/Consumer/Reopened.antt =====
-- What a handler that fails late does to an event that another consumer has processed meanwhile.
use codex_go_web_api.Prelude.{
  ℕ, zero, suc, ◌+◌, ◌*◌, ◌≤◌, ◌<◌, ◌≡◌, refl, ap, ◌∙◌, true, false, ◌||◌, some, arith, is_empty,
  trim_space, lookup, insert, lookup-insert, ==_refl, Bool-cases, inl, inr,
}
use codex_go_web_api.Prelude.Outcome.{Result, ok, err}
use codex_go_web_api.Database.{works}
use codex_go_web_api.Outbox.Event.{Event, validate}
use codex_go_web_api.Outbox.Worker.{second}
use codex_go_web_api.Outbox.Inbox.{
  InboxKey, InboxRow, InboxTable, InboxError, key_eq, processing, processed, is_held, reclaimed,
  ended, failed, claim_row, claim_inbox, mark_inbox_failed,
}
use codex_go_web_api.Audit.Consumer.{
  Consumer, Delivery, World, key_of, finish, handle, process_valid, process,
}

abbrev reopened : InboxRow → ℕ → InboxRow
reopened row retry_at = record row { status = processing; locked_until = some retry_at }

handle-failed :
    (c : Consumer) (w : World) (d : Delivery) (event : Event) (row : InboxRow) (inbox : InboxTable)
    → w.handles ≡ false
    → w.marks ≡ works
    → lookup (key_of c d event) inbox ≡ some row
    → (handle c w d event inbox).inbox
      ≡ insert (key_of c d event) (reopened row (w.later + d.attempt * second)) inbox
unfolding handle mark_inbox_failed
handle-failed c w d event row inbox fails marks at = rw (fails, marks) (rw (at, failed) refl)

finish-handled :
    (event : Event) (t : InboxTable × Result InboxError (Unit {0}))
    → (finish event t).handled ≡ some event
finish-handled event (inbox, ok u) = refl
finish-handled event (inbox, err e) = refl

handle-handled :
    (c : Consumer) (w : World) (d : Delivery) (event : Event) (inbox : InboxTable)
    → (handle c w d event inbox).handled ≡ some event
unfolding handle
handle-handled c w d event inbox = elim (Bool-cases w.handles) [
  | inl e ↦ rw e (finish-handled event _)
  | inr e ↦ rw e refl
]

claim_row-reopened :
    (key : InboxKey) (now lock_for t : ℕ) (row : InboxRow) (inbox : InboxTable)
    → lookup key inbox ≡ some (reopened row t)
    → t ≤ now
    → claim_row key now lock_for inbox
      ≡ (insert key (reclaimed (reopened row t) (now + lock_for)) inbox, ok true)
unfolding claim_row
claim_row-reopened key now lock_for t row inbox at q =
    let free : is_held (reopened row t) now ≡ false = ground (arith, q) in
    rw (at, claim_row) (rw free refl)

claim_inbox-reopened :
    (key : InboxKey) (now lock_for t : ℕ) (row : InboxRow) (inbox : InboxTable)
    → (is_empty (trim_space key.consumer_name) || is_empty (trim_space key.event_id)) ≡ false
    → 0 < lock_for
    → lookup key inbox ≡ some (reopened row t)
    → t ≤ now
    → claim_inbox works key now lock_for inbox
      ≡ (insert key (reclaimed (reopened row t) (now + lock_for)) inbox, ok true)
unfolding claim_inbox
claim_inbox-reopened key now zero t row inbox named lock at q = absurd (omega (arith, lock))
claim_inbox-reopened key now (suc l) t row inbox named lock at q =
    rw named (ap (ended works inbox) (claim_row-reopened key now (suc l) t row inbox at q))

process_valid-claimed :
    (c : Consumer) (w : World) (d : Delivery) (event : Event) (inbox inbox' : InboxTable)
    → claim_inbox w.claims (key_of c d event) w.now c.lock_for inbox ≡ (inbox', ok true)
    → (process_valid c w d event inbox).handled ≡ some event
unfolding process_valid
process_valid-claimed c w d event inbox inbox' e =
    rw (e, process_valid) (handle-handled c w d event _)

-- An event is processed, and a consumer of the same name that claimed it earlier, and whose lock ran
-- out, fails to handle it only now. Its mark, which asks for no status, opens the event again: once
-- its backoff has passed, the next delivery of the event whose claim is carried out makes the handler
-- run on it again.
pub process-reopened :
    (wide : ℕ → ℕ) (c : Consumer) (late w : World) (d again : Delivery) (event : Event)
    (row : InboxRow) (inbox : InboxTable)
    → late.handles ≡ false
    → late.marks ≡ works
    → lookup (key_of c d event) inbox ≡ some row
    → row.status ≡ processed
    → again.body ≡ some event
    → validate wide event ≡ ok tt
    → key_of c again event ≡ key_of c d event
    → w.claims ≡ works
    → (is_empty (trim_space c.consumer_name)
        || is_empty (trim_space (key_of c again event).event_id))
      ≡ false
    → 0 < c.lock_for
    → late.later + d.attempt * second ≤ w.now
    → (process wide c w again (handle c late d event inbox).inbox).handled ≡ some event
unfolding process
process-reopened wide c late w d again event row inbox fails marks at done body good same carried
      named lock q =
    rw (body, process) (rw (good, process) (process_valid-claimed c w again event left _ claimed))
  where
    t : ℕ
    t = late.later + d.attempt * second

    left : InboxTable
    left = (handle c late d event inbox).inbox

    stored : lookup (key_of c again event) left ≡ some (reopened row t)
    stored =
        ap (λ k. lookup k left) same
        ∙ ap (lookup (key_of c d event)) (handle-failed c late d event row inbox fails marks at)
        ∙ lookup-insert (key_of c d event) (key_of c d event) (reopened row t) inbox
        ∙ rw (==_refl (key_of c d event)) refl

    claimed : claim_inbox w.claims (key_of c again event) w.now c.lock_for left ≡ (
      insert (key_of c again event) (reclaimed (reopened row t) (w.now + c.lock_for)) left,
      ok true,
    )
    claimed = rw carried (
        claim_inbox-reopened (key_of c again event) w.now c.lock_for t row left named lock stored q)
