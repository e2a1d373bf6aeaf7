-- ===== src/Audit/Consumer/Lost.antt =====
-- A delivery that meets a lock is answered as if its event had been processed.
use codex_go_web_api.Prelude.{
  ℕ, ◌<◌, ◌≡◌, ap, Bool, true, false, ◌||◌, none, some, arith, suc, zero, is_empty, trim_space,
  if◌then◌else◌, lookup,
}
use codex_go_web_api.Prelude.Outcome.{Result, ok, err}
use codex_go_web_api.Database.{works}
use codex_go_web_api.Outbox.Event.{Event, validate}
use codex_go_web_api.Outbox.Inbox.{
  InboxKey, InboxRow, InboxTable, InboxError, key_eq, processing, is_held, claim_inbox, ended,
}
use codex_go_web_api.Audit.Consumer.Once.{claim_row-held}
use codex_go_web_api.Audit.Consumer.{
  Consumer, Delivery, World, Outcome, acked, left, key_of, handle, process_valid, process,
}

-- A claim with good arguments on a row under a lock is refused without an error.
claim_inbox-held :
    (key : InboxKey) (now lock_for : ℕ) (inbox : InboxTable) (row : InboxRow)
    → (is_empty (trim_space key.consumer_name) || is_empty (trim_space key.event_id)) ≡ false
    → 0 < lock_for
    → lookup key inbox ≡ some row
    → is_held row now ≡ true
    → claim_inbox works key now lock_for inbox ≡ (inbox, ok false)
unfolding claim_inbox
claim_inbox-held key now zero inbox row named lock at held = absurd (omega (arith, lock))
claim_inbox-held key now (suc l) inbox row named lock at held =
    rw named (ap (ended works inbox) (claim_row-held key now (suc l) inbox row at held))

-- `process` from the answer of the inbox on.
abbrev after_claim :
    Consumer → World → Delivery → Event → InboxTable × Result InboxError Bool → Outcome
after_claim c w d event (inbox, err _) = record { inbox = inbox; handled = none; answer = left }
after_claim c w d event (inbox, ok b) =
    if b then handle c w d event inbox else record { inbox = inbox; handled = none; answer = acked }

process_valid-held :
    (c : Consumer) (w : World) (d : Delivery) (event : Event) (inbox : InboxTable)
    → claim_inbox w.claims (key_of c d event) w.now c.lock_for inbox ≡ (inbox, ok false)
    → process_valid c w d event inbox ≡ record { inbox = inbox; handled = none; answer = acked }
unfolding process_valid
process_valid-held c w d event inbox e = ap (after_claim c w d event) e

-- A delivery of a valid event whose row is still in processing, under a lock that has not run out
-- (a consumer that crashed, or a retry that comes back early), is acknowledged, so the broker drops
-- it, while the handler does not run and the row stays in processing.
pub process-locked :
    (wide : ℕ → ℕ) (c : Consumer) (w : World) (d : Delivery) (event : Event) (row : InboxRow)
    (until : ℕ) (inbox : InboxTable)
    → d.body ≡ some event
    → validate wide event ≡ ok tt
    → w.claims ≡ works
    → (is_empty (trim_space c.consumer_name) || is_empty (trim_space (key_of c d event).event_id))
      ≡ false
    → 0 < c.lock_for
    → lookup (key_of c d event) inbox ≡ some row
    → row.status ≡ processing
    → row.locked_until ≡ some until
    → w.now < until
    → process wide c w d inbox ≡ record { inbox = inbox; handled = none; answer = acked }
unfolding process
process-locked wide c w d event row until inbox body good carried named lock at status locked
      early =
    rw (body, process) (rw (good, process) (process_valid-held c w d event inbox refused))
  where
    held : is_held row w.now ≡ true
    held = ground (arith, status, locked, early)

    refused : claim_inbox w.claims (key_of c d event) w.now c.lock_for inbox ≡ (inbox, ok false)
    refused =
        rw carried
          (claim_inbox-held (key_of c d event) w.now c.lock_for inbox row named lock at held)
