-- ===== src/Audit/Consumer.antt =====
-- user-order-api/internal/platform/audit/consumer.go: how a delivery is processed. The decoded body, the handler's
-- outcome, the database and the clock enter with each delivery.
pub mod Once
pub mod Lost
pub mod Reopened
use codex_go_web_api.Prelude.{
  ℕ, ◌+◌, ◌*◌, Bool, true, false, Option, none, some, List, [], ◌∷◌, leb, if◌then◌else◌, Text,
  is_empty,
}
use codex_go_web_api.Prelude.Outcome.{Result, ok, err}
use codex_go_web_api.Database.{Fate}
use codex_go_web_api.Outbox.Event.{Event, validate}
use codex_go_web_api.Outbox.Worker.{second}
use codex_go_web_api.Outbox.Inbox.{
  InboxKey, InboxTable, InboxError, claim_inbox, mark_inbox_processed, mark_inbox_failed,
}

pub record Consumer : Type 0 where
  pub consumer_name : Text
  pub max_retries : ℕ
  pub lock_for : ℕ

-- `body` is what the JSON decoder makes of the bytes.
pub record Delivery : Type 0 where
  pub event_id : Text
  pub body : Option Event
  pub attempt : ℕ

-- What processing meets: the clock at the claim and at the mark, what becomes of the claim and of the
-- mark, and whether the handler succeeds.
pub record World : Type 0 where
  pub now : ℕ
  pub later : ℕ
  pub claims : Fate
  pub marks : Fate
  pub handles : Bool

-- What becomes of the message; `left` is a return without an answer to the broker.
pub data Answer : Type 0 where
  acked retried dead_lettered left : Answer

pub record Outcome : Type 0 where
  pub inbox : InboxTable
  pub handled : Option Event
  pub answer : Answer

abbrev pub key_of : Consumer → Delivery → Event → InboxKey
key_of c d event = record {
  consumer_name = c.consumer_name;
  event_id = if is_empty d.event_id then event.event_id else d.event_id;
}

-- The end of `process`, after `MarkInboxProcessed`.
abbrev finish : Event → InboxTable × Result InboxError (Unit {0}) → Outcome
finish event (inbox, ok _) = record { inbox = inbox; handled = some event; answer = acked }
finish event (inbox, err _) = record { inbox = inbox; handled = some event; answer = left }

unfoldable pub handle : Consumer → World → Delivery → Event → InboxTable → Outcome
handle c w d event inbox =
    if w.handles
    then finish event (mark_inbox_processed w.marks (key_of c d event) w.later inbox)
    else record {
      inbox = (mark_inbox_failed w.marks (key_of c d event) (w.later + d.attempt * second) inbox).0;
      handled = some event;
      answer = if leb c.max_retries d.attempt then dead_lettered else retried;
    }

unfoldable pub process_valid : Consumer → World → Delivery → Event → InboxTable → Outcome
unfolding handle
process_valid c w d event inbox =
    let (inbox', claimed) = claim_inbox w.claims (key_of c d event) w.now c.lock_for inbox in
    elim claimed [
      | err _ ↦ record { inbox = inbox'; handled = none; answer = left }
      | ok b ↦
          if b
          then handle c w d event inbox'
          else record { inbox = inbox'; handled = none; answer = acked }
    ]

-- `wide` is `unicode.ToLower` beyond ASCII.
unfoldable pub process : (ℕ → ℕ) → Consumer → World → Delivery → InboxTable → Outcome
unfolding process_valid
process wide c w d inbox = elim d.body [
  | none ↦ record { inbox = inbox; handled = none; answer = dead_lettered }
  | some event ↦ elim (validate wide event) [
    | err _ ↦ record { inbox = inbox; handled = none; answer = dead_lettered }
    | ok _ ↦ process_valid c w d event inbox
  ]
]

-- The loop of `Run`, over the deliveries of the channel: of one consumer, one after the other.
unfoldable pub run : (ℕ → ℕ) → Consumer → List (World × Delivery) → InboxTable → InboxTable
run wide c [] inbox = inbox
run wide c ((w, d) ∷ rest) inbox = run wide c rest (process wide c w d inbox).inbox
