-- ===== src/Tests/Auditing.antt =====
-- Runs of the audit consumer and of the asynchronous logger.
use codex_go_web_api.Prelude.{
  ◌+◌, ◌≤◌, ◌≡◌, refl, true, false, none, some, List, [], ◌∷◌, ◌++◌, arith, length, text_beq,
  trim_space, to_lower, codes, pos, lookup,
}
use codex_go_web_api.Database.{works}
use codex_go_web_api.Outbox.Event.{
  number, object, field, Fields, value, Event, validate, decoded, contains_sensitive_key,
  is_sensitive,
}
use codex_go_web_api.Outbox.Inbox.{InboxKey, InboxRow, InboxTable, processing, processed, key_eq}
use codex_go_web_api.Audit.Consumer.{Consumer, Delivery, World, acked, handle, process, run}
use codex_go_web_api.Audit.Consumer.Once.{IsDone, NotHandled, run-NotHandled}
use codex_go_web_api.Audit.Consumer.Lost.{process-locked}
use codex_go_web_api.Audit.Consumer.Reopened.{process-reopened}
use codex_go_web_api.Audit.Logger.{
  AsyncLogger, Item, Step, records, closes, runs, new_async_logger, history,
}
use codex_go_web_api.Audit.Logger.Accounts.{accepted, recorded, history-accounts}

abbrev event : Event
event = record {
  event_id = codes "e1";
  event_type = codes "order.created";
  aggregate_type = codes "order";
  aggregate_id = pos 1;
  payload = value (object (field (codes "orderID") (number (codes "1")) Fields.end));
  occurred_at = 1;
}

abbrev consumer : Consumer
consumer = record { consumer_name = codes "audit-v1"; max_retries = 5; lock_for = 30 }

abbrev delivery : Delivery
delivery = record { event_id = codes "e1"; body = some event; attempt = 1 }

abbrev world : World
world = record { now = 10; later = 11; claims = works; marks = works; handles = true }

abbrev key : InboxKey
key = record { consumer_name = codes "audit-v1"; event_id = codes "e1" }

abbrev done_row : InboxRow
done_row = record { status = processed; attempts = 1; locked_until = none; processed_at = some 5 }

abbrev locked_row : InboxRow
locked_row = record {
  status = processing;
  attempts = 1;
  locked_until = some 20;
  processed_at = none;
}

abbrev done_inbox : InboxTable
done_inbox = (key, done_row) ∷ []

abbrev locked_inbox : InboxTable
locked_inbox = (key, locked_row) ∷ []

run-NotHandled_example :
    NotHandled (λ c. c) key consumer ((world, delivery) ∷ []) done_inbox
    × IsDone key (run (λ c. c) consumer ((world, delivery) ∷ []) done_inbox)
unfolding lookup text_beq
run-NotHandled_example =
    run-NotHandled (λ c. c) key consumer ((world, delivery) ∷ []) done_inbox refl

process-locked_example :
    process (λ c. c) consumer world delivery locked_inbox
    ≡ record { inbox = locked_inbox; handled = none; answer = acked }
unfolding lookup text_beq validate trim_space contains_sensitive_key decoded is_sensitive to_lower
process-locked_example =
    process-locked (λ c. c) consumer world delivery event locked_row 20 locked_inbox refl refl refl
      refl (omega arith) refl refl refl (omega arith)

-- The first consumer's handler fails after another one has processed the event.
abbrev late : World
late = record world { later = 50; handles = false }

abbrev after : World
after = record world { now = 2_000_000_000 }

abbrev reopened_inbox : InboxTable
reopened_inbox = (handle consumer late delivery event done_inbox).inbox

process-reopened_example :
    (process (λ c. c) consumer after delivery reopened_inbox).handled ≡ some event
unfolding lookup text_beq validate trim_space contains_sensitive_key decoded is_sensitive to_lower
process-reopened_example =
    process-reopened (λ c. c) consumer late after delivery delivery event done_row done_inbox refl
      refl refl refl refl refl refl refl refl (omega arith) (omega arith)

abbrev item : Item
item = record { action = codes "order.paid"; fields = [] }

abbrev steps : List Step
steps = records item ∷ records item ∷ runs ∷ closes ∷ runs ∷ []

abbrev logger : AsyncLogger
logger = history (new_async_logger 1) steps

history-accounts_example :
    (logger.written ++ logger.events ≡ accepted (new_async_logger 1) steps)
    × (logger.dropped + length (accepted (new_async_logger 1) steps) ≡ recorded steps)
    × (length logger.events ≤ logger.cap)
    × (length logger.warnings ≤ 1)
    × (logger.done ≡ true → logger.written ≡ accepted (new_async_logger 1) steps)
unfolding recorded
history-accounts_example = history-accounts 1 steps (omega arith)
