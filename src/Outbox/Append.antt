-- ===== src/Outbox/Append.antt =====
-- user-order-api/internal/platform/outbox/repository.go: the event that a transaction writes beside its change.
use codex_go_web_api.Prelude.{ℕ, none, [], ◌∷◌, ◌++◌, if◌then◌else◌, nat_beq}
use codex_go_web_api.Prelude.Outcome.{Result, ok, err}
use codex_go_web_api.Outbox.Event.{Event, EventError, validate}
use codex_go_web_api.Outbox.Table.{Row, pending}
use codex_go_web_api.Database.{Engine, Fate, DriverError, duplicate, Turn, in_tx, End, commits}
use codex_go_web_api.Database.Tables.{Database, any}

pub data AppendError : Type 0 where
  invalid : EventError → AppendError
  not_inserted : DriverError → AppendError

-- The time of the event, or the clock at Go's zero time.
abbrev pub time_of : Event → ℕ → ℕ
time_of event clock = if nat_beq event.occurred_at 0 then clock else event.occurred_at

abbrev pub event_row : Engine → ℕ → ℕ → Event → Row
event_row engine id clock event = record {
  id = id;
  event = record event { occurred_at = engine.kept (time_of event clock) };
  status = pending;
  attempts = 0;
  available_at = engine.kept (time_of event clock);
  locked_until = none;
  lock_token = none;
}

unfoldable pub insert_event : Engine → Row → Database → Result DriverError Database
insert_event engine row db =
    if any (λ (other : Row). engine.collates other.event.event_id row.event.event_id) db.outbox
    then err duplicate
    else ok (record db { outbox = db.outbox ++ row ∷ [] })

abbrev inserted_event : Result DriverError Database → Result AppendError Database
inserted_event (ok db) = ok db
inserted_event (err e) = err (not_inserted e)

-- `id` is what AUTO_INCREMENT gives, `wide` is `unicode.ToLower` beyond ASCII.
unfoldable pub append_tx :
    (ℕ → ℕ) → Engine → Fate → ℕ → ℕ → Event → Database → Result AppendError Database
unfolding insert_event
append_tx wide engine fate id clock event db = elim (validate wide event) [
  | err e ↦ err (invalid e)
  | ok _ ↦ inserted_event (in_tx fate (insert_event engine (event_row engine id clock event) db))
]

abbrev appended : {E A : Type 0} → E → A → Result AppendError Database → Result E (End Database A)
appended broken a (ok db) = ok (commits db a)
appended broken a (err e) = err broken

-- How the transactions of the repositories end: the event is built and appended, and the next step
-- is the commit. `broken` is the wrapped error of the first two.
unfoldable pub write_event :
    {E A : Type 0}
    → (ℕ → ℕ)
    → Engine
    → Turn
    → E
    → Fate
    → Result EventError Event
    → A
    → Database
    → Result E (End Database A)
unfolding append_tx
write_event wide engine turn broken fate built a db = elim built [
  | err e ↦ err broken
  | ok event ↦ appended broken a (append_tx wide engine fate turn.event_row_id turn.now event db)
]

-- The event after the change itself, which may have failed.
abbrev pub write_after :
    {E A : Type 0}
    → (ℕ → ℕ)
    → Engine
    → Turn
    → E
    → Fate
    → Result EventError Event
    → A
    → Result E Database
    → Result E (End Database A)
write_after wide engine turn broken fate built a (err e) = err e
write_after wide engine turn broken fate built a (ok after) =
    write_event wide engine turn broken fate built a after

-- The tables with an event appended.
abbrev pub and_event : Engine → Turn → Event → Database → Database
and_event engine turn event db = record db {
  outbox = db.outbox ++ event_row engine turn.event_row_id turn.now event ∷ [];
}
