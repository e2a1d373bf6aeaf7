-- ===== src/Audit/Logger.antt =====
-- user-order-api/internal/platform/audit/audit.go: the asynchronous logger. The channel is a queue of `cap` records;
-- the mutex, the channel and the atomics make each of the steps below one step, in any order of the
-- callers of `Record`, `Close` and of the goroutine `run`. A record is its action and its fields.
pub mod Accounts
use codex_go_web_api.Prelude.{
  ℕ, ◌+◌, ◌%◌, String, Bool, true, false, Option, none, some, List, [], ◌∷◌, ◌++◌, length, ltb,
  nat_beq, if◌then◌else◌, Text,
}

pub record Item : Type 0 where
  pub action : Text
  pub fields : List (Text × Text)

pub data DropReason : Type 0 where
  no_drop closed_logger full_queue : DropReason

-- `written` and `warnings` are what reached the slog logger: the audit records in order, and the
-- count that each drop warning carried with its reason.
pub record AsyncLogger : Type 0 where
  pub cap : ℕ
  pub events : List Item
  pub closed : Bool
  pub done : Bool
  pub dropped : ℕ
  pub drop_warned : Bool
  pub drop_reason : DropReason
  pub written : List Item
  pub warnings : List (DropReason × ℕ)

abbrev pub new_async_logger : ℕ → AsyncLogger
new_async_logger cap = record {
  cap = cap;
  events = [];
  closed = false;
  done = false;
  dropped = 0;
  drop_warned = false;
  drop_reason = no_drop;
  written = [];
  warnings = [];
}

drop_one : DropReason → AsyncLogger → AsyncLogger
drop_one reason l = record l {
  dropped = (l.dropped + 1) % 18_446_744_073_709_551_616;
  drop_reason = reason;
}

unfoldable pub record_item : Item → AsyncLogger → AsyncLogger
unfolding drop_one
record_item item l =
    if l.closed
    then drop_one closed_logger l
    else if ltb (length l.events) l.cap
    then record l { events = l.events ++ item ∷ [] }
    else drop_one full_queue l

-- The first part of `Close`; what remains is to wait for `done`.
unfoldable pub close : AsyncLogger → AsyncLogger
close l = record l { closed = true }

unfoldable pub report_drops : AsyncLogger → AsyncLogger
report_drops l =
    if nat_beq l.dropped 0
    then l
    else if l.drop_warned
    then l
    else record l { drop_warned = true; warnings = l.warnings ++ (l.drop_reason, l.dropped) ∷ [] }

abbrev take_front : List Item → AsyncLogger → AsyncLogger
take_front [] l = if l.closed then record (report_drops l) { done = true } else l
take_front (item ∷ rest) l =
    report_drops (record l { events = rest; written = l.written ++ item ∷ [] })

-- One round of `run`: it waits on an empty queue, and ends on an empty queue that is closed.
unfoldable pub run_once : AsyncLogger → AsyncLogger
unfolding report_drops
run_once l = if l.done then l else take_front l.events l

pub data Step : Type 0 where
  records : Item → Step
  closes : Step
  runs : Step

abbrev pub step : AsyncLogger → Step → AsyncLogger
step l (records item) = record_item item l
step l closes = close l
step l runs = run_once l

unfoldable pub history : AsyncLogger → List Step → AsyncLogger
history l [] = l
history l (s ∷ ss) = history (step l s) ss
