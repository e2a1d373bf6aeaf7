-- ===== src/Outbox/Inbox.antt =====
-- user-order-api/internal/platform/outbox/repository.go: the table inbox_events, keyed by consumer and event, as the
-- association list of its rows; last_error and updated_at are written and never read.
use codex_go_web_api.Prelude.{
  ℕ, zero, suc, ◌+◌, ◌≡◌, ◌↔◌, Bool, true, false, ◌&&◌, ◌||◌, Option, none, some, List, arith, ltb,
  if◌then◌else◌, Eq, text_beq, text_beq_iff, Text, is_empty, trim_space, lookup, insert,
}
use codex_go_web_api.Prelude.Outcome.{Result, ok, err}
use codex_go_web_api.Database.{Fate, works, fails, lost}

pub data InboxStatus : Type 0 where
  processing processed : InboxStatus

pub record InboxKey : Type 0 where
  pub consumer_name : Text
  pub event_id : Text

abbrev pub key_beq : InboxKey → InboxKey → Bool
key_beq a b = text_beq a.consumer_name b.consumer_name && text_beq a.event_id b.event_id

pub key_beq_iff : (a b : InboxKey) → (key_beq a b ≡ true) ↔ (a ≡ b)
key_beq_iff a b =
    ground (arith, text_beq_iff a.consumer_name b.consumer_name, text_beq_iff a.event_id b.event_id)

instance abbrev pub key_eq : Eq InboxKey
key_eq = record { beq = key_beq; beq_iff = key_beq_iff }

pub record InboxRow : Type 0 where
  pub status : InboxStatus
  pub attempts : ℕ
  pub locked_until : Option ℕ
  pub processed_at : Option ℕ

abbrev pub InboxTable : Type 0
InboxTable = List (InboxKey × InboxRow)

pub data InboxError : Type 0 where
  arguments_required row_not_found inbox_database : InboxError

abbrev is_processed : InboxStatus → Bool
is_processed processing = false
is_processed processed = true

abbrev is_locked : Option ℕ → ℕ → Bool
is_locked none now = false
is_locked (some t) now = ltb now t

-- A row that a claim leaves alone.
abbrev pub is_held : InboxRow → ℕ → Bool
is_held row now = is_processed row.status || is_locked row.locked_until now

abbrev pub first_row : ℕ → InboxRow
first_row until = record {
  status = processing;
  attempts = 1;
  locked_until = some until;
  processed_at = none;
}

abbrev pub reclaimed : InboxRow → ℕ → InboxRow
reclaimed row until = record row {
  status = processing;
  attempts = row.attempts + 1;
  locked_until = some until;
}

unfoldable pub claim_row : InboxKey → ℕ → ℕ → InboxTable → InboxTable × Result InboxError Bool
claim_row key now lock_for inbox = elim (lookup key inbox) [
  | none ↦ (insert key (first_row (now + lock_for)) inbox, ok true)
  | some row ↦
      if is_held row now
      then (inbox, ok false)
      else (insert key (reclaimed row (now + lock_for)) inbox, ok true)
]

-- A transaction, or an UPDATE that is one of its own: it takes its course, it is not carried out, or
-- it takes its course and its answer is lost.
abbrev pub ended :
    {A : Type 0}
    → Fate
    → InboxTable
    → InboxTable × Result InboxError A
    → InboxTable × Result InboxError A
ended works inbox (after, answer) = (after, answer)
ended fails inbox (after, answer) = (inbox, err inbox_database)
ended lost inbox (after, answer) = (after, err inbox_database)

-- A lock duration that is not positive is given as 0.
unfoldable pub claim_inbox :
    Fate → InboxKey → ℕ → ℕ → InboxTable → InboxTable × Result InboxError Bool
unfolding claim_row
claim_inbox fate key now zero inbox = (inbox, err arguments_required)
claim_inbox fate key now (suc lock_for) inbox =
    if is_empty (trim_space key.consumer_name) || is_empty (trim_space key.event_id)
    then (inbox, err arguments_required)
    else ended fate inbox (claim_row key now (suc lock_for) inbox)

abbrev processed_row : InboxRow → ℕ → InboxRow
processed_row row at = record row {
  status = processed;
  locked_until = none;
  processed_at = some at;
}

abbrev pub marked : InboxKey → ℕ → InboxTable → InboxTable × Result InboxError (Unit {0})
marked key at inbox = elim (lookup key inbox) [
  | none ↦ (inbox, err row_not_found)
  | some row ↦ (insert key (processed_row row at) inbox, ok tt)
]

unfoldable pub mark_inbox_processed :
    Fate → InboxKey → ℕ → InboxTable → InboxTable × Result InboxError (Unit {0})
mark_inbox_processed fate key at inbox = ended fate inbox (marked key at inbox)

-- The UPDATE has no condition on the status, and its count is not read.
abbrev pub failed : InboxKey → ℕ → InboxTable → InboxTable × Result InboxError (Unit {0})
failed key retry_at inbox = elim (lookup key inbox) [
  | none ↦ (inbox, ok tt)
  | some row ↦
      (insert key (record row { status = processing; locked_until = some retry_at }) inbox, ok tt)
]

unfoldable pub mark_inbox_failed :
    Fate → InboxKey → ℕ → InboxTable → InboxTable × Result InboxError (Unit {0})
mark_inbox_failed fate key retry_at inbox = ended fate inbox (failed key retry_at inbox)
