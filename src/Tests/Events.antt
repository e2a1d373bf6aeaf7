-- ===== src/Tests/Events.antt =====
-- Runs of the events and of the outbox.
use codex_go_web_api.Prelude.{
  ℕ, ◌≡◌, ◌↔◌, refl, Bool, true, false, none, some, All, List, [], ◌∷◌, arith, Text, codes,
  text_beq, trim_space, to_lower, pos,
}
use codex_go_web_api.Prelude.Outcome.{Result, ok}
use codex_go_web_api.Outbox.Event.{
  Json, number, object, field, Fields, value, Event, is_sensitive, contains_sensitive_key, validate,
  decoded,
}
use codex_go_web_api.Outbox.Event.Sensitive.{
  HasKey, InFields, contains_sensitive_key_iff, validate-clean,
}
use codex_go_web_api.Database.{works, lost}
use codex_go_web_api.Outbox.Table.{
  Row, pending, ClaimedEvent, OutboxError, claim_batch, selected, claimed_event, lock_row, owned,
  claimable, publishing, published,
}
use codex_go_web_api.Outbox.Table.Claims.{Keyed, id_in, claims-disjoint}
use codex_go_web_api.Outbox.Table.Batch.{Claimed, claim_batch-Claimed}
use codex_go_web_api.Outbox.Table.Settled.{Follows}
use codex_go_web_api.Outbox.Worker.{Publisher, World, second}
use codex_go_web_api.Outbox.Worker.Cycle.{cycles}
use codex_go_web_api.Outbox.Worker.Overlap.{
  Move, steps, restarts, System, idle, overlapping, overlapping-Follows,
}
use codex_go_web_api.Outbox.Worker.Delivery.{Works}
use codex_go_web_api.Outbox.Worker.Draining.{Due, cycles-publish_all}

abbrev payload : Json
payload = object (field (codes "orderID") (number (codes "1")) Fields.end)

abbrev event : Event
event = record {
  event_id = codes "e1";
  event_type = codes "order.created";
  aggregate_type = codes "order";
  aggregate_id = pos 1;
  payload = value payload;
  occurred_at = 1;
}

contains_sensitive_key_iff_example :
    (contains_sensitive_key (λ c. c) payload ≡ true)
    ↔ ((k : Text) × (is_sensitive (λ c. c) k ≡ true) × HasKey k payload)
contains_sensitive_key_iff_example = contains_sensitive_key_iff (λ c. c) payload

-- The first member is dropped by the decoder, with the sensitive key in it.
abbrev repeated : Json
repeated = object (
    field (codes "a") (object (field (codes "password") (number (codes "1")) Fields.end))
      (field (codes "a") (number (codes "2")) Fields.end))

repeated-passes : validate (λ c. c) (record event { payload = value repeated }) ≡ ok tt
unfolding validate trim_space contains_sensitive_key is_sensitive text_beq to_lower decoded
repeated-passes = refl

validate-clean_example : is_sensitive (λ c. c) (codes "orderID") ≡ false
unfolding validate trim_space contains_sensitive_key is_sensitive text_beq to_lower decoded
validate-clean_example =
    validate-clean (λ c. c) event payload (codes "orderID") refl refl
      (HasKey.in_object InFields.this)

abbrev row_of : ℕ → Row
row_of id = record {
  id = id;
  event = event;
  status = pending;
  attempts = 0;
  available_at = 0;
  locked_until = none;
  lock_token = none;
}

abbrev rows : List Row
rows = row_of 1 ∷ row_of 2 ∷ []

rows-Keyed : Keyed 0 rows
rows-Keyed = (omega arith, (omega arith, tt))

abbrev no_locks : ℕ → Bool
no_locks id = false

abbrev claimed : List Row × Result OutboxError (List ClaimedEvent)
claimed = claim_batch works no_locks (codes "t") 100 10 30 rows

abbrev locked_rows : List Row
locked_rows = lock_row (codes "t") 130 (row_of 1) ∷ lock_row (codes "t") 130 (row_of 2) ∷ []

abbrev claimed_events : List ClaimedEvent
claimed_events = claimed_event (codes "t") (row_of 1) ∷ claimed_event (codes "t") (row_of 2) ∷ []

abbrev publisher : Publisher
publisher = record { interval = second; batch_size = 10; max_attempts = 3; lock_for = 30 }

-- The broker confirms nothing.
abbrev world : World
world = record {
  now = 100;
  token = codes "t";
  skipped = no_locks;
  claims = works;
  confirms = λ e. false;
  marks = λ e. works;
  clock = λ e. 101;
}

-- The answer of the first claim is lost; two publishers take turns and the second one restarts.
abbrev moves : List Move
moves =
    steps 0 (record world { claims = lost })
    ∷ steps 1 (record world { now = 200; token = codes "u" })
    ∷ restarts 1
    ∷ steps 0 (record world { now = 300; token = codes "v" })
    ∷ steps 0 world
    ∷ []

abbrev both_idle : System
both_idle = record { rows = rows; activity = λ i. idle }

overlapping-Follows_example : Follows rows (overlapping (λ i. publisher) moves both_idle).rows
overlapping-Follows_example = overlapping-Follows (λ i. publisher) moves 0 both_idle rows-Keyed

claims-disjoint_example : id_in 1 (selected no_locks 129 10 locked_rows) ≡ false
unfolding claim_batch selected claimable
claims-disjoint_example =
    claims-disjoint no_locks no_locks (codes "t") 100 10 30 129 10 1 0 rows locked_rows
      claimed_events rows-Keyed refl (omega arith) refl

claim_batch-Claimed_example :
    (xs : List Row) × Claimed no_locks (codes "t") 100 10 30 rows locked_rows claimed_events xs
unfolding claim_batch selected claimable
claim_batch-Claimed_example =
    claim_batch-Claimed no_locks (codes "t") 100 10 30 0 rows locked_rows claimed_events rows-Keyed
      refl

abbrev one_by_one : Publisher
one_by_one = record publisher { batch_size = 1 }

abbrev confirming : World
confirming = record world { confirms = λ e. true }

abbrev next_world : World
next_world = record confirming { now = 200; token = codes "u" }

-- Its publisher stopped with the row locked.
abbrev left_behind : Row
left_behind = record (row_of 2) {
  status = publishing;
  locked_until = some 50;
  lock_token = some (codes "old");
}

abbrev backlog : List Row
backlog = row_of 1 ∷ left_behind ∷ record (row_of 3) { status = published } ∷ []

backlog-Keyed : Keyed 0 backlog
backlog-Keyed = (omega arith, (omega arith, (omega arith, tt)))

backlog-Due : All (Due 90) backlog
unfolding claimable
backlog-Due = (refl, (refl, (refl, tt)))

confirming-Works : Works 90 one_by_one confirming
unfolding trim_space
confirming-Works = record {
  batch = omega arith;
  lock = omega arith;
  late = omega arith;
  claims = refl;
  full = refl;
  skipped = λ id. refl;
  confirms = λ item. refl;
  marks = λ item. refl;
}

next_world-Works : Works 90 one_by_one next_world
unfolding trim_space
next_world-Works = record {
  batch = omega arith;
  lock = omega arith;
  late = omega arith;
  claims = refl;
  full = refl;
  skipped = λ id. refl;
  confirms = λ item. refl;
  marks = λ item. refl;
}

cycles-publish_all_example :
    All
      (λ row. row.status ≡ published)
      (cycles ((one_by_one, confirming) ∷ (one_by_one, next_world) ∷ []) backlog)
unfolding owned text_beq
cycles-publish_all_example =
    cycles-publish_all 90 0 backlog ((one_by_one, confirming) ∷ (one_by_one, next_world) ∷ [])
      backlog-Keyed backlog-Due (confirming-Works, (next_world-Works, tt))
      ((refl, (refl, (refl, tt))), ((refl, (refl, (refl, tt))), tt)) (omega arith)
