-- ===== src/Outbox/Worker.antt =====
-- user-order-api/internal/platform/outbox/worker.go: one cycle of the publisher. The broker, the clock, the random
-- token and the fates of the transactions and statements enter as the record `World`.
pub mod Cycle
pub mod Overlap
pub mod Batches
pub mod Delivery
pub mod Draining
use codex_go_web_api.Prelude.{
  ℕ, zero, suc, ◌+◌, ◌-◌, ◌*◌, ◌^◌, Bool, List, [], ◌∷◌, ltb, leb, if◌then◌else◌, Text,
}
use codex_go_web_api.Prelude.Outcome.{Result, ok, err}
use codex_go_web_api.Database.{Fate}
use codex_go_web_api.Outbox.Table.{
  Row, ClaimedEvent, OutboxError, claim_batch, mark_published, mark_retry,
}

-- `time.Second` in nanoseconds
abbrev pub second : ℕ
second = 1_000_000_000

pub record Publisher : Type 0 where
  pub interval : ℕ
  pub batch_size : ℕ
  pub max_attempts : ℕ
  pub lock_for : ℕ

abbrev or_default : ℕ → ℕ → ℕ
or_default zero d = d
or_default (suc n) d = suc n

-- A value that is not positive is given as 0.
unfoldable pub new_publisher : ℕ → ℕ → ℕ → Publisher
new_publisher interval batch_size max_attempts = record {
  interval = or_default interval second;
  batch_size = or_default batch_size 100;
  max_attempts = or_default max_attempts 10;
  lock_for = 30 * second;
}

-- What one cycle meets: the clock and the token of the claim, the rows that others have locked, and
-- for each event whether the broker confirms it, what becomes of its mark, and the clock then.
pub record World : Type 0 where
  pub now : ℕ
  pub token : Text
  pub skipped : ℕ → Bool
  pub claims : Fate
  pub confirms : ClaimedEvent → Bool
  pub marks : ClaimedEvent → Fate
  pub clock : ClaimedEvent → ℕ

-- `min(300, 5^(attempts-1))` seconds; for 0 attempts the power is 0.2, and the conversion drops it.
unfoldable pub backoff : ℕ → ℕ
backoff zero = 0
backoff (suc n) = second * (if ltb (5 ^ n) 300 then 5 ^ n else 300)

-- The body of the loop of `PublishOnce`.
unfoldable pub settle :
    Publisher → World → ClaimedEvent → List Row → List Row × Result OutboxError (Unit {0})
unfolding backoff
settle p w item rows =
    if w.confirms item
    then mark_published (w.marks item) item.lock_token (item.id ∷ []) rows
    else mark_retry (w.marks item) item.lock_token (w.clock item + backoff item.attempts)
        (leb p.max_attempts item.attempts) rows

unfoldable pub settle_each :
    Publisher → World → List ClaimedEvent → List Row → List Row × Result OutboxError (Unit {0})
settle_each p w [] rows = (rows, ok tt)
settle_each p w (item ∷ items) rows =
    let (rows', done) = settle p w item rows in
    elim done [ ok _ ↦ settle_each p w items rows' | err e ↦ (rows', err e) ]

unfoldable pub publish_once :
    Publisher → World → List Row → List Row × Result OutboxError (Unit {0})
publish_once p w rows =
    let (rows', claimed) =
      claim_batch w.claims w.skipped w.token w.now p.batch_size p.lock_for rows in
    elim claimed [ ok items ↦ settle_each p w items rows' | err e ↦ (rows', err e) ]
