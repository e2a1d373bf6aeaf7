-- ===== src/Outbox/Table.antt =====
-- user-order-api/internal/platform/outbox/repository.go: the table outbox_events, as the list of its rows in the
-- order of the primary key, and the statements of the repository on it. Kept of a row is what the
-- statements read or what a property speaks of; last_error, published_at, created_at and updated_at
-- are written and never read.
pub mod Claims
pub mod Batch
pub mod Settled
use codex_go_web_api.Prelude.{
  ℕ, zero, suc, ◌+◌, Bool, true, false, not, ◌&&◌, ◌||◌, Option, none, some, List, [], ◌∷◌, map,
  select, take, length, leb, nat_beq, if◌then◌else◌, ◌==◌, text_eq, Text, is_empty, trim_space,
}
use codex_go_web_api.Prelude.Outcome.{Result, ok, err}
use codex_go_web_api.Outbox.Event.{Event}
use codex_go_web_api.Database.{Fate, works, fails, lost}

pub data Status : Type 0 where
  pending publishing published dead : Status

pub record Row : Type 0 where
  pub id : ℕ
  pub event : Event
  pub status : Status
  pub attempts : ℕ
  pub available_at : ℕ
  pub locked_until : Option ℕ
  pub lock_token : Option Text

pub record ClaimedEvent : Type 0 where
  pub id : ℕ
  pub event : Event
  pub lock_token : Text
  pub attempts : ℕ

pub data OutboxError : Type 0 where
  batch_size_not_positive lock_duration_not_positive : OutboxError
  token_and_ids_required token_required : OutboxError
  not_owned token_not_active : OutboxError
  database : OutboxError

abbrev is_publishing : Status → Bool
is_publishing publishing = true
is_publishing _ = false

abbrev run_out : Option ℕ → ℕ → Bool
run_out none now = true
run_out (some t) now = leb t now

-- The condition of the SELECT of `ClaimBatch`.
abbrev claimable_status : Status → Row → ℕ → Bool
claimable_status pending row now = leb row.available_at now
claimable_status publishing row now = run_out row.locked_until now
claimable_status published row now = false
claimable_status dead row now = false

unfoldable pub claimable : ℕ → Row → Bool
claimable now row = claimable_status row.status row now

-- The rows that the SELECT returns: `skipped` are those that another transaction has locked.
unfoldable pub selected : (ℕ → Bool) → ℕ → ℕ → List Row → List Row
unfolding claimable
selected skipped now limit rows =
    take limit (select (λ row. claimable now row && not (skipped row.id)) rows)

-- The UPDATE of `ClaimBatch`, on one row.
abbrev pub lock_row : Text → ℕ → Row → Row
lock_row token until row = record row {
  status = publishing;
  attempts = row.attempts + 1;
  locked_until = some until;
  lock_token = some token;
}

unfoldable pub update_id : ℕ → (Row → Row) → List Row → List Row
update_id id f [] = []
update_id id f (row ∷ rows) = (if nat_beq row.id id then f row else row) ∷ update_id id f rows

-- The loop of UPDATEs over the selected rows.
unfoldable pub lock_all : Text → ℕ → List Row → List Row → List Row
unfolding update_id
lock_all token until [] rows = rows
lock_all token until (x ∷ xs) rows =
    lock_all token until xs (update_id x.id (lock_row token until) rows)

abbrev pub claimed_event : Text → Row → ClaimedEvent
claimed_event token row = record {
  id = row.id;
  event = row.event;
  lock_token = token;
  attempts = row.attempts + 1;
}

-- A transaction, or a statement that is one of its own: it takes its course, it is not carried out,
-- or it takes its course and its answer is lost.
abbrev pub carried_out :
    {A : Type 0}
    → Fate
    → List Row
    → List Row
    → Result OutboxError A
    → List Row × Result OutboxError A
carried_out works before after answer = (after, answer)
carried_out fails before after answer = (before, err database)
carried_out lost before after answer = (after, err database)

-- `token` is what `newLockToken` draws. The transaction is not carried out if one of its statements
-- fails, since it is rolled back then.
unfoldable pub claim_batch :
    Fate
    → (ℕ → Bool)
    → Text
    → ℕ
    → ℕ
    → ℕ
    → List Row
    → List Row × Result OutboxError (List ClaimedEvent)
unfolding selected lock_all
claim_batch fate skipped token now zero lock_for rows = (rows, err batch_size_not_positive)
claim_batch fate skipped token now (suc limit) zero rows = (rows, err lock_duration_not_positive)
claim_batch fate skipped token now (suc limit) (suc lock_for) rows =
    let xs = selected skipped now (suc limit) rows in
    carried_out fate rows (lock_all token (now + suc lock_for) xs rows)
      (ok (map (claimed_event token) xs))

abbrev holds_token : Text → Option Text → Bool
holds_token token none = false
holds_token token (some t) = t == token

-- `status = 'publishing' AND lock_token = ?`
unfoldable pub owned : Text → Row → Bool
owned token row = is_publishing row.status && holds_token token row.lock_token

abbrev pub publish_row : Row → Row
publish_row row = record row { status = published; locked_until = none; lock_token = none }

unfoldable pub update_owned : (Row → Bool) → (Row → Row) → List Row → List Row
update_owned p f [] = []
update_owned p f (row ∷ rows) = (if p row then f row else row) ∷ update_owned p f rows

-- `RowsAffected`
unfoldable pub affected : (Row → Bool) → List Row → ℕ
affected p rows = length (select p rows)

-- One UPDATE of `MarkPublished`, and its check that one row was changed.
unfoldable pub mark_one : Fate → Text → ℕ → List Row → List Row × Result OutboxError (Unit {0})
unfolding owned update_owned affected
mark_one fate token id rows =
    let mine = λ (row : Row). nat_beq row.id id && owned token row in
    carried_out fate rows (update_owned mine publish_row rows)
      (if nat_beq (affected mine rows) 1 then ok tt else err not_owned)

-- The loop runs outside a transaction: what was marked before an error stays marked.
unfoldable pub mark_each :
    Fate → Text → List ℕ → List Row → List Row × Result OutboxError (Unit {0})
unfolding mark_one
mark_each fate token [] rows = (rows, ok tt)
mark_each fate token (id ∷ ids) rows =
    let (rows', done) = mark_one fate token id rows in
    elim done [ ok _ ↦ mark_each fate token ids rows' | err e ↦ (rows', err e) ]

unfoldable pub mark_published :
    Fate → Text → List ℕ → List Row → List Row × Result OutboxError (Unit {0})
unfolding mark_each
mark_published fate token [] rows = (rows, err token_and_ids_required)
mark_published fate token (id ∷ ids) rows =
    if is_empty (trim_space token)
    then (rows, err token_and_ids_required)
    else mark_each fate token (id ∷ ids) rows

abbrev pub release_row : Bool → ℕ → Row → Row
release_row is_dead available_at row = record row {
  status = if is_dead then dead else pending;
  available_at = available_at;
  locked_until = none;
  lock_token = none;
}

-- The UPDATE names the token and no ID, and is committed before its count is checked.
unfoldable pub mark_retry :
    Fate → Text → ℕ → Bool → List Row → List Row × Result OutboxError (Unit {0})
unfolding owned update_owned affected
mark_retry fate token available_at is_dead rows =
    if is_empty (trim_space token)
    then (rows, err token_required)
    else carried_out fate rows (update_owned (owned token) (release_row is_dead available_at) rows)
        (if nat_beq (affected (owned token) rows) 1 then ok tt else err token_not_active)
