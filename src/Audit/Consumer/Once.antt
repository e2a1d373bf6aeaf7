-- ===== src/Audit/Consumer/Once.antt =====
-- An event that was marked processed is not handled again.
use mathlib.Core.Option.{some-injective}
use codex_go_web_api.Prelude.{
  ℕ, zero, suc, ◌≡◌, refl, ap, sym, subst, ◌∙◌, ◌⊎◌, Bool, true, false, ◌||◌, Option, none, some,
  List, [], ◌∷◌, arith, Bool-cases, Option-cases, inl, inr, is_empty, trim_space, lookup, insert,
  lookup-insert, ◌==◌,
}
use codex_go_web_api.Prelude.Outcome.{Result, ok, err, Result-cases}
use codex_go_web_api.Database.{Fate, works, fails, lost}
use codex_go_web_api.Outbox.Event.{Event, validate}
use codex_go_web_api.Outbox.Inbox.{
  InboxKey, InboxRow, InboxTable, InboxError, arguments_required, inbox_database, key_eq,
  key_beq_iff, processed, is_held, claim_inbox, claim_row, ended, marked, failed,
  mark_inbox_processed, mark_inbox_failed,
}
use codex_go_web_api.Audit.Consumer.{
  Consumer, Delivery, World, Outcome, key_of, finish, handle, process_valid, process, run,
}

-- The event of the key is processed.
abbrev Done : Option InboxRow → Type 0
Done none = ⊥
Done (some row) = row.status ≡ processed

abbrev pub IsDone : InboxKey → InboxTable → Type 0
IsDone key inbox = Done (lookup key inbox)

-- A claim that found its key held, or failed.
abbrev Refused : InboxTable → InboxTable × Result InboxError Bool → Type 0
Refused inbox t = (t ≡ (inbox, ok false)) ⊎ ((e : InboxError) × (t ≡ (inbox, err e)))

pub claim_row-held :
    (key : InboxKey) (now lock_for : ℕ) (inbox : InboxTable) (row : InboxRow)
    → lookup key inbox ≡ some row
    → is_held row now ≡ true
    → claim_row key now lock_for inbox ≡ (inbox, ok false)
unfolding claim_row
claim_row-held key now lock_for inbox row at held = rw (at, claim_row) (rw held refl)

ended-Refused :
    (fate : Fate) (inbox : InboxTable) → Refused inbox (ended fate inbox (inbox, ok false))
ended-Refused works inbox = inl refl
ended-Refused fails inbox = inr (inbox_database, refl)
ended-Refused lost inbox = inr (inbox_database, refl)

claim-held :
    (fate : Fate) (key : InboxKey) (now lock_for : ℕ) (inbox : InboxTable) (row : InboxRow)
    → lookup key inbox ≡ some row
    → is_held row now ≡ true
    → Refused inbox (claim_inbox fate key now lock_for inbox)
unfolding claim_inbox
claim-held fate key now zero inbox row at held = inr (arguments_required, refl)
claim-held fate key now (suc l) inbox row at held =
    elim (Bool-cases
      (is_empty (trim_space key.consumer_name) || is_empty (trim_space key.event_id))) [
        | inl e ↦ inr (arguments_required, rw e)
        | inr e ↦ rw e (
            subst (λ t. Refused inbox (ended fate inbox t))
              (sym (claim_row-held key now (suc l) inbox row at held)) (ended-Refused fate inbox))
      ]

process_valid-Refused :
    (c : Consumer) (w : World) (d : Delivery) (event : Event) (inbox : InboxTable)
    → Refused inbox (claim_inbox w.claims (key_of c d event) w.now c.lock_for inbox)
    → ((process_valid c w d event inbox).inbox ≡ inbox)
      × ((process_valid c w d event inbox).handled ≡ none)
unfolding process_valid
process_valid-Refused c w d event inbox (inl e) =
    (rw (e, process_valid) (ap (λ t. t.0) e), rw (e, process_valid))
process_valid-Refused c w d event inbox (inr (x, e)) =
    (rw (e, process_valid) (ap (λ t. t.0) e), rw (e, process_valid))

Done-row :
    (o : Option InboxRow) (now : ℕ)
    → Done o
    → (row : InboxRow) × (o ≡ some row) × (is_held row now ≡ true)
Done-row none now h = absurd h
Done-row (some row) now h = (row, refl, ground arith)

insert-IsDone :
    (key k : InboxKey) (row : InboxRow) (inbox : InboxTable)
    → (k == key) ≡ false
    → IsDone key inbox
    → IsDone key (insert k row inbox)
insert-IsDone key k row inbox ne h = rw (lookup-insert k key row inbox) (rw ne h)

claim_row-IsDone :
    (key k : InboxKey) (now lock_for : ℕ) (inbox : InboxTable)
    → (k == key) ≡ false
    → IsDone key inbox
    → IsDone key (claim_row k now lock_for inbox).0
unfolding claim_row
claim_row-IsDone key k now lock_for inbox ne h = elim (Option-cases (lookup k inbox)) [
  | inl e ↦ rw (e, claim_row) (insert-IsDone key k _ inbox ne h)
  | inr (row, e) ↦ elim (Bool-cases (is_held row now)) [
    | inl held ↦ rw (e, claim_row) (rw held h)
    | inr free ↦ rw (e, claim_row) (rw free (insert-IsDone key k _ inbox ne h))
  ]
]

ended-IsDone :
    {A : Type 0} (fate : Fate) (key : InboxKey) (inbox : InboxTable)
    (t : InboxTable × Result InboxError A)
    → IsDone key inbox
    → IsDone key t.0
    → IsDone key (ended fate inbox t).0
ended-IsDone works key inbox (after, answer) h k = k
ended-IsDone fails key inbox (after, answer) h k = h
ended-IsDone lost key inbox (after, answer) h k = k

claim-IsDone :
    (fate : Fate) (key k : InboxKey) (now lock_for : ℕ) (inbox : InboxTable)
    → (k == key) ≡ false
    → IsDone key inbox
    → IsDone key (claim_inbox fate k now lock_for inbox).0
unfolding claim_inbox
claim-IsDone fate key k now zero inbox ne h = h
claim-IsDone fate key k now (suc l) inbox ne h =
    elim (Bool-cases (is_empty (trim_space k.consumer_name) || is_empty (trim_space k.event_id))) [
      | inl e ↦ rw e h
      | inr e ↦
          rw e (ended-IsDone fate key inbox _ h (claim_row-IsDone key k now (suc l) inbox ne h))
    ]

marked-IsDone :
    (key k : InboxKey) (at : ℕ) (inbox : InboxTable)
    → (k == key) ≡ false
    → IsDone key inbox
    → IsDone key (marked k at inbox).0
marked-IsDone key k at inbox ne h = elim (Option-cases (lookup k inbox)) [
  | inl e ↦ rw (e, marked) h
  | inr (row, e) ↦ rw (e, marked) (insert-IsDone key k _ inbox ne h)
]

failed-IsDone :
    (key k : InboxKey) (at : ℕ) (inbox : InboxTable)
    → (k == key) ≡ false
    → IsDone key inbox
    → IsDone key (failed k at inbox).0
failed-IsDone key k at inbox ne h = elim (Option-cases (lookup k inbox)) [
  | inl e ↦ rw (e, failed) h
  | inr (row, e) ↦ rw (e, failed) (insert-IsDone key k _ inbox ne h)
]

mark_processed-IsDone :
    (fate : Fate) (key k : InboxKey) (at : ℕ) (inbox : InboxTable)
    → (k == key) ≡ false
    → IsDone key inbox
    → IsDone key (mark_inbox_processed fate k at inbox).0
unfolding mark_inbox_processed
mark_processed-IsDone fate key k at inbox ne h =
    ended-IsDone fate key inbox (marked k at inbox) h (marked-IsDone key k at inbox ne h)

mark_failed-IsDone :
    (fate : Fate) (key k : InboxKey) (at : ℕ) (inbox : InboxTable)
    → (k == key) ≡ false
    → IsDone key inbox
    → IsDone key (mark_inbox_failed fate k at inbox).0
unfolding mark_inbox_failed
mark_failed-IsDone fate key k at inbox ne h =
    ended-IsDone fate key inbox (failed k at inbox) h (failed-IsDone key k at inbox ne h)

finish-inbox :
    (event : Event) (t : InboxTable × Result InboxError (Unit {0})) → (finish event t).inbox ≡ t.0
finish-inbox event (inbox, ok u) = refl
finish-inbox event (inbox, err e) = refl

handle-IsDone :
    (c : Consumer) (w : World) (d : Delivery) (event : Event) (key : InboxKey) (inbox : InboxTable)
    → (key_of c d event == key) ≡ false
    → IsDone key inbox
    → IsDone key (handle c w d event inbox).inbox
unfolding handle
handle-IsDone c w d event key inbox ne h = elim (Bool-cases w.handles) [
  | inl e ↦ rw e (
      rw (finish-inbox event _)
        (mark_processed-IsDone w.marks key (key_of c d event) w.later inbox ne h))
  | inr e ↦ rw e (mark_failed-IsDone w.marks key (key_of c d event) _ inbox ne h)
]

other-IsDone :
    (c : Consumer) (w : World) (d : Delivery) (event : Event) (key : InboxKey) (inbox : InboxTable)
    → (key_of c d event == key) ≡ false
    → IsDone key inbox
    → IsDone key (process_valid c w d event inbox).inbox
unfolding process_valid
other-IsDone c w d event key inbox ne h =
    let t = claim_inbox w.claims (key_of c d event) w.now c.lock_for inbox in
    let kept = claim-IsDone w.claims key (key_of c d event) w.now c.lock_for inbox ne h in
    elim (Result-cases t.1) [
      | inr (x, e) ↦ rw (e, process_valid) kept
      | inl (b, e) ↦ elim (Bool-cases b) [
        | inl y ↦ rw (e ∙ ap ok y, process_valid) (handle-IsDone c w d event key t.0 ne kept)
        | inr n ↦ rw (e ∙ ap ok n, process_valid) kept
      ]
    ]

-- A delivery keeps a processed event processed, and its handler does not run on that event.
abbrev Passed : InboxKey → Consumer → Delivery → Outcome → Type 0
Passed key c d o =
    IsDone key o.inbox
    × ((event : Event) → d.body ≡ some event → (key_of c d event == key) ≡ true → o.handled ≡ none)

process_valid-Passed :
    (c : Consumer) (w : World) (d : Delivery) (event : Event) (key : InboxKey) (inbox : InboxTable)
    → IsDone key inbox
    → IsDone key (process_valid c w d event inbox).inbox
      × ((key_of c d event == key) ≡ true → (process_valid c w d event inbox).handled ≡ none)
process_valid-Passed c w d event key inbox h = elim (Bool-cases (key_of c d event == key)) [
  | inr ne ↦ (other-IsDone c w d event key inbox ne h, λ eq. cc)
  | inl eq ↦
      let at : key_of c d event ≡ key = (key_beq_iff (key_of c d event) key).0 eq in
      let h' : IsDone (key_of c d event) inbox = subst (λ k. IsDone k inbox) (sym at) h in
      let (row, found, held) = Done-row (lookup (key_of c d event) inbox) w.now h' in
      let (same, none_handled) =
        process_valid-Refused c w d event inbox
          (claim-held w.claims (key_of c d event) w.now c.lock_for inbox row found held) in
      (subst (λ i. IsDone key i) (sym same) h, λ e. none_handled)
]

process-Passed :
    (wide : ℕ → ℕ) (c : Consumer) (w : World) (d : Delivery) (key : InboxKey) (inbox : InboxTable)
    → IsDone key inbox
    → Passed key c d (process wide c w d inbox)
unfolding process
process-Passed wide c w d key inbox h = elim (Option-cases d.body) [
  | inl e ↦ rw (e, process) (h, λ event b k. refl)
  | inr (event, e) ↦ elim (Result-cases (validate wide event)) [
    | inr (x, bad) ↦ rw (e, process) (rw (bad, process) (h, λ event b k. refl))
    | inl (u, good) ↦
        let (kept, passed) = process_valid-Passed c w d event key inbox h in
        rw (e, process)
          (rw (good, process)
            (
              kept,
              λ other b k.
                  passed (subst (λ x. (key_of c d x == key) ≡ true) (sym (some-injective _ _ b)) k),
            ))
  ]
]

-- No delivery of the history makes the handler run on the event of the key.
abbrev pub NotHandled :
    (ℕ → ℕ) → InboxKey → Consumer → List (World × Delivery) → InboxTable → Type 0
NotHandled wide key c [] inbox = Unit {0}
NotHandled wide key c ((w, d) ∷ rest) inbox =
    ((event : Event)
      → d.body ≡ some event
      → (key_of c d event == key) ≡ true
      → (process wide c w d inbox).handled ≡ none)
    × NotHandled wide key c rest (process wide c w d inbox).inbox

-- Once the inbox has an event of a consumer as processed, no later deliveries to it, duplicates
-- included, make its handler run on that event again, and the event stays processed.
pub run-NotHandled :
    (wide : ℕ → ℕ) (key : InboxKey) (c : Consumer) (ds : List (World × Delivery))
    (inbox : InboxTable)
    → IsDone key inbox
    → NotHandled wide key c ds inbox × IsDone key (run wide c ds inbox)
unfolding run
run-NotHandled wide key c [] inbox h = (tt, h)
run-NotHandled wide key c ((w, d) ∷ rest) inbox h =
    let (kept, passed) = process-Passed wide c w d key inbox h in
    let (later, done) = run-NotHandled wide key c rest _ kept in ((passed, later), done)
