-- ===== src/Audit/Logger/Accounts.antt =====
-- Where every audit record goes.
use codex_go_web_api.Prelude.{
  ℕ, ◌+◌, ◌≤◌, ◌<◌, ◌≡◌, refl, sym, ap, ◌∙◌, true, List, [], ◌∷◌, ◌++◌, length, length-append, ltb,
  if◌then◌else◌, arith,
}
use mathlib.Core.List.{append_assoc, append-nil}
use codex_go_web_api.Audit.Logger.{
  Item, AsyncLogger, new_async_logger, record_item, close, run_once, Step, records, closes, runs,
  step, history,
}

-- The records that `Record` accepts, by what it sees: the logger open and room in the queue.
abbrev accepts : AsyncLogger → Step → List Item
accepts l (records item) =
    if l.closed then [] else if ltb (length l.events) l.cap then item ∷ [] else []
accepts l closes = []
accepts l runs = []

unfoldable pub accepted : AsyncLogger → List Step → List Item
accepted l [] = []
accepted l (s ∷ ss) = accepts l s ++ accepted (step l s) ss

abbrev is_record : Step → ℕ
is_record (records item) = 1
is_record closes = 0
is_record runs = 0

unfoldable pub recorded : List Step → ℕ
recorded [] = 0
recorded (s ∷ ss) = is_record s + recorded ss

-- What was accepted is written or still queued, in order; the queue fits; a warning was given once.
pub record IsSound (l : AsyncLogger) : Type 0 where
  pub fits : length l.events ≤ l.cap
  pub ended : l.done ≡ true → (l.closed ≡ true) × (l.events ≡ [])
  pub warned : length l.warnings ≡ (if l.drop_warned then 1 else 0)

new-IsSound : (size : ℕ) → IsSound (new_async_logger size)
new-IsSound size = record { fits = omega arith; ended = λ h. cc; warned = refl }

runs-IsSound : (l : AsyncLogger) (es : List Item) → IsSound l → l.events ≡ es → IsSound (run_once l)
unfolding run_once
runs-IsSound l [] v e =
    rw (e, run_once)
      (record {
        fits = ground (arith, v.fits);
        ended = λ h. ground (arith, v.ended);
        warned =
            ground (arith, v.warned, length-append l.warnings ((l.drop_reason, l.dropped) ∷ []));
      })
runs-IsSound l (x ∷ es) v e =
    rw (e, run_once)
      (record {
        fits = ground (arith, v.fits);
        ended = λ h. ground (arith, v.ended);
        warned =
            ground (arith, v.warned, length-append l.warnings ((l.drop_reason, l.dropped) ∷ []));
      })

step-IsSound : (l : AsyncLogger) (s : Step) → IsSound l → IsSound (step l s)
unfolding record_item close run_once
step-IsSound l (records item) v = record {
  fits = ground (arith, length-append l.events (item ∷ []));
  ended = λ h. ground (arith, v.ended);
  warned = ground arith;
}
step-IsSound l closes v = record {
  fits = v.fits;
  ended = λ h. ground (arith, v.ended);
  warned = v.warned;
}
step-IsSound l runs v = runs-IsSound l l.events v refl

runs-conserves :
    (l : AsyncLogger) (es : List Item)
    → l.events ≡ es
    → (run_once l).written ++ (run_once l).events ≡ l.written ++ l.events
unfolding run_once
runs-conserves l [] e = ground arith
runs-conserves l (x ∷ es) e = ground (arith, append_assoc l.written (x ∷ []) es)

step-conserves :
    (l : AsyncLogger) (s : Step)
    → IsSound l
    → (step l s).written ++ (step l s).events ≡ (l.written ++ l.events) ++ accepts l s
unfolding record_item close run_once
step-conserves l (records item) v =
    ground (arith, append-nil (l.written ++ l.events), append_assoc l.written l.events (item ∷ []))
step-conserves l closes v = sym (append-nil _)
step-conserves l runs v = runs-conserves l l.events refl ∙ sym (append-nil _)

history-IsSound : (l : AsyncLogger) (ss : List Step) → IsSound l → IsSound (history l ss)
unfolding history
history-IsSound l [] v = v
history-IsSound l (s ∷ ss) v = history-IsSound (step l s) ss (step-IsSound l s v)

history-conserves :
    (l : AsyncLogger) (ss : List Step)
    → IsSound l
    → (history l ss).written ++ (history l ss).events ≡ (l.written ++ l.events) ++ accepted l ss
unfolding history accepted
history-conserves l [] v = sym (append-nil _)
history-conserves l (s ∷ ss) v =
    history-conserves (step l s) ss (step-IsSound l s v)
    ∙ ap (λ x. x ++ accepted (step l s) ss) (step-conserves l s v)
    ∙ append_assoc (l.written ++ l.events) (accepts l s) (accepted (step l s) ss)

-- The records that are accepted and those that are dropped are all of them; the counter of drops is
-- of 64 bits.
counts : (l : AsyncLogger) (s : Step) → length (accepts l s) ≤ is_record s
counts l (records item) = ground arith
counts l closes = omega arith
counts l runs = omega arith

runs-dropped :
    (l : AsyncLogger) (es : List Item) → l.events ≡ es → (run_once l).dropped + 0 ≡ l.dropped + 0
unfolding run_once
runs-dropped l [] e = ground arith
runs-dropped l (x ∷ es) e = ground arith

step-dropped :
    (l : AsyncLogger) (s : Step)
    → l.dropped + is_record s < 18_446_744_073_709_551_616
    → (step l s).dropped + length (accepts l s) ≡ l.dropped + is_record s
unfolding record_item close run_once
step-dropped l (records item) h = ground arith
step-dropped l closes h = omega arith
step-dropped l runs h = runs-dropped l l.events refl

history-dropped :
    (l : AsyncLogger) (ss : List Step)
    → l.dropped + recorded ss < 18_446_744_073_709_551_616
    → (history l ss).dropped + length (accepted l ss) ≡ l.dropped + recorded ss
unfolding history accepted recorded
history-dropped l [] h = omega arith
history-dropped l (s ∷ ss) h = omega (
  arith,
  step-dropped l s (omega arith),
  history-dropped (step l s) ss (omega (arith, step-dropped l s (omega arith))),
  length-append (accepts l s) (accepted (step l s) ss),
)

-- From a new logger, after any interleaving of fewer than 2^64 calls of `Record` with `Close` and
-- the writing goroutine: what was accepted is written or queued, in the order of its acceptance;
-- each recorded event that was not accepted is counted as dropped; the queue holds at most its
-- capacity; at most one drop warning was written; and when the goroutine is done, every accepted
-- record is written.
pub history-accounts :
    (size : ℕ) (ss : List Step)
    → recorded ss < 18_446_744_073_709_551_616
    → let l = history (new_async_logger size) ss in
      (l.written ++ l.events ≡ accepted (new_async_logger size) ss)
      × (l.dropped + length (accepted (new_async_logger size) ss) ≡ recorded ss)
      × (length l.events ≤ l.cap)
      × (length l.warnings ≤ 1)
      × (l.done ≡ true → l.written ≡ accepted (new_async_logger size) ss)
history-accounts size ss h =
    let l = new_async_logger size in
    let v = history-IsSound l ss (new-IsSound size) in
    let all = history-conserves l ss (new-IsSound size) in
    (
      all,
      omega (arith, history-dropped l ss (omega arith)),
      v.fits,
      ground (arith, v.warned),
      λ d. sym (append-nil _) ∙ ap (λ x. (history l ss).written ++ x) (sym (v.ended d).1) ∙ all,
    )
