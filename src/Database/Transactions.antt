-- ===== src/Database/Transactions.antt =====
-- What a transaction leaves behind, whatever fails.
use codex_go_web_api.Prelude.{◌≡◌, refl, ◌⊎◌, inl, inr}
use codex_go_web_api.Prelude.Outcome.{Result, ok, err}
use codex_go_web_api.Database.{
  Fate, works, fails, lost, End, returns, commits, commit, transact, DriverError, in_tx,
}

-- The answer to a commit: what was committed if it worked, the error if its answer was lost.
abbrev pub Answers : {E A : Type 0} → E → Fate → A → Result E A → Type 0
Answers broken ending a r = ((ending ≡ works) × (r ≡ ok a)) ⊎ ((ending ≡ lost) × (r ≡ err broken))

-- The tables are as before, and the result is an error or what the body returns before a commit; or
-- the tables are those that the body commits, and the result is the body's if the commit `ending`
-- worked, or its error if the answer was lost.
abbrev pub Atomic : {D E A : Type 0} → E → Fate → D → Result E (End D A) → D × Result E A → Type 0
Atomic {D} {E} {A} broken ending db body s =
    ((s.0 ≡ db) × (((e : E) × (s.1 ≡ err e)) ⊎ ((a : A) × (body ≡ ok (returns a)) × (s.1 ≡ ok a))))
    ⊎ ((a : A) × (body ≡ ok (commits s.0 a)) × Answers broken ending a s.1)

commit-Atomic :
    {D E A : Type 0} (broken : E) (ending : Fate) (db : D) (body : Result E (End D A))
    → Atomic broken ending db body (commit broken ending db body)
commit-Atomic broken ending db (err e) = inl (refl, inl (e, refl))
commit-Atomic broken ending db (ok (returns a)) = inl (refl, inr (a, refl, refl))
commit-Atomic broken works db (ok (commits after a)) = inr (a, refl, inl (refl, refl))
commit-Atomic broken fails db (ok (commits after a)) = inl (refl, inl (broken, refl))
commit-Atomic broken lost db (ok (commits after a)) = inr (a, refl, inr (refl, refl))

pub transact-Atomic :
    {D E A : Type 0} (broken : E) (begin ending : Fate) (body : D → Result E (End D A)) (db : D)
    → Atomic broken ending db (body db) (transact broken begin ending body db)
unfolding transact
transact-Atomic broken works ending body db = commit-Atomic broken ending db (body db)
transact-Atomic broken fails ending body db = inl (refl, inl (broken, refl))
transact-Atomic broken lost ending body db = inl (refl, inl (broken, refl))

pub in_tx-ok :
    {A : Type 0} (fate : Fate) (r : Result DriverError A) (a : A) → in_tx fate r ≡ ok a → r ≡ ok a
in_tx-ok works r a h = h
in_tx-ok fails r a h = cc
in_tx-ok lost r a h = cc
