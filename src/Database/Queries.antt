-- ===== src/Database/Queries.antt =====
-- What a query that finds a row has found, and an UPDATE as a map over its table.
use mathlib.Core.List.{Mem, mem-cons_self, mem-cons_of_mem}
use mathlib.Core.Option.{some-injective}
use codex_go_web_api.Prelude.{
  ◌≡◌, refl, subst, Bool, true, Option, none, some, List, [], ◌∷◌, Bool-cases, inl, inr, arith,
  Text, map, ap, if◌then◌else◌,
}
use codex_go_web_api.Prelude.Outcome.{ok}
use codex_go_web_api.Database.{Fate, works, fails, lost, query_row}
use codex_go_web_api.Database.Tables.{first, holds, any, update}

pub first-found :
    {A : Type 0} (p : A → Bool) (l : List A) (a : A) → first p l ≡ some a → Mem a l × (p a ≡ true)
unfolding first
first-found p [] a h = cc
first-found p (x ∷ l) a h = elim (Bool-cases (p x)) [
  | inl e ↦
      let is_it : x ≡ a = some-injective x a (rw (e, first) at h) in
      subst (λ y. Mem y (x ∷ l) × (p y ≡ true)) is_it (mem-cons_self, e)
  | inr e ↦
      let (m, passed) = first-found p l a (rw (e, first) at h) in (mem-cons_of_mem x m, passed)
]

pub holds-some :
    (collates : Text → Text → Bool) (key : Text) (held : Option Text)
    → holds collates key held ≡ true
    → (other : Text) × (held ≡ some other) × (collates other key ≡ true)
holds-some collates key none h = cc
holds-some collates key (some other) h = (other, refl, h)

pub query_row-found :
    {E A : Type 0} (no_rows broken : E) (fate : Fate) (found : Option A) (a : A)
    → query_row no_rows broken fate found ≡ ok a
    → found ≡ some a
query_row-found no_rows broken works (some x) a h = ground arith
query_row-found no_rows broken works none a h = cc
query_row-found no_rows broken fails found a h = cc
query_row-found no_rows broken lost found a h = cc

pub any-found :
    {A : Type 0} (p : A → Bool) (l : List A) → any p l ≡ true → (a : A) × Mem a l × (p a ≡ true)
unfolding any
any-found p [] h = cc
any-found p (x ∷ l) h = elim (Bool-cases (p x)) [
  | inl e ↦ (x, mem-cons_self, e)
  | inr e ↦
      let (a, m, passed) = any-found p l (rw (e, any) at h) in (a, mem-cons_of_mem x m, passed)
]

pub update-map :
    {A : Type 0} (p : A → Bool) (f : A → A) (l : List A)
    → update p f l ≡ map (λ a. if p a then f a else a) l
unfolding update
update-map p f [] = refl
update-map p f (x ∷ l) = ap (λ m. (if p x then f x else x) ∷ m) (update-map p f l)
