-- ===== src/Prelude/Outcome.antt =====
-- Go's `(value, error)` results, and their chaining.
use mathlib.Core.Path.{◌≡◌, refl, ap}
use mathlib.Core.Bool.{Bool, true, false}
use codex_go_web_api.Prelude.Tests.{if◌then◌else◌}
use mathlib.Core.Logic.{◌⊎◌, inl, inr}

pub data Result {ℓ} (E A : Type ℓ) : Type ℓ where
  ok : A → Result E A
  err : E → Result E A

infixl 5 ◌>>=◌ ◌>>◌
abbrev pub ◌>>=◌ {ℓ} : {E A B : Type ℓ} → Result E A → (A → Result E B) → Result E B
ok a >>= f = f a
err e >>= f = err e

abbrev pub ◌>>◌ {ℓ} : {E A B : Type ℓ} → Result E A → Result E B → Result E B
m >> k = m >>= λ _. k

abbrev pub map_ok {ℓ} : {E A B : Type ℓ} → (A → B) → Result E A → Result E B
map_ok f (ok a) = ok (f a)
map_ok f (err e) = err e

abbrev pub map_err {ℓ} : {E F A : Type ℓ} → (E → F) → Result E A → Result F A
map_err f (ok a) = ok a
map_err f (err e) = err (f e)

pub Result-cases {ℓ} :
    {E A : Type ℓ} (r : Result E A) → ((a : A) × (r ≡ ok a)) ⊎ ((e : E) × (r ≡ err e))
Result-cases (ok a) = inl (a, refl)
Result-cases (err e) = inr (e, refl)

-- A guarded result that is there is the one behind the guard.
pub if-ok {ℓ} :
    {E A : Type ℓ} (b : Bool) (r : Result E A) (e : E) (a : A)
    → (if b then r else err e) ≡ ok a
    → r ≡ ok a
if-ok true r e a h = h
if-ok false r e a h = cc

pub if-true {ℓ} :
    {E A : Type ℓ} (b : Bool) (r : Result E A) (e : E) (a : A)
    → (if b then r else err e) ≡ ok a
    → b ≡ true
if-true true r e a h = refl
if-true false r e a h = cc

-- A chain that succeeds has taken its first step.
pub bind-ok {ℓ} :
    {E A B : Type ℓ} (m : Result E A) (f : A → Result E B) (b : B)
    → (m >>= f) ≡ ok b
    → (a : A) × (m ≡ ok a) × (f a ≡ ok b)
bind-ok (ok a) f b h = (a, refl, h)
bind-ok (err e) f b h = cc

abbrev or_else {ℓ} : {E A : Type ℓ} → A → Result E A → A
or_else default (ok a) = a
or_else default (err e) = default

pub ok-injective {ℓ} : {E A : Type ℓ} (a b : A) → ◌≡◌ {A = Result E A} (ok a) (ok b) → a ≡ b
ok-injective a b h = ap (or_else a) h

pub then-ok {ℓ} :
    {E A B : Type ℓ} (m : Result E A) (k : Result E B) (b : B)
    → (m >> k) ≡ ok b
    → (a : A) × (m ≡ ok a) × (k ≡ ok b)
then-ok m k b h = bind-ok m (λ _. k) b h

-- The same, for what follows from the first step and the rest.
pub bind-elim {ℓ κ} :
    {E A B : Type ℓ} {P : Type κ} {m : Result E A} {f : A → Result E B} {b : B}
    → (m >>= f) ≡ ok b
    → ((a : A) → m ≡ ok a → f a ≡ ok b → P)
    → P
bind-elim {m = m} {f} {b} h k = let (a, e, h') = bind-ok m f b h in k a e h'
