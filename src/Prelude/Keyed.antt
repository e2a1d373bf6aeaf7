-- ===== src/Prelude/Keyed.antt =====
-- Go's `map[K]V` as an association list: at most the first entry of a key is seen, and a write
-- replaces that entry or adds one at the end.
use mathlib.Core.Path.{◌≡◌, refl}
use mathlib.Core.Bool.{true}
use mathlib.Core.Option.{Option, none, some}
use mathlib.Core.List.{List, [], ◌∷◌, ◌++◌}
use native.Mathlib.Omega.{arith}
use codex_go_web_api.Prelude.Tests.{Eq, ◌==◌, if◌then◌else◌}

module _ {ℓ κ} {K : Type ℓ} {V : Type κ} ⦃keys : Eq K⦄ where
  unfoldable pub insert : K → V → List (K × V) → List (K × V)
  insert key v [] = (key, v) ∷ []
  insert key v ((other, w) ∷ entries) =
      if other == key then (key, v) ∷ entries else (other, w) ∷ insert key v entries

  unfoldable pub lookup : K → List (K × V) → Option V
  lookup key [] = none
  lookup key ((other, w) ∷ entries) = if other == key then some w else lookup key entries

  pub lookup-insert :
      (key sought : K) (v : V) (entries : List (K × V))
      → lookup sought (insert key v entries)
        ≡ (if key == sought then some v else lookup sought entries)
  unfolding insert lookup
  lookup-insert key sought v [] = refl
  lookup-insert key sought v ((other, w) ∷ entries) = ground (
    arith,
    lookup-insert key sought v entries,
    keys.beq_iff key sought,
    keys.beq_iff other key,
    keys.beq_iff other sought,
  )

pub ==_refl {ℓ} : {K : Type ℓ} ⦃e : Eq K⦄ (k : K) → (k == k) ≡ true
==_refl ⦃e⦄ k = (e.beq_iff k k).1 refl

module _ {ℓ κ} {K : Type ℓ} {V : Type κ} ⦃keys : Eq K⦄ where
  -- A new key's entry is added at the end.
  pub insert-absent :
      (key : K) (v : V) (entries : List (K × V))
      → lookup key entries ≡ none
      → insert key v entries ≡ entries ++ (key, v) ∷ []
  unfolding insert lookup
  insert-absent key v [] h = refl
  insert-absent key v ((other, w) ∷ entries) h = ground (arith, insert-absent key v entries)

  -- Writing what is there changes nothing.
  pub insert-present :
      (key : K) (v : V) (entries : List (K × V))
      → lookup key entries ≡ some v
      → insert key v entries ≡ entries
  unfolding insert lookup
  insert-present key v [] h = cc
  insert-present key v ((other, w) ∷ entries) h =
      ground (arith, insert-present key v entries, keys.beq_iff other key)
