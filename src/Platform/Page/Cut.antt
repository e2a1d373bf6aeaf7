-- ===== src/Platform/Page/Cut.antt =====
-- A page that is cut from one item more than it holds: what the MySQL repositories ask for.
use codex_go_web_api.Prelude.{
  ℕ, zero, suc, ◌+◌, ◌≤◌, ◌<◌, ◌≡◌, refl, ap, List, [], ◌∷◌, arith, length, take, leb, Bool-cases,
  inl, inr, ◌∙◌,
}
use codex_go_web_api.Platform.Page.{paginate}

module _ {A : Type 0} where
  take-take : (n : ℕ) (l : List A) → take n (take (suc n) l) ≡ take n l
  take-take zero l = refl
  take-take (suc n) [] = refl
  take-take (suc n) (a ∷ l) = ap (λ r. a ∷ r) (take-take n l)

  take-all : (n : ℕ) (l : List A) → length l ≤ n → take (suc n) l ≡ l
  take-all n [] h = refl
  take-all zero (a ∷ l) h = ground arith
  take-all (suc n) (a ∷ l) h = ap (λ r. a ∷ r) (take-all n l (omega arith))

  length-take-over : (n : ℕ) (l : List A) → n < length l → n < length (take (suc n) l)
  length-take-over n [] h = omega arith
  length-take-over zero (a ∷ l) h = omega arith
  length-take-over (suc n) (a ∷ l) h = omega (arith, length-take-over n l (omega arith))

  pub paginate-take :
      (id_of : A → ℕ) (l : List A) (n : ℕ) → paginate id_of (take (n + 1) l) n ≡ paginate id_of l n
  unfolding paginate
  paginate-take id_of l n =
      let as_suc : n + 1 ≡ suc n = omega arith in
      ap (λ k. paginate id_of (take k l) n) as_suc ∙ elim (Bool-cases (leb (length l) n)) [
        | inl e ↦ ap (λ r. paginate id_of r n) (take-all n l (ground (arith, e)))
        | inr e ↦ ground (arith, e, take-take n l, length-take-over n l)
      ]
