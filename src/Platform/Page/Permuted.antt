-- ===== src/Platform/Page/Permuted.antt =====
-- Sorting by ID forgets the order in which a map was ranged over.
use mathlib.Core.List.{
  Permᴰ, Perm, Mem, mem-cons, mem-cons_self, mem-cons_of_mem, not-mem-nil, is_set,
}
use mathlib.Core.Logic.Or
use native.Mathlib.Bridge.{le_prop}
use mathlib.Core.List.Permᴰ
use mathlib.Core.Logic.{∥∥₁_elim}
use codex_go_web_api.Prelude.{ℕ, ◌<◌, ◌≡◌, refl, sym, ap, ◌∙◌, ◌≢◌, List, [], ◌∷◌, arith}
use native.Mathlib.Decide.{ℕ_discrete}
use codex_go_web_api.Platform.Page.{insert_by_id, sort_by_id}
use codex_go_web_api.Platform.Page.Sorted.{Rises}

module _ {A : Type 0} (id_of : A → ℕ) where
  -- Items with one ID are one item.
  abbrev pub Apart : List A → Type 0
  Apart l = (a b : A) → Mem a l → Mem b l → id_of a ≡ id_of b → a ≡ b

  insert_by_id_comm :
      (a b : A) (l : List A)
      → id_of a ≢ id_of b
      → insert_by_id id_of a (insert_by_id id_of b l)
        ≡ insert_by_id id_of b (insert_by_id id_of a l)
  unfolding insert_by_id
  insert_by_id_comm a b [] h = ground arith
  insert_by_id_comm a b (x ∷ l) h = ground (arith, insert_by_id_comm a b l h)

  insert_swap :
      (a b : A) (l : List A)
      → (id_of a ≡ id_of b → a ≡ b)
      → insert_by_id id_of a (insert_by_id id_of b l)
        ≡ insert_by_id id_of b (insert_by_id id_of a l)
  insert_swap a b l same = elim (ℕ_discrete (id_of a) (id_of b)) [
    | yes e ↦ rw (same e)
    | no n ↦ insert_by_id_comm a b l n
  ]

  Apart-tail : (a : A) (l : List A) → Apart (a ∷ l) → Apart l
  Apart-tail a l h x y mx my e = h x y (mem-cons_of_mem a mx) (mem-cons_of_mem a my) e

  sort-permᴰ : {l m : List A} → Apart l → Permᴰ l m → sort_by_id id_of l ≡ sort_by_id id_of m
  unfolding sort_by_id
  sort-permᴰ h Permᴰ.nil = refl
  sort-permᴰ h (Permᴰ.cons {a} {b} {l₁} {l₂} e p) =
      ap (λ s. insert_by_id id_of a s) (sort-permᴰ (Apart-tail a l₁ h) p)
      ∙ ap (λ x. insert_by_id id_of x (sort_by_id id_of l₂)) e
  sort-permᴰ h (Permᴰ.swap {a} {b} {a'} {b'} {l} e f) =
      rw (← e, ← f)
        (insert_swap a b (sort_by_id id_of l)
          (h a b mem-cons_self (mem-cons_of_mem a mem-cons_self)))
  sort-permᴰ h (Permᴰ.trans p q) =
      sort-permᴰ h p
      ∙ sort-permᴰ
          (λ x y mx my e. h x y (Permᴰ.mem (Permᴰ.symm p) mx) (Permᴰ.mem (Permᴰ.symm p) my) e) q

  module _ (A_set : IsSet A) where
    -- Two orders of one collection sort to the same list.
    pub sort-perm : {l m : List A} → Apart l → Perm l m → sort_by_id id_of l ≡ sort_by_id id_of m
    sort-perm h p = ∥∥₁_elim p (is_set A_set _ _) (λ d. sort-permᴰ h d)

    Rises-above : (b : ℕ) (a : A) (l : List A) → Rises id_of b l → Mem a l → b < id_of a
    Rises-above b a [] h m = absurd (not-mem-nil m)
    Rises-above b a (x ∷ l) h m =
        Or.elim le_prop (mem-cons.0 m) (λ e. rw e h.0)
          (λ t. omega (arith, Rises-above (id_of x) a l h.1 t))

    pub Apart-Rises : (b : ℕ) (l : List A) → Rises id_of b l → Apart l
    Apart-Rises b [] h x y mx my e = absurd (not-mem-nil mx)
    Apart-Rises b (a ∷ l) h x y mx my e =
        Or.elim (A_set x y) (mem-cons.0 mx)
          (λ xa.
            Or.elim (A_set x y) (mem-cons.0 my) (λ ya. xa ∙ sym ya)
              (λ ml. absurd (omega (arith, Rises-above (id_of a) y l h.1 ml, ap id_of xa))))
          (λ xl.
            Or.elim (A_set x y) (mem-cons.0 my)
              (λ ya. absurd (omega (arith, Rises-above (id_of a) x l h.1 xl, ap id_of ya)))
              (λ yl. Apart-Rises (id_of a) l h.1 x y xl yl e))

  insert_by_id-least :
      (b : ℕ) (a : A) (l : List A) → Rises id_of (id_of a) l → insert_by_id id_of a l ≡ a ∷ l
  unfolding insert_by_id
  insert_by_id-least b a [] h = refl
  insert_by_id-least b a (x ∷ l) h = ground arith

  -- A list in strictly rising order is sorted already.
  pub sort-Rises : (b : ℕ) (l : List A) → Rises id_of b l → sort_by_id id_of l ≡ l
  unfolding sort_by_id
  sort-Rises b [] h = refl
  sort-Rises b (a ∷ l) h = ground (arith, sort-Rises (id_of a) l h.1, insert_by_id-least b a l h.1)
