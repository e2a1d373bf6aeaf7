-- ===== src/Platform/Page/Sorted.antt =====
-- The sorted listing of the items whose IDs are after a cursor.
use codex_go_web_api.Prelude.{
  ℕ, zero, suc, ◌≤◌, ◌<◌, ◌≡◌, refl, Bool, some, List, [], ◌∷◌, arith, take, drop, select, ltb,
  if◌then◌else◌,
}
use codex_go_web_api.Platform.Page.{get_last?, insert_by_id, sort_by_id}

module _ {A : Type 0} (id_of : A → ℕ) where
  abbrev pub after : ℕ → A → Bool
  after c a = ltb c (id_of a)

  -- The IDs do not fall, from `b` on.
  abbrev pub Ascends : ℕ → List A → Type 0
  Ascends b [] = Unit
  Ascends b (a ∷ l) = (b ≤ id_of a) × Ascends (id_of a) l

  -- The IDs rise strictly, from above `b`.
  abbrev pub Rises : ℕ → List A → Type 0
  Rises b [] = Unit
  Rises b (a ∷ l) = (b < id_of a) × Rises (id_of a) l

  Ascends-mono : (b c : ℕ) (l : List A) → c ≤ b → Ascends b l → Ascends c l
  Ascends-mono b c [] q h = tt
  Ascends-mono b c (a ∷ l) q h = (omega arith, h.1)

  insert_by_id-Ascends :
      (b : ℕ) (a : A) (l : List A) → b ≤ id_of a → Ascends b l → Ascends b (insert_by_id id_of a l)
  unfolding insert_by_id
  insert_by_id-Ascends b a [] q h = (q, tt)
  insert_by_id-Ascends b a (x ∷ l) q h = ground (arith, insert_by_id-Ascends (id_of x) a l)

  pub sort_by_id-Ascends : (l : List A) → Ascends 0 (sort_by_id id_of l)
  unfolding sort_by_id
  sort_by_id-Ascends [] = tt
  sort_by_id-Ascends (a ∷ l) =
      insert_by_id-Ascends 0 a (sort_by_id id_of l) (omega arith) (sort_by_id-Ascends l)

  select-Ascends : (p : A → Bool) (b : ℕ) (l : List A) → Ascends b l → Ascends b (select p l)
  select-Ascends p b [] h = tt
  select-Ascends p b (a ∷ l) h =
      ground (arith, select-Ascends p (id_of a) l h.1, Ascends-mono (id_of a) b (select p l))

  insert_by_id-first :
      (a : A) (b : ℕ) (l : List A) → id_of a ≤ b → Ascends b l → insert_by_id id_of a l ≡ a ∷ l
  unfolding insert_by_id
  insert_by_id-first a b [] q h = refl
  insert_by_id-first a b (x ∷ l) q h = ground arith

  -- Filtering commutes with sorting.
  select-insert_by_id :
      (p : A → Bool) (a : A) (b : ℕ) (l : List A)
      → Ascends b l
      → select p (insert_by_id id_of a l)
        ≡ (if p a then insert_by_id id_of a (select p l) else select p l)
  unfolding insert_by_id
  select-insert_by_id p a b [] h = refl
  select-insert_by_id p a b (x ∷ l) h = ground (
    arith,
    select-insert_by_id p a (id_of x) l h.1,
    insert_by_id-first a (id_of x) (select p l),
    select-Ascends p (id_of x) l h.1,
  )

  pub select-sort_by_id :
      (p : A → Bool) (l : List A) → select p (sort_by_id id_of l) ≡ sort_by_id id_of (select p l)
  unfolding sort_by_id
  select-sort_by_id p [] = refl
  select-sort_by_id p (a ∷ l) = ground (
    arith,
    select-sort_by_id p l,
    select-insert_by_id p a 0 (sort_by_id id_of l),
    sort_by_id-Ascends l,
  )

  pub select-after_all : (c b : ℕ) (l : List A) → Rises b l → c ≤ b → select (after c) l ≡ l
  select-after_all c b [] h q = refl
  select-after_all c b (a ∷ l) h q = ground (arith, select-after_all c (id_of a) l h.1)

  get_last?-above :
      (n b : ℕ) (l : List A) (x : A) → Rises b l → get_last? (take n l) ≡ some x → b < id_of x
  get_last?-above zero b l x h e = cc
  get_last?-above (suc n) b [] x h e = cc
  get_last?-above (suc zero) b (a ∷ l) x h e = ground arith
  get_last?-above (suc (suc n)) b (a ∷ []) x h e = ground arith
  get_last?-above (suc (suc n)) b (a ∷ y ∷ l) x h e =
      omega (arith, get_last?-above (suc n) (id_of a) (y ∷ l) x h.1 e)

  -- What is after the last item of a cut is what the cut left.
  pub select-after-last :
      (n b : ℕ) (l : List A) (x : A)
      → Rises b l
      → get_last? (take n l) ≡ some x
      → select (after (id_of x)) l ≡ drop n l
  select-after-last zero b l x h e = cc
  select-after-last (suc n) b [] x h e = refl
  select-after-last (suc zero) b (a ∷ l) x h e =
      ground (arith, select-after_all (id_of x) (id_of a) l h.1)
  select-after-last (suc (suc n)) b (a ∷ []) x h e = ground arith
  select-after-last (suc (suc n)) b (a ∷ y ∷ l) x h e = ground (
    arith,
    get_last?-above (suc n) (id_of a) (y ∷ l) x h.1 e,
    select-after-last (suc n) (id_of a) (y ∷ l) x h.1 e,
  )

  pub Rises-drop : (n b : ℕ) (l : List A) → Rises b l → (c : ℕ) × Rises c (drop n l)
  Rises-drop zero b l h = (b, h)
  Rises-drop (suc n) b [] h = (b, tt)
  Rises-drop (suc n) b (a ∷ l) h = Rises-drop n (id_of a) l h.1
