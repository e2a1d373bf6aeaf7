-- ===== src/Platform/Page/Contents.antt =====
-- A page has only items that were listed.
use codex_go_web_api.Prelude.{
  ℕ, zero, suc, ◌≡◌, Bool, true, Option, none, some, List, [], ◌∷◌, length, take, select, leb,
  Bool-cases, inl, inr, All,
}
use codex_go_web_api.Prelude.Outcome.{Result, ok, err}
use codex_go_web_api.Platform.Page.{
  Page, ListError, get_last?, insert_by_id, sort_by_id, cut_at, paginate,
}

module _ {A : Type 0} (P : A → Type 0) where
  -- A page, if there is one, has only such items.
  abbrev pub Lists : Result ListError (Page A) → Type 0
  Lists (ok page) = All P page.items
  Lists (err e) = Unit {0}

  All-take : (n : ℕ) (l : List A) → All P l → All P (take n l)
  All-take zero l h = tt
  All-take (suc n) [] h = tt
  All-take (suc n) (x ∷ l) h = (h.0, All-take n l h.1)

  pub All-select : (p : A → Bool) (l : List A) → ((a : A) → p a ≡ true → P a) → All P (select p l)
  All-select p [] f = tt
  All-select p (x ∷ l) f = elim (Bool-cases (p x)) [
    | inl e ↦ rw e (f x e, All-select p l f)
    | inr e ↦ rw e (All-select p l f)
  ]

  module _ (id_of : A → ℕ) where
    All-insert : (a : A) (l : List A) → P a → All P l → All P (insert_by_id id_of a l)
    unfolding insert_by_id
    All-insert a [] h k = (h, tt)
    All-insert a (b ∷ l) h k = elim (Bool-cases (leb (id_of a) (id_of b))) [
      | inl e ↦ rw e (h, k)
      | inr e ↦ rw e (k.0, All-insert a l h k.1)
    ]

    pub All-sort : (l : List A) → All P l → All P (sort_by_id id_of l)
    unfolding sort_by_id
    All-sort [] h = tt
    All-sort (x ∷ l) h = All-insert x (sort_by_id id_of l) h.0 (All-sort l h.1)

    cut_at-Lists :
        (last : Option A) (items : List A) → All P items → Lists (cut_at id_of last items)
    unfolding cut_at
    cut_at-Lists none items h = tt
    cut_at-Lists (some x) items h = h

    pub paginate-Lists :
        (items : List A) (limit : ℕ) → All P items → Lists (paginate id_of items limit)
    unfolding paginate
    paginate-Lists items limit h = elim (Bool-cases (leb (length items) limit)) [
      | inl e ↦ rw e h
      | inr e ↦
          rw e (
            cut_at-Lists (get_last? (take limit items)) (take limit items) (All-take limit items h))
    ]
