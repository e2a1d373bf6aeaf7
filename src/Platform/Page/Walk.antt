-- ===== src/Platform/Page/Walk.antt =====
-- A client that follows `nextCursor` from page to page, as the API documents it: the cursor of one
-- response is the `afterId` of the next request, and a missing cursor ends the listing.
use mathlib.Core.Option
use codex_go_web_api.Prelude.{
  ℕ, zero, suc, ◌≤◌, ◌<◌, ◌≡◌, refl, sym, ap, subst, ◌∙◌, Bool, true, false, Option, none, some,
  List, [], ◌∷◌, ◌++◌, arith, length, take, drop, select, take-append-drop, leb, Bool-cases, inl,
  inr, All, is_empty, ℤ, pos, two_63,
}
use codex_go_web_api.Prelude.Decimal.{
  parse_int, format_int, is_empty-format_int, parse_int-format_int,
}
use codex_go_web_api.Prelude.Outcome.{Result, ok, err}
use codex_go_web_api.Platform.Page.{Page, ListError, get_last?, paginate}
use codex_go_web_api.Platform.Page.Sorted.{Rises, after, select-after-last}

abbrev positive : Option ℤ → Option ℕ
positive (some (pos (suc n))) = some (suc n)
positive _ = none

unfoldable pub walk : {A : Type 0} → ℕ → (ℕ → Result ListError (Page A)) → ℕ → Option (List A)
walk zero fetch c = none
walk (suc f) fetch c = elim (fetch c) [
  | err e ↦ none
  | ok page ↦ elim (is_empty page.next_cursor) [
    | true ↦ some page.items
    | false ↦ elim (positive (parse_int page.next_cursor)) [
      | none ↦ none
      | some n ↦ Option.map (λ rest. page.items ++ rest) (walk f fetch n)
    ]
  ]
]

positive-format_int : (n : ℕ) → 0 < n → n < two_63 → positive (parse_int (format_int n)) ≡ some n
positive-format_int zero h k = absurd (omega arith)
positive-format_int (suc n) h k = rw (parse_int-format_int (suc n) k)

-- One round that ends in a page with a cursor.
walk_on :
    {A : Type 0} (f c n : ℕ) (fetch : ℕ → Result ListError (Page A)) (page : Page A)
    → fetch c ≡ ok page
    → is_empty page.next_cursor ≡ false
    → positive (parse_int page.next_cursor) ≡ some n
    → walk (suc f) fetch c ≡ Option.map (λ rest. page.items ++ rest) (walk f fetch n)
unfolding walk
walk_on f c n fetch page got more next = rw (got, walk) (rw (more, walk) (rw (next, walk) refl))

module _ {A : Type 0} (id_of : A → ℕ) where
  pub Rises-select :
      (p : A → Bool) (b : ℕ) (l : List A) → Rises id_of b l → Rises id_of b (select p l)
  Rises-select p b [] h = tt
  Rises-select p b (a ∷ l) h =
      ground (arith, Rises-select p (id_of a) l h.1, weaken (id_of a) b (select p l))
    where
      weaken : (b c : ℕ) (l : List A) → c < b → Rises id_of b l → Rises id_of c l
      weaken b c [] q h = tt
      weaken b c (a ∷ l) q h = (omega arith, h.1)

  abbrev InWindow : ℕ → A → Type 0
  InWindow c a = (c < id_of a) × (id_of a < two_63)

  select-InWindow :
      (c : ℕ) (l : List A)
      → All (λ a. id_of a < two_63) l
      → All (InWindow c) (select (after id_of c) l)
  select-InWindow c [] h = tt
  select-InWindow c (a ∷ l) h = ground (arith, select-InWindow c l h.1)

  -- A property of every item is one of the last item of a cut.
  get_last?-take-All :
      (P : A → Type 0) (n : ℕ) (l : List A) (x : A) → All P l → get_last? (take n l) ≡ some x → P x
  get_last?-take-All P zero l x h e = cc
  get_last?-take-All P (suc n) [] x h e = cc
  get_last?-take-All P (suc zero) (a ∷ l) x h e = subst P (ground arith) h.0
  get_last?-take-All P (suc (suc n)) (a ∷ []) x h e = subst P (ground arith) h.0
  get_last?-take-All P (suc (suc n)) (a ∷ y ∷ l) x h e =
      get_last?-take-All P (suc n) (y ∷ l) x h.1 e

  length-drop-le : (n : ℕ) (l : List A) → length (drop n l) ≤ length l
  length-drop-le zero l = omega arith
  length-drop-le (suc n) [] = omega arith
  length-drop-le (suc n) (a ∷ l) = omega (arith, length-drop-le n l)

  get_last?-take :
      (n : ℕ) (l : List A)
      → 0 < n
      → leb (length l) n ≡ false
      → (x : A) × (get_last? (take n l) ≡ some x)
  get_last?-take zero l h e = absurd (omega arith)
  get_last?-take (suc n) [] h e = absurd (ground arith)
  get_last?-take (suc zero) (a ∷ l) h e = (a, refl)
  get_last?-take (suc (suc n)) (a ∷ []) h e = (a, refl)
  get_last?-take (suc (suc n)) (a ∷ y ∷ l) h e =
      get_last?-take (suc n) (y ∷ l) (omega arith) (ground arith)

  length-drop-lt :
      (n : ℕ) (l : List A) → 0 < n → leb (length l) n ≡ false → length (drop n l) < length l
  length-drop-lt zero l h e = absurd (omega arith)
  length-drop-lt (suc n) [] h e = absurd (ground arith)
  length-drop-lt (suc n) (a ∷ l) h e = omega (arith, length-drop-le n l)

  select-after-after :
      (c d : ℕ) (l : List A)
      → c ≤ d
      → select (after id_of d) (select (after id_of c) l) ≡ select (after id_of d) l
  select-after-after c d [] h = refl
  select-after-after c d (a ∷ l) h = ground (arith, select-after-after c d l h)

  paginate-large :
      (limit : ℕ) (m : List A) (x : A)
      → leb (length m) limit ≡ false
      → get_last? (take limit m) ≡ some x
      → paginate id_of m limit
        ≡ ok (record { items = take limit m; next_cursor = format_int (id_of x) })
  unfolding paginate
  paginate-large limit m x large last = rw large (rw last refl)

  module _ (limit : ℕ) (l : List A) (fetch : ℕ → Result ListError (Page A))
      (pages : (c : ℕ) → fetch c ≡ paginate id_of (select (after id_of c) l) limit) where
    -- A walk by pages of at least one item gives every item after the cursor, once and in order,
    -- if its rounds outnumber those items.
    pub walk-select :
        (f c : ℕ)
        → 0 < limit
        → Rises id_of 0 l
        → All (λ a. id_of a < two_63) l
        → length (select (after id_of c) l) < f
        → walk f fetch c ≡ some (select (after id_of c) l)
    unfolding walk paginate
    walk-select zero c pl r b h = absurd (omega arith)
    walk-select (suc f) c pl r b h =
        elim (Bool-cases (leb (length (select (after id_of c) l)) limit)) [
          | inl small ↦ rw (pages c, walk) (rw (small, walk, paginate) refl)
          | inr large ↦
              let m = select (after id_of c) l in
              let (x, last) = get_last?-take limit m pl large in
              let win = get_last?-take-All (InWindow c) limit m x (select-InWindow c l b) last in
              let split : select (after id_of (id_of x)) m ≡ drop limit m =
                select-after-last id_of limit 0 m x (Rises-select (after id_of c) 0 l r) last in
              let rest : select (after id_of (id_of x)) l ≡ drop limit m =
                sym (select-after-after c (id_of x) l (omega arith)) ∙ split in
              rw
                (walk_on f c (id_of x) fetch _ (pages c ∙ paginate-large limit m x large last)
                  (is_empty-format_int (id_of x))
                  (positive-format_int (id_of x) (omega arith) win.1))
                (rw
                  (walk-select f (id_of x) pl r b
                    (omega (arith, ap length rest, length-drop-lt limit m pl large)))
                  (rw rest (ap some (take-append-drop limit m))))
        ]

get_last-cons {ℓ} : {A : Type ℓ} (x : A) (l : List A) → (y : A) × (get_last? (x ∷ l) ≡ some y)
get_last-cons x [] = (x, refl)
get_last-cons x (y ∷ l) = get_last-cons y l

get_last-take {ℓ} :
    {A : Type ℓ} (n : ℕ) (l : List A)
    → 0 < n
    → 0 < length l
    → (y : A) × (get_last? (take n l) ≡ some y)
get_last-take zero l h k = absurd (omega (arith, h))
get_last-take (suc n) [] h k = absurd (omega (arith, k))
get_last-take (suc n) (x ∷ l) h k = get_last-cons x (take n l)

-- With a positive limit, cutting a page gives a page and never indexes an empty slice.
pub paginate-total :
    {A : Type 0} (id_of : A → ℕ) (items : List A) (limit : ℕ)
    → 0 < limit
    → (page : Page A) × (paginate id_of items limit ≡ ok page)
unfolding paginate
paginate-total id_of items limit h = elim (Bool-cases (leb (length items) limit)) [
  | inl small ↦ (record { items = items; next_cursor = [] }, rw (small, paginate) refl)
  | inr large ↦
      let (y, last) = get_last-take limit items h (ground (arith, large)) in
      (
        record { items = take limit items; next_cursor = format_int (id_of y) },
        rw (large, paginate) (rw (last, paginate) refl),
      )
]
