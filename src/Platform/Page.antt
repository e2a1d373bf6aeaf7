-- ===== src/Platform/Page.antt =====
-- user-order-api/internal/platform/page, and the sorting and cutting of a page that user-order-api/internal/order and
-- user-order-api/internal/user write alike for their two item types. `id_of` reads the item's ID.
pub mod Sorted
pub mod Walk
pub mod Permuted
pub mod Contents
pub mod Cut
use codex_go_web_api.Prelude.{
  ℕ, zero, suc, Bool, true, false, Option, none, some, List, [], ◌∷◌, length, take, leb,
  if◌then◌else◌, Text,
}
use codex_go_web_api.Prelude.Decimal.{format_int}
use codex_go_web_api.Prelude.Outcome.{Result, ok, err}

pub record Request : Type 0 where
  pub limit : ℕ
  pub after_id : ℕ

pub record Page (A : Type 0) : Type 0 where
  pub items : List A
  pub next_cursor : Text

-- What a repository's listing can end in besides a page.
pub data ListError : Type 0 where
  cancelled : ListError
  index_out_of_range : ListError

abbrev pub get_last? {ℓ} : {A : Type ℓ} → List A → Option A
get_last? [] = none
get_last? (x ∷ []) = some x
get_last? (x ∷ y ∷ l) = get_last? (y ∷ l)

module _ {A : Type 0} (id_of : A → ℕ) where
  -- `slices.SortFunc` by the difference of the IDs, which are distinct.
  pub insert_by_id : A → List A → List A
  insert_by_id a [] = a ∷ []
  insert_by_id a (b ∷ l) = if leb (id_of a) (id_of b) then a ∷ b ∷ l else b ∷ insert_by_id a l

  pub sort_by_id : List A → List A
  unfolding insert_by_id
  sort_by_id [] = []
  sort_by_id (a ∷ l) = insert_by_id a (sort_by_id l)

  cut_at : Option A → List A → Result ListError (Page A)
  cut_at none items = err index_out_of_range
  cut_at (some x) items = ok (record { items = items; next_cursor = format_int (id_of x) })

  -- `items[len(items)-1]` panics on an empty cut, which a limit of 0 gives.
  unfoldable pub paginate : List A → ℕ → Result ListError (Page A)
  unfolding cut_at
  paginate items limit =
      if leb (length items) limit
      then ok (record { items = items; next_cursor = [] })
      else cut_at (get_last? (take limit items)) (take limit items)
