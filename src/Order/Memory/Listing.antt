-- ===== src/Order/Memory/Listing.antt =====
-- The listings: what a client sees that follows the cursors of user-order-api/internal/order/repository.go.
use mathlib.Core.List.{Perm}
use mathlib.Core.List.Perm
use codex_go_web_api.Prelude.{
  ℕ, ◌<◌, ◌≡◌, suc, refl, sym, ap, ◌∙◌, Bool, false, some, List, [], ◌∷◌, arith, length, select,
  length-select-le, All, two_63, ◌==◌, int_eq, ℤ,
}
use codex_go_web_api.Platform.Page.{sort_by_id, paginate}
use codex_go_web_api.Platform.Page.Sorted.{Rises, after, select-sort_by_id, select-after_all}
use codex_go_web_api.Platform.Page.Permuted.{sort-perm, sort-Rises, Apart-Rises}
use codex_go_web_api.Platform.Page.Walk.{walk, walk-select, Rises-select}
use codex_go_web_api.Order.{Status, Order}
use codex_go_web_api.Order.Memory.{
  MemoryRepository, order_id, values, included, list_included, list_by_user_id,
}
use codex_go_web_api.Order.Memory.Invariant.{IsValid, Entries}

Status-discrete : Discrete Status
Status-discrete = hlevel

Order-set : IsSet Order
Order-set = hlevel

-- The orders in the map rise by their IDs.
Rises-values : (b n : ℕ) (l : List (ℕ × Order)) → Entries b n l → Rises order_id b (values l)
Rises-values b n [] h = tt
Rises-values b n ((id, o) ∷ l) h = rw h.0 (h.1, Rises-values id n l h.3)

bounded-values :
    (b n : ℕ) (l : List (ℕ × Order))
    → n < two_63
    → Entries b n l
    → All (λ o. order_id o < two_63) (values l)
bounded-values b n [] q h = tt
bounded-values b n ((id, o) ∷ l) q h = (omega (arith, h.0), bounded-values id n l q h.3)

select-All : (P : Order → Type 0) (p : Order → Bool) (l : List Order) → All P l → All P (select p l)
select-All P p [] h = tt
select-All P p (o ∷ l) h = ground (arith, select-All P p l h.1)

select-included :
    (include : Order → Bool) (c : ℕ) (l : List Order)
    → included include c l ≡ select (after order_id c) (select include l)
select-included include c [] = refl
select-included include c (o ∷ l) = ground (arith, select-included include c l)

-- Whatever order `range` takes, a page is cut from the included orders after the cursor, by ID.
pub list-page :
    (r : MemoryRepository) (include : Order → Bool) (limit c : ℕ) (ranged : List Order)
    → IsValid r
    → Perm ranged (values r.orders)
    → list_included false (record { limit = limit; after_id = c }) include ranged
      ≡ paginate order_id (select (after order_id c) (select include (values r.orders))) limit
unfolding list_included
list-page r include limit c ranged v p =
    ap (λ l. paginate order_id l limit)
      (ap (sort_by_id order_id) (select-included include c ranged)
        ∙ sym (select-sort_by_id order_id (after order_id c) (select include ranged))
        ∙ ap (select (after order_id c))
            (sym (select-sort_by_id order_id include ranged) ∙ ap (select include) sorted))
  where
    rising : Rises order_id 0 (values r.orders)
    rising = Rises-values 0 r.next_id r.orders v.entries

    sorted : sort_by_id order_id ranged ≡ values r.orders
    sorted =
        sym (
          sort-perm order_id Order-set (Apart-Rises order_id Order-set 0 (values r.orders) rising)
            (Perm.symm p))
        ∙ sort-Rises order_id 0 (values r.orders) rising

length-values : (l : List (ℕ × Order)) → length (values l) ≡ length l
length-values [] = refl
length-values (e ∷ l) = ap suc (length-values l)

-- A client that follows the cursors of any filtered listing.
walk-included :
    (r : MemoryRepository) (include : Order → Bool) (limit : ℕ) (ranges : ℕ → List Order) (f : ℕ)
    → IsValid r
    → r.next_id < two_63
    → 0 < limit
    → length r.orders < f
    → ((c : ℕ) → Perm (ranges c) (values r.orders))
    → walk f
        (λ c. list_included false (record { limit = limit; after_id = c }) include (ranges c))
        0
      ≡ some (select include (values r.orders))
walk-included r include limit ranges f v room pl fuel ranging =
    walk-select order_id limit shown _ (λ c. list-page r include limit c (ranges c) v (ranging c)) f
      0 pl rising (select-All _ include _ (bounded-values 0 r.next_id r.orders room v.entries))
      (omega (
        arith,
        length-select-le (after order_id 0) shown,
        length-select-le include (values r.orders),
        length-values r.orders,
      ))
    ∙ ap some (select-after_all order_id 0 0 shown rising (omega arith))
  where
    shown : List Order
    shown = select include (values r.orders)

    rising : Rises order_id 0 shown
    rising = Rises-select order_id include 0 _ (Rises-values 0 r.next_id r.orders v.entries)

-- In a valid repository with IDs of int64, whatever order each request ranges over the map in, a
-- client that follows `nextCursor` with a positive limit, for more rounds than there are orders,
-- gets of `ListByUserID` exactly the orders of that user, each once and by rising ID.
pub walk-list_by_user_id :
    (r : MemoryRepository) (user_id : ℤ) (limit : ℕ) (ranges : ℕ → List Order) (f : ℕ)
    → IsValid r
    → r.next_id < two_63
    → 0 < limit
    → length r.orders < f
    → ((c : ℕ) → Perm (ranges c) (values r.orders))
    → (walk f
          (λ c. list_by_user_id false user_id (record { limit = limit; after_id = c }) (ranges c))
          0
        ≡ some (select (λ o. o.user_id == user_id) (values r.orders)))
      × Rises order_id 0 (select (λ o. o.user_id == user_id) (values r.orders))
unfolding list_by_user_id
walk-list_by_user_id r user_id limit ranges f v room pl fuel ranging = (
  walk-included r (λ o. o.user_id == user_id) limit ranges f v room pl fuel ranging,
  Rises-select order_id (λ o. o.user_id == user_id) 0 _
      (Rises-values 0 r.next_id r.orders v.entries),
)
