-- ===== src/Order/Mysql/Listing.antt =====
-- A page of the orders in MySQL is the page of the orders in memory.
use mathlib.Core.List.{Perm}
use codex_go_web_api.Prelude.{
  ℕ, ◌≡◌, refl, sym, ap, ◌∙◌, Bool, true, false, ◌&&◌, List, [], ◌∷◌, map, select, arith, ltb, ◌==◌,
  int_eq, ℤ, is_pos,
}
use codex_go_web_api.Platform.Page.{paginate}
use codex_go_web_api.Platform.Page.Sorted.{after}
use codex_go_web_api.Platform.Page.Cut.{paginate-take}
use codex_go_web_api.Order.{Order}
use codex_go_web_api.Order.Memory.{values, order_id}
use codex_go_web_api.Order.Memory
use codex_go_web_api.Order.Memory.Invariant.{IsValid}
use codex_go_web_api.Order.Memory.Listing.{list-page}
use codex_go_web_api.Database.{works}
use codex_go_web_api.Database.Tables.{OrderRow, Database}
use codex_go_web_api.Order.Mysql.{of_user, selected, list_rows, list_by_user_id}
use codex_go_web_api.Order.Mysql.Refinement.{orders_of, view}

-- The WHERE clause is the filter and the cursor.
select-rows :
    (c : ℕ) (user_id : ℤ) (include : Order → Bool) (rows : List OrderRow)
    → ((row : OrderRow) → of_user user_id row ≡ include row.order)
    → map
        (λ (row : OrderRow). row.order)
        (select (λ (row : OrderRow). ltb c row.order.id && of_user user_id row) rows)
      ≡ select (after order_id c) (select include (values (orders_of rows)))
select-rows c user_id include [] same = refl
select-rows c user_id include (row ∷ rows) same =
    ground (arith, same row, select-rows c user_id include rows same)

-- On a table whose orders are a valid repository's in memory, if the query works: a page of a user's
-- orders, the user's ID being positive, is the page of the repository in memory that holds the same
-- orders, in whatever order that ranges over its map.
pub list_by_user_id-memory :
    (n c limit : ℕ) (user_id : ℤ) (db : Database) (ranged : List Order)
    → IsValid (view n db)
    → is_pos user_id ≡ true
    → Perm ranged (values (orders_of db.orders))
    → list_by_user_id works user_id (record { limit = limit; after_id = c }) db
      ≡ Memory.list_by_user_id false user_id (record { limit = limit; after_id = c }) ranged
unfolding list_by_user_id list_rows selected Memory.list_by_user_id
list_by_user_id-memory n c limit user_id db ranged v positive p =
    paginate-take order_id _ limit
    ∙ ap (λ l. paginate order_id l limit)
        (select-rows c user_id (λ (o : Order). o.user_id == user_id) db.orders
          (λ row. ground (arith, positive)))
    ∙ sym (list-page (view n db) (λ (o : Order). o.user_id == user_id) limit c ranged v p)
