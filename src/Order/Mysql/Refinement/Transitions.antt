-- ===== src/Order/Mysql/Refinement/Transitions.antt =====
-- A transition over MySQL, where nothing fails, is the transition of the repository in memory.
use codex_go_web_api.Prelude.{
  ℕ, ◌≤◌, ◌≡◌, refl, sym, ap, ◌∙◌, Bool, true, false, Option, none, some, List, [], ◌∷◌, arith,
  nat_eq, text_eq, ◌==◌, lookup, insert, lookup-insert, insert-present, ==_refl, inl, inr,
  Option-cases, Bool-cases, if◌then◌else◌,
}
use codex_go_web_api.Prelude.Outcome.{Result, ok, err}
use codex_go_web_api.Order.{Order, Status, pending, status_eq, RepoError, not_found}
use codex_go_web_api.Order.Memory.{MemoryRepository, move, store_move}
use codex_go_web_api.Order.Memory
use codex_go_web_api.Order.Memory.Invariant.{Entries}
use codex_go_web_api.Database.{Turn}
use codex_go_web_api.Database.Tables.{OrderRow, Database, first, update, any}
use codex_go_web_api.Order.Mysql.{
  transition, order_with_id, is_pending, set_status, settled, find_by_id, update_status, is_changed,
}
use codex_go_web_api.Order.Mysql.Refinement.{
  orders_of, view, query-lookup, update-insert, update-settled, update-keys,
}
use codex_go_web_api.Order.Mysql.Refinement.Steps.{Works, Same}

-- An unknown ID updates nothing.
update-unknown :
    (id : ℕ) (target : Status) (rows : List OrderRow)
    → lookup id (orders_of rows) ≡ none
    → update (is_pending id) (set_status target) rows ≡ rows
unfolding lookup update
update-unknown id target [] h = refl
update-unknown id target (row ∷ rows) h = ground (arith, update-unknown id target rows)

any-absent :
    (id b n : ℕ) (rows : List OrderRow)
    → id ≤ b
    → Entries b n (orders_of rows)
    → any (is_pending id) rows ≡ false
unfolding any
any-absent id b n [] q h = refl
any-absent id b n (row ∷ rows) q h = ground (arith, any-absent id row.order.id n rows)

any-pending :
    (id b n : ℕ) (rows : List OrderRow) (o : Order)
    → Entries b n (orders_of rows)
    → lookup id (orders_of rows) ≡ some o
    → any (is_pending id) rows ≡ (o.status == pending)
unfolding any lookup
any-pending id b n [] o h e = cc
any-pending id b n (row ∷ rows) o h e =
    ground (arith, any-pending id row.order.id n rows o h.3, any-absent id row.order.id n rows)

-- What the statements answer, if nothing fails, once the query's row is known.
abbrev answer : ℕ → Status → Database → Option Order → Result RepoError (Order × Bool)
answer id target db none = err not_found
answer id target db (some o) = if is_changed id target db then ok (o, true) else settled target o

transition-answer :
    (turn : Turn) (id : ℕ) (target : Status) (db : Database) (found : Option Order)
    → Works turn
    → order_with_id id (update_status id target db) ≡ found
    → transition turn id target db ≡ (update_status id target db, answer id target db found)
unfolding transition find_by_id first
transition-answer turn id target db none run e = rw (run 1, run 2, run 3, e) refl
transition-answer turn id target db (some o) run e = rw (run 1, run 2, run 3, e) refl

module _ (turn : Turn) (id n b : ℕ) (target : Status) (db : Database) (run : Works turn)
    (h : Entries 0 b (orders_of db.orders)) where
  -- The two sides agree if the memory's answer is the statements' and its entries are the rows'.
  agreed :
      (r : MemoryRepository) (a : Result RepoError (Order × Bool)) (found : Option Order)
      → Memory.transition false id target (view n db) ≡ (r, a)
      → r ≡ view n (update_status id target db)
      → order_with_id id (update_status id target db) ≡ found
      → a ≡ answer id target db found
      → Same db (Memory.transition false id target (view n db)) (transition turn id target db)
  unfolding update_status
  agreed r a found m state query same =
      rw (m, transition-answer turn id target db found run query)
        (
          state ∙ ap (λ k. view k (update_status id target db)) (sym (ap (λ x. x.next_id) state)),
          same,
          refl,
        )

  -- What is stored after an UPDATE that leaves the rows alone.
  kept_view :
      update (is_pending id) (set_status target) db.orders ≡ db.orders
      → view n db ≡ view n (update_status id target db)
  unfolding update_status
  kept_view e = ap (λ rows. view n (record db { orders = rows })) (sym e)

  kept_query :
      update (is_pending id) (set_status target) db.orders ≡ db.orders
      → order_with_id id (update_status id target db) ≡ lookup id (orders_of db.orders)
  unfolding update_status first
  kept_query e =
      ap (λ rows. order_with_id id (record db { orders = rows })) e ∙ query-lookup id db.orders

  transition-none :
      lookup id (orders_of db.orders) ≡ none
      → Same db (Memory.transition false id target (view n db)) (transition turn id target db)
  unfolding Memory.transition
  transition-none e =
      let same = update-unknown id target db.orders e in
      agreed (view n db) (err not_found) none (rw (e, Memory.transition) refl) (kept_view same)
        (kept_query same ∙ e) refl

  moved_to :
      (o : Order)
      → lookup id (orders_of db.orders) ≡ some o
      → Memory.transition false id target (view n db) ≡ store_move id (move o target) (view n db)
  unfolding Memory.transition
  moved_to o e = rw (e, Memory.transition) refl

  transition-settled :
      (o : Order)
      → lookup id (orders_of db.orders) ≡ some o
      → (o.status == pending) ≡ false
      → Same db (Memory.transition false id target (view n db)) (transition turn id target db)
  unfolding move store_move is_changed
  transition-settled o e p =
      let same = update-settled id 0 b target db.orders o h e p in
      let still = any-pending id 0 b db.orders o h e in
      agreed (view n db) (settled target o) (some o) (moved_to o e ∙ ground (arith, p))
        (kept_view same) (kept_query same ∙ e) (ground (arith, still, p))

  pending_rows :
      (o : Order)
      → lookup id (orders_of db.orders) ≡ some o
      → (o.status == pending) ≡ true
      → orders_of (update (is_pending id) (set_status target) db.orders)
        ≡ insert id (record o { status = target }) (orders_of db.orders)
  pending_rows o e p =
      update-insert id 0 b target db.orders o h e ((status_eq.beq_iff o.status pending).0 p)

  written_view :
      (o : Order)
      → orders_of (update (is_pending id) (set_status target) db.orders)
        ≡ insert id o (orders_of db.orders)
      → record (view n db) { orders = insert id o (orders_of db.orders) }
        ≡ view n (update_status id target db)
  unfolding update_status
  written_view o e = ground (arith, e, update-keys id target db.orders)

  written_query :
      (o : Order)
      → orders_of (update (is_pending id) (set_status target) db.orders)
        ≡ insert id o (orders_of db.orders)
      → order_with_id id (update_status id target db) ≡ some o
  unfolding update_status first
  written_query o e =
      query-lookup id (update (is_pending id) (set_status target) db.orders)
      ∙ ap (lookup id) e
      ∙ ground (arith, lookup-insert id id o (orders_of db.orders), ==_refl id)

  transition-moved :
      (o : Order)
      → lookup id (orders_of db.orders) ≡ some o
      → (o.status == pending) ≡ true
      → (target == pending) ≡ false
      → Same db (Memory.transition false id target (view n db)) (transition turn id target db)
  unfolding move store_move is_changed
  transition-moved o e p t =
      let rows = pending_rows o e p in
      let o' : Order = record o { status = target } in
      agreed (record (view n db) { orders = insert id o' (orders_of db.orders) }) (ok (o', true))
        (some o')
        (moved_to o e
          ∙ ground (
            arith,
            p,
            t,
            status_eq.beq_iff o.status target,
            status_eq.beq_iff o.status pending,
            status_eq.beq_iff target pending,
          ))
        (written_view o' rows) (written_query o' rows)
        (ground (arith, any-pending id 0 b db.orders o h e, p, t))

  transition-repeated :
      (o : Order)
      → lookup id (orders_of db.orders) ≡ some o
      → (o.status == pending) ≡ true
      → (target == pending) ≡ true
      → Same db (Memory.transition false id target (view n db)) (transition turn id target db)
  unfolding move store_move is_changed
  transition-repeated o e p t =
      let as_it_was : record o { status = target } ≡ o =
        ground
          (arith, p, t, status_eq.beq_iff o.status pending, status_eq.beq_iff target pending) in
      let rows = pending_rows o e p ∙ ap (λ x. insert id x (orders_of db.orders)) as_it_was in
      agreed (view n db) (ok (o, false)) (some o)
        (moved_to o e ∙ ground (arith, as_it_was, status_eq.beq_iff o.status target))
        (ap (λ l. record (view n db) { orders = l })
            (sym (insert-present id o (orders_of db.orders) e))
          ∙ written_view o rows)
        (written_query o rows) (ground (arith, t, as_it_was, status_eq.beq_iff o.status target))

  pub transition-Same :
      Same db (Memory.transition false id target (view n db)) (transition turn id target db)
  transition-Same = elim (Option-cases (lookup id (orders_of db.orders))) [
    | inl e ↦ transition-none e
    | inr (o, e) ↦ elim (Bool-cases (o.status == pending)) [
      | inr p ↦ transition-settled o e p
      | inl p ↦ elim (Bool-cases (target == pending)) [
        | inl t ↦ transition-repeated o e p t
        | inr t ↦ transition-moved o e p t
      ]
    ]
  ]
