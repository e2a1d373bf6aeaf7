-- ===== src/Order/Mysql/Moves.antt =====
-- A change of an order's status and its event reach MySQL together or not at all.
use mathlib.Core.List.{Mem}
use mathlib.Core.Option.{some-injective}
use codex_go_web_api.Prelude.{
  ℕ, ◌≡◌, refl, ◌⊎◌, inl, inr, arith, Bool, true, false, sym, if◌then◌else◌, ap, ◌∙◌, ◌&&◌, subst,
  map, nat_beq, nat_beq_iff, ◌==◌, ◌≢◌, [], ◌∷◌, ◌++◌, Option-cases,
}
use codex_go_web_api.Prelude.Outcome.{Result, ok, err, if-ok}
use codex_go_web_api.Order.{Order, Status, status_eq, RepoError, failed, not_found, pending}
use codex_go_web_api.Outbox.Event.{Event, EventError}
use codex_go_web_api.Outbox.Append.{write_event, and_event, event_row}
use codex_go_web_api.Database.{Engine, Turn, Fate, is_works, returns, commits, End}
use codex_go_web_api.Database.Tables.{OrderRow, Database, first}
use codex_go_web_api.Database.Inserts.{write_event-commits, write_event-returns}
use codex_go_web_api.Database.Transactions.{Answers, transact-Atomic}
use codex_go_web_api.Database.Queries.{first-found, query_row-found, any-found, update-map}
use codex_go_web_api.Order.Mysql.{
  find_by_id, order_with_id, is_pending, set_status, update_status, is_changed, settled, returned,
  read_back, transition_body, transition_with_event,
}
use codex_go_web_api.Order.Mysql.Atomic.{returned-commits}

-- The call has written nothing, and answers with an error or with an order that has the status
-- already.
abbrev pub Unmoved : Status → Database → Database × Result RepoError (Order × Bool × Bool) → Type 0
Unmoved target db s =
    (s.0 ≡ db)
    × (((e : RepoError) × (s.1 ≡ err e))
        ⊎ ((o : Order) × (o.status ≡ target) × (s.1 ≡ ok (o, false, false))))

module _ (wide : ℕ → ℕ) (engine : Engine) (factory : Order → Result EventError Event)
    (turn : Turn) where
  -- The pending orders with the ID have the new status in the table, and the event of the order that
  -- is read back is there with them.
  abbrev pub moved : ℕ → Status → Event → Database → Database
  moved id target event db = record db {
    orders =
        map
          (λ (row : OrderRow).
            if nat_beq row.order.id id && row.order.status == pending
            then record row { order = record row.order { status = target } }
            else row)
          db.orders;
    outbox = db.outbox ++ event_row engine turn.event_row_id turn.now event ∷ [];
  }

  -- An order with the ID was pending and has another status now; the answer is what is read back.
  pub record Moved (id : ℕ) (target : Status) (db : Database)
      (s : Database × Result RepoError (Order × Bool × Bool)) : Type 0 where
    pub order : Order
    pub event : Event
    pub before : OrderRow
    pub after : OrderRow
    pub target_not_pending : target ≢ pending
    pub was_stored : Mem before db.orders
    pub was_id : before.order.id ≡ id
    pub was_pending : before.order.status ≡ pending
    pub is_stored : Mem after s.0.orders
    pub is_order : after.order ≡ order
    pub order_id : order.id ≡ id
    pub made : factory order ≡ ok event
    pub stored : s.0 ≡ moved id target event db
    pub answer : Answers failed (turn.fates 5) (order, true, true) s.1

  updated-moved :
      (id : ℕ) (target : Status) (event : Event) (db : Database)
      → and_event engine turn event (update_status id target db) ≡ moved id target event db
  unfolding update_status
  updated-moved id target event db =
      ap
        (λ l. record db {
          orders = l;
          outbox = db.outbox ++ event_row engine turn.event_row_id turn.now event ∷ [];
        })
        (update-map (is_pending id) (set_status target) db.orders)

  changed-found :
      (id : ℕ) (target : Status) (db : Database)
      → is_changed id target db ≡ true
      → (row : OrderRow) × (target ≢ pending)
        × Mem row db.orders
        × (row.order.id ≡ id)
        × (row.order.status ≡ pending)
  unfolding is_changed
  changed-found id target db h =
      let (row, member, passed) = any-found (is_pending id) db.orders (ground (arith, h)) in
      (
        row,
        λ e. ground (arith, h, status_eq.beq_iff target pending),
        member,
        ground (arith, passed),
        ground (arith, passed, status_eq.beq_iff row.order.status pending),
      )

  find_by_id-found :
      (fate : Fate) (id : ℕ) (db : Database) (o : Order)
      → find_by_id fate id db ≡ ok o
      → (row : OrderRow) × Mem row db.orders × (row.order ≡ o) × (o.id ≡ id)
  unfolding find_by_id
  find_by_id-found fate id db o h =
      let found = query_row-found not_found failed fate (order_with_id id db) o h in
      elim (Option-cases (first (λ (row : OrderRow). nat_beq row.order.id id) db.orders)) [
        | inl missing ↦ cc
        | inr (row, at) ↦
            let (member, same) = first-found _ db.orders row at in
            let is_order : row.order ≡ o = some-injective row.order o (rw at at found) in
            (
              row,
              member,
              is_order,
              sym (ap (λ x. x.id) is_order) ∙ (nat_beq_iff row.order.id id).0 same,
            )
      ]

  settled-status :
      (target : Status) (o x : Order) (b c : Bool)
      → returned (settled target o) ≡ ok (returns (x, b, c))
      → (x.status ≡ target) × (b ≡ false) × (c ≡ false)
  settled-status target o x b c h = ground (arith, status_eq.beq_iff o.status target)

  abbrev Committed :
      ℕ → Status → Database → Database → Result RepoError Order → Order × Bool × Bool → Type 0
  Committed id target db after r a =
      (o : Order) × (event : Event) × (is_changed id target db ≡ true)
      × (r ≡ ok o)
      × (factory o ≡ ok event)
      × (after ≡ and_event engine turn event (update_status id target db))
      × (a ≡ (o, true, true))

  read_back-commits :
      (id : ℕ) (target : Status) (db after : Database) (r : Result RepoError Order)
      (a : Order × Bool × Bool)
      → read_back wide engine factory turn id target db r ≡ ok (commits after a)
      → Committed id target db after r a
  read_back-commits id target db after (err e) a h = cc
  read_back-commits id target db after (ok o) a h = choose (is_changed id target db) refl h
    where
      answer : Bool → Result RepoError (End Database (Order × Bool × Bool))
      answer b =
          if b
          then write_event wide engine turn failed (turn.fates 4) (factory o) (o, true, true)
              (update_status id target db)
          else returned (settled target o)

      choose :
          (b : Bool)
          → b ≡ is_changed id target db
          → answer b ≡ ok (commits after a)
          → Committed id target db after (ok o) a
      choose true e h =
          let (event, made, stored, same) =
            write_event-commits wide engine turn failed (turn.fates 4) (factory o) (o, true, true) a
              (update_status id target db) after h in
          (o, event, sym e, refl, made, stored, same)
      choose false e h = returned-commits (settled target o) after a h

  read_back-returns :
      (id : ℕ) (target : Status) (db : Database) (r : Result RepoError Order) (o : Order)
      (b c : Bool)
      → read_back wide engine factory turn id target db r ≡ ok (returns (o, b, c))
      → (o.status ≡ target) × (b ≡ false) × (c ≡ false)
  read_back-returns id target db (err e) o b c h = cc
  read_back-returns id target db (ok x) o b c h = choose (is_changed id target db) h
    where
      answer : Bool → Result RepoError (End Database (Order × Bool × Bool))
      answer t =
          if t
          then write_event wide engine turn failed (turn.fates 4) (factory x) (x, true, true)
              (update_status id target db)
          else returned (settled target x)

      choose :
          (t : Bool)
          → answer t ≡ ok (returns (o, b, c))
          → (o.status ≡ target) × (b ≡ false) × (c ≡ false)
      choose true h =
          write_event-returns wide engine turn failed (turn.fates 4) (factory x) (x, true, true)
            (o, b, c) (update_status id target db) db h
      choose false h = settled-status target x o b c h

  Committed-Moved :
      (id : ℕ) (target : Status) (db : Database)
      (s : Database × Result RepoError (Order × Bool × Bool)) (a : Order × Bool × Bool)
      → Committed id target db s.0 (find_by_id (turn.fates 3) id (update_status id target db)) a
      → Answers failed (turn.fates 5) a s.1
      → Moved id target db s
  unfolding update_status
  Committed-Moved id target db s a (o, event, changed, read, made, stored, got) answer =
      let (before, not_pending, was_stored, was_id, was_pending) =
        changed-found id target db changed in
      let (after, is_stored, is_order, order_id) =
        find_by_id-found (turn.fates 3) id (update_status id target db) o read in
      record {
        order = o;
        event = event;
        before = before;
        after = after;
        target_not_pending = not_pending;
        was_stored = was_stored;
        was_id = was_id;
        was_pending = was_pending;
        is_stored = subst (λ (d : Database). Mem after d.orders) (sym stored) is_stored;
        is_order = is_order;
        order_id = order_id;
        made = made;
        stored = stored ∙ updated-moved id target event db;
        answer = subst (λ x. Answers failed (turn.fates 5) x s.1) got answer;
      }

  -- Whatever fails while an order's status is changed over MySQL with an outbox, and wherever it
  -- fails: either the database is as before, and the answer is an error or an order that has the
  -- status already; or an order with the ID was pending, the status is another one, every pending
  -- order with the ID has it in the database, nothing else of the orders has changed, and the event
  -- that is built of an order with the ID, as it is stored now, is in the database with it. Then the
  -- answer is that order if the commit worked, and an error if its answer was lost.
  pub transition_with_event-atomic :
      (id : ℕ) (target : Status) (db : Database)
      → let s = transition_with_event wide engine factory turn true id target db in
        Unmoved target db s ⊎ Moved id target db s
  unfolding transition_with_event
  transition_with_event-atomic id target db =
      elim (transact-Atomic failed (turn.fates 0) (turn.fates 5)
        (transition_body wide engine factory turn id target) db) [
          | inl (same, inl e) ↦ inl (same, inl e)
          | inl (same, inr ((o, b, c), body, answer)) ↦
              let (status, unmoved, unwritten) =
                read_back-returns id target db _ o b c
                  (if-ok (is_works (turn.fates 1) && is_works (turn.fates 2)) _ _ _ body) in
              let as_it_is : (o, b, c) ≡ (o, false, false) = ground (arith, unmoved, unwritten) in
              inl (same, inr (o, status, answer ∙ ap ok as_it_is))
          | inr (a, body, answer) ↦ inr (
              Committed-Moved id target db
                (transition_with_event wide engine factory turn true id target db) a
                (read_back-commits id target db _ _ a
                  (if-ok (is_works (turn.fates 1) && is_works (turn.fates 2)) _ _ _ body))
                answer)
        ]
