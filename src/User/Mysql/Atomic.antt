-- ===== src/User/Mysql/Atomic.antt =====
-- A user and its event reach MySQL together or not at all, and what is left without a password.
use codex_go_web_api.Prelude.{ℕ, ◌≡◌, ◌⊎◌, inl, inr, ap, ◌∙◌, Bool, true, [], ◌∷◌, ◌++◌, arith}
use codex_go_web_api.Prelude.Outcome.{Result, ok, err, if-ok}
use codex_go_web_api.User.{User, CreateUserRequest, RepoError, failed, new_user}
use codex_go_web_api.Outbox.Event.{Event, EventError}
use codex_go_web_api.Outbox.Append.{and_event}
use codex_go_web_api.Database.{Engine, Turn, is_works, DriverError, in_tx}
use codex_go_web_api.Database.Tables.{Database, insert_user}
use codex_go_web_api.Database.Inserts.{insert_user-ok, transact-Together}
use codex_go_web_api.Database.Transactions.{Answers, in_tx-ok}
use codex_go_web_api.User.Mysql.{user_row, with_id, insert_stage, create_with_event}

module _ (wide : ℕ → ℕ) (engine : Engine) (factory : User → Result EventError Event)
    (turn : Turn) where
  with_id-ok :
      (r : Result DriverError Database) (after : Database)
      → with_id wide engine factory turn r ≡ ok after
      → r ≡ ok after
  with_id-ok (err e) after h = cc
  with_id-ok (ok db) after h = ground (arith, if-ok (is_works (turn.fates 2)) _ _ _ h)

  -- Whatever fails while an administrator creates a user over MySQL with an outbox, and wherever it
  -- fails: either the database is as before and the answer is an error, or the user, without a
  -- password, and the event that is built of it are both in the database, and the answer is the user
  -- if the commit worked, and an error if its answer was lost.
  pub create_user_with_event-atomic :
      (input : CreateUserRequest) (db : Database)
      → let s = create_with_event wide engine factory turn true input db in
        let u = new_user wide turn.id input turn.now in
        ((s.0 ≡ db) × ((e : RepoError) × (s.1 ≡ err e)))
        ⊎ ((event : Event) × (factory u ≡ ok event)
            × (s.0
                ≡ and_event engine turn event (record db {
                  users = db.users ++ user_row wide turn.id input (engine.kept turn.now) ∷ [];
                }))
            × Answers failed (turn.fates 4) (u, true) s.1)
  unfolding create_with_event
  create_user_with_event-atomic input db =
      let u = new_user wide turn.id input turn.now in
      let row = user_row wide turn.id input (engine.kept turn.now) in
      let answer : User × Bool = (u, true) in
      elim (transact-Together wide engine turn failed (turn.fates 3) (factory u) answer
        (turn.fates 0) (turn.fates 4) (insert_stage wide engine factory turn input) db) [
          | inl e ↦ inl e
          | inr (mid, event, inserted, made, stored, sent) ↦
              let at_mid = insert_user-ok engine row db mid (
                in_tx-ok (turn.fates 1) _ mid
                  (with_id-ok (in_tx (turn.fates 1) (insert_user engine row db)) mid inserted)) in
              inr (event, made, stored ∙ ap (and_event engine turn event) at_mid, sent)
        ]
