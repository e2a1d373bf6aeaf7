-- ===== src/Auth/Mysql/Rotations.antt =====
-- A session is rotated over MySQL at most once.
use codex_go_web_api.Prelude.{
  ℕ, ◌≡◌, ◌≤◌, refl, sym, ap, ◌∙◌, inl, inr, Bool, true, false, ◌&&◌, ◌||◌, List, [], ◌∷◌, ◌++◌,
  arith, Text, text_beq, text_beq_iff, select, length, nat_beq, Bool-cases,
}
use codex_go_web_api.Prelude.Outcome.{Result, ok, err, if-ok}
use codex_go_web_api.Auth.{Session, NewSession, RepoError}
use codex_go_web_api.Outbox.Event.{Event, EventError}
use codex_go_web_api.Outbox.Append.{and_event}
use codex_go_web_api.Database.{Engine, Turn, is_works}
use codex_go_web_api.Database.Tables.{Database, any, update, insert_session}
use codex_go_web_api.Database.Transactions.{in_tx-ok}
use codex_go_web_api.Auth.Mysql.{
  rotatable, revoked_row, revoke_where, affected, replace, session_row,
}
use codex_go_web_api.Auth.Mysql.Events.{rotate_with_event}
use codex_go_web_api.Auth.Mysql.Atomic.{or_failed-ok, replace-ok, rotate-Together}

-- A row that the new one may not share its ID or its hash with.
abbrev clashes : Engine → Session → Session → Bool
clashes engine row other =
    engine.collates other.id row.id || engine.collates other.token_hash row.token_hash

insert_session-free :
    (engine : Engine) (row : Session) (db after : Database)
    → insert_session engine row db ≡ ok after
    → any (clashes engine row) db.sessions ≡ false
unfolding insert_session
insert_session-free engine row db after h = ground arith

-- What is revoked at a time is not rotatable at it or later.
select-revoked :
    (engine : Engine) (id : Text) (now later : ℕ) (l : List Session)
    → now ≤ later
    → select (rotatable engine id later) (update (rotatable engine id now) (revoked_row now) l) ≡ []
unfolding update
select-revoked engine id now later [] q = refl
select-revoked engine id now later (x ∷ l) q =
    ground (arith, select-revoked engine id now later l q)

-- A rotated session's ID stays in the table, so the new session has another.
other-id :
    (engine : Engine) (id : Text) (now : ℕ) (row : Session) (l : List Session)
    → ((s t : Text) → engine.collates s t ≡ text_beq s t)
    → length (select (rotatable engine id now) l) ≡ 1
    → any (clashes engine row) (update (rotatable engine id now) (revoked_row now) l) ≡ false
    → text_beq row.id id ≡ false
unfolding update any
other-id engine id now row [] binary one free = cc
other-id engine id now row (x ∷ l) binary one free = elim (Bool-cases (rotatable engine id now x)) [
  | inr e ↦ other-id engine id now row l binary (ground (arith, e)) (ground (arith, e))
  | inl e ↦ ground (
    arith,
    e,
    binary x.id id,
    binary x.id row.id,
    text_beq_iff row.id id,
    text_beq_iff x.id id,
    text_beq_iff x.id row.id,
  )
]

select-append :
    (p : Session → Bool) (l : List Session) (row : Session)
    → p row ≡ false
    → select p (l ++ row ∷ []) ≡ select p l
select-append p [] row h = ground (arith, h)
select-append p (x ∷ l) row h = ground (arith, select-append p l row h)

module _ (engine : Engine) (binary : (s t : Text) → engine.collates s t ≡ text_beq s t) where
  -- What replaced a session leaves nothing that the same rotation could find again.
  replace-spent :
      (turn : Turn) (id : Text) (replacement : NewSession) (created later : ℕ) (db mid : Database)
      → replace engine turn id replacement created db ≡ ok mid
      → engine.kept turn.server_now ≤ later
      → select (rotatable engine id later) mid.sessions ≡ []
  unfolding replace affected revoke_where
  replace-spent turn id replacement created later db mid h q =
      let now = engine.kept turn.server_now in
      let p = rotatable engine id now in
      let row = session_row engine replacement created in
      let revoked = revoke_where p now db in
      let (one, at_mid) = replace-ok engine turn id replacement created db mid h in
      let counted = if-ok (is_works (turn.fates 1) && is_works (turn.fates 2)) _ _ _ h in
      let inserted =
        in_tx-ok (turn.fates 3) (insert_session engine row revoked) mid
          (or_failed-ok _ mid (if-ok (nat_beq (affected p db) 1) _ _ _ counted)) in
      let free = insert_session-free engine row revoked mid inserted in
      let other = other-id engine id now row db.sessions binary one free in
      ap (λ (d : Database). select (rotatable engine id later) d.sessions) at_mid
      ∙ select-append (rotatable engine id later) revoked.sessions row
          (ground (arith, binary row.id id, other))
      ∙ select-revoked engine id now later db.sessions q

module _ (wide : ℕ → ℕ) (engine : Engine)
    (binary : (s t : Text) → engine.collates s t ≡ text_beq s t) (turn again : Turn)
    (factory other_factory : Session → Result EventError Event) where
  -- Under a binary collation, if a rotation of a session over MySQL with an outbox answers with a new
  -- session, then whatever fails there, no rotation of the same session that the server's clock puts at
  -- the same time or later succeeds on the database that it left: that rotation answers with an error
  -- and writes nothing.
  pub rotate_with_event-once :
      (id : Text) (replacement next : NewSession) (db after : Database) (session : Session × Bool)
      → engine.kept turn.server_now ≤ engine.kept again.server_now
      → rotate_with_event wide engine turn factory true id replacement db ≡ (after, ok session)
      → let s = rotate_with_event wide engine again other_factory true id next after in
        (s.0 ≡ after) × ((e : RepoError) × (s.1 ≡ err e))
  unfolding affected
  rotate_with_event-once id replacement next db after session q h =
      elim (rotate-Together wide engine turn factory id replacement db) [
        | inl (same, (e, failure)) ↦
            let clash : err e ≡ ok session = sym failure ∙ ap (λ s. s.1) h in cc
        | inr (mid, event, replaced, made, stored, answer) ↦
            let later = engine.kept again.server_now in
            let left : after ≡ and_event engine turn event mid = sym (ap (λ s. s.0) h) ∙ stored in
            let none_left : select (rotatable engine id later) after.sessions ≡ [] =
              ap (λ (d : Database). select (rotatable engine id later) d.sessions) left
              ∙ replace-spent engine binary turn id replacement turn.now later db mid replaced q in
            elim (rotate-Together wide engine again other_factory id next after) [
              | inl unwritten ↦ unwritten
              | inr (mid', event', replaced', made', stored', answer') ↦
                  let one = (replace-ok engine again id next again.now after mid' replaced').0 in
                  let clash : 0 ≡ 1 = sym (ap length none_left) ∙ one in cc
            ]
      ]
