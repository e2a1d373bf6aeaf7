-- ===== src/Order/Mysql/Refinement/Histories.antt =====
-- Histories of calls over MySQL and on the repository in memory.
use codex_go_web_api.Prelude.{
  ℕ, ◌+◌, ◌<◌, ◌≤◌, ◌≡◌, refl, ap, ◌∙◌, subst, Bool, true, false, List, [], ◌∷◌, arith, two_63, ℤ,
  pos, ◌==◌, int_eq, is_pos,
}
use codex_go_web_api.Prelude.Outcome.{Result}
use codex_go_web_api.Order.{Order, Status, CreateOrderRequest, RepoError}
use codex_go_web_api.Order.Memory.{MemoryRepository}
use codex_go_web_api.Order.Memory
use codex_go_web_api.Order.Memory.Invariant.{
  IsValid, Entries-mono, create-IsValid, create-next_id, transition-IsValid,
}
use codex_go_web_api.Order.Memory.History.{transition_cases}
use codex_go_web_api.Database.{Engine, Turn}
use codex_go_web_api.Database.Tables.{Database, UserRow, any, has_user}
use codex_go_web_api.Order.Mysql.{create, transition}
use codex_go_web_api.Order.Mysql.Refinement.{view}
use codex_go_web_api.Order.Mysql.Refinement.Steps.{Works, Binary, Same, create-Same}
use codex_go_web_api.Order.Mysql.Refinement.Transitions.{transition-Same}

pub data Call : Type 0 where
  creates : Turn → CreateOrderRequest → Call
  transitions : Turn → ℕ → Status → Call

abbrev pub Answer : Type 0
Answer = Result RepoError (Order × Bool)

abbrev pub mysql_step : Engine → Database → Call → Database × Answer
mysql_step engine db (creates turn input) = create engine turn input db
mysql_step engine db (transitions turn id target) = transition turn id target db

-- The repository in memory is told the next ID and the server's clock.
abbrev pub memory_step : Engine → MemoryRepository → Call → MemoryRepository × Answer
memory_step engine r (creates turn input) =
    Memory.create false input (engine.kept turn.server_now) (record r { next_id = turn.id })
memory_step engine r (transitions turn id target) = Memory.transition false id target r

abbrev pub mysql_answers : Engine → Database → List Call → List Answer
mysql_answers engine db [] = []
mysql_answers engine db (c ∷ cs) =
    (mysql_step engine db c).1 ∷ mysql_answers engine (mysql_step engine db c).0 cs

abbrev pub memory_answers : Engine → MemoryRepository → List Call → List Answer
memory_answers engine r [] = []
memory_answers engine r (c ∷ cs) =
    (memory_step engine r c).1 ∷ memory_answers engine (memory_step engine r c).0 cs

-- No statement fails, AUTO_INCREMENT gives IDs that rise from `n` on and stay int64, the users exist
-- and the amounts are positive, as the service checks before.
abbrev pub Steady : Database → ℕ → List Call → Type 0
Steady db n [] = Unit
Steady db n (creates turn input ∷ cs) =
    Works turn
    × (n ≤ turn.id)
    × (turn.id + 1 < two_63)
    × (has_user input.user_id db ≡ true)
    × (is_pos input.amount ≡ true)
    × Steady db (turn.id + 1) cs
Steady db n (transitions turn id target ∷ cs) = Works turn × Steady db n cs

raise-IsValid : (n m : ℕ) (db : Database) → n ≤ m → IsValid (view n db) → IsValid (view m db)
raise-IsValid n m db q v = record {
  started = omega (arith, v.started);
  entries = Entries-mono 0 n m _ q v.entries;
  keyed = v.keyed;
}

has_user-users :
    (user_id : ℤ) (db first : Database)
    → db.users ≡ first.users
    → has_user user_id db ≡ has_user user_id first
has_user-users user_id db first e = ap (any (λ (row : UserRow). pos row.id == user_id)) e

module _ (engine : Engine) (first : Database) (binary : Binary engine) where
  -- If a step agrees and so does the rest of the history from there, the answers agree.
  answers-after :
      (db : Database) (m : MemoryRepository × Answer) (s : Database × Answer) (cs : List Call)
      → db.users ≡ first.users
      → Same db m s
      → IsValid m.0
      → (s.0.users ≡ first.users
          → IsValid (view m.0.next_id s.0)
          → memory_answers engine (view m.0.next_id s.0) cs ≡ mysql_answers engine s.0 cs)
      → m.1 ∷ memory_answers engine m.0 cs ≡ s.1 ∷ mysql_answers engine s.0 cs
  answers-after db m s cs users same v rest =
      ap (λ a. a ∷ memory_answers engine m.0 cs) same.1
      ∙ ap (λ l. s.1 ∷ l)
          (ap (λ r. memory_answers engine r cs) same.0
            ∙ rest (same.2 ∙ users) (subst IsValid same.0 v))

  transition-next_id :
      (id : ℕ) (target : Status) (r : MemoryRepository)
      → (Memory.transition false id target r).0.next_id ≤ r.next_id
  transition-next_id id target r =
      transition_cases (λ s. s.next_id ≤ r.next_id) id r false target (omega arith)
        λ old o found moved. omega arith

  agree :
      (n k : ℕ) (db : Database) (cs : List Call)
      → k ≤ n
      → db.users ≡ first.users
      → IsValid (view k db)
      → Steady first n cs
      → memory_answers engine (view k db) cs ≡ mysql_answers engine db cs
  agree n k db [] q users v steady = refl
  agree n k db (creates turn input ∷ cs) q users v steady =
      let now = engine.kept turn.server_now in
      let raised = raise-IsValid k turn.id db (omega (arith, steady.1)) v in
      let room = steady.2 in
      let m = Memory.create false input now (view turn.id db) in
      answers-after db m (create engine turn input db) cs users
        (create-Same engine turn input db steady.0 binary raised.entries
          (has_user-users input.user_id db first users ∙ steady.3) steady.4)
        (create-IsValid false input now (view turn.id db) room raised)
        (λ u w.
          agree (turn.id + 1) m.0.next_id (create engine turn input db).0 cs
            (create-next_id false input now (view turn.id db) room) u w steady.5)
  agree n k db (transitions turn id target ∷ cs) q users v steady =
      let m = Memory.transition false id target (view k db) in
      answers-after db m (transition turn id target db) cs users
        (transition-Same turn id k k target db steady.0 v.entries)
        (transition-IsValid false id target (view k db) v)
        (λ u w.
          agree n m.0.next_id (transition turn id target db).0 cs
            (omega (arith, q, transition-next_id id target (view k db))) u w steady.1)

-- Under a binary collation, over every history of calls where no statement fails, AUTO_INCREMENT
-- gives rising int64 IDs from `n` on, the users exist and the amounts are positive, the MySQL
-- repository without events answers every call as the repository in memory does that holds the same
-- orders and keys, validly, and hands out the same IDs at the times that the column keeps.
pub mysql_answers-memory :
    (engine : Engine) (n : ℕ) (db : Database) (cs : List Call)
    → Binary engine
    → IsValid (view n db)
    → Steady db n cs
    → memory_answers engine (view n db) cs ≡ mysql_answers engine db cs
mysql_answers-memory engine n db cs binary v steady =
    agree engine db binary n n db cs (omega arith) refl v steady
