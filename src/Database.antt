-- ===== src/Database.antt =====
-- user-order-api/internal/platform/database: what the repositories over MySQL stand on. A call meets one `Fate` for
-- each thing that it asks of the driver, in order, and a transaction is a body on the tables `D`.
-- The tables are those of user-order-api/internal/platform/database/migrations.
pub mod Transactions
pub mod Tables
pub mod Inserts
pub mod Queries
use codex_go_web_api.Prelude.{
  ◌≡◌, refl, ◌⊎◌, inl, inr, ℕ, Bool, true, false, Option, none, some, Text,
}
use codex_go_web_api.Prelude.Outcome.{Result, ok, err}

-- The server: which strings a column takes for equal, what DATETIME(6) keeps of a time, and whether
-- a missing parent is found before a duplicate.
pub record Engine : Type 0 where
  pub collates : Text → Text → Bool
  pub kept : ℕ → ℕ
  pub parent_first : Bool

-- What becomes of a request to the driver: it takes its course, it is not carried out (the context
-- is done, the connection is broken, a value does not fit its column), or it takes its course and
-- its answer is lost.
pub data Fate : Type 0 where
  works fails lost : Fate

abbrev pub is_works : Fate → Bool
is_works works = true
is_works fails = false
is_works lost = false

pub Fate-cases : (f : Fate) → (f ≡ works) ⊎ (is_works f ≡ false)
Fate-cases works = inl refl
Fate-cases fails = inr refl
Fate-cases lost = inr refl

-- `mysql.MySQLError` with number 1062 or 1452, and any other error.
pub data DriverError : Type 0 where
  duplicate no_parent other_error : DriverError

-- What a call draws: the fates, the IDs that AUTO_INCREMENT gives, Go's clock, and
-- the server's at its first and its second statement that reads it.
pub record Turn : Type 0 where
  pub fates : ℕ → Fate
  pub id : ℕ
  pub event_row_id : ℕ
  pub now : ℕ
  pub server_now : ℕ
  pub server_later : ℕ

-- A statement inside a transaction; if its answer is lost, the transaction is rolled back.
abbrev pub in_tx : {A : Type 0} → Fate → Result DriverError A → Result DriverError A
in_tx works r = r
in_tx fails r = err other_error
in_tx lost r = err other_error

-- A statement that is a transaction of its own.
abbrev pub autocommit :
    {D : Type 0} → Fate → D → Result DriverError D → D × Result DriverError (Unit {0})
autocommit works db (ok after) = (after, ok tt)
autocommit works db (err e) = (db, err e)
autocommit fails db r = (db, err other_error)
autocommit lost db (ok after) = (after, err other_error)
autocommit lost db (err e) = (db, err other_error)

-- `QueryRow` and `Scan`: the row that is found, the error for no row, or another error.
abbrev pub query_row : {E A : Type 0} → E → E → Fate → Option A → Result E A
query_row no_rows broken works (some a) = ok a
query_row no_rows broken works none = err no_rows
query_row no_rows broken fails row = err broken
query_row no_rows broken lost row = err broken

-- How the body of a transaction ends without an error: it returns, and the deferred `Rollback`
-- undoes what it did, or it goes on to `Commit`.
pub data End (D A : Type 0) : Type 0 where
  returns : A → End D A
  commits : D → A → End D A

abbrev pub commit : {D E A : Type 0} → E → Fate → D → Result E (End D A) → D × Result E A
commit broken fate db (err e) = (db, err e)
commit broken fate db (ok (returns a)) = (db, ok a)
commit broken works db (ok (commits after a)) = (after, ok a)
commit broken fails db (ok (commits after a)) = (db, err broken)
commit broken lost db (ok (commits after a)) = (after, err broken)

-- `BeginTx`, the body on the tables, and `Commit`; `broken` is the wrapped error of the first and
-- the last.
unfoldable pub transact :
    {D E A : Type 0} → E → Fate → Fate → (D → Result E (End D A)) → D → D × Result E A
transact broken works ending body db = commit broken ending db (body db)
transact broken fails ending body db = (db, err broken)
transact broken lost ending body db = (db, err broken)
