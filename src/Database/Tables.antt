-- ===== src/Database/Tables.antt =====
-- user-order-api/internal/platform/database/migrations: the tables users, orders, sessions and outbox_events, each
-- as the list of its rows in the order of the primary key, and the statements that write them.
use codex_go_web_api.Prelude.{
  ℕ, Bool, true, false, not, ◌||◌, Option, none, some, List, [], ◌∷◌, ◌++◌, ◌==◌, int_eq,
  if◌then◌else◌, Text, ℤ, pos, is_pos,
}
use codex_go_web_api.Prelude.Outcome.{Result, ok, err}
use codex_go_web_api.Order.{Order}
use codex_go_web_api.Auth.{Role, user, admin, other_role, Session}
use codex_go_web_api.Outbox.Table.{Row}
use codex_go_web_api.Database.{Engine, DriverError, duplicate, no_parent, other_error}

pub record UserRow : Type 0 where
  pub id : ℕ
  pub name : Text
  pub email : Text
  pub password_hash : Option Text
  pub role : Role
  pub auth_version : ℕ
  pub created_at : ℕ

pub record OrderRow : Type 0 where
  pub order : Order
  pub key : Option Text

pub record Database : Type 0 where
  pub users : List UserRow
  pub orders : List OrderRow
  pub sessions : List Session
  pub outbox : List Row

-- Whether some row passes a test.
unfoldable pub any : {A : Type 0} → (A → Bool) → List A → Bool
any p [] = false
any p (a ∷ l) = p a || any p l

-- The first row that passes a test; a unique column has at most one.
unfoldable pub first : {A : Type 0} → (A → Bool) → List A → Option A
first p [] = none
first p (a ∷ l) = let rest = first p l in if p a then some a else rest

-- An UPDATE: `change` on each row that passes a test.
unfoldable pub update : {A : Type 0} → (A → Bool) → (A → A) → List A → List A
update p change [] = []
update p change (a ∷ l) = (if p a then change a else a) ∷ update p change l

abbrev pub holds : (Text → Text → Bool) → Text → Option Text → Bool
holds collates key none = false
holds collates key (some other) = collates other key

abbrev pub has_user : ℤ → Database → Bool
has_user user_id db = any (λ (row : UserRow). pos row.id == user_id) db.users

-- `uq_orders_idempotency_key`; NULL is unlike every key.
abbrev pub key_taken : Engine → Option Text → Database → Bool
key_taken engine none db = false
key_taken engine (some key) db =
    any (λ (row : OrderRow). holds engine.collates key row.key) db.orders

abbrev missing_or : Bool → Bool → Bool → DriverError
missing_or true missing taken = if missing then no_parent else duplicate
missing_or false missing taken = if taken then duplicate else no_parent

-- `CHECK (amount > 0)`, the unique key and the foreign key.
unfoldable pub insert_order : Engine → OrderRow → Database → Result DriverError Database
insert_order engine row db =
    if is_pos row.order.amount
    then (let missing = not (has_user row.order.user_id db) in
        let taken = key_taken engine row.key db in
        if missing || taken
        then err (missing_or engine.parent_first missing taken)
        else ok (record db { orders = db.orders ++ row ∷ [] }))
    else err other_error

abbrev known_role : Role → Bool
known_role user = true
known_role admin = true
known_role (other_role name) = false

-- `chk_users_role` and the unique e-mail.
unfoldable pub insert_user : Engine → UserRow → Database → Result DriverError Database
insert_user engine row db =
    if known_role row.role
    then (if any (λ (other : UserRow). engine.collates other.email row.email) db.users
        then err duplicate
        else ok (record db { users = db.users ++ row ∷ [] }))
    else err other_error

-- The primary key, the unique hash and the foreign key.
unfoldable pub insert_session : Engine → Session → Database → Result DriverError Database
insert_session engine row db =
    let missing = not (has_user (pos row.user_id) db) in
    let taken =
      any
        (λ (other : Session).
          engine.collates other.id row.id || engine.collates other.token_hash row.token_hash)
        db.sessions in
    if missing || taken
    then err (missing_or engine.parent_first missing taken)
    else ok (record db { sessions = db.sessions ++ row ∷ [] })
