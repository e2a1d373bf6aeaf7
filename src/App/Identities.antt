-- ===== src/App/Identities.antt =====
-- user-order-api/internal/app/memory_identity_repository.go: the identities of the application in memory, which share
-- its users. The two locks of `CreateIdentity` are taken as one step.
pub mod Agreement
pub mod Users
use codex_go_web_api.Prelude.{
  ℕ, Bool, none, some, List, [], nat_eq, text_eq, Text, trim_space, to_lower, lookup, insert,
}
use codex_go_web_api.Prelude.Outcome.{Result, ok, err}
use codex_go_web_api.User.{User, CreateUserRequest, create}
use codex_go_web_api.User
use codex_go_web_api.Auth.{
  Identity, NewIdentity, RepoError, identity_not_found, email_taken, context_done, failed,
}
use codex_go_web_api.Auth.Mysql.{role_or_user}
use codex_go_web_api.Auth.Identities.{item_at}

pub record MemoryIdentityRepository : Type 0 where
  pub users : User.MemoryRepository
  pub items : List (ℕ × Identity)
  pub by_email : List (Text × ℕ)

abbrev pub new_memory_identity_repository : User.MemoryRepository → MemoryIdentityRepository
new_memory_identity_repository users = record { users = users; items = []; by_email = [] }

-- An error of the users, as the identities report it.
abbrev identity_error : User.RepoError → RepoError
identity_error User.RepoError.email_taken = email_taken
identity_error User.RepoError.context_done = context_done
identity_error User.RepoError.not_found = failed
identity_error User.RepoError.failed = failed

abbrev pub user_request : NewIdentity → CreateUserRequest
user_request input = record { name = input.name; email = input.email }

abbrev pub identity_of : NewIdentity → User → Identity
identity_of input created = record {
  id = created.id;
  name = created.name;
  email = created.email;
  password_hash = input.password_hash;
  role = role_or_user input.role;
  auth_version = 1;
  created_at = created.created_at;
}

abbrev pub add_item :
    (ℕ → ℕ) → Identity → User.MemoryRepository → MemoryIdentityRepository → MemoryIdentityRepository
add_item wide item users r = record {
  users = users;
  items = insert item.id item r.items;
  by_email = insert (to_lower wide item.email) item.id r.by_email;
}

unfoldable pub create_identity :
    (ℕ → ℕ)
    → Bool
    → NewIdentity
    → ℕ
    → MemoryIdentityRepository
    → MemoryIdentityRepository × Result RepoError Identity
create_identity wide done input now r =
    let (users, out) = create wide done (user_request input) now r.users in
    elim out [
      | err e ↦ (record r { users = users }, err (identity_error e))
      | ok created ↦
          (add_item wide (identity_of input created) users r, ok (identity_of input created))
    ]

unfoldable pub find_identity_by_email :
    (ℕ → ℕ) → Text → MemoryIdentityRepository → Result RepoError Identity
find_identity_by_email wide email r = elim (lookup (to_lower wide (trim_space email)) r.by_email) [
  | none ↦ err identity_not_found
  | some id ↦ ok (item_at id r.items)
]

unfoldable pub find_identity_by_id : ℕ → MemoryIdentityRepository → Result RepoError Identity
find_identity_by_id id r = elim (lookup id r.items) [
  | none ↦ err identity_not_found
  | some item ↦ ok item
]
