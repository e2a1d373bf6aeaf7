-- ===== src/User.antt =====
-- user-order-api/internal/user: model.go and repository.go, the users in memory. `done` tells whether `ctx.Err()` is
-- set, and `wide` is `unicode.ToLower` beyond ASCII.
pub mod Emails
pub mod Service
pub mod Handler
pub mod Mysql
use codex_go_web_api.Prelude.{
  ℕ, Bool, true, false, Option, none, some, List, [], ◌∷◌, map, select, ltb, nat_eq, text_eq, Text,
  trim_space, to_lower, inc64, lookup, insert,
}
use codex_go_web_api.Prelude.Outcome.{Result, ok, err}
use codex_go_web_api.Platform.Page.{Request, Page, ListError, sort_by_id, paginate}
use codex_go_web_api.Platform.Page

pub record User : Type 0 where
  pub id : ℕ
  pub name : Text
  pub email : Text
  pub created_at : ℕ

pub record CreateUserRequest : Type 0 where
  pub name : Text
  pub email : Text

-- Errors of the user repositories; `failed` is a wrapped error of the driver.
pub data RepoError : Type 0 where
  not_found email_taken context_done failed : RepoError

pub record MemoryRepository : Type 0 where
  pub next_id : ℕ
  pub users : List (ℕ × User)
  pub by_email : List (Text × ℕ)

abbrev pub new_memory_repository : MemoryRepository
new_memory_repository = record { next_id = 1; users = []; by_email = [] }

abbrev pub normalized : (ℕ → ℕ) → Text → Text
normalized wide email = to_lower wide (trim_space email)

abbrev pub new_user : (ℕ → ℕ) → ℕ → CreateUserRequest → ℕ → User
new_user wide id input now = record {
  id = id;
  name = trim_space input.name;
  email = normalized wide input.email;
  created_at = now;
}

abbrev pub add : User → MemoryRepository → MemoryRepository
add u r = record {
  next_id = inc64 r.next_id;
  users = insert u.id u r.users;
  by_email = insert u.email u.id r.by_email;
}

unfoldable pub create :
    (ℕ → ℕ)
    → Bool
    → CreateUserRequest
    → ℕ
    → MemoryRepository
    → MemoryRepository × Result RepoError User
create wide true input now r = (r, err context_done)
create wide false input now r = elim (lookup (normalized wide input.email) r.by_email) [
  | some id ↦ (r, err email_taken)
  | none ↦ (add (new_user wide r.next_id input now) r, ok (new_user wide r.next_id input now))
]

abbrev pub user_id : User → ℕ
user_id u = u.id

-- `ranged` is the users as `range r.users` yields them: all, in any order.
unfoldable pub list : Bool → Request → List User → Result ListError (Page User)
list true request ranged = err ListError.cancelled
list false request ranged =
    paginate user_id (sort_by_id user_id (select (λ u. ltb request.after_id u.id) ranged))
      request.limit

unfoldable pub find_by_id : Bool → ℕ → MemoryRepository → Result RepoError User
find_by_id true id r = err context_done
find_by_id false id r = elim (lookup id r.users) [ none ↦ err not_found | some u ↦ ok u ]
