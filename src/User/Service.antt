-- ===== src/User/Service.antt =====
-- user-order-api/internal/user/service.go, over any repository.
use codex_go_web_api.Prelude.{
  ℕ, String, Bool, List, [], ◌∷◌, ◌++◌, if◌then◌else◌, is_empty, trim_space, contains,
}
use codex_go_web_api.Prelude.Outcome.{Result, ok, err}
use codex_go_web_api.Platform.Httpx.{
  AppError, bad_request, bad_request_code, not_found_code, internal,
}
use codex_go_web_api.Platform.Page.{Request, Page, ListError}
use codex_go_web_api.User.{User, CreateUserRequest, RepoError, not_found, email_taken}

-- `Repository`, with `CreateWithEvent` where the repository has it: the flag tells whether it has
-- written the event itself.
pub record Repository (R : Type 0) : Type 0 where
  pub create : R → Bool → CreateUserRequest → ℕ → R × Result RepoError (User × Bool)
  pub list : R → Bool → Request → Result ListError (Page User)
  pub find_by_id : R → Bool → ℕ → Result RepoError User

pub record AuditRecord : Type 0 where
  pub action : String
  pub user_id : ℕ

pub record State (R : Type 0) : Type 0 where
  pub repo : R
  pub audit : List AuditRecord

abbrev create_error : RepoError → AppError
create_error email_taken = bad_request_code "EMAIL_ALREADY_EXISTS" "email already exists"
create_error _ = internal "failed to create user"

abbrev find_error : RepoError → AppError
find_error not_found = not_found_code "USER_NOT_FOUND" "user not found"
find_error _ = internal "failed to find user"

abbrev created :
    {R : Type 0}
    → List AuditRecord
    → R × Result RepoError (User × Bool)
    → State R × Result AppError User
created audit (r, err e) = (record { repo = r; audit = audit }, err (create_error e))
created audit (r, ok (u, persisted)) = (
  record {
    repo = r;
    audit =
        if persisted
        then audit
        else audit ++ record { action = "user.created"; user_id = u.id } ∷ [];
  },
  ok u,
)

module _ {R : Type 0} (repository : Repository R) where
  unfoldable pub create : Bool → CreateUserRequest → ℕ → State R → State R × Result AppError User
  create done input now s =
      if is_empty (trim_space input.name)
      then (s, err (bad_request "name is required"))
      else if contains b'@' input.email
      then created s.audit (repository.create s.repo done input now)
      else (s, err (bad_request "valid email is required"))

  unfoldable pub list : Bool → Request → State R → Result AppError (Page User)
  list done request s = elim (repository.list s.repo done request) [
    | err e ↦ err (internal "failed to list users")
    | ok page ↦ ok page
  ]

  unfoldable pub find_by_id : Bool → ℕ → State R → Result AppError User
  find_by_id done id s = elim (repository.find_by_id s.repo done id) [
    | err e ↦ err (find_error e)
    | ok u ↦ ok u
  ]
