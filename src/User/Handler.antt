-- ===== src/User/Handler.antt =====
-- user-order-api/internal/user/handler.go. A request enters as what the handler reads of it.
use codex_go_web_api.Prelude.{
  ℕ, String, Bool, true, false, not, ◌&&◌, Option, none, some, if◌then◌else◌, ◌==◌, int_eq, Text,
  codes, pos,
}
use codex_go_web_api.Prelude.Outcome.{Result, ok, err}
use codex_go_web_api.Platform.Httpx.{
  AppError, unauthorized_code, forbidden_code, method_not_allowed,
}
use codex_go_web_api.Platform.Page.{Page}
use codex_go_web_api.Platform.Principal.{Principal, is_admin}
use codex_go_web_api.Platform.Requests.{path_id, parse_page_request}
use codex_go_web_api.Order.Handler.{Method, get, post, other_method}
use codex_go_web_api.User.{User, CreateUserRequest}
use codex_go_web_api.User.Service.{Repository, State}
use codex_go_web_api.User.Service

pub data Response : Type 0 where
  user_reply : ℕ → User → Response
  page_reply : Page User → Response
  error_reply : AppError → Response
  refused_method : String → AppError → Response

pub record HttpRequest : Type 0 where
  pub principal : Option Principal
  pub method : Method
  pub path : Text
  pub limit : Text
  pub after_id : Text
  pub body : Result AppError CreateUserRequest

abbrev pub unauthenticated : Response
unauthenticated = error_reply (unauthorized_code "UNAUTHENTICATED" "unauthenticated")

abbrev pub forbidden : Response
forbidden = error_reply (forbidden_code "FORBIDDEN" "insufficient permissions")

abbrev page_or_error : Result AppError (Page User) → Response
page_or_error (ok page) = page_reply page
page_or_error (err e) = error_reply e

abbrev user_or_error : ℕ → Result AppError User → Response
user_or_error code (ok u) = user_reply code u
user_or_error code (err e) = error_reply e

module _ {R : Type 0} (repository : Repository R) where
  unfoldable pub users_of_admin : Bool → ℕ → HttpRequest → State R → State R × Response
  users_of_admin done now q s = elim q.method [
    | get ↦ elim (parse_page_request q.limit q.after_id) [
      | err e ↦ (s, error_reply e)
      | ok request ↦ (s, page_or_error (Service.list repository done request s))
    ]
    | post ↦ elim q.body [
      | err e ↦ (s, error_reply e)
      | ok input ↦
          let (s', result) = Service.create repository done input now s in
          (s', user_or_error 201 result)
    ]
    | other_method ↦ (s, refused_method "GET, POST" method_not_allowed)
  ]

  -- The methods that only an admin may use.
  abbrev guarded : Method → Bool
  guarded get = true
  guarded post = true
  guarded other_method = false

  -- `Handler.users`
  unfoldable pub users : Bool → ℕ → HttpRequest → State R → State R × Response
  unfolding users_of_admin
  users done now q s = elim q.principal [
    | none ↦ (s, unauthenticated)
    | some p ↦
        if guarded q.method && not (is_admin p) then (s, forbidden) else users_of_admin done now q s
  ]

  abbrev show_user : Bool → Principal → Result AppError ℕ → State R → Response
  show_user done p (err e) s = error_reply e
  show_user done p (ok id) s =
      if not (is_admin p) && not (p.user_id == pos id)
      then forbidden
      else user_or_error 200 (Service.find_by_id repository done id s)

  -- `Handler.userByID`
  unfoldable pub user_by_id : Bool → HttpRequest → State R → State R × Response
  user_by_id done q s = elim q.principal [
    | none ↦ (s, unauthenticated)
    | some p ↦ elim q.method [
      | get ↦ (s, show_user done p (path_id q.path (codes "/users/")) s)
      | _ ↦ (s, refused_method "GET" method_not_allowed)
    ]
  ]
