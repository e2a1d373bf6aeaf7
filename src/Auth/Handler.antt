-- ===== src/Auth/Handler.antt =====
-- user-order-api/internal/auth/handler.go. A request enters as what the handler reads of it; the decoded body and the
-- cookie enter as their results.
use codex_go_web_api.Prelude.{ℕ, String, Bool, Option, none, some, [], Text, pos, negsuc, ℤ}
use codex_go_web_api.Prelude.Outcome.{Result, ok, err}
use codex_go_web_api.Platform.Httpx.{AppError, method_not_allowed}
use codex_go_web_api.Platform.Principal.{Principal}
use codex_go_web_api.Order.Handler.{Method, get, post}
use codex_go_web_api.Auth.{Identity}
use codex_go_web_api.Auth.Store.{
  Store, Crypto, Settings, Draw, State, AuthResult, RegisterRequest, unauthenticated,
}
use codex_go_web_api.Auth.Service

-- The cookie refresh_token, for the path /api/v1/auth, HttpOnly and SameSite=Strict.
pub record Cookie : Type 0 where
  pub content : Text
  pub secure : Bool
  -- seconds, or none to delete the cookie
  pub max_age : Option ℕ

pub data Response : Type 0 where
  result_reply : ℕ → Cookie → AuthResult → Response
  -- 204
  signed_out : Cookie → Response
  identity_reply : Identity → Response
  error_reply : AppError → Response
  -- 405 with its `Allow` header
  refused_method : String → AppError → Response

pub record LoginRequest : Type 0 where
  pub email : Text
  pub password : Text

-- `writeResult`: seven days, whatever the time to live of a session is.
unfoldable pub write_result : Bool → ℕ → AuthResult → Response
write_result secure status result =
    result_reply status
      (record { content = result.refresh_token; secure = secure; max_age = some 604_800 }) result

abbrev pub result_or_error : Bool → ℕ → Result AppError AuthResult → Response
result_or_error secure status (ok result) = write_result secure status result
result_or_error secure status (err e) = error_reply e

abbrev pub deleted_cookie : Bool → Cookie
deleted_cookie secure = record { content = []; secure = secure; max_age = none }

abbrev pub out_or_error : Bool → Result AppError (Unit {0}) → Response
out_or_error secure (ok _) = signed_out (deleted_cookie secure)
out_or_error secure (err e) = error_reply e

abbrev pub identity_or_error : Result AppError Identity → Response
identity_or_error (ok i) = identity_reply i
identity_or_error (err e) = error_reply e

module _ {D : Type 0} (store : Store D) (crypto : Crypto) (settings : Settings)
    (secure : Bool) where
  unfoldable pub register :
      Draw → Method → Result AppError RegisterRequest → State D → State D × Response
  register draw post (ok input) s =
      let (s', result) = Service.register store crypto settings draw input s in
      (s', result_or_error secure 201 result)
  register draw post (err e) s = (s, error_reply e)
  register draw _ body s = (s, refused_method "POST" method_not_allowed)

  unfoldable pub login : Draw → Method → Result AppError LoginRequest → State D → State D × Response
  login draw post (ok input) s =
      let (s', result) = Service.login store crypto settings draw input.email input.password s in
      (s', result_or_error secure 200 result)
  login draw post (err e) s = (s, error_reply e)
  login draw _ body s = (s, refused_method "POST" method_not_allowed)

  unfoldable pub refresh : Draw → Method → Option Text → State D → State D × Response
  refresh draw post (some raw) s =
      let (s', result) = Service.refresh store crypto settings draw raw s in
      (s', result_or_error secure 200 result)
  refresh draw post none s = (s, error_reply unauthenticated)
  refresh draw _ cookie s = (s, refused_method "POST" method_not_allowed)

  unfoldable pub logout : Draw → Method → Option Text → State D → State D × Response
  logout draw post (some raw) s =
      let (s', result) = Service.logout store crypto settings draw raw s in
      (s', out_or_error secure result)
  logout draw post none s = (s, error_reply unauthenticated)
  logout draw _ cookie s = (s, refused_method "POST" method_not_allowed)

  -- A negative ID is no identity's.
  abbrev pub identity_of : Bool → ℤ → State D → Result AppError Identity
  identity_of done (pos id) s = Service.me store crypto settings done id s
  identity_of done (negsuc n) s = err unauthenticated

  unfoldable pub me : Bool → Method → Option Principal → State D → State D × Response
  me done get (some p) s = (s, identity_or_error (identity_of done p.user_id s))
  me done get none s = (s, error_reply unauthenticated)
  me done _ principal s = (s, refused_method "GET" method_not_allowed)
