-- ===== src/Auth/Bearer.antt =====
-- user-order-api/internal/auth/middleware.go: what `requireBearer` lets through. `fields` is strings.Fields of the
-- header Authorization, `fold` strings.EqualFold, and `parse` the token manager's Parse at a time.
pub mod Logout
use codex_go_web_api.Prelude.{
  ℕ, Bool, Option, none, some, List, [], ◌∷◌, if◌then◌else◌, ◌==◌, int_eq, Text, codes, pos,
}
use codex_go_web_api.Prelude.Outcome.{Result, ok, err}
use codex_go_web_api.Platform.Principal.{Principal}
use codex_go_web_api.Auth.{Session, RepoError}

-- `none` is the answer 401, `some` hands the principal on.
abbrev session_check : Principal → Result RepoError Session → Option Principal
session_check p (err e) = none
session_check p (ok session) = if pos session.user_id == p.user_id then some p else none

abbrev pub checked :
    Option (Text → ℕ → Result RepoError Session) → ℕ → Option Principal → Option Principal
checked sessions now none = none
checked none now (some p) = some p
checked (some find) now (some p) = session_check p (find p.session_id now)

-- `sessions` is the repository's FindActiveByID, if there is one.
unfoldable pub require_bearer :
    (Text → Text → Bool)
    → (ℕ → Text → Option Principal)
    → Option (Text → ℕ → Result RepoError Session)
    → List Text
    → ℕ
    → Option Principal
require_bearer fold parse sessions (scheme ∷ raw ∷ []) now =
    if fold scheme (codes "Bearer") then checked sessions now (parse now raw) else none
require_bearer fold parse sessions _ now = none
