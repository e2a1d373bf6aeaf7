-- ===== src/Auth/Store.antt =====
-- What user-order-api/internal/auth/service.go stands on: the interfaces of the repositories, the parameters for
-- cryptography and randomness, and its requests and results.
use codex_go_web_api.Prelude.{ℕ, String, Bool, Option, List, Text}
use codex_go_web_api.Prelude.Outcome.{Result}
use codex_go_web_api.Platform.Httpx.{AppError, unauthorized_code}
use codex_go_web_api.Auth.{Role, Identity, NewIdentity, Session, NewSession, RepoError}

-- The methods of `*MySQLRepository` that write an event too; the flag tells whether it was written.
pub record Events (D : Type 0) : Type 0 where
  pub register_with_event :
      D → Bool → NewIdentity → NewSession → D × Result RepoError (Identity × Session × Bool)
  pub create_session_with_event : D → Bool → NewSession → D × Result RepoError (Session × Bool)
  pub rotate_with_event : D → Bool → Text → NewSession → D × Result RepoError (Session × Bool)
  pub revoke_with_event : D → Bool → Text → ℕ → D × Result RepoError Bool

-- `IdentityRepository` and `Repository`; `events` is there if they are a `*MySQLRepository` with
-- events. A time is the clock's, read inside.
pub record Store (D : Type 0) : Type 0 where
  pub create_identity : D → Bool → NewIdentity → ℕ → D × Result RepoError Identity
  pub find_identity_by_email : D → Bool → Text → Result RepoError Identity
  pub find_identity_by_id : D → Bool → ℕ → Result RepoError Identity
  pub create_session : D → Bool → NewSession → ℕ → D × Result RepoError Session
  pub find_active_by_token_hash : D → Bool → Text → ℕ → Result RepoError Session
  pub find_active_by_id : D → Bool → Text → ℕ → Result RepoError Session
  pub rotate : D → Bool → Text → NewSession → ℕ → ℕ → D × Result RepoError Session
  pub revoke : D → Bool → Text → ℕ → D × Result RepoError (Unit {0})
  pub events : Option (Events D)

-- What the access token of an identity carries.
pub record Claims : Type 0 where
  pub user_id : ℕ
  pub role : Role
  pub session_id : Text
  pub auth_version : ℕ

-- SHA-256 in hexadecimal, bcrypt's comparison, and the signing of an access token at a time.
pub record Crypto : Type 0 where
  pub token_hash : Text → Text
  pub compare : Text → Text → Bool
  pub issue : ℕ → Claims → Option Text

pub record Settings : Type 0 where
  pub refresh_ttl : ℕ
  pub has_audit : Bool

-- One call's randomness and clock: a refresh token, unless the generator fails, a session ID, and
-- both again for a session that is drawn inside; a bcrypt hash, unless it fails.
pub record Draw : Type 0 where
  pub done : Bool
  pub now : ℕ
  pub later : ℕ
  pub refresh : Option Text
  pub session_id : Text
  pub refresh_inside : Option Text
  pub session_id_inside : Text
  pub hash : Option Text

pub record AuthRecord : Type 0 where
  pub action : String
  pub user_id : ℕ

pub record State (D : Type 0) : Type 0 where
  pub db : D
  pub audit : List AuthRecord

pub record AuthResult : Type 0 where
  pub identity : Identity
  pub access_token : Text
  pub refresh_token : Text

pub record RegisterRequest : Type 0 where
  pub name : Text
  pub email : Text
  pub password : Text

abbrev pub unauthenticated : AppError
unauthenticated = unauthorized_code "UNAUTHENTICATED" "unauthenticated"

abbrev pub invalid_credentials : AppError
invalid_credentials = unauthorized_code "INVALID_CREDENTIALS" "invalid credentials"
