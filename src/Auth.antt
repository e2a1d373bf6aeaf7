-- ===== src/Auth.antt =====
-- user-order-api/internal/auth/model.go. Times are nanoseconds since Go's zero time; the IDs of identities are
-- handed out from 1 on.
pub mod Sessions
pub mod Identities
pub mod Store
pub mod Service
pub mod Bearer
pub mod Mysql
pub mod Tokens
pub mod Handler
use codex_go_web_api.Prelude.{ℕ, Option, Text}

pub data Role : Type 0 where
  user admin : Role
  other_role : Text → Role

pub record Identity : Type 0 where
  pub id : ℕ
  pub name : Text
  pub email : Text
  pub password_hash : Text
  pub role : Role
  pub auth_version : ℕ
  pub created_at : ℕ

pub record NewIdentity : Type 0 where
  pub name : Text
  pub email : Text
  pub password_hash : Text
  pub role : Role

pub record Session : Type 0 where
  pub id : Text
  pub user_id : ℕ
  pub token_hash : Text
  pub expires_at : ℕ
  pub revoked_at : Option ℕ
  pub created_at : ℕ
  pub last_used_at : ℕ

pub record NewSession : Type 0 where
  pub id : Text
  pub user_id : ℕ
  pub token_hash : Text
  pub expires_at : ℕ

-- Errors of the repositories of identities and sessions.
pub data RepoError : Type 0 where
  session_not_found identity_not_found email_taken context_done failed : RepoError
