-- ===== src/Platform/Principal.antt =====
-- user-order-api/internal/platform/principal/principal.go; `FromContext` is an Option of a principal.
use codex_go_web_api.Prelude.{Bool, Text, codes, text_beq, ℤ}

pub record Principal : Type 0 where
  pub user_id : ℤ
  pub role : Text
  pub session_id : Text
  pub auth_version : ℤ

abbrev pub is_admin : Principal → Bool
is_admin p = text_beq p.role (codes "admin")
