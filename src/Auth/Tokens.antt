-- ===== src/Auth/Tokens.antt =====
-- user-order-api/internal/auth/jwt.go: access tokens. The JWT library is the record `Jwt`.
pub mod Roundtrip
use codex_go_web_api.Prelude.{
  ℕ, ◌+◌, Option, none, some, ◌∷◌, not, ◌||◌, if◌then◌else◌, Text, is_empty, ℤ, pos, negsuc, is_pos,
}
use codex_go_web_api.Prelude.Decimal.{format_int, parse_int}
use codex_go_web_api.Platform.Principal.{Principal}

-- `SigningMethodHS256`, and any other.
pub data Method : Type 0 where
  hs256 other_method : Method

pub record AccessClaims : Type 0 where
  pub role : Text
  pub session_id : Text
  pub auth_version : ℤ
  pub issuer : Text
  pub subject : Text
  pub issued_at : ℕ
  pub expires_at : ℕ

-- The library: `NewNumericDate`, `SignedString` under a method and a key, and `ParseWithClaims` with
-- the function that gives the key of a method, an issuer and a clock.
pub record Jwt : Type 0 where
  pub numeric_date : ℕ → ℕ
  pub signed : Method → Text → AccessClaims → Option Text
  pub parse_with_claims : (Method → Option Text) → Text → ℕ → Text → Option AccessClaims

pub record TokenManager : Type 0 where
  pub signing_key : Text
  pub issuer : Text
  pub ttl : ℕ

-- `strconv.FormatInt` of an int64 that may be negative.
abbrev format_subject : ℤ → Text
format_subject (pos n) = format_int n
format_subject (negsuc n) = b'-' ∷ format_int (n + 1)

abbrev pub claims_of : Jwt → TokenManager → ℕ → Principal → AccessClaims
claims_of jwt m now p = record {
  role = p.role;
  session_id = p.session_id;
  auth_version = p.auth_version;
  issuer = m.issuer;
  subject = format_subject p.user_id;
  issued_at = jwt.numeric_date now;
  expires_at = jwt.numeric_date (now + m.ttl);
}

unfoldable pub issue : Jwt → TokenManager → ℕ → Principal → Option Text
issue jwt m now p = jwt.signed hs256 m.signing_key (claims_of jwt m now p)

-- The key is given to HS256 alone.
abbrev pub key_for : TokenManager → Method → Option Text
key_for m hs256 = some m.signing_key
key_for m other_method = none

abbrev pub principal_of : AccessClaims → Option ℤ → Option Principal
principal_of claims none = none
principal_of claims (some user_id) =
    if not (is_pos user_id) || (is_empty claims.role || is_empty claims.session_id)
    then none
    else some (record {
      user_id = user_id;
      role = claims.role;
      session_id = claims.session_id;
      auth_version = claims.auth_version;
    })

abbrev pub checked_claims : Option AccessClaims → Option Principal
checked_claims none = none
checked_claims (some claims) = principal_of claims (parse_int claims.subject)

unfoldable pub parse : Jwt → TokenManager → ℕ → Text → Option Principal
parse jwt m now raw = checked_claims (jwt.parse_with_claims (key_for m) m.issuer now raw)
