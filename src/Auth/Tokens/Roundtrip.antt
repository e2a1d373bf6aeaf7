-- ===== src/Auth/Tokens/Roundtrip.antt =====
-- A token that was issued is parsed to its principal, and every parsed principal is one of a user.
use codex_go_web_api.Prelude.{
  ℕ, ◌+◌, ◌<◌, ◌≡◌, refl, ap, ◌∙◌, Option, some, true, false, arith, Text, is_empty, ℤ, pos, is_pos,
  two_63,
}
use codex_go_web_api.Prelude.Decimal.{parse_int-format_int}
use codex_go_web_api.Platform.Principal.{Principal}
use codex_go_web_api.Auth.Tokens.{
  Method, hs256, AccessClaims, Jwt, TokenManager, claims_of, issue, key_for, principal_of,
  checked_claims, parse,
}

-- What the library documents: a token that was signed under a method and a key is accepted, with its
-- claims, by a parser that gives this key to the method and asks for the issuer of the claims, before
-- they expire.
abbrev pub Accepts : Jwt → Type 0
Accepts jwt =
    (method : Method) (key raw : Text) (claims : AccessClaims) (keys : Method → Option Text)
    (now : ℕ)
    → jwt.signed method key claims ≡ some raw
    → keys method ≡ some key
    → now < claims.expires_at
    → jwt.parse_with_claims keys claims.issuer now raw ≡ some claims

-- With a library that accepts what it has signed: the token of a principal with a positive int64 ID, a
-- role and a session is parsed to that principal by a manager of the same key and issuer, at every time
-- before the token's expiry as its claims keep it.
pub parse-issue :
    (jwt : Jwt) (m : TokenManager) (user_id issued now : ℕ) (role session_id raw : Text)
    (version : ℤ)
    → Accepts jwt
    → is_pos (pos user_id) ≡ true
    → user_id < two_63
    → is_empty role ≡ false
    → is_empty session_id ≡ false
    → now < jwt.numeric_date (issued + m.ttl)
    → let p : Principal = record {
      user_id = pos user_id;
      role = role;
      session_id = session_id;
      auth_version = version;
    } in
      issue jwt m issued p ≡ some raw → parse jwt m now raw ≡ some p
unfolding issue parse
parse-issue jwt m user_id issued now role session_id raw version accepts positive fits r s fresh
      signed =
    let claims = claims_of jwt m issued (record {
      user_id = pos user_id;
      role = role;
      session_id = session_id;
      auth_version = version;
    }) in
    ap checked_claims (accepts hs256 m.signing_key raw claims (key_for m) now signed refl fresh)
    ∙ ap (principal_of claims) (parse_int-format_int user_id fits)
    ∙ ground (arith, positive, r, s)
