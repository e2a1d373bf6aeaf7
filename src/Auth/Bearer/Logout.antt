-- ===== src/Auth/Bearer/Logout.antt =====
-- An access token is of no use after its session's logout.
use codex_go_web_api.Prelude.{
  ℕ, ◌≡◌, refl, Bool, false, Option, none, some, List, [], ◌∷◌, Bool-cases, inl, inr, All, Text,
  text_eq, codes, lookup,
}
use codex_go_web_api.Prelude.Outcome.{Result, err}
use codex_go_web_api.Platform.Principal.{Principal}
use codex_go_web_api.Auth.{Session, NewSession, RepoError}
use codex_go_web_api.Auth.Sessions.{MemoryRepository, find_active_by_id, revoke}
use codex_go_web_api.Auth.Sessions.Revoked.{Call, Others, run, revoke-Refused}
use codex_go_web_api.Auth.Bearer.{checked, require_bearer}

-- A principal whose session is not found is not handed on.
require_bearer-missing :
    (fold : Text → Text → Bool) (parse : ℕ → Text → Option Principal)
    (find : Text → ℕ → Result RepoError Session) (scheme raw : Text) (now : ℕ) (p : Principal)
    (e : RepoError)
    → parse now raw ≡ some p
    → find p.session_id now ≡ err e
    → require_bearer fold parse (some find) (scheme ∷ raw ∷ []) now ≡ none
unfolding require_bearer
require_bearer-missing fold parse find scheme raw now p e parsed missing =
    elim (Bool-cases (fold scheme (codes "Bearer"))) [
      | inl bearer ↦ rw (bearer, require_bearer) (rw (parsed, checked) (rw (missing, checked) refl))
      | inr other ↦ rw (other, require_bearer) refl
    ]

-- A stored session that is not revoked, to which a token's hash leads, is revoked, and then any
-- calls come, none of which draws its ID or a token of that hash again. A request with an access
-- token that parses to a principal of that session is turned away.
pub require_bearer-revoked :
    (fold : Text → Text → Bool) (parse : ℕ → Text → Option Principal) (scheme raw hash : Text)
    (p : Principal) (item : Session) (next : NewSession) (now at : ℕ) (cs : List Call)
    (r : MemoryRepository)
    → lookup p.session_id r.sessions ≡ some item
    → lookup hash r.by_hash ≡ some p.session_id
    → item.revoked_at ≡ none
    → All (Others p.session_id hash) cs
    → parse at raw ≡ some p
    → require_bearer fold parse
        (some (λ id t. find_active_by_id false id t (run (revoke false p.session_id now r).0 cs)))
        (scheme ∷ raw ∷ [])
        at
      ≡ none
require_bearer-revoked fold parse scheme raw hash p item next now at cs r stored hashed on others
      parsed =
    let refused =
      revoke-Refused p.session_id hash item next now at at cs r stored hashed on others in
    require_bearer-missing fold parse _ scheme raw at p RepoError.session_not_found parsed refused.1
