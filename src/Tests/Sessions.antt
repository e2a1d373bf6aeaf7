-- ===== src/Tests/Sessions.antt =====
-- Runs of the sessions in memory and of the service on them.
use codex_go_web_api.Prelude.{
  pos, ◌≡◌, refl, true, false, none, some, List, [], ◌∷◌, text_beq, text_eq, codes, lookup,
}
use codex_go_web_api.Prelude.Outcome.{ok, err}
use codex_go_web_api.Auth.{user, Identity, Session, NewSession, failed}
use codex_go_web_api.Auth.Sessions.{find_active_by_id, MemoryRepository, rotate, revoke}
use codex_go_web_api.Auth.Sessions.Revoked.{
  Call, rotates, Refused, run, rotate-Refused, revoke-Refused,
}
use codex_go_web_api.Platform.Principal.{Principal}
use codex_go_web_api.Auth.Bearer.{require_bearer}
use codex_go_web_api.Auth.Bearer.Logout.{require_bearer-revoked}
use codex_go_web_api.Auth.Store.{Crypto, Settings, Draw, State, unauthenticated}
use codex_go_web_api.Auth.Service.{refresh}
use codex_go_web_api.Auth.Service.Refreshing.{
  Identities, memory_store, after_calls, refresh-single_use,
}

abbrev session : Session
session = record {
  id = codes "s1";
  user_id = 7;
  token_hash = codes "h1";
  expires_at = 100;
  revoked_at = none;
  created_at = 1;
  last_used_at = 1;
}

abbrev sessions : MemoryRepository
sessions = record { sessions = (codes "s1", session) ∷ []; by_hash = (codes "h1", codes "s1") ∷ [] }

abbrev replacement : NewSession
replacement = record { id = codes "s2"; user_id = 7; token_hash = codes "h2"; expires_at = 200 }

-- The new session is rotated in its turn.
abbrev third : NewSession
third = record { id = codes "s3"; user_id = 7; token_hash = codes "h3"; expires_at = 300 }

abbrev later_calls : List Call
later_calls = rotates false (codes "s2") third 20 21 ∷ []

rotate-Refused_example :
    Refused
      (codes "s1")
      (codes "h1")
      30
      31
      third
      (run (rotate false (codes "s1") replacement 10 11 sessions).0 later_calls)
unfolding lookup text_beq
rotate-Refused_example =
    rotate-Refused (codes "s1") (codes "h1") session replacement third 10 11 30 31 later_calls
      sessions refl refl refl ((refl, refl), ((refl, refl), tt))

revoke-Refused_example :
    Refused
      (codes "s1")
      (codes "h1")
      30
      31
      third
      (run (revoke false (codes "s1") 10 sessions).0 later_calls)
unfolding lookup text_beq
revoke-Refused_example =
    revoke-Refused (codes "s1") (codes "h1") session third 10 30 31 later_calls sessions refl refl
      refl ((refl, refl), tt)

abbrev ada : Identity
ada = record {
  id = 7;
  name = codes "Ada";
  email = codes "ada@x.org";
  password_hash = codes "p";
  role = user;
  auth_version = 1;
  created_at = 1;
}

-- One identity, which every look-up finds.
abbrev only_ada : Identities (Unit {0})
only_ada = record {
  create = λ i done input now. (i, err failed);
  find_by_email = λ i done email. ok ada;
  find_by_id = λ i done id. ok ada;
}

-- A token hashes to its text behind an `h`.
abbrev crypto : Crypto
crypto = record {
  token_hash = λ raw. b'h' ∷ raw;
  compare = λ hash password. false;
  issue = λ now claims. some (codes "access");
}

abbrev settings : Settings
settings = record { refresh_ttl = 100; has_audit = true }

abbrev draw : Draw
draw = record {
  done = false;
  now = 10;
  later = 11;
  refresh = some (codes "2");
  session_id = codes "s2";
  refresh_inside = none;
  session_id_inside = [];
  hash = none;
}

abbrev start : State (Unit {0} × MemoryRepository)
start = record { db = (tt, sessions); audit = [] }

abbrev after_refresh : State (Unit {0} × MemoryRepository)
after_refresh =
    after_calls only_ada later_calls
      (refresh (memory_store only_ada) crypto settings draw (codes "1") start).0

refresh-single_use_example :
    refresh (memory_store only_ada) crypto settings draw (codes "1") after_refresh
    ≡ (after_refresh, err unauthenticated)
unfolding lookup text_beq
refresh-single_use_example =
    refresh-single_use only_ada crypto settings draw draw (codes "1") (codes "2") start session ada
      later_calls refl refl refl refl refl refl refl ((refl, refl), ((refl, refl), tt))

abbrev principal : Principal
principal = record {
  user_id = pos 7;
  role = codes "user";
  session_id = codes "s1";
  auth_version = pos 1;
}

require_bearer-revoked_example :
    require_bearer
      (λ s t. true)
      (λ now raw. some principal)
      (some (λ id t.
        find_active_by_id false id t (run (revoke false (codes "s1") 10 sessions).0 later_calls)))
      (codes "Bearer" ∷ codes "token" ∷ [])
      30
    ≡ none
unfolding lookup text_beq
require_bearer-revoked_example =
    require_bearer-revoked (λ s t. true) (λ now raw. some principal) (codes "Bearer")
      (codes "token") (codes "h1") principal session third 10 30 later_calls sessions refl refl refl
      ((refl, refl), tt) refl
