-- ===== src/Auth/Sessions.antt =====
-- user-order-api/internal/auth/repository.go: the sessions in memory. `done` tells whether `ctx.Err()` is set; the
-- mutex makes each call one step.
pub mod Revoked
use codex_go_web_api.Prelude.{
  ℕ, Bool, true, false, not, ◌||◌, Option, none, some, List, [], ltb, if◌then◌else◌, is_some, Text,
  text_eq, lookup, insert,
}
use codex_go_web_api.Prelude.Outcome.{Result, ok, err}
use codex_go_web_api.Auth.{Session, NewSession, RepoError, session_not_found, context_done}

pub record MemoryRepository : Type 0 where
  pub sessions : List (Text × Session)
  pub by_hash : List (Text × Text)

abbrev pub new_memory_repository : MemoryRepository
new_memory_repository = record { sessions = []; by_hash = [] }

abbrev pub new_session : NewSession → ℕ → Session
new_session input now = record {
  id = input.id;
  user_id = input.user_id;
  token_hash = input.token_hash;
  expires_at = input.expires_at;
  revoked_at = none;
  created_at = now;
  last_used_at = now;
}

-- `Session{}`
abbrev pub zero_session : Session
zero_session = record {
  id = [];
  user_id = 0;
  token_hash = [];
  expires_at = 0;
  revoked_at = none;
  created_at = 0;
  last_used_at = 0;
}

abbrev pub add : Session → MemoryRepository → MemoryRepository
add item r = record {
  sessions = insert item.id item r.sessions;
  by_hash = insert item.token_hash item.id r.by_hash;
}

unfoldable pub create :
    Bool → NewSession → ℕ → MemoryRepository → MemoryRepository × Result RepoError Session
create true input now r = (r, err context_done)
create false input now r = (add (new_session input now) r, ok (new_session input now))

abbrev pub is_active : Session → ℕ → Bool
is_active item now = not (is_some item.revoked_at || not (ltb now item.expires_at))

abbrev pub if_active : Session → ℕ → Result RepoError Session
if_active item now = if is_active item now then ok item else err session_not_found

-- `item := r.sessions[id]` is the zero session if the ID is unknown.
abbrev or_zero : Option Session → Session
or_zero none = zero_session
or_zero (some item) = item

unfoldable pub find_active_by_token_hash :
    Bool → Text → ℕ → MemoryRepository → Result RepoError Session
find_active_by_token_hash true hash now r = err context_done
find_active_by_token_hash false hash now r = elim (lookup hash r.by_hash) [
  | none ↦ err session_not_found
  | some id ↦ if_active (or_zero (lookup id r.sessions)) now
]

unfoldable pub find_active_by_id : Bool → Text → ℕ → MemoryRepository → Result RepoError Session
find_active_by_id true id now r = err context_done
find_active_by_id false id now r = elim (lookup id r.sessions) [
  | none ↦ err session_not_found
  | some item ↦ if_active item now
]

abbrev pub revoked : Session → ℕ → Session
revoked item now = record item { revoked_at = some now }

-- `now` is the clock of the test for expiry, `later` the clock that is read after it.
unfoldable pub rotate :
    Bool
    → Text
    → NewSession
    → ℕ
    → ℕ
    → MemoryRepository
    → MemoryRepository × Result RepoError Session
rotate true id replacement now later r = (r, err context_done)
rotate false id replacement now later r = elim (lookup id r.sessions) [
  | none ↦ (r, err session_not_found)
  | some item ↦
      if is_active item now
      then (
        add (new_session replacement later)
            (record r { sessions = insert id (revoked item later) r.sessions }),
        ok (new_session replacement later),
      )
      else (r, err session_not_found)
]

unfoldable pub revoke :
    Bool → Text → ℕ → MemoryRepository → MemoryRepository × Result RepoError (Unit {0})
revoke true id now r = (r, err context_done)
revoke false id now r = elim (lookup id r.sessions) [
  | none ↦ (r, err session_not_found)
  | some item ↦
      if is_some item.revoked_at
      then (r, err session_not_found)
      else (record r { sessions = insert id (revoked item now) r.sessions }, ok tt)
]
