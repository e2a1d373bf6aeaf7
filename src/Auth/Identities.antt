-- ===== src/Auth/Identities.antt =====
-- user-order-api/internal/auth/identity_repository.go: identities in memory. `done` tells whether `ctx.Err()` is set.
use codex_go_web_api.Prelude.{
  ℕ, Bool, true, false, none, some, List, [], nat_eq, text_eq, Text, trim_space, to_lower, inc64,
  lookup, insert,
}
use codex_go_web_api.Prelude.Outcome.{Result, ok, err}
use codex_go_web_api.Auth.{
  Identity, NewIdentity, RepoError, other_role, identity_not_found, email_taken, context_done,
}
use codex_go_web_api.Auth.Mysql.{role_or_user}

pub record MemoryIdentityRepository : Type 0 where
  pub next_id : ℕ
  pub by_id : List (ℕ × Identity)
  pub by_email : List (Text × ℕ)

abbrev pub new_memory_identity_repository : MemoryIdentityRepository
new_memory_identity_repository = record { next_id = 1; by_id = []; by_email = [] }

abbrev new_identity : (ℕ → ℕ) → ℕ → NewIdentity → ℕ → Identity
new_identity wide id input now = record {
  id = id;
  name = trim_space input.name;
  email = to_lower wide (trim_space input.email);
  password_hash = input.password_hash;
  role = role_or_user input.role;
  auth_version = 1;
  created_at = now;
}

abbrev add_identity : Identity → MemoryIdentityRepository → MemoryIdentityRepository
add_identity item r = record {
  next_id = inc64 r.next_id;
  by_id = insert item.id item r.by_id;
  by_email = insert item.email item.id r.by_email;
}

unfoldable pub create_identity :
    (ℕ → ℕ)
    → Bool
    → NewIdentity
    → ℕ
    → MemoryIdentityRepository
    → MemoryIdentityRepository × Result RepoError Identity
create_identity wide true input now r = (r, err context_done)
create_identity wide false input now r =
    elim (lookup (to_lower wide (trim_space input.email)) r.by_email) [
      | some id ↦ (r, err email_taken)
      | none ↦ (
        add_identity (new_identity wide r.next_id input now) r,
        ok (new_identity wide r.next_id input now),
      )
    ]

-- Go's `Identity{}`, which a missing key reads as.
abbrev pub zero_identity : Identity
zero_identity = record {
  id = 0;
  name = [];
  email = [];
  password_hash = [];
  role = other_role [];
  auth_version = 0;
  created_at = 0;
}

-- `m[id]`
abbrev pub item_at : ℕ → List (ℕ × Identity) → Identity
item_at id m = elim (lookup id m) [ none ↦ zero_identity | some item ↦ item ]

unfoldable pub find_identity_by_email :
    (ℕ → ℕ) → Bool → Text → MemoryIdentityRepository → Result RepoError Identity
find_identity_by_email wide true email r = err context_done
find_identity_by_email wide false email r =
    elim (lookup (to_lower wide (trim_space email)) r.by_email) [
      | none ↦ err identity_not_found
      | some id ↦ ok (item_at id r.by_id)
    ]

unfoldable pub find_identity_by_id : Bool → ℕ → MemoryIdentityRepository → Result RepoError Identity
find_identity_by_id true id r = err context_done
find_identity_by_id false id r = elim (lookup id r.by_id) [
  | none ↦ err identity_not_found
  | some item ↦ ok item
]
