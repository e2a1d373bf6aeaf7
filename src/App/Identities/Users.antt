-- ===== src/App/Identities/Users.antt =====
-- What finds an identity finds its user.
use codex_go_web_api.Prelude.{
  ℕ, ◌+◌, ◌<◌, ◌≡◌, refl, ap, ◌∙◌, inl, inr, false, some, List, length, nat_eq, text_eq,
  Option-cases, Text, lookup, trim_space, to_lower, two_63, subst,
}
use codex_go_web_api.Prelude.Outcome.{Result, ok, err, ok-injective}
use codex_go_web_api.User.{new_memory_repository, find_by_id}
use codex_go_web_api.Auth.{Identity, RepoError, identity_not_found}
use codex_go_web_api.App.Identities.{
  MemoryIdentityRepository, new_memory_identity_repository, find_identity_by_email,
  find_identity_by_id,
}
use codex_go_web_api.Auth.Identities.{item_at}
use codex_go_web_api.App.Identities.Agreement.{Call, run, user_of, Agrees, run-Agrees, new-Agrees}

Found : MemoryIdentityRepository → Identity → Type 0
Found r i = (find_identity_by_id i.id r ≡ ok i) × (find_by_id false i.id r.users ≡ ok (user_of i))

known-Found :
    (id : ℕ) (i : Identity) (r : MemoryIdentityRepository)
    → Agrees r
    → lookup id r.items ≡ some i
    → Found r i
unfolding Found find_identity_by_id find_by_id
known-Found id i r a at =
    let (is_id, user_at) = a.known id i at in
    (
      rw (ap (λ k. lookup k r.items) is_id ∙ at, find_identity_by_id) refl,
      rw (ap (λ k. lookup k r.users.users) is_id ∙ user_at, find_by_id) refl,
    )

find-Found :
    (wide : ℕ → ℕ) (email : Text) (i : Identity) (r : MemoryIdentityRepository)
    → Agrees r
    → find_identity_by_email wide email r ≡ ok i
    → Found r i
unfolding find_identity_by_email
find-Found wide email i r a e =
    elim (Option-cases (lookup (to_lower wide (trim_space email)) r.by_email)) [
      | inl missing ↦
          let clash : ◌≡◌ {A = Result RepoError Identity} (err identity_not_found) (ok i) =
            rw (missing, find_identity_by_email) at e in
          cc
      | inr (id, leads) ↦
          let (j, at) = a.led (to_lower wide (trim_space email)) id leads in
          let is_it : j ≡ i =
            ok-injective j i (rw (leads, at, find_identity_by_email, item_at) at e) in
          subst (Found r) is_it (known-Found id j r a at)
    ]

abbrev pub history : (ℕ → ℕ) → List Call → MemoryIdentityRepository
history wide calls = run wide calls (new_memory_identity_repository new_memory_repository)

-- After any creations of users and identities on the empty repositories, one after the other and
-- fewer than the IDs of int64: if an e-mail address finds an identity, then the ID of that identity
-- finds the same identity, and it finds in the users the user with its ID, name, e-mail address and
-- time of creation.
pub run-find :
    (wide : ℕ → ℕ) (calls : List Call) (email : Text) (i : Identity)
    → 1 + length calls < two_63
    → find_identity_by_email wide email (history wide calls) ≡ ok i
    → (find_identity_by_id i.id (history wide calls) ≡ ok i)
      × (find_by_id false i.id (history wide calls).users ≡ ok (user_of i))
unfolding Found
run-find wide calls email i room e =
    find-Found wide email i (history wide calls) (run-Agrees wide calls _ room new-Agrees) e
