-- ===== src/Tests/Directory.antt =====
-- Runs of the users and the identities in memory.
use codex_go_web_api.Prelude.{
  ◌≡◌, refl, false, List, [], ◌∷◌, arith, codes, trim_space, to_lower, text_beq, lookup, insert,
  inc64,
}
use codex_go_web_api.Prelude.Outcome.{ok}
use codex_go_web_api.User.{CreateUserRequest, create, find_by_id}
use codex_go_web_api.Auth.{Identity, NewIdentity, user}
use codex_go_web_api.App.Identities.{create_identity, find_identity_by_email, find_identity_by_id}
use codex_go_web_api.App.Identities.Agreement.{Call, add_user, add_identity, run, user_of}
use codex_go_web_api.App.Identities.Users.{history, run-find}

abbrev ada : CreateUserRequest
ada = record { name = codes "Ada"; email = codes "ada@x" }

abbrev new_bob : NewIdentity
new_bob = record {
  name = codes "Bob";
  email = codes " Bob@x";
  password_hash = codes "h";
  role = user;
}

abbrev bob : Identity
bob = record {
  id = 2;
  name = codes "Bob";
  email = codes "bob@x";
  password_hash = codes "h";
  role = user;
  auth_version = 1;
  created_at = 5;
}

-- The second identity has a taken e-mail address.
abbrev calls : List Call
calls = add_user false ada 4 ∷ add_identity false new_bob 5 ∷ add_identity false new_bob 6 ∷ []

bob-found : find_identity_by_email (λ c. c) (codes "BOB@x ") (history (λ c. c) calls) ≡ ok bob
unfolding run create create_identity find_identity_by_email lookup insert inc64 trim_space to_lower
    text_beq
bob-found = refl

run-find_example :
    (find_identity_by_id 2 (history (λ c. c) calls) ≡ ok bob)
    × (find_by_id false 2 (history (λ c. c) calls).users ≡ ok (user_of bob))
run-find_example = run-find (λ c. c) calls (codes "BOB@x ") bob (omega arith) bob-found
