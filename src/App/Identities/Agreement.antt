-- ===== src/App/Identities/Agreement.antt =====
-- The identities and the users agree, after each creation.
use mathlib.Core.Option.{some-injective}
use codex_go_web_api.Prelude.{
  ℕ, ◌+◌, ◌<◌, ◌≡◌, refl, sym, ap, ◌∙◌, inl, inr, Bool, true, false, some, List, [], ◌∷◌, arith,
  length, nat_eq, text_eq, ◌==◌, if◌then◌else◌, Bool-cases, Option-cases, nat_beq_iff, Text, lookup,
  lookup-insert, insert, to_lower, two_63, ==_refl, subst,
}
use codex_go_web_api.Prelude.Outcome.{Result, ok, err, ok-injective, Result-cases}
use codex_go_web_api.User.{
  User, CreateUserRequest, new_memory_repository, normalized, new_user, add, create, find_by_id,
}
use codex_go_web_api.User
use codex_go_web_api.User.Emails.{IsValid, new-IsValid, create-IsValid, create-next_id}
use codex_go_web_api.Auth.{Identity, NewIdentity}
use codex_go_web_api.App.Identities.{
  MemoryIdentityRepository, new_memory_identity_repository, user_request, identity_of, add_item,
  create_identity,
}

pub data Call : Type 0 where
  add_user : Bool → CreateUserRequest → ℕ → Call
  add_identity : Bool → NewIdentity → ℕ → Call

abbrev step : (ℕ → ℕ) → Call → MemoryIdentityRepository → MemoryIdentityRepository
step wide (add_user done input now) r = record r { users = (create wide done input now r.users).0 }
step wide (add_identity done input now) r = (create_identity wide done input now r).0

unfoldable pub run : (ℕ → ℕ) → List Call → MemoryIdentityRepository → MemoryIdentityRepository
run wide [] r = r
run wide (call ∷ calls) r = run wide calls (step wide call r)

-- The user that an identity stands for.
abbrev pub user_of : Identity → User
user_of i = record { id = i.id; name = i.name; email = i.email; created_at = i.created_at }

-- Every stored identity is under its ID and has its user, and every email leads to one.
pub record Agrees (r : MemoryIdentityRepository) : Type 0 where
  pub valid : IsValid r.users
  pub known :
      (id : ℕ) (i : Identity)
      → lookup id r.items ≡ some i
      → (i.id ≡ id) × (lookup id r.users.users ≡ some (user_of i))
  pub led :
      (email : Text) (id : ℕ)
      → lookup email r.by_email ≡ some id
      → (i : Identity) × (lookup id r.items ≡ some i)

-- A new user takes no old one's place.
create-old :
    (wide : ℕ → ℕ) (done : Bool) (input : CreateUserRequest) (now id : ℕ) (u : User)
    (r : User.MemoryRepository)
    → IsValid r
    → lookup id r.users ≡ some u
    → lookup id (create wide done input now r).0.users ≡ some u
unfolding create
create-old wide true input now id u r v at = at
create-old wide false input now id u r v at =
    elim (Option-cases (lookup (normalized wide input.email) r.by_email)) [
      | inl free ↦
          rw (free, create)
            (lookup-insert r.next_id id (new_user wide r.next_id input now) r.users
              ∙ ground (arith, (v id u at).1, at, nat_beq_iff r.next_id id))
      | inr (other, taken) ↦ rw (taken, create) at
    ]

create-found :
    (wide : ℕ → ℕ) (done : Bool) (input : CreateUserRequest) (now : ℕ) (u : User)
    (r : User.MemoryRepository)
    → (create wide done input now r).1 ≡ ok u
    → lookup u.id (create wide done input now r).0.users ≡ some u
unfolding create
create-found wide true input now u r e = cc
create-found wide false input now u r e =
    elim (Option-cases (lookup (normalized wide input.email) r.by_email)) [
      | inl free ↦
          let item = new_user wide r.next_id input now in
          let is_new : item ≡ u = ok-injective item u (rw (free, create) at e) in
          rw (free, create)
            (subst (λ w. lookup w.id (insert r.next_id item r.users) ≡ some w) is_new
              (lookup-insert r.next_id r.next_id item r.users ∙ rw (==_refl r.next_id) refl))
      | inr (other, taken) ↦
          let clash : ◌≡◌ {A = Result User.RepoError User} (err User.RepoError.email_taken) (ok u) =
            rw (taken, create) at e in
          cc
    ]

insert-found :
    (m : List (ℕ × Identity)) (id key : ℕ) (v w : Identity)
    → lookup key m ≡ some w
    → (x : Identity) × (lookup key (insert id v m) ≡ some x)
insert-found m id key v w at = elim (Bool-cases (id == key)) [
  | inl same ↦ (v, lookup-insert id key v m ∙ rw same refl)
  | inr other ↦ (w, lookup-insert id key v m ∙ rw other at)
]

added-Agrees :
    (wide : ℕ → ℕ) (item : Identity) (users : User.MemoryRepository) (r : MemoryIdentityRepository)
    → IsValid users
    → lookup item.id users.users ≡ some (user_of item)
    → ((id : ℕ) (u : User) → lookup id r.users.users ≡ some u → lookup id users.users ≡ some u)
    → Agrees r
    → Agrees (add_item wide item users r)
added-Agrees wide item users r v found old a = record {
  valid = v;
  known = λ id i h.
      let stored : (if item.id == id then some item else lookup id r.items) ≡ some i =
        sym (lookup-insert item.id id item r.items) ∙ h in
      elim (Bool-cases (item.id == id)) [
        | inl same ↦
            let is_new : item ≡ i = some-injective _ _ (rw same at stored) in
            let is_id : item.id ≡ id = (nat_beq_iff item.id id).0 same in
            (
              sym (ap (λ x. x.id) is_new) ∙ is_id,
              subst (λ k. lookup k users.users ≡ some (user_of i)) is_id
                  (found ∙ ap (λ x. some (user_of x)) is_new),
            )
        | inr other ↦
            let before = a.known id i (rw other at stored) in
            (before.0, old id (user_of i) before.1)
      ];
  led = λ email id h.
      let key = to_lower wide item.email in
      let leads : (if key == email then some item.id else lookup email r.by_email) ≡ some id =
        sym (lookup-insert key email item.id r.by_email) ∙ h in
      elim (Bool-cases (key == email)) [
        | inl same ↦
            let is_id : item.id ≡ id = some-injective _ _ (rw same at leads) in
            (
              item,
              lookup-insert item.id id item r.items ∙ rw ((nat_beq_iff item.id id).1 is_id) refl,
            )
        | inr other ↦
            let (i, at) = a.led email id (rw other at leads) in
            insert-found r.items item.id id item i at
      ];
}

create_identity-ok :
    (wide : ℕ → ℕ) (done : Bool) (input : NewIdentity) (now : ℕ) (u : User)
    (r : MemoryIdentityRepository)
    → (create wide done (user_request input) now r.users).1 ≡ ok u
    → (create_identity wide done input now r).0
      ≡ add_item wide (identity_of input u) (create wide done (user_request input) now r.users).0 r
unfolding create_identity
create_identity-ok wide done input now u r e = rw (e, create_identity) refl

create_identity-err :
    (wide : ℕ → ℕ) (done : Bool) (input : NewIdentity) (now : ℕ) (x : User.RepoError)
    (r : MemoryIdentityRepository)
    → (create wide done (user_request input) now r.users).1 ≡ err x
    → (create_identity wide done input now r).0
      ≡ record r { users = (create wide done (user_request input) now r.users).0 }
unfolding create_identity
create_identity-err wide done input now x r e = rw (e, create_identity) refl

user-Agrees :
    (wide : ℕ → ℕ) (done : Bool) (input : CreateUserRequest) (now : ℕ)
    (r : MemoryIdentityRepository)
    → r.users.next_id + 1 < two_63
    → Agrees r
    → Agrees (step wide (add_user done input now) r)
user-Agrees wide done input now r room a = record {
  valid = create-IsValid wide done input now r.users room a.valid;
  known = λ id i h. (
    (a.known id i h).0,
    create-old wide done input now id (user_of i) r.users a.valid (a.known id i h).1,
  );
  led = a.led;
}

step-Agrees :
    (wide : ℕ → ℕ) (call : Call) (r : MemoryIdentityRepository)
    → r.users.next_id + 1 < two_63
    → Agrees r
    → Agrees (step wide call r)
step-Agrees wide (add_user done input now) r room a = user-Agrees wide done input now r room a
step-Agrees wide (add_identity done input now) r room a =
    let made = create wide done (user_request input) now r.users in
    elim (Result-cases made.1) [
      | inl (u, e) ↦ subst Agrees (sym (create_identity-ok wide done input now u r e)) (
          added-Agrees wide (identity_of input u) made.0 r
            (create-IsValid wide done (user_request input) now r.users room a.valid)
            (create-found wide done (user_request input) now u r.users e)
            (λ id w at. create-old wide done (user_request input) now id w r.users a.valid at) a)
      | inr (x, e) ↦
          subst Agrees (sym (create_identity-err wide done input now x r e))
            (user-Agrees wide done (user_request input) now r room a)
    ]

step-next_id :
    (wide : ℕ → ℕ) (call : Call) (r : MemoryIdentityRepository)
    → r.users.next_id + 1 < two_63
    → (step wide call r).users.next_id < r.users.next_id + 2
step-next_id wide (add_user done input now) r room = create-next_id wide done input now r.users room
step-next_id wide (add_identity done input now) r room =
    let made = create wide done (user_request input) now r.users in
    let bound = create-next_id wide done (user_request input) now r.users room in
    elim (Result-cases made.1) [
      | inl (u, e) ↦
          subst (λ q. q.users.next_id < r.users.next_id + 2)
            (sym (create_identity-ok wide done input now u r e)) bound
      | inr (x, e) ↦
          subst (λ q. q.users.next_id < r.users.next_id + 2)
            (sym (create_identity-err wide done input now x r e)) bound
    ]

pub run-Agrees :
    (wide : ℕ → ℕ) (calls : List Call) (r : MemoryIdentityRepository)
    → r.users.next_id + length calls < two_63
    → Agrees r
    → Agrees (run wide calls r)
unfolding run
run-Agrees wide [] r room a = a
run-Agrees wide (call ∷ calls) r room a =
    run-Agrees wide calls (step wide call r)
      (omega (arith, step-next_id wide call r (omega (arith, room)), room))
      (step-Agrees wide call r (omega (arith, room)) a)

pub new-Agrees : Agrees (new_memory_identity_repository new_memory_repository)
unfolding lookup
new-Agrees = record { valid = new-IsValid; known = λ id i h. cc; led = λ email id h. cc }
