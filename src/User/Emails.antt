-- ===== src/User/Emails.antt =====
-- A stored user's email leads to it, and no other user takes that email.
use mathlib.Core.Option.{some-injective}
use codex_go_web_api.Prelude.{
  ℕ, ◌+◌, ◌<◌, ◌≡◌, sym, ap, ◌∙◌, inl, inr, Bool, true, false, none, some, List, [], ◌∷◌, arith,
  nat_eq, text_eq, ◌==◌, if◌then◌else◌, Bool-cases, Option-cases, nat_beq_iff, text_beq_iff, Text,
  lookup, lookup-insert, inc64_lem, two_63, to_lower, trim_space, subst, ==_refl, refl,
}
use codex_go_web_api.Prelude.Outcome.{Result, ok, err}
use codex_go_web_api.User.{
  User, RepoError, email_taken, CreateUserRequest, MemoryRepository, new_memory_repository,
  normalized, new_user, add, create,
}

-- A stored user has an ID that was handed out, and its email leads to it.
abbrev pub IsValid : MemoryRepository → Type 0
IsValid r =
    (id : ℕ) (u : User)
    → lookup id r.users ≡ some u
    → (lookup u.email r.by_email ≡ some id) × (id < r.next_id)

pub new-IsValid : IsValid new_memory_repository
unfolding lookup
new-IsValid id u h = cc

other_email :
    (email old : Text) (id other : ℕ) (m : List (Text × ℕ))
    → lookup email m ≡ none
    → lookup old m ≡ some other
    → (if email == old then some id else lookup old m) ≡ some other
other_email email old id other m free led = elim (Bool-cases (email == old)) [
  | inl same ↦
      let clash : none ≡ some other =
        sym free ∙ ap (λ k. lookup k m) ((text_beq_iff email old).0 same) ∙ led in
      cc
  | inr different ↦ rw different led
]

add-IsValid :
    (wide : ℕ → ℕ) (input : CreateUserRequest) (now : ℕ) (r : MemoryRepository)
    → r.next_id + 1 < two_63
    → lookup (normalized wide input.email) r.by_email ≡ none
    → IsValid r
    → IsValid (add (new_user wide r.next_id input now) r)
add-IsValid wide input now r room free v id u h =
    let item = new_user wide r.next_id input now in
    let found : (if r.next_id == id then some item else lookup id r.users) ≡ some u =
      sym (lookup-insert r.next_id id item r.users) ∙ h in
    elim (Bool-cases (r.next_id == id)) [
      | inl same ↦
          let is_new : item ≡ u = some-injective _ _ (rw same at found) in
          (
            lookup-insert item.email u.email r.next_id r.by_email
                ∙ rw ((text_beq_iff item.email u.email).1 (ap (λ x. x.email) is_new))
                    (ap some ((nat_beq_iff r.next_id id).0 same)),
            ground (arith, inc64_lem r.next_id room, nat_beq_iff r.next_id id),
          )
      | inr different ↦
          let (led, below) = v id u (rw different at found) in
          (
            lookup-insert item.email u.email r.next_id r.by_email
                ∙ other_email item.email u.email r.next_id id r.by_email free led,
            ground (arith, inc64_lem r.next_id room),
          )
    ]

pub create-IsValid :
    (wide : ℕ → ℕ) (done : Bool) (input : CreateUserRequest) (now : ℕ) (r : MemoryRepository)
    → r.next_id + 1 < two_63
    → IsValid r
    → IsValid (create wide done input now r).0
unfolding create
create-IsValid wide true input now r room v = v
create-IsValid wide false input now r room v =
    elim (Option-cases (lookup (normalized wide input.email) r.by_email)) [
      | inl free ↦ rw (free, create) (add-IsValid wide input now r room free v)
      | inr (id, taken) ↦ rw (taken, create) v
    ]

pub create-next_id :
    (wide : ℕ → ℕ) (done : Bool) (input : CreateUserRequest) (now : ℕ) (r : MemoryRepository)
    → r.next_id + 1 < two_63
    → (create wide done input now r).0.next_id < r.next_id + 2
unfolding create
create-next_id wide done input now r room = ground (arith, inc64_lem r.next_id room)

-- A history of creations.
unfoldable pub run :
    (ℕ → ℕ) → List (Bool × CreateUserRequest × ℕ) → MemoryRepository → MemoryRepository
run wide [] r = r
run wide ((done, input, now) ∷ rest) r = run wide rest (create wide done input now r).0

-- An email address that a creation has taken stays taken.
abbrev Taken : Text → MemoryRepository → Type 0
Taken email r = (id : ℕ) × (lookup email r.by_email ≡ some id)

add-Taken : (email : Text) (u : User) (r : MemoryRepository) → Taken email r → Taken email (add u r)
add-Taken email u r (id, h) = elim (Bool-cases (u.email == email)) [
  | inl same ↦ (u.id, lookup-insert u.email email u.id r.by_email ∙ rw same refl)
  | inr other ↦ (id, lookup-insert u.email email u.id r.by_email ∙ rw other h)
]

create-Taken :
    (wide : ℕ → ℕ) (done : Bool) (input : CreateUserRequest) (now : ℕ) (email : Text)
    (r : MemoryRepository)
    → Taken email r
    → Taken email (create wide done input now r).0
unfolding create
create-Taken wide true input now email r h = h
create-Taken wide false input now email r h =
    elim (Option-cases (lookup (normalized wide input.email) r.by_email)) [
      | inl free ↦ rw (free, create) (add-Taken email (new_user wide r.next_id input now) r h)
      | inr (id, taken) ↦ rw (taken, create) h
    ]

run-Taken :
    (wide : ℕ → ℕ) (calls : List (Bool × CreateUserRequest × ℕ)) (email : Text)
    (r : MemoryRepository)
    → Taken email r
    → Taken email (run wide calls r)
unfolding run
run-Taken wide [] email r h = h
run-Taken wide ((done, input, now) ∷ rest) email r h =
    run-Taken wide rest email _ (create-Taken wide done input now email r h)

created-Taken :
    (wide : ℕ → ℕ) (input : CreateUserRequest) (now : ℕ) (r : MemoryRepository) (u : User)
    → (create wide false input now r).1 ≡ ok u
    → Taken (to_lower wide (trim_space input.email)) (create wide false input now r).0
unfolding create
created-Taken wide input now r u h =
    elim (Option-cases (lookup (normalized wide input.email) r.by_email)) [
      | inr (id, taken) ↦
          let clash : ◌≡◌ {A = Result RepoError User} (err email_taken) (ok u) =
            rw (taken, create) at h in
          cc
      | inl free ↦
          let email = normalized wide input.email in
          rw (free, create)
            (r.next_id, lookup-insert email email r.next_id r.by_email ∙ rw (==_refl email) refl)
    ]

create-refused :
    (wide : ℕ → ℕ) (input : CreateUserRequest) (now : ℕ) (r : MemoryRepository)
    → Taken (to_lower wide (trim_space input.email)) r
    → create wide false input now r ≡ (r, err email_taken)
unfolding create
create-refused wide input now r (id, h) = rw (h, create) refl

-- Once a creation has succeeded, then after any further creations, one whose context is not
-- done and whose email address is the same up to surrounding space and case is refused as taken and
-- changes nothing.
pub run-refused :
    (wide : ℕ → ℕ) (calls : List (Bool × CreateUserRequest × ℕ)) (input again : CreateUserRequest)
    (now later : ℕ) (r : MemoryRepository) (u : User)
    → (create wide false input now r).1 ≡ ok u
    → to_lower wide (trim_space again.email) ≡ to_lower wide (trim_space input.email)
    → let after = run wide calls (create wide false input now r).0 in
      create wide false again later after ≡ (after, err email_taken)
run-refused wide calls input again now later r u made same =
    create-refused wide again later (run wide calls (create wide false input now r).0) (
      subst (λ e. Taken e (run wide calls (create wide false input now r).0)) (sym same)
        (run-Taken wide calls _ _ (created-Taken wide input now r u made)))
