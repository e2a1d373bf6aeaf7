-- ===== src/Auth/Sessions/Revoked.antt =====
-- A session that was revoked, by a logout or by the rotation of its token, is of no more use.
use codex_go_web_api.Prelude.{
  ℕ, ◌≡◌, refl, ◌∙◌, inl, inr, Bool, true, false, none, some, List, [], ◌∷◌, is_some, Bool-cases,
  Option-cases, All, Text, text_eq, lookup, insert, lookup-insert, ◌==◌, ==_refl,
}
use codex_go_web_api.Prelude.Outcome.{err}
use codex_go_web_api.Auth.{Session, NewSession, RepoError}
use codex_go_web_api.Auth.Sessions.{
  MemoryRepository, new_session, add, create, is_active, find_active_by_id,
  find_active_by_token_hash, revoked, rotate, revoke,
}

-- The calls that change the repository.
pub data Call : Type 0 where
  creates : Bool → NewSession → ℕ → Call
  rotates : Bool → Text → NewSession → ℕ → ℕ → Call
  revokes : Bool → Text → ℕ → Call

unfoldable pub step : MemoryRepository → Call → MemoryRepository
step r (creates done input now) = (create done input now r).0
step r (rotates done id replacement now later) = (rotate done id replacement now later r).0
step r (revokes done id now) = (revoke done id now r).0

unfoldable pub run : MemoryRepository → List Call → MemoryRepository
unfolding step
run r [] = r
run r (c ∷ cs) = run (step r c) cs

-- The call gives a new session neither this ID nor this hash, as IDs and tokens are drawn at random.
abbrev OtherNames : Text → Text → NewSession → Type 0
OtherNames id hash input = ((input.id == id) ≡ false) × ((input.token_hash == hash) ≡ false)

abbrev pub Others : Text → Text → Call → Type 0
Others id hash (creates done input now) = OtherNames id hash input
Others id hash (rotates done old replacement now later) = OtherNames id hash replacement
Others id hash (revokes done old now) = Unit {0}

-- The session is there, is revoked, and the hash leads to it.
pub record IsRevoked (id hash : Text) (r : MemoryRepository) : Type 0 where
  pub item : Session
  pub stored : lookup id r.sessions ≡ some item
  pub ended : is_some item.revoked_at ≡ true
  pub hashed : lookup hash r.by_hash ≡ some id

add-IsRevoked :
    (id hash : Text) (input : NewSession) (now : ℕ) (r : MemoryRepository)
    → OtherNames id hash input
    → IsRevoked id hash r
    → IsRevoked id hash (add (new_session input now) r)
add-IsRevoked id hash input now r other v = record {
  item = v.item;
  stored = lookup-insert input.id id _ r.sessions ∙ rw (other.0) v.stored;
  ended = v.ended;
  hashed = lookup-insert input.token_hash hash _ r.by_hash ∙ rw (other.1) v.hashed;
}

create-IsRevoked :
    (id hash : Text) (done : Bool) (input : NewSession) (now : ℕ) (r : MemoryRepository)
    → OtherNames id hash input
    → IsRevoked id hash r
    → IsRevoked id hash (create done input now r).0
unfolding create
create-IsRevoked id hash true input now r other v = v
create-IsRevoked id hash false input now r other v = add-IsRevoked id hash input now r other v

-- Revoking any session keeps this one revoked.
insert-IsRevoked :
    (id hash old : Text) (item : Session) (now : ℕ) (r : MemoryRepository)
    → IsRevoked id hash r
    → IsRevoked id hash (record r { sessions = insert old (revoked item now) r.sessions })
insert-IsRevoked id hash old item now r v = elim (Bool-cases (old == id)) [
  | inl same ↦ record {
    item = revoked item now;
    stored = lookup-insert old id (revoked item now) r.sessions ∙ rw same refl;
    ended = refl;
    hashed = v.hashed;
  }
  | inr different ↦ record {
    item = v.item;
    stored = lookup-insert old id (revoked item now) r.sessions ∙ rw different v.stored;
    ended = v.ended;
    hashed = v.hashed;
  }
]

rotate-IsRevoked :
    (id hash : Text) (done : Bool) (old : Text) (replacement : NewSession) (now later : ℕ)
    (r : MemoryRepository)
    → OtherNames id hash replacement
    → IsRevoked id hash r
    → IsRevoked id hash (rotate done old replacement now later r).0
unfolding rotate
rotate-IsRevoked id hash true old replacement now later r other v = v
rotate-IsRevoked id hash false old replacement now later r other v =
    elim (Option-cases (lookup old r.sessions)) [
      | inl e ↦ rw (e, rotate) v
      | inr (item, e) ↦ elim (Bool-cases (is_active item now)) [
        | inl on ↦
            rw (e, rotate)
              (rw on (
                add-IsRevoked id hash replacement later _ other
                  (insert-IsRevoked id hash old item later r v)))
        | inr off ↦ rw (e, rotate) (rw off v)
      ]
    ]

revoke-IsRevoked :
    (id hash : Text) (done : Bool) (old : Text) (now : ℕ) (r : MemoryRepository)
    → IsRevoked id hash r
    → IsRevoked id hash (revoke done old now r).0
unfolding revoke
revoke-IsRevoked id hash true old now r v = v
revoke-IsRevoked id hash false old now r v = elim (Option-cases (lookup old r.sessions)) [
  | inl e ↦ rw (e, revoke) v
  | inr (item, e) ↦ elim (Bool-cases (is_some item.revoked_at)) [
    | inl off ↦ rw (e, revoke) (rw off v)
    | inr on ↦ rw (e, revoke) (rw on (insert-IsRevoked id hash old item now r v))
  ]
]

pub run-IsRevoked :
    (id hash : Text) (cs : List Call) (r : MemoryRepository)
    → All (Others id hash) cs
    → IsRevoked id hash r
    → IsRevoked id hash (run r cs)
unfolding run
run-IsRevoked id hash [] r others v = v
run-IsRevoked id hash (creates done input now ∷ cs) r others v =
    run-IsRevoked id hash cs _ others.1 (create-IsRevoked id hash done input now r others.0 v)
run-IsRevoked id hash (rotates done old replacement now later ∷ cs) r others v =
    run-IsRevoked id hash cs _ others.1
      (rotate-IsRevoked id hash done old replacement now later r others.0 v)
run-IsRevoked id hash (revokes done old now ∷ cs) r others v =
    run-IsRevoked id hash cs _ others.1 (revoke-IsRevoked id hash done old now r v)

-- The repository answers as for a session that does not exist.
abbrev pub Refused : Text → Text → ℕ → ℕ → NewSession → MemoryRepository → Type 0
Refused id hash now later next r =
    (find_active_by_token_hash false hash now r ≡ err RepoError.session_not_found)
    × (find_active_by_id false id now r ≡ err RepoError.session_not_found)
    × (rotate false id next now later r ≡ (r, err RepoError.session_not_found))
    × (revoke false id now r ≡ (r, err RepoError.session_not_found))

not_active :
    (item : Session) (now : ℕ) → is_some item.revoked_at ≡ true → is_active item now ≡ false
not_active item now e = rw e refl

pub IsRevoked-Refused :
    (id hash : Text) (now later : ℕ) (next : NewSession) (r : MemoryRepository)
    → IsRevoked id hash r
    → Refused id hash now later next r
unfolding find_active_by_token_hash find_active_by_id rotate revoke
IsRevoked-Refused id hash now later next r v =
    let off = not_active v.item now v.ended in
    (
      rw (v.hashed, find_active_by_token_hash)
          (rw (v.stored, find_active_by_token_hash) (rw off refl)),
      rw (v.stored, find_active_by_id) (rw off refl),
      rw (v.stored, rotate) (rw off refl),
      rw (v.stored, revoke) (rw v.ended refl),
    )

-- The rotation of an active session revokes it.
pub rotate-IsRevoked_lem :
    (id hash : Text) (item : Session) (replacement : NewSession) (now later : ℕ)
    (r : MemoryRepository)
    → lookup id r.sessions ≡ some item
    → lookup hash r.by_hash ≡ some id
    → is_active item now ≡ true
    → Others id hash (creates false replacement later)
    → IsRevoked id hash (rotate false id replacement now later r).0
unfolding rotate
rotate-IsRevoked_lem id hash item replacement now later r stored hashed on other =
    rw (stored, rotate)
      (rw on (
        add-IsRevoked id hash replacement later _ other (record {
          item = revoked item later;
          stored = lookup-insert id id (revoked item later) r.sessions ∙ rw (==_refl id) refl;
          ended = refl;
          hashed = hashed;
        })))

-- A stored and active session, to which a token's hash leads, is rotated, and then any calls
-- come. If neither the rotation nor a later call draws its ID or a token of that hash again, then
-- at no later time does the hash or the ID find a session, and the session is neither rotated nor
-- revoked again.
pub rotate-Refused :
    (id hash : Text) (item : Session) (replacement next : NewSession) (now later at until : ℕ)
    (cs : List Call) (r : MemoryRepository)
    → lookup id r.sessions ≡ some item
    → lookup hash r.by_hash ≡ some id
    → is_active item now ≡ true
    → All (Others id hash) (creates false replacement later ∷ cs)
    → Refused id hash at until next (run (rotate false id replacement now later r).0 cs)
rotate-Refused id hash item replacement next now later at until cs r stored hashed on others =
    IsRevoked-Refused id hash at until next _ (
      run-IsRevoked id hash cs _ others.1
        (rotate-IsRevoked_lem id hash item replacement now later r stored hashed on others.0))

-- A stored session that is not revoked, to which a token's hash leads, is revoked, and then any
-- calls come. If none of them draws its ID or a token of that hash again, then at no later time
-- does the hash or the ID find a session, and the session is neither rotated nor revoked again.
pub revoke-Refused :
    (id hash : Text) (item : Session) (next : NewSession) (now at until : ℕ) (cs : List Call)
    (r : MemoryRepository)
    → lookup id r.sessions ≡ some item
    → lookup hash r.by_hash ≡ some id
    → item.revoked_at ≡ none
    → All (Others id hash) cs
    → Refused id hash at until next (run (revoke false id now r).0 cs)
unfolding revoke
revoke-Refused id hash item next now at until cs r stored hashed on others =
    IsRevoked-Refused id hash at until next _ (
      run-IsRevoked id hash cs _ others (
        rw (stored, revoke)
          (rw on (record {
            item = revoked item now;
            stored = lookup-insert id id (revoked item now) r.sessions ∙ rw (==_refl id) refl;
            ended = refl;
            hashed = hashed;
          }))))
