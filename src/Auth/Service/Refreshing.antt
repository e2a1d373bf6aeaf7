-- ===== src/Auth/Service/Refreshing.antt =====
-- The service on the sessions in memory: a refresh token is good for one refresh.
use codex_go_web_api.Prelude.{
  ℕ, String, ◌≡◌, refl, ap, ◌∙◌, Bool, true, false, none, some, List, ◌∷◌, All, Text, text_eq,
  lookup,
}
use codex_go_web_api.Prelude.Outcome.{Result, ok, err}
use codex_go_web_api.Platform.Httpx.{AppError}
use codex_go_web_api.Auth.{Identity, NewIdentity, Session, RepoError}
use codex_go_web_api.Auth.Sessions.{MemoryRepository, is_active, rotate, find_active_by_token_hash}
use codex_go_web_api.Auth.Sessions
use codex_go_web_api.Auth.Sessions.Revoked.{Call, creates, Others, run, rotate-Refused}
use codex_go_web_api.Auth.Store.{
  Store, Crypto, Settings, Draw, State, AuthResult, unauthenticated, AuthRecord,
}
use codex_go_web_api.Auth.Service.{
  refresh, drawn_session, rotated, audited, result_from_session, without_event,
}

-- `IdentityRepository`
pub record Identities (I : Type 0) : Type 0 where
  pub create : I → Bool → NewIdentity → ℕ → I × Result RepoError Identity
  pub find_by_email : I → Bool → Text → Result RepoError Identity
  pub find_by_id : I → Bool → ℕ → Result RepoError Identity

module _ {I : Type 0} (identities : Identities I) where
  -- Identities of any kind beside the sessions in memory, as `NewMemory` composes them.
  unfoldable pub memory_store : Store (I × MemoryRepository)
  memory_store = record {
    create_identity = λ db done input now.
        let (i, result) = identities.create db.0 done input now in ((i, db.1), result);
    find_identity_by_email = λ db done email. identities.find_by_email db.0 done email;
    find_identity_by_id = λ db done id. identities.find_by_id db.0 done id;
    create_session = λ db done input now.
        let (r, result) = Sessions.create done input now db.1 in ((db.0, r), result);
    find_active_by_token_hash = λ db done hash now. find_active_by_token_hash done hash now db.1;
    find_active_by_id = λ db done id now. Sessions.find_active_by_id done id now db.1;
    rotate = λ db done id next now later.
        let (r, result) = rotate done id next now later db.1 in ((db.0, r), result);
    revoke =
        λ db done id now. let (r, result) = Sessions.revoke done id now db.1 in ((db.0, r), result);
    events = none;
  }

  -- What later calls make of the sessions.
  abbrev pub after_calls : List Call → State (I × MemoryRepository) → State (I × MemoryRepository)
  after_calls cs s = record { db = (s.db.0, run s.db.1 cs); audit = s.audit }

  module _ (crypto : Crypto) (settings : Settings) where
    audited-db :
        (action : String) (persisted : Bool) (user_id : ℕ) (audit : List AuthRecord)
        (db : I × MemoryRepository) (result : Result AppError AuthResult)
        → (audited memory_store crypto settings action persisted user_id audit (db, result)).0.db
          ≡ db
    audited-db action persisted user_id audit db (err e) = refl
    audited-db action persisted user_id audit db (ok result) = refl

    rotated-db :
        (i : Identity) (token : Text) (now : ℕ) (audit : List AuthRecord)
        (t : (I × MemoryRepository) × Result RepoError (Session × Bool))
        → (rotated memory_store crypto settings i token now audit t).0.db ≡ t.0
    rotated-db i token now audit (db, err e) = refl
    rotated-db i token now audit (db, ok (session, persisted)) =
        audited-db "auth.refreshed" persisted i.id audit db
          (result_from_session memory_store crypto settings i session.id token now)

    plain-db :
        (i : I) (t : MemoryRepository × Result RepoError Session)
        → (without_event memory_store crypto settings ((i, t.0), t.1)).0 ≡ (i, t.0)
    plain-db i (r, ok session) = refl
    plain-db i (r, err e) = refl

    -- A refresh whose session and identity are found leaves what the rotation leaves.
    refresh-found :
        (draw : Draw) (raw token : Text) (s : State (I × MemoryRepository)) (session : Session)
        (i : Identity)
        → find_active_by_token_hash draw.done (crypto.token_hash raw) draw.now s.db.1 ≡ ok session
        → identities.find_by_id s.db.0 draw.done session.user_id ≡ ok i
        → draw.refresh ≡ some token
        → (refresh memory_store crypto settings draw raw s).0.db ≡ (
          s.db.0,
          (rotate draw.done session.id
              (drawn_session memory_store crypto settings i.id draw.session_id token draw.now)
              draw.now
              draw.later
              s.db.1).0,
        )
    unfolding refresh memory_store
    refresh-found draw raw token s session i found known drawn =
        rw (found, refresh)
          (rw (known, refresh, memory_store)
            (rw (drawn, refresh) (rotated-db i token draw.now s.audit _ ∙ plain-db s.db.0 _)))

    refresh-unknown :
        (draw : Draw) (raw : Text) (s : State (I × MemoryRepository)) (e : RepoError)
        → find_active_by_token_hash draw.done (crypto.token_hash raw) draw.now s.db.1 ≡ err e
        → refresh memory_store crypto settings draw raw s ≡ (s, err unauthenticated)
    unfolding refresh memory_store
    refresh-unknown draw raw s e missing = rw (missing, refresh) refl

find-active :
    (session : Session) (hash : Text) (now : ℕ) (r : MemoryRepository)
    → lookup hash r.by_hash ≡ some session.id
    → lookup session.id r.sessions ≡ some session
    → is_active session now ≡ true
    → find_active_by_token_hash false hash now r ≡ ok session
unfolding find_active_by_token_hash
find-active session hash now r hashed stored on =
    rw (hashed, find_active_by_token_hash) (rw (stored, find_active_by_token_hash) (rw on refl))

-- With the sessions in memory: a refresh, its context not cancelled, has the token of a stored
-- and active session, whose hash leads to it, of an identity that is found, and draws a new
-- token. Whatever calls then change the sessions, if none of them and not the refresh draws the
-- session's ID or a token of the same hash again, another refresh with the old token is answered
-- with 401 and changes nothing.
pub refresh-single_use :
    {I : Type 0} (identities : Identities I) (crypto : Crypto) (settings : Settings)
    (draw again : Draw) (raw token : Text) (s : State (I × MemoryRepository)) (session : Session)
    (i : Identity) (cs : List Call)
    → draw.done ≡ false
    → again.done ≡ false
    → lookup (crypto.token_hash raw) s.db.1.by_hash ≡ some session.id
    → lookup session.id s.db.1.sessions ≡ some session
    → is_active session draw.now ≡ true
    → identities.find_by_id s.db.0 false session.user_id ≡ ok i
    → draw.refresh ≡ some token
    → All (Others session.id (crypto.token_hash raw)) (
        creates false
          (drawn_session
            (memory_store identities)
            crypto
            settings
            i.id
            draw.session_id
            token
            draw.now)
          draw.later
        ∷ cs)
    → let s' =
        after_calls identities cs
          (refresh (memory_store identities) crypto settings draw raw s).0 in
      refresh (memory_store identities) crypto settings again raw s' ≡ (s', err unauthenticated)
refresh-single_use identities crypto settings draw again raw token s session i cs live live' hashed
      stored on known drawn others =
    let new =
      drawn_session (memory_store identities) crypto settings i.id draw.session_id token draw.now in
    let found : find_active_by_token_hash draw.done (crypto.token_hash raw) draw.now s.db.1
        ≡ ok session =
      rw live (find-active session (crypto.token_hash raw) draw.now s.db.1 hashed stored on) in
    let left : (refresh (memory_store identities) crypto settings draw raw s).0.db.1
        ≡ (rotate false session.id new draw.now draw.later s.db.1).0 =
      ap (λ db. db.1)
        (refresh-found identities crypto settings draw raw token s session i found (rw live known)
          drawn)
      ∙ ap (λ b. (rotate b session.id new draw.now draw.later s.db.1).0) live in
    refresh-unknown identities crypto settings again raw _ RepoError.session_not_found (
      rw live' (
        ap (λ r. find_active_by_token_hash false (crypto.token_hash raw) again.now (run r cs)) left
        ∙ (rotate-Refused session.id (crypto.token_hash raw) session new new draw.now draw.later
            again.now again.later cs s.db.1 stored hashed on others).0))
