-- ===== src/Auth/Service.antt =====
-- user-order-api/internal/auth/service.go, over any repositories of identities and sessions, which share the state
-- `D`. The hash of a token, bcrypt and the signing of a token are parameters, and what is drawn at
-- random enters with each call.
pub mod Refreshing
use codex_go_web_api.Prelude.{
  ℕ, String, ◌+◌, Bool, true, false, not, ◌&&◌, ◌||◌, Option, none, some, List, [], ◌∷◌, ◌++◌, ltb,
  if◌then◌else◌, Text, codes, is_empty, trim_space, byte_len, contains,
}
use codex_go_web_api.Prelude.Outcome.{Result, ok, err}
use codex_go_web_api.Platform.Httpx.{
  AppError, bad_request, unauthorized_code, conflict_code, internal,
}
use codex_go_web_api.Auth.{
  Role, user, admin, Identity, NewIdentity, Session, NewSession, RepoError, email_taken,
  identity_not_found,
}
use codex_go_web_api.Auth.Store.{
  Events, Store, Claims, Crypto, Settings, Draw, AuthRecord, State, AuthResult, RegisterRequest,
  unauthenticated, invalid_credentials,
}

abbrev pub create_error : RepoError → AppError
create_error email_taken = conflict_code "EMAIL_ALREADY_EXISTS" "email already exists"
create_error _ = internal "failed to create user"

abbrev pub bad_length : Text → Bool
bad_length password = ltb (byte_len password) 12 || ltb 72 (byte_len password)

abbrev pub claims_of : Identity → Text → Claims
claims_of i session_id = record {
  user_id = i.id;
  role = i.role;
  session_id = session_id;
  auth_version = i.auth_version;
}

module _ {D : Type 0} (store : Store D) (crypto : Crypto) (settings : Settings) where
  abbrev pub drawn_session : ℕ → Text → Text → ℕ → NewSession
  drawn_session user_id session_id refresh now = record {
    id = session_id;
    user_id = user_id;
    token_hash = crypto.token_hash refresh;
    expires_at = now + settings.refresh_ttl;
  }

  -- `resultFromSession`
  unfoldable pub result_from_session : Identity → Text → Text → ℕ → Result AppError AuthResult
  result_from_session i session_id refresh now = elim (crypto.issue now (claims_of i session_id)) [
    | none ↦ err (internal "failed to issue access token")
    | some access ↦ ok (record { identity = i; access_token = access; refresh_token = refresh })
  ]

  abbrev session_or_error :
      Identity → Text → ℕ → D × Result RepoError Session → D × Result AppError AuthResult
  session_or_error i refresh now (db, err e) = (db, err (internal "failed to create session"))
  session_or_error i refresh now (db, ok session) =
      (db, result_from_session i session.id refresh now)

  -- `newSessionResult`
  unfoldable pub new_session_result : Draw → Identity → D → D × Result AppError AuthResult
  unfolding result_from_session
  new_session_result draw i db = elim draw.refresh_inside [
    | none ↦ (db, err (internal "failed to create refresh token"))
    | some refresh ↦ session_or_error i refresh draw.now (
        store.create_session db draw.done
          (drawn_session i.id draw.session_id_inside refresh draw.now) draw.later)
  ]

  -- `s.audit.Record`, unless the result is an error, the event is written or there is no logger.
  abbrev pub audited :
      String
      → Bool
      → ℕ
      → List AuthRecord
      → D × Result AppError AuthResult
      → State D × Result AppError AuthResult
  audited action persisted user_id audit (db, err e) = (record { db = db; audit = audit }, err e)
  audited action persisted user_id audit (db, ok result) = (
    record {
      db = db;
      audit =
          if not persisted && settings.has_audit
          then audit ++ record { action = action; user_id = user_id } ∷ []
          else audit;
    },
    ok result,
  )

  abbrev registered_with_event :
      Text
      → ℕ
      → List AuthRecord
      → D × Result RepoError (Identity × Session × Bool)
      → State D × Result AppError AuthResult
  registered_with_event refresh now audit (db, err e) =
      (record { db = db; audit = audit }, err (create_error e))
  registered_with_event refresh now audit (db, ok (i, session, persisted)) =
      audited "auth.registered" persisted i.id audit
        (db, result_from_session i session.id refresh now)

  abbrev registered_plain :
      Draw → List AuthRecord → D × Result RepoError Identity → State D × Result AppError AuthResult
  registered_plain draw audit (db, err e) =
      (record { db = db; audit = audit }, err (create_error e))
  registered_plain draw audit (db, ok i) =
      audited "auth.registered" false i.id audit (new_session_result draw i db)

  abbrev register_identity :
      Draw → NewIdentity → Text → State D → State D × Result AppError AuthResult
  register_identity draw input refresh s = elim store.events [
    | some events ↦ registered_with_event refresh draw.now s.audit (
        events.register_with_event s.db draw.done input
          (drawn_session 0 draw.session_id refresh draw.now))
    | none ↦ registered_plain draw s.audit (store.create_identity s.db draw.done input draw.later)
  ]

  unfoldable pub register : Draw → RegisterRequest → State D → State D × Result AppError AuthResult
  unfolding result_from_session new_session_result
  register draw input s =
      if is_empty (trim_space input.name) || not (contains b'@' input.email)
      then (s, err (bad_request "name and valid email are required"))
      else if bad_length input.password
      then (s, err (bad_request "password must be between 12 and 72 bytes"))
      else elim draw.hash [
        | none ↦ (s, err (internal "failed to hash password"))
        | some hash ↦ elim draw.refresh [
          | none ↦ (s, err (internal "failed to create refresh token"))
          | some refresh ↦
              register_identity draw
                (record {
                  name = input.name;
                  email = input.email;
                  password_hash = hash;
                  role = user;
                })
                refresh s
        ]
      ]

  abbrev logged_in_with_event :
      Identity
      → Text
      → ℕ
      → List AuthRecord
      → D × Result RepoError (Session × Bool)
      → State D × Result AppError AuthResult
  logged_in_with_event i refresh now audit (db, err e) =
      (record { db = db; audit = audit }, err (internal "failed to create session"))
  logged_in_with_event i refresh now audit (db, ok (session, persisted)) =
      audited "auth.logged_in" persisted i.id audit
        (db, result_from_session i session.id refresh now)

  abbrev open_session : Draw → Identity → State D → State D × Result AppError AuthResult
  open_session draw i s = elim draw.refresh [
    | none ↦ (s, err (internal "failed to create refresh token"))
    | some refresh ↦ elim store.events [
      | some events ↦ logged_in_with_event i refresh draw.now s.audit (
          events.create_session_with_event s.db draw.done
            (drawn_session i.id draw.session_id refresh draw.now))
      | none ↦ audited "auth.logged_in" false i.id s.audit (new_session_result draw i s.db)
    ]
  ]

  unfoldable pub login : Draw → Text → Text → State D → State D × Result AppError AuthResult
  unfolding result_from_session new_session_result
  login draw email password s = elim (store.find_identity_by_email s.db draw.done email) [
    | err e ↦ (s, err invalid_credentials)
    | ok i ↦
        if is_empty i.password_hash || not (crypto.compare i.password_hash password)
        then (s, err invalid_credentials)
        else open_session draw i s
  ]

  abbrev pub without_event : D × Result RepoError Session → D × Result RepoError (Session × Bool)
  without_event (db, err e) = (db, err e)
  without_event (db, ok session) = (db, ok (session, false))

  abbrev pub rotated :
      Identity
      → Text
      → ℕ
      → List AuthRecord
      → D × Result RepoError (Session × Bool)
      → State D × Result AppError AuthResult
  rotated i refresh now audit (db, err e) = (record { db = db; audit = audit }, err unauthenticated)
  rotated i refresh now audit (db, ok (session, persisted)) =
      audited "auth.refreshed" persisted i.id audit
        (db, result_from_session i session.id refresh now)

  abbrev pub rotate_session : Draw → Text → NewSession → D → D × Result RepoError (Session × Bool)
  rotate_session draw id replacement db = elim store.events [
    | some events ↦ events.rotate_with_event db draw.done id replacement
    | none ↦ without_event (store.rotate db draw.done id replacement draw.now draw.later)
  ]

  unfoldable pub refresh : Draw → Text → State D → State D × Result AppError AuthResult
  unfolding result_from_session
  refresh draw raw s =
      elim (store.find_active_by_token_hash s.db draw.done (crypto.token_hash raw) draw.now) [
        | err e ↦ (s, err unauthenticated)
        | ok session ↦ elim (store.find_identity_by_id s.db draw.done session.user_id) [
          | err e ↦ (s, err unauthenticated)
          | ok i ↦ elim draw.refresh [
            | none ↦ (s, err (internal "failed to create refresh token"))
            | some token ↦ rotated i token draw.now s.audit (
                rotate_session draw session.id (drawn_session i.id draw.session_id token draw.now)
                  s.db)
          ]
        ]
      ]

  abbrev logged_out_with_event :
      List AuthRecord → D × Result RepoError Bool → State D × Result AppError (Unit {0})
  logged_out_with_event audit (db, err e) = (record { db = db; audit = audit }, err unauthenticated)
  logged_out_with_event audit (db, ok b) = (record { db = db; audit = audit }, ok tt)

  abbrev pub logged_out :
      ℕ → List AuthRecord → D × Result RepoError (Unit {0}) → State D × Result AppError (Unit {0})
  logged_out user_id audit (db, err e) = (record { db = db; audit = audit }, err unauthenticated)
  logged_out user_id audit (db, ok _) = (
    record {
      db = db;
      audit =
          if settings.has_audit
          then audit ++ record { action = "auth.logged_out"; user_id = user_id } ∷ []
          else audit;
    },
    ok tt,
  )

  unfoldable pub logout : Draw → Text → State D → State D × Result AppError (Unit {0})
  logout draw raw s =
      elim (store.find_active_by_token_hash s.db draw.done (crypto.token_hash raw) draw.now) [
        | err e ↦ (s, err unauthenticated)
        | ok session ↦ elim store.events [
          | some events ↦
              logged_out_with_event s.audit
                (events.revoke_with_event s.db draw.done session.id draw.now)
          | none ↦
              logged_out session.user_id s.audit (store.revoke s.db draw.done session.id draw.now)
        ]
      ]

  unfoldable pub me : Bool → ℕ → State D → Result AppError Identity
  me done user_id s = elim (store.find_identity_by_id s.db done user_id) [
    | err e ↦ err unauthenticated
    | ok i ↦ ok i
  ]

  abbrev bootstrapped :
      List AuthRecord → D × Result RepoError Identity → State D × Result AppError Bool
  bootstrapped audit (db, ok i) = (record { db = db; audit = audit }, ok true)
  bootstrapped audit (db, err email_taken) = (record { db = db; audit = audit }, ok false)
  bootstrapped audit (db, err _) =
      (record { db = db; audit = audit }, err (internal "failed to create bootstrap admin"))

  abbrev create_admin : Draw → Text → State D → State D × Result AppError Bool
  create_admin draw email s = elim draw.hash [
    | none ↦ (s, err (internal "failed to hash bootstrap password"))
    | some hash ↦ bootstrapped s.audit (
        store.create_identity s.db draw.done
          (record {
            name = codes "Bootstrap Admin";
            email = email;
            password_hash = hash;
            role = admin;
          })
          draw.later)
  ]

  abbrev admin_unless :
      Draw → Text → State D → Result RepoError Identity → State D × Result AppError Bool
  admin_unless draw email s (ok i) = (s, ok false)
  admin_unless draw email s (err identity_not_found) = create_admin draw email s
  admin_unless draw email s (err _) = (s, err (internal "failed to find bootstrap admin"))

  unfoldable pub bootstrap_admin : Draw → Text → Text → State D → State D × Result AppError Bool
  bootstrap_admin draw email password s =
      if not (contains b'@' email) || bad_length password
      then (s, err (bad_request "bootstrap admin email and password are invalid"))
      else admin_unless draw email s (store.find_identity_by_email s.db draw.done email)
