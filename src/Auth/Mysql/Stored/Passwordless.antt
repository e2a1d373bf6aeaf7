-- ===== src/Auth/Mysql/Stored/Passwordless.antt =====
-- What a user without a password means to the service of authentication.
use codex_go_web_api.Prelude.{ℕ, ◌≡◌, refl, ap, true, false, none, some, Text, contains}
use codex_go_web_api.Prelude.Outcome.{err}
use codex_go_web_api.Platform.Httpx.{internal}
use codex_go_web_api.Auth.{failed}
use codex_go_web_api.Auth.Store.{Crypto, Settings, Draw, State}
use codex_go_web_api.Auth.Service.{bad_length, bootstrap_admin}
use codex_go_web_api.Database.{Engine, Turn, works}
use codex_go_web_api.Database.Tables.{UserRow, Database, first}
use codex_go_web_api.Auth.Mysql.{normalized, scan_hash, find_identity_by_email}
use codex_go_web_api.Auth.Mysql.Stored.{Factories, mysql_store}

find-passwordless :
    (wide : ℕ → ℕ) (engine : Engine) (email : Text) (row : UserRow) (db : Database)
    → first (λ (other : UserRow). engine.collates other.email (normalized wide email)) db.users
      ≡ some row
    → row.password_hash ≡ none
    → find_identity_by_email wide engine works email db ≡ err failed
unfolding find_identity_by_email first
find-passwordless wide engine email row db found unset = rw found (ap (scan_hash row) unset)

module _ (wide : ℕ → ℕ) (engine : Engine) (turn : Turn) (factories : Factories) (crypto : Crypto)
    (settings : Settings) where
  -- If the bootstrap administrator's e-mail is that of a user without a password, the data are well
  -- formed and the query works on a context that is not done, the bootstrap over MySQL fails with an
  -- internal error and writes nothing: the user is not found to exist.
  pub bootstrap_admin-passwordless :
      (draw : Draw) (email password : Text) (row : UserRow) (s : State Database)
      → draw.done ≡ false
      → turn.fates 0 ≡ works
      → contains b'@' email ≡ true
      → bad_length password ≡ false
      → first (λ (other : UserRow). engine.collates other.email (normalized wide email)) s.db.users
        ≡ some row
      → row.password_hash ≡ none
      → bootstrap_admin
          (mysql_store wide engine turn factories)
          crypto
          settings
          draw
          email
          password
          s
        ≡ (s, err (internal "failed to find bootstrap admin"))
  unfolding bootstrap_admin
  bootstrap_admin-passwordless draw email password row s done fate at long found unset =
      rw (at, long, done, fate, find-passwordless wide engine email row s.db found unset) refl
