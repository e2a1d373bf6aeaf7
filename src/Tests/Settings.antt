-- ===== src/Tests/Settings.antt =====
-- Runs of the configuration, the tokens and the bootstrap over MySQL.
use codex_go_web_api.Prelude.{
  ℕ, String, ◌≡◌, refl, Bool, true, false, ◌&&◌, none, some, [], arith, text_eq, codes, text_beq,
  text_beq_iff, int_beq, int_beq_iff, nat_beq, ltb, Option, Text, if◌then◌else◌, pos, contains,
  to_lower, trim_space, byte_len,
}
use codex_go_web_api.Prelude.Outcome.{ok, err}
use codex_go_web_api.Platform.Httpx.{internal}
use codex_go_web_api.Platform.Principal.{Principal}
use codex_go_web_api.Prelude.Decimal.{format_int}
use codex_go_web_api.Config.{
  Parsers, read_port, read_duration, read_count, read_environment, read_bool, read_items, all_pass,
  split_csv, split_comma, read_rate,
}
use codex_go_web_api.Config.Stages.{
  ServerConfig, config_of, load_timeouts, load_lifetimes, load_work, load_rates, checked,
  load_config,
}
use codex_go_web_api.Config.Usable.{IsUsable, load_config-IsUsable}
use codex_go_web_api.Auth.Tokens.{
  Method, hs256, other_method, AccessClaims, Jwt, TokenManager, issue, parse,
}
use codex_go_web_api.Auth.Tokens.Roundtrip.{Accepts, parse-issue}
use codex_go_web_api.Auth.Store.{Crypto, Settings, Draw, State}
use codex_go_web_api.Auth.Service.{bootstrap_admin}
use codex_go_web_api.Database.Tables.{Database, first}
use codex_go_web_api.Auth.Mysql.Stored.{Factories, mysql_store}
use codex_go_web_api.Auth.Mysql.Stored.Passwordless.{bootstrap_admin-passwordless}
use codex_go_web_api.Tests.Stored.{wide, engine, turn, owner, one_user, event}

abbrev settings : Settings
settings = record { refresh_ttl = 100; has_audit = true }

abbrev crypto : Crypto
crypto = record { token_hash = λ t. t; compare = text_beq; issue = λ now c. some (codes "access") }

abbrev draw : Draw
draw = record {
  done = false;
  now = 5;
  later = 6;
  refresh = some (codes "r");
  session_id = codes "s";
  refresh_inside = some (codes "r2");
  session_id_inside = codes "s2";
  hash = some (codes "h");
}

abbrev factories : Factories
factories = record {
  registered = λ i s. ok event;
  logged_in = λ s. ok event;
  refreshed = λ s. ok event;
  logged_out = λ s. ok event;
}

abbrev stored : State Database
stored = record { db = one_user; audit = [] }

bootstrap_admin-passwordless_example :
    bootstrap_admin
      (mysql_store wide engine turn factories)
      crypto
      settings
      draw
      (codes "ann@x")
      (codes "a long password")
      stored
    ≡ (stored, err (internal "failed to find bootstrap admin"))
unfolding contains first text_beq to_lower trim_space byte_len
bootstrap_admin-passwordless_example =
    bootstrap_admin-passwordless wide engine turn factories crypto settings draw (codes "ann@x")
      (codes "a long password") owner stored refl refl refl refl refl refl

abbrev manager : TokenManager
manager = record { signing_key = codes "key"; issuer = codes "api"; ttl = 900 }

abbrev claims : AccessClaims
claims = record {
  role = codes "user";
  session_id = codes "s1";
  auth_version = pos 1;
  issuer = codes "api";
  subject = codes "7";
  issued_at = 5;
  expires_at = 905;
}

abbrev same : AccessClaims → Bool
same c =
    text_beq c.role claims.role
    && text_beq c.session_id claims.session_id
    && int_beq c.auth_version claims.auth_version
    && text_beq c.issuer claims.issuer
    && text_beq c.subject claims.subject
    && nat_beq c.issued_at claims.issued_at
    && nat_beq c.expires_at claims.expires_at

same→eq : (c : AccessClaims) → same c ≡ true → claims ≡ c
same→eq c h = ground (
  arith,
  text_beq_iff c.role claims.role,
  text_beq_iff c.session_id claims.session_id,
  int_beq_iff c.auth_version claims.auth_version,
  text_beq_iff c.issuer claims.issuer,
  text_beq_iff c.subject claims.subject,
)

abbrev signed : Method → Text → AccessClaims → Option Text
signed hs256 key c =
    if text_beq key manager.signing_key && same c then some (codes "token") else none
signed other_method key c = none

abbrev opened : ℕ → Option Text → Option AccessClaims
opened now none = none
opened now (some key) =
    if text_beq key manager.signing_key && ltb now 905 then some claims else none

-- A library that signs these claims alone.
abbrev jwt : Jwt
jwt = record {
  numeric_date = λ t. t;
  signed = signed;
  parse_with_claims = λ keys issuer now raw. opened now (keys hs256);
}

jwt-Accepts : Accepts jwt
jwt-Accepts hs256 key raw c keys now s k fresh = ground (arith, same→eq c, k, s)
jwt-Accepts other_method key raw c keys now s k fresh = cc

abbrev ann : Principal
ann = record { user_id = pos 7; role = codes "user"; session_id = codes "s1"; auth_version = pos 1 }

parse-issue_example : parse jwt manager 100 (codes "token") ≡ some ann
unfolding issue format_int text_beq
parse-issue_example =
    parse-issue jwt manager 7 5 100 (codes "user") (codes "s1") (codes "token") (pos 1) jwt-Accepts
      refl (omega arith) refl refl (omega arith) refl

abbrev parsers : Parsers
parsers = record {
  parse_duration = λ s. none;
  parse_bool = λ s. none;
  parse_prefix = λ s. false;
  parse_request_uri = λ s. none;
}

abbrev getenv : String → Text
getenv name =
    if text_beq (codes name) (codes "MYSQL_DSN")
    then codes "dsn"
    else if text_beq (codes name) (codes "JWT_SIGNING_KEY")
    then codes "0123456789abcdef0123456789abcdef"
    else []

abbrev config : ServerConfig
config =
    config_of parsers getenv 8888
      (record {
        read_header = 5_000_000_000;
        read = 15_000_000_000;
        write = 15_000_000_000;
        idle = 60_000_000_000;
        shutdown = 10_000_000_000;
      })
      (record { access_token = 900_000_000_000; refresh_token = 604_800_000_000_000 })
      (record {
        poll_interval = 1_000_000_000;
        batch_size = 100;
        max_attempts = 10;
        prefetch = 20;
        max_retries = 5;
      })
      (codes "local") false true [] [] (record { login = 5; refresh = 20; api = 120 })

load_config-IsUsable_example : IsUsable parsers config
unfolding load_config read_port trim_space text_beq load_timeouts read_duration load_lifetimes
    load_work read_count read_environment read_bool read_items all_pass split_csv split_comma
    load_rates read_rate checked byte_len
load_config-IsUsable_example = load_config-IsUsable parsers getenv config refl
