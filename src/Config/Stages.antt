-- ===== src/Config/Stages.antt =====
-- user-order-api/cmd/api/config.go: the reading of all variables, in the order of loadConfig.
use codex_go_web_api.Prelude.{
  ℕ, String, Bool, true, false, not, List, ◌*◌, ltb, Text, codes, is_empty, trim_space, byte_len,
}
use codex_go_web_api.Prelude.Outcome.{Result, ok, err, ◌>>=◌, ◌>>◌}
use codex_go_web_api.Config.{
  Parsers, ConfigError, is_required, admin_incomplete, key_too_short, invalid_origin, invalid_cidr,
  read_port, read_duration, read_count, read_rate, read_bool, read_environment, read_items, text_or,
  valid_origin,
}

pub record Timeouts : Type 0 where
  pub read_header : ℕ
  pub read : ℕ
  pub write : ℕ
  pub idle : ℕ
  pub shutdown : ℕ

pub record Lifetimes : Type 0 where
  pub access_token : ℕ
  pub refresh_token : ℕ

pub record Work : Type 0 where
  pub poll_interval : ℕ
  pub batch_size : ℕ
  pub max_attempts : ℕ
  pub prefetch : ℕ
  pub max_retries : ℕ

pub record Rates : Type 0 where
  pub login : ℕ
  pub refresh : ℕ
  pub api : ℕ

-- `serverConfig`, with the fields of each loop in a record of their own.
pub record ServerConfig : Type 0 where
  pub port : ℕ
  pub timeouts : Timeouts
  pub lifetimes : Lifetimes
  pub jwt_issuer : Text
  pub otel_service_name : Text
  pub otlp_endpoint : Text
  pub redis_addr : Text
  pub rabbitmq_url : Text
  pub rabbitmq_exchange : Text
  pub rabbitmq_audit_queue : Text
  pub work : Work
  pub redis_environment : Text
  pub otlp_insecure : Bool
  pub cookie_secure : Bool
  pub origins : List Text
  pub proxies : List Text
  pub rates : Rates
  pub admin_email : Text
  pub admin_password : Text
  pub mysql_dsn : Text
  pub signing_key : Text

abbrev second : ℕ
second = 1_000_000_000

abbrev pub differ : Bool → Bool → Bool
differ true b = not b
differ false b = b

-- A condition that must not hold.
abbrev pub refuse : Bool → ConfigError → Result ConfigError (Unit {0})
refuse true e = err e
refuse false e = ok tt

-- The checks at the end, on what the variables gave.
unfoldable pub checked : ServerConfig → Result ConfigError ServerConfig
checked c = do
  refuse (differ (is_empty c.admin_email) (is_empty c.admin_password)) admin_incomplete
  refuse (is_empty c.mysql_dsn) (is_required "MYSQL_DSN")
  refuse (is_empty c.signing_key) (is_required "JWT_SIGNING_KEY")
  refuse (ltb (byte_len c.signing_key) 32) key_too_short
  ok c

module _ (parsers : Parsers) (getenv : String → Text) where
  abbrev duration : String → ℕ → Result ConfigError ℕ
  duration name default = read_duration parsers name default (getenv name)

  abbrev count : String → ℕ → ℕ → Result ConfigError ℕ
  count name bound default = read_count name bound default (getenv name)

  abbrev rate : String → ℕ → Result ConfigError ℕ
  rate name default = read_rate name default (getenv name)

  unfoldable pub load_timeouts : Result ConfigError Timeouts
  load_timeouts = do
    read_header ← duration "READ_HEADER_TIMEOUT" (5 * second)
    read ← duration "READ_TIMEOUT" (15 * second)
    write ← duration "WRITE_TIMEOUT" (15 * second)
    idle ← duration "IDLE_TIMEOUT" (60 * second)
    shutdown ← duration "SHUTDOWN_TIMEOUT" (10 * second)
    ok (record {
      read_header = read_header;
      read = read;
      write = write;
      idle = idle;
      shutdown = shutdown;
    })

  unfoldable pub load_lifetimes : Result ConfigError Lifetimes
  load_lifetimes = do
    access_token ← duration "ACCESS_TOKEN_TTL" (900 * second)
    refresh_token ← duration "REFRESH_TOKEN_TTL" (604_800 * second)
    ok (record { access_token = access_token; refresh_token = refresh_token })

  unfoldable pub load_work : Result ConfigError Work
  load_work = do
    poll_interval ← duration "OUTBOX_POLL_INTERVAL" second
    batch_size ← count "OUTBOX_BATCH_SIZE" 1000 100
    max_attempts ← count "OUTBOX_MAX_ATTEMPTS" 1000 10
    prefetch ← count "CONSUMER_PREFETCH" 10_000 20
    max_retries ← count "CONSUMER_MAX_RETRIES" 1000 5
    ok (record {
      poll_interval = poll_interval;
      batch_size = batch_size;
      max_attempts = max_attempts;
      prefetch = prefetch;
      max_retries = max_retries;
    })

  unfoldable pub load_rates : Result ConfigError Rates
  load_rates = do
    login ← rate "RATE_LIMIT_LOGIN_PER_MINUTE" 5
    refresh ← rate "RATE_LIMIT_REFRESH_PER_MINUTE" 20
    api ← rate "RATE_LIMIT_API_PER_MINUTE" 120
    ok (record { login = login; refresh = refresh; api = api })

  -- The configuration of what was read, with the variables that are taken as they are.
  abbrev pub config_of :
      ℕ
      → Timeouts
      → Lifetimes
      → Work
      → Text
      → Bool
      → Bool
      → List Text
      → List Text
      → Rates
      → ServerConfig
  config_of port timeouts lifetimes work environment insecure secure origins proxies rates =
      record {
        port = port;
        timeouts = timeouts;
        lifetimes = lifetimes;
        jwt_issuer = text_or (codes "user-order-api") (getenv "JWT_ISSUER");
        otel_service_name = text_or (codes "user-order-api") (getenv "OTEL_SERVICE_NAME");
        otlp_endpoint = trim_space (getenv "OTEL_EXPORTER_OTLP_ENDPOINT");
        redis_addr = trim_space (getenv "REDIS_ADDR");
        rabbitmq_url = trim_space (getenv "RABBITMQ_URL");
        rabbitmq_exchange = text_or (codes "user-order-api.events") (getenv "RABBITMQ_EXCHANGE");
        rabbitmq_audit_queue =
            text_or (codes "user-order-api.audit.v1") (getenv "RABBITMQ_AUDIT_QUEUE");
        work = work;
        redis_environment = environment;
        otlp_insecure = insecure;
        cookie_secure = secure;
        origins = origins;
        proxies = proxies;
        rates = rates;
        admin_email = trim_space (getenv "BOOTSTRAP_ADMIN_EMAIL");
        admin_password = getenv "BOOTSTRAP_ADMIN_PASSWORD";
        mysql_dsn = trim_space (getenv "MYSQL_DSN");
        signing_key = trim_space (getenv "JWT_SIGNING_KEY");
      }

  -- `loadConfig`
  unfoldable pub load_config : Result ConfigError ServerConfig
  load_config = do
    port ← read_port (getenv "PORT")
    timeouts ← load_timeouts
    lifetimes ← load_lifetimes
    work ← load_work
    environment ← read_environment (codes "local") (getenv "REDIS_ENVIRONMENT")
    insecure ←
        read_bool parsers "OTEL_EXPORTER_OTLP_INSECURE" false (getenv "OTEL_EXPORTER_OTLP_INSECURE")
    secure ← read_bool parsers "AUTH_COOKIE_SECURE" true (getenv "AUTH_COOKIE_SECURE")
    origins ← read_items (valid_origin parsers) invalid_origin (getenv "CORS_ALLOWED_ORIGINS")
    proxies ← read_items parsers.parse_prefix invalid_cidr (getenv "TRUSTED_PROXY_CIDRS")
    rates ← load_rates
    checked
        (config_of port timeouts lifetimes work environment insecure secure origins proxies rates)
