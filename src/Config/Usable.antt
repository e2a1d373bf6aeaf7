-- ===== src/Config/Usable.antt =====
-- A configuration that is loaded can be used.
use codex_go_web_api.Prelude.{
  ℕ, ◌<◌, ◌≤◌, ◌≡◌, refl, String, Bool, true, false, arith, ltb, Text, codes, is_empty, byte_len,
  subst,
}
use codex_go_web_api.Prelude.Outcome.{ok, bind-ok, then-ok, bind-elim, ok-injective}
use codex_go_web_api.Config.{
  Parsers, is_required, admin_incomplete, key_too_short, invalid_origin, invalid_cidr, valid_origin,
  all_pass, has_space, read_bool,
}
use codex_go_web_api.Config.Stages.{
  Timeouts, Lifetimes, Work, Rates, ServerConfig, differ, load_timeouts, load_lifetimes, load_work,
  load_rates, config_of, checked, load_config,
}
use codex_go_web_api.Config.Bounds.{
  Within, read_duration-pos, read_rate-pos, read_count-Within, read_port-Within,
  read_environment-spaceless, read_items-pass, refuse-false,
}

abbrev pub TimeoutsRun : Timeouts → Type 0
TimeoutsRun t = (0 < t.read_header) × (0 < t.read) × (0 < t.write) × (0 < t.idle) × (0 < t.shutdown)

abbrev pub LifetimesRun : Lifetimes → Type 0
LifetimesRun l = (0 < l.access_token) × (0 < l.refresh_token)

abbrev pub WorkBounded : Work → Type 0
WorkBounded w =
    (0 < w.poll_interval)
    × Within 1000 w.batch_size
    × Within 1000 w.max_attempts
    × Within 10_000 w.prefetch
    × Within 1000 w.max_retries

abbrev pub RatesPositive : Rates → Type 0
RatesPositive r = (0 < r.login) × (0 < r.refresh) × (0 < r.api)

module _ (parsers : Parsers) (getenv : String → Text) where
  load_timeouts-run : (t : Timeouts) → load_timeouts parsers getenv ≡ ok t → TimeoutsRun t
  unfolding load_timeouts
  load_timeouts-run t h =
      let (a, p, h) = bind-ok _ _ t h in
      let (b, q, h) = bind-ok _ _ t h in
      let (c, r, h) = bind-ok _ _ t h in
      let (d, s, h) = bind-ok _ _ t h in
      let (e, u, h) = bind-ok _ _ t h in
      subst TimeoutsRun (ok-injective _ t h) (
        read_duration-pos parsers _ _ a _ (omega arith) p,
        read_duration-pos parsers _ _ b _ (omega arith) q,
        read_duration-pos parsers _ _ c _ (omega arith) r,
        read_duration-pos parsers _ _ d _ (omega arith) s,
        read_duration-pos parsers _ _ e _ (omega arith) u,
      )

  load_lifetimes-run : (l : Lifetimes) → load_lifetimes parsers getenv ≡ ok l → LifetimesRun l
  unfolding load_lifetimes
  load_lifetimes-run l h =
      let (a, p, h) = bind-ok _ _ l h in
      let (b, q, h) = bind-ok _ _ l h in
      subst LifetimesRun (ok-injective _ l h) (
        read_duration-pos parsers _ _ a _ (omega arith) p,
        read_duration-pos parsers _ _ b _ (omega arith) q,
      )

  load_work-bounded : (w : Work) → load_work parsers getenv ≡ ok w → WorkBounded w
  unfolding load_work
  load_work-bounded w h =
      let (a, p, h) = bind-ok _ _ w h in
      let (b, q, h) = bind-ok _ _ w h in
      let (c, r, h) = bind-ok _ _ w h in
      let (d, s, h) = bind-ok _ _ w h in
      let (e, u, h) = bind-ok _ _ w h in
      subst WorkBounded (ok-injective _ w h) (
        read_duration-pos parsers _ _ a _ (omega arith) p,
        read_count-Within _ 1000 _ b _ (omega arith, omega arith) q,
        read_count-Within _ 1000 _ c _ (omega arith, omega arith) r,
        read_count-Within _ 10_000 _ d _ (omega arith, omega arith) s,
        read_count-Within _ 1000 _ e _ (omega arith, omega arith) u,
      )

  load_rates-positive : (r : Rates) → load_rates parsers getenv ≡ ok r → RatesPositive r
  unfolding load_rates
  load_rates-positive x h =
      let (a, p, h) = bind-ok _ _ x h in
      let (b, q, h) = bind-ok _ _ x h in
      let (c, r, h) = bind-ok _ _ x h in
      subst RatesPositive (ok-injective _ x h) (
        read_rate-pos _ _ a _ (omega arith) p,
        read_rate-pos _ _ b _ (omega arith) q,
        read_rate-pos _ _ c _ (omega arith) r,
      )

-- The port is one of TCP's, every duration and count is positive and in its bounds, the environment's
-- name has no space, the origins and proxies are ones that the parsers accept, the bootstrap account is
-- whole or absent, and a data source and a key of 32 bytes are there.
pub record IsUsable (parsers : Parsers) (c : ServerConfig) : Type 0 where
  pub port : Within 65535 c.port
  pub timeouts : TimeoutsRun c.timeouts
  pub lifetimes : LifetimesRun c.lifetimes
  pub work : WorkBounded c.work
  pub rates : RatesPositive c.rates
  pub environment : has_space c.redis_environment ≡ false
  pub origins : all_pass (valid_origin parsers) c.origins ≡ true
  pub proxies : all_pass parsers.parse_prefix c.proxies ≡ true
  pub admin : is_empty c.admin_email ≡ is_empty c.admin_password
  pub source : is_empty c.mysql_dsn ≡ false
  pub key : 32 ≤ byte_len c.signing_key

differ-same : (a b : Bool) → differ a b ≡ false → a ≡ b
differ-same true true h = refl
differ-same true false h = cc
differ-same false true h = cc
differ-same false false h = refl

key-long : (n : ℕ) → ltb n 32 ≡ false → 32 ≤ n
key-long n h = ground arith

checked-ok :
    (c d : ServerConfig)
    → checked c ≡ ok d
    → (c ≡ d)
      × (is_empty c.admin_email ≡ is_empty c.admin_password)
      × (is_empty c.mysql_dsn ≡ false)
      × (32 ≤ byte_len c.signing_key)
unfolding checked
checked-ok c d h =
    let (u, whole, h) = then-ok _ _ d h in
    let (v, sourced, h) = then-ok _ _ d h in
    let (w, keyed, h) = then-ok _ _ d h in
    let (x, long, h) = then-ok _ _ d h in
    (
      ok-injective c d h,
      differ-same _ _ (refuse-false _ admin_incomplete u whole),
      refuse-false _ (is_required "MYSQL_DSN") v sourced,
      key-long _ (refuse-false _ key_too_short x long),
    )

-- Whatever the environment holds, a configuration that is loaded is usable: the port is between 1 and
-- 65535, every duration, count and rate is positive and the counts are within their bounds, the name of
-- the Redis environment has no space, every origin and every proxy is one that the parsers accept, the
-- bootstrap account has an e-mail exactly if it has a password, and there is a data source name and a
-- signing key of at least 32 bytes.
pub load_config-IsUsable :
    (parsers : Parsers) (getenv : String → Text) (c : ServerConfig)
    → load_config parsers getenv ≡ ok c
    → IsUsable parsers c
unfolding load_config
load_config-IsUsable parsers getenv c h = bind-elim h λ port port_read h.
    bind-elim h λ timeouts timeouts_read h. bind-elim h λ lifetimes lifetimes_read h.
      bind-elim h λ work work_read h. bind-elim h λ environment environment_read h.
        bind-elim
          {m = read_bool parsers "OTEL_EXPORTER_OTLP_INSECURE" false
            (getenv "OTEL_EXPORTER_OTLP_INSECURE")}
          h
          λ insecure insecure_read h.
            bind-elim
              {m = read_bool parsers "AUTH_COOKIE_SECURE" true (getenv "AUTH_COOKIE_SECURE")} h
              λ secure secure_read h. bind-elim h λ origins origins_read h.
                bind-elim h λ proxies proxies_read h. bind-elim h λ rates rates_read h.
                  let loaded =
                    config_of parsers getenv port timeouts lifetimes work environment insecure
                      secure origins proxies rates in
                  let (same, admin, source, key) = checked-ok loaded c h in
                  subst (IsUsable parsers) same (record {
                    port = read_port-Within port (getenv "PORT") port_read;
                    timeouts = load_timeouts-run parsers getenv timeouts timeouts_read;
                    lifetimes = load_lifetimes-run parsers getenv lifetimes lifetimes_read;
                    work = load_work-bounded parsers getenv work work_read;
                    rates = load_rates-positive parsers getenv rates rates_read;
                    environment =
                        read_environment-spaceless (codes "local") environment
                          (getenv "REDIS_ENVIRONMENT") (unfold has_space in refl) environment_read;
                    origins =
                        read_items-pass (valid_origin parsers) invalid_origin
                          (getenv "CORS_ALLOWED_ORIGINS") origins origins_read;
                    proxies =
                        read_items-pass parsers.parse_prefix invalid_cidr
                          (getenv "TRUSTED_PROXY_CIDRS") proxies proxies_read;
                    admin = admin;
                    source = source;
                    key = key;
                  })
