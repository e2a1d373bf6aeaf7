-- ===== src/Security/Limiter.antt =====
-- user-order-api/internal/platform/security/ratelimit.go, over any counter store. Limits are those that the
-- configuration admits, positive.
pub mod Keys
pub mod Window
use codex_go_web_api.Prelude.{
  ℕ, ◌+◌, ◌-◌, ◌/◌, ◌%◌, Bool, true, false, ◌&&◌, ◌||◌, Option, none, some, List, [], ◌∷◌, ◌++◌,
  length, drop, ltb, leb, nat_beq, if◌then◌else◌, Text, codes, text_beq, is_empty, trim_space,
  two_63,
}
use codex_go_web_api.Prelude.Outcome.{Result, ok, err}
use codex_go_web_api.Platform.Httpx.{AppError, service_unavailable_code, too_many_requests_code}
use codex_go_web_api.Security.Counter.{CounterStore, CounterError, second, minute}

pub record Limits : Type 0 where
  pub login_per_minute : ℕ
  pub refresh_per_minute : ℕ
  pub api_per_minute : ℕ

pub data RouteClass : Type 0 where
  login refresh api : RouteClass

abbrev pub class_name : RouteClass → Text
class_name login = codes "login"
class_name refresh = codes "refresh"
class_name api = codes "api"

abbrev pub limit_of : Limits → RouteClass → ℕ
limit_of l login = l.login_per_minute
limit_of l refresh = l.refresh_per_minute
limit_of l api = l.api_per_minute

abbrev pub key_prefix : Text → Text
key_prefix environment = codes "user-order-api:" ++ environment ++ codes ":rate:"

unfoldable pub rate_key : Text → Text → RouteClass → Text
rate_key environment ip class = key_prefix environment ++ (class_name class ++ (b':' ∷ ip))

-- `count <= int64(limit)` on the bit pattern of count.
abbrev pub at_most : ℕ → ℕ → Bool
at_most count limit = leb two_63 count || leb count limit

-- `(ttl + time.Second - 1) / time.Second`, at least 1; a negative quotient is below 1.
unfoldable pub retry_after : ℕ → ℕ
retry_after ttl =
    let rounded = (ttl + second - 1) % 18_446_744_073_709_551_616 in
    if leb two_63 rounded || ltb (rounded / second) 1 then 1 else rounded / second

pub data Decision : Type 0 where
  allowed : Decision
  limited : ℕ → Decision

abbrev pub decide : ℕ → Result CounterError (ℕ × ℕ) → Result CounterError Decision
decide limit (err e) = err e
decide limit (ok (count, ttl)) =
    if at_most count limit then ok allowed else ok (limited (retry_after ttl))

unfoldable pub allow :
    {S : Type 0}
    → CounterStore S
    → Limits
    → Text
    → Text
    → RouteClass
    → ℕ
    → S
    → S × Result CounterError Decision
allow store limits environment ip class now s =
    let (s', counter) = store.increment s (rate_key environment ip class) minute now in
    (s', decide (limit_of limits class) counter)

-- `strings.HasSuffix`
abbrev pub has_suffix : Text → Text → Bool
has_suffix s suffix =
    leb (length suffix) (length s) && text_beq (drop (length s - length suffix) s) suffix

unfoldable pub route_class : Text → RouteClass
route_class path =
    if has_suffix path (codes "/auth/login") || has_suffix path (codes "/auth/register")
    then login
    else if has_suffix path (codes "/auth/refresh")
    then refresh
    else api

-- `strings.Split(s, ",")[0]`
abbrev pub before_comma : Text → Text
before_comma [] = []
before_comma (c ∷ s) = let rest = before_comma s in if nat_beq c b',' then [] else c ∷ rest

-- `split` is net.SplitHostPort's host, `parse` netip.ParseAddr, and a trusted prefix is its Contains.
module _ {Addr : Type 0} (split : Text → Option Text) (parse : Text → Option Addr) where
  pub is_trusted_proxy : List (Addr → Bool) → Addr → Bool
  is_trusted_proxy [] address = false
  is_trusted_proxy (prefix ∷ prefixes) address = prefix address || is_trusted_proxy prefixes address

  abbrev is_trusted_host : List (Addr → Bool) → Option Addr → Bool
  is_trusted_host prefixes none = false
  is_trusted_host prefixes (some remote) = is_trusted_proxy prefixes remote

  abbrev forwarded_or : Text → Text → Text
  forwarded_or forwarded host = if is_empty forwarded then host else forwarded

  unfoldable pub client_ip : List (Addr → Bool) → Text → Text → Text
  unfolding is_trusted_proxy
  client_ip prefixes remote_addr forwarded_for = elim (split remote_addr) [
    | none ↦ remote_addr
    | some host ↦
        if is_trusted_host prefixes (parse host)
        then forwarded_or (trim_space (before_comma forwarded_for)) host
        else host
  ]

-- What the middleware does with a request: hand it on, or answer, with a Retry-After or without.
pub data Reply : Type 0 where
  handed_on : Reply
  answered : AppError → Option ℕ → Reply

abbrev pub reply_to : Result CounterError Decision → Reply
reply_to (err e) =
    answered
      (service_unavailable_code "RATE_LIMIT_BACKEND_UNAVAILABLE" "rate limit backend unavailable")
      none
reply_to (ok allowed) = handed_on
reply_to (ok (limited seconds)) =
    answered (too_many_requests_code "RATE_LIMITED" "too many requests") (some seconds)

unfoldable pub middleware :
    {S : Type 0} → CounterStore S → Limits → Text → Text → Text → ℕ → S → S × Reply
unfolding allow route_class
middleware store limits environment ip path now s =
    let (s', decision) = allow store limits environment ip (route_class path) now s in
    (s', reply_to decision)
