-- ===== src/Security/Limiter/Window.antt =====
-- How many requests of a client the limiter lets through in one window of the memory store.
use codex_go_web_api.Prelude.{
  ℕ, ◌+◌, ◌-◌, ◌≤◌, ◌<◌, ◌≡◌, refl, ap, ◌∙◌, ◌↔◌, inl, inr, Bool, true, false, ◌&&◌, some, List, [],
  ◌∷◌, arith, leb, if◌then◌else◌, Bool-cases, All, Text, text_beq, text_beq_iff, text_eq, lookup,
  lookup-insert, ==_refl, inc64, inc64_lem, two_63, ◌==◌,
}
use codex_go_web_api.Prelude.Outcome.{Result, ok, err}
use codex_go_web_api.Security.Counter.{
  CounterError, Buckets, bucket_of, is_over, increment, memory_counter_store, minute, ttl_of, reset,
}
use codex_go_web_api.Security.Limiter.{
  Limits, RouteClass, login, refresh, api, limit_of, rate_key, Decision, allowed, limited, decide,
  allow,
}
use codex_go_web_api.Security.Limiter.Keys.{rate_key-injective}

pub record Call : Type 0 where
  pub ip : Text
  pub class : RouteClass
  pub now : ℕ

abbrev class_beq : RouteClass → RouteClass → Bool
class_beq login login = true
class_beq refresh refresh = true
class_beq api api = true
class_beq _ _ = false

class_beq_iff : (c d : RouteClass) → (class_beq c d ≡ true) ↔ (c ≡ d)
class_beq_iff login _ = ground arith
class_beq_iff refresh _ = ground arith
class_beq_iff api _ = ground arith

abbrev is_from : Text → RouteClass → Call → Bool
is_from ip class call = text_beq call.ip ip && class_beq call.class class

abbrev passes : Result CounterError Decision → ℕ
passes (ok allowed) = 1
passes (ok (limited seconds)) = 0
passes (err e) = 0

-- How many requests of a client in a class are sent, and how many are let through, among those of
-- all clients, in the order in which they come.
unfoldable pub sent : Text → RouteClass → List Call → ℕ
sent ip class [] = 0
sent ip class (call ∷ rest) = (if is_from ip class call then 1 else 0) + sent ip class rest

unfoldable pub admitted : Limits → Text → Text → RouteClass → List Call → Buckets → ℕ
admitted limits environment ip class [] b = 0
admitted limits environment ip class (call ∷ rest) b =
    let (b', decision) =
      allow memory_counter_store limits environment call.ip call.class call.now b in
    (if is_from ip class call then passes decision else 0)
    + admitted limits environment ip class rest b'

abbrev pub least : ℕ → ℕ → ℕ
least a b = if leb a b then a else b

abbrev pub Within : ℕ → Call → Type 0
Within t0 call = (t0 ≤ call.now) × (call.now < t0 + minute)

-- A call adds one to the bucket that it resets or goes on with.
increment-counts :
    (key : Text) (now t0 u : ℕ) (b : Buckets)
    → reset (bucket_of (lookup key b)) minute now ≡ record { started = t0; used = u }
    → u + 1 < two_63
    → (lookup key (increment b key minute now).0 ≡ some (record { started = t0; used = u + 1 }))
      × ((ttl : ℕ) × ((increment b key minute now).1 ≡ ok (u + 1, ttl)))
unfolding increment
increment-counts key now t0 u b e small =
    let grown : inc64 u ≡ u + 1 = inc64_lem u small in
    rw e (
      rw grown (
        lookup-insert key key _ b ∙ rw (==_refl key) refl,
        (ttl_of (record { started = t0; used = u + 1 }) minute now, refl),
      ))

-- Whether it is let through is read off the count.
allow-counts :
    (limits : Limits) (environment ip : Text) (class : RouteClass) (now t0 u : ℕ) (b : Buckets)
    → reset (bucket_of (lookup (rate_key environment ip class) b)) minute now
      ≡ record { started = t0; used = u }
    → u + 1 < two_63
    → (lookup
          (rate_key environment ip class)
          (allow memory_counter_store limits environment ip class now b).0
        ≡ some (record { started = t0; used = u + 1 }))
      × (passes (allow memory_counter_store limits environment ip class now b).1
          ≡ (if leb (u + 1) (limit_of limits class) then 1 else 0))
unfolding allow memory_counter_store
allow-counts limits environment ip class now t0 u b e small =
    let (stored, (ttl, result)) =
      increment-counts (rate_key environment ip class) now t0 u b e small in
    (stored, ap (λ r. passes (decide (limit_of limits class) r)) result ∙ ground arith)

same-client :
    (ip : Text) (class : RouteClass) (call : Call)
    → is_from ip class call ≡ true
    → (call.ip ≡ ip) × (call.class ≡ class)
same-client ip class call h =
    ((text_beq_iff call.ip ip).0 (ground arith), (class_beq_iff call.class class).0 (ground arith))

key-of_other :
    (limits : Limits) (environment ip : Text) (class : RouteClass) (call : Call)
    → (rate_key environment call.ip call.class == rate_key environment ip class) ≡ true
    → is_from ip class call ≡ true
key-of_other limits environment ip class call e =
    let (same_class, same_ip) = rate_key-injective environment call.ip ip call.class class (
      (text_beq_iff (rate_key environment call.ip call.class) (rate_key environment ip class)).0
        e) in
    ground
      (arith, (text_beq_iff call.ip ip).1 same_ip, (class_beq_iff call.class class).1 same_class)

still-open :
    (t0 u : ℕ) (call : Call)
    → 0 < t0
    → Within t0 call
    → reset (record { started = t0; used = u }) minute call.now ≡ record { started = t0; used = u }
still-open t0 u call positive inside = ground (arith, inside.0, inside.1)

counted-on :
    (n limit u : ℕ)
    → (if leb (u + 1) limit then 1 else 0) + least n (limit - (u + 1)) ≡ least (1 + n) (limit - u)
counted-on n limit u = ground arith

-- A call of another client, or in another class, leaves the bucket alone.
allow-others :
    (limits : Limits) (environment ip : Text) (class : RouteClass) (call : Call) (b : Buckets)
    → is_from ip class call ≡ false
    → lookup
        (rate_key environment ip class)
        (allow memory_counter_store limits environment call.ip call.class call.now b).0
      ≡ lookup (rate_key environment ip class) b
unfolding allow memory_counter_store increment
allow-others limits environment ip class call b other =
    lookup-insert (rate_key environment call.ip call.class) (rate_key environment ip class) _ b
    ∙ elim (Bool-cases (rate_key environment call.ip call.class == rate_key environment ip class)) [
      | inl e ↦ absurd (ground (arith, other, key-of_other limits environment ip class call e))
      | inr e ↦ rw e refl
    ]

-- The client's own call, as seen from its key.
allow-own :
    (limits : Limits) (environment ip : Text) (class : RouteClass) (call : Call) (t0 u : ℕ)
    (b : Buckets)
    → is_from ip class call ≡ true
    → reset (bucket_of (lookup (rate_key environment ip class) b)) minute call.now
      ≡ record { started = t0; used = u }
    → u + 1 < two_63
    → (lookup
          (rate_key environment ip class)
          (allow memory_counter_store limits environment call.ip call.class call.now b).0
        ≡ some (record { started = t0; used = u + 1 }))
      × (passes (allow memory_counter_store limits environment call.ip call.class call.now b).1
          ≡ (if leb (u + 1) (limit_of limits class) then 1 else 0))
allow-own limits environment ip class call t0 u b own e small =
    let (same_ip, same_class) = same-client ip class call own in
    rw (same_ip, same_class) (allow-counts limits environment ip class call.now t0 u b e small)

-- In the window of a bucket that has counted `u` calls, the calls that the limit still admits pass.
admitted-from :
    (limits : Limits) (environment ip : Text) (class : RouteClass) (t0 u : ℕ) (calls : List Call)
    (b : Buckets)
    → lookup (rate_key environment ip class) b ≡ some (record { started = t0; used = u })
    → 0 < t0
    → All (Within t0) calls
    → u + sent ip class calls < two_63
    → admitted limits environment ip class calls b
      ≡ least (sent ip class calls) (limit_of limits class - u)
unfolding admitted sent
admitted-from limits environment ip class t0 u [] b at positive inside small = ground arith
admitted-from limits environment ip class t0 u (call ∷ rest) b at positive inside small =
    let b' : Buckets =
      (allow memory_counter_store limits environment call.ip call.class call.now b).0 in
    elim (Bool-cases (is_from ip class call)) [
      | inl own ↦
          let few : u + 1 + sent ip class rest < two_63 = ground (arith, own, small) in
          let still : reset (bucket_of (lookup (rate_key environment ip class) b)) minute call.now
              ≡ record { started = t0; used = u } =
            rw at (still-open t0 u call positive inside.0) in
          let (stored, passed) =
            allow-own limits environment ip class call t0 u b own still (omega (arith, few)) in
          let rest_admitted =
            admitted-from limits environment ip class t0 (u + 1) rest b' stored positive inside.1
              few in
          rw own
            (rw (passed, rest_admitted) (counted-on (sent ip class rest) (limit_of limits class) u))
      | inr other ↦
          let few : u + sent ip class rest < two_63 = ground (arith, other, small) in
          let rest_admitted =
            admitted-from limits environment ip class t0 u rest b'
              (allow-others limits environment ip class call b other ∙ at) positive inside.1 few in
          rw other (rw rest_admitted (ground arith))
    ]

-- With the counters in memory: a client whose window is over or was never opened sends a request,
-- not at the zero time, and then any requests come, from it and from others, none before that
-- time and all within the minute after it. If the client sends fewer than 2^63 of them in the
-- route class, the number of these that are let through is the limit of the class, or all of them
-- if they are fewer.
pub admitted-limit :
    (limits : Limits) (environment ip : Text) (class : RouteClass) (first : Call)
    (calls : List Call) (b : Buckets)
    → is_over (bucket_of (lookup (rate_key environment ip class) b)) minute first.now ≡ true
    → is_from ip class first ≡ true
    → 0 < first.now
    → All (Within first.now) calls
    → sent ip class (first ∷ calls) < two_63
    → admitted limits environment ip class (first ∷ calls) b
      ≡ least (sent ip class (first ∷ calls)) (limit_of limits class)
unfolding admitted sent
admitted-limit limits environment ip class first calls b over own positive inside small =
    let b' : Buckets =
      (allow memory_counter_store limits environment first.ip first.class first.now b).0 in
    let few : 0 + 1 + sent ip class calls < two_63 = ground (arith, own, small) in
    let (stored, passed) =
      allow-own limits environment ip class first first.now 0 b own (rw over refl)
        (omega (arith, few)) in
    let rest_admitted =
      admitted-from limits environment ip class first.now (0 + 1) calls b' stored positive inside
        few in
    rw own (rw (passed, rest_admitted) (ground arith))
