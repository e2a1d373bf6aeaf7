-- ===== src/Security/Counter.antt =====
-- user-order-api/internal/platform/security/counter_store.go. Times are nanoseconds since Go's zero time, durations
-- that are not negative are numbers, and counts and the answers of Redis are bit patterns of int64.
use codex_go_web_api.Prelude.{
  ℕ, zero, suc, ◌+◌, ◌-◌, ◌*◌, ◌/◌, ◌%◌, Bool, Option, none, some, List, [], ◌∷◌, ltb, leb, nat_beq,
  ◌||◌, if◌then◌else◌, Text, text_eq, lookup, insert, inc64, two_63,
}
use codex_go_web_api.Prelude.Outcome.{Result, ok, err}

abbrev pub second : ℕ
second = 1_000_000_000

abbrev pub minute : ℕ
minute = 60_000_000_000

pub data CounterError : Type 0 where
  window_not_positive redis_failed invalid_result invalid_count invalid_ttl : CounterError

-- `CounterStore`: a call takes the store, the key, the window and the time of the clock.
pub record CounterStore (S : Type 0) : Type 0 where
  pub increment : S → Text → ℕ → ℕ → S × Result CounterError (ℕ × ℕ)

pub record MemoryBucket : Type 0 where
  pub started : ℕ
  pub used : ℕ

abbrev pub Buckets : Type 0
Buckets = List (Text × MemoryBucket)

-- `s.items[key]`
abbrev pub bucket_of : Option MemoryBucket → MemoryBucket
bucket_of none = record { started = 0; used = 0 }
bucket_of (some b) = b

abbrev pub is_over : MemoryBucket → ℕ → ℕ → Bool
is_over b window now = nat_beq b.started 0 || leb (b.started + window) now

abbrev pub reset : MemoryBucket → ℕ → ℕ → MemoryBucket
reset b window now = if is_over b window now then record { started = now; used = 0 } else b

abbrev pub counted : MemoryBucket → MemoryBucket
counted b = record { started = b.started; used = inc64 b.used }

abbrev pub ttl_of : MemoryBucket → ℕ → ℕ → ℕ
ttl_of b window now = let ttl = b.started + window - now in if ltb ttl second then second else ttl

-- `memoryCounterStore.Increment`; a window that is not positive is given as 0.
unfoldable pub increment : Buckets → Text → ℕ → ℕ → Buckets × Result CounterError (ℕ × ℕ)
increment items key zero now = (items, err window_not_positive)
increment items key (suc w) now =
    let item = counted (reset (bucket_of (lookup key items)) (suc w) now) in
    (insert key item items, ok (item.used, ttl_of item (suc w) now))

unfoldable pub memory_counter_store : CounterStore Buckets
memory_counter_store = record { increment = increment }

-- A value of go-redis's `[]interface{}`, and what the script's run answers.
pub data RedisValue : Type 0 where
  integer : ℕ → RedisValue
  other_value : RedisValue

pub data RedisReply : Type 0 where
  failed not_an_array : RedisReply
  array : List RedisValue → RedisReply

abbrev count_of : RedisValue → Option ℕ
count_of (integer n) = some n
count_of other_value = none

abbrev ttl_seconds : RedisValue → Option ℕ
ttl_seconds (integer n) = if leb two_63 n then none else some n
ttl_seconds other_value = none

abbrev decode_pair : Option ℕ → Option ℕ → Result CounterError (ℕ × ℕ)
decode_pair none ttl = err invalid_count
decode_pair (some count) none = err invalid_ttl
decode_pair (some count) (some ttl) = ok (count, ttl * second % 18_446_744_073_709_551_616)

unfoldable pub decode_reply : RedisReply → Result CounterError (ℕ × ℕ)
decode_reply failed = err redis_failed
decode_reply not_an_array = err invalid_result
decode_reply (array (c ∷ t ∷ [])) = decode_pair (count_of c) (ttl_seconds t)
decode_reply (array _) = err invalid_result

-- `window / time.Second`, at least 1.
unfoldable pub window_seconds : ℕ → ℕ
window_seconds window = let seconds = window / second in if ltb seconds 1 then 1 else seconds

-- `RedisCounterStore.Increment`; `run` is the server's run of the script on its state.
unfoldable pub redis_increment :
    {R : Type 0}
    → (R → Text → ℕ → R × RedisReply)
    → R
    → Text
    → ℕ
    → ℕ
    → R × Result CounterError (ℕ × ℕ)
unfolding decode_reply window_seconds
redis_increment run r key zero now = (r, err window_not_positive)
redis_increment run r key (suc w) now =
    let (r', reply) = run r key (window_seconds (suc w)) in (r', decode_reply reply)

unfoldable pub redis_counter_store : {R : Type 0} → (R → Text → ℕ → R × RedisReply) → CounterStore R
redis_counter_store run = record { increment = redis_increment run }
