-- ===== src/Config.antt =====
-- user-order-api/cmd/api/config.go: what the program reads of its environment. `time.ParseDuration`, `strconv.ParseBool`,
-- `netip.ParsePrefix` and `url.ParseRequestURI` are the record `Parsers`.
pub mod Stages
pub mod Bounds
pub mod Usable
use codex_go_web_api.Prelude.{
  ℕ, zero, suc, String, Bool, true, false, not, ◌||◌, ◌&&◌, Option, none, some, List, [], ◌∷◌, ltb,
  leb, nat_beq, if◌then◌else◌, ◌==◌, text_eq, Text, codes, is_empty, trim_space, byte_len, ℤ, pos,
  negsuc,
}
use codex_go_web_api.Prelude.Outcome.{Result, ok, err}
use codex_go_web_api.Prelude.Decimal.{parse_int}

pub record Url : Type 0 where
  pub scheme : Text
  pub host : Text
  pub path : Text
  pub raw_query : Text
  pub fragment : Text

-- A duration is in nanoseconds; a prefix is kept as the text that was parsed.
pub record Parsers : Type 0 where
  pub parse_duration : Text → Option ℤ
  pub parse_bool : Text → Option Bool
  pub parse_prefix : Text → Bool
  pub parse_request_uri : Text → Option Url

pub data ConfigError : Type 0 where
  port_out_of_range : ConfigError
  -- with the variable's name
  not_a_positive_duration not_a_positive_integer not_a_bool is_required : String → ConfigError
  not_up_to : String → ℕ → ConfigError
  environment_with_space invalid_origin invalid_cidr : ConfigError
  admin_incomplete key_too_short : ConfigError

abbrev pub positive : Option ℤ → Option ℕ
positive none = none
positive (some (pos zero)) = none
positive (some (pos (suc n))) = some (suc n)
positive (some (negsuc n)) = none

abbrev pub or_error : {A : Type 0} → ConfigError → Option A → Result ConfigError A
or_error e none = err e
or_error e (some a) = ok a

-- A variable that is blank leaves the default.
abbrev pub unless_blank :
    {A : Type 0} → Text → A → (Text → Result ConfigError A) → Result ConfigError A
unless_blank raw default read =
    let given = read (trim_space raw) in if is_empty (trim_space raw) then ok default else given

abbrev pub duration_of : Parsers → String → Text → Result ConfigError ℕ
duration_of parsers name s =
    or_error (not_a_positive_duration name) (positive (parsers.parse_duration s))

unfoldable pub read_duration : Parsers → String → ℕ → Text → Result ConfigError ℕ
read_duration parsers name default raw = unless_blank raw default (duration_of parsers name)

abbrev pub at_most : ℕ → Option ℕ → Option ℕ
at_most bound none = none
at_most bound (some n) = if leb n bound then some n else none

abbrev pub count_of : String → ℕ → Text → Result ConfigError ℕ
count_of name bound s = or_error (not_up_to name bound) (at_most bound (positive (parse_int s)))

-- A positive integer up to a bound.
unfoldable pub read_count : String → ℕ → ℕ → Text → Result ConfigError ℕ
read_count name bound default raw = unless_blank raw default (count_of name bound)

abbrev pub rate_of : String → Text → Result ConfigError ℕ
rate_of name s = or_error (not_a_positive_integer name) (positive (parse_int s))

unfoldable pub read_rate : String → ℕ → Text → Result ConfigError ℕ
read_rate name default raw = unless_blank raw default (rate_of name)

abbrev pub port_of : Text → Result ConfigError ℕ
port_of s = or_error port_out_of_range (at_most 65535 (positive (parse_int s)))

-- The address `:8888` unless a port is given.
unfoldable pub read_port : Text → Result ConfigError ℕ
read_port raw = unless_blank raw 8888 port_of

unfoldable pub read_bool : Parsers → String → Bool → Text → Result ConfigError Bool
read_bool parsers name default raw =
    unless_blank raw default λ s. or_error (not_a_bool name) (parsers.parse_bool s)

abbrev pub text_or : Text → Text → Text
text_or default raw = if is_empty (trim_space raw) then default else trim_space raw

-- `strings.IndexAny(raw, " \t\r\n") >= 0`
unfoldable pub has_space : Text → Bool
has_space [] = false
has_space (c ∷ s) = nat_beq c 32 || nat_beq c 9 || nat_beq c 13 || nat_beq c 10 || has_space s

abbrev pub environment_of : Text → Result ConfigError Text
environment_of s = if has_space s then err environment_with_space else ok s

unfoldable pub read_environment : Text → Text → Result ConfigError Text
read_environment default raw = unless_blank raw default environment_of

abbrev pub push : ℕ → List Text → List Text
push c [] = (c ∷ []) ∷ []
push c (s ∷ l) = (c ∷ s) ∷ l

-- `strings.Split(raw, ",")`
unfoldable pub split_comma : Text → List Text
split_comma [] = [] ∷ []
split_comma (c ∷ s) = let rest = split_comma s in if nat_beq c b',' then [] ∷ rest else push c rest

abbrev pub trimmed_items : List Text → List Text
trimmed_items [] = []
trimmed_items (s ∷ l) =
    let rest = trimmed_items l in if is_empty (trim_space s) then rest else trim_space s ∷ rest

unfoldable pub split_csv : Text → List Text
split_csv raw = trimmed_items (split_comma raw)

abbrev pub is_origin : Option Url → Bool
is_origin none = false
is_origin (some u) =
    (u.scheme == codes "http" || u.scheme == codes "https")
    && not (is_empty u.host)
    && is_empty u.path
    && is_empty u.raw_query
    && is_empty u.fragment

unfoldable pub valid_origin : Parsers → Text → Bool
valid_origin parsers raw = is_origin (parsers.parse_request_uri raw)

unfoldable pub all_pass : (Text → Bool) → List Text → Bool
all_pass p [] = true
all_pass p (s ∷ l) = p s && all_pass p l

unfoldable pub read_items : (Text → Bool) → ConfigError → Text → Result ConfigError (List Text)
read_items p e raw = if all_pass p (split_csv raw) then ok (split_csv raw) else err e
