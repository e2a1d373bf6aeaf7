-- ===== src/Config/Bounds.antt =====
-- What the program may rely on once its configuration is loaded.
use codex_go_web_api.Prelude.{
  ℕ, zero, suc, ◌<◌, ◌≤◌, ◌≡◌, refl, subst, String, Bool, true, false, Option, none, some, arith,
  if◌then◌else◌, Text, is_empty, trim_space, ℤ, pos, negsuc, List,
}
use codex_go_web_api.Prelude.Outcome.{Result, ok, ok-injective, if-ok, if-true}
use codex_go_web_api.Prelude.Decimal.{parse_int}
use codex_go_web_api.Config.{
  Parsers, ConfigError, not_a_positive_duration, not_a_positive_integer, not_up_to,
  port_out_of_range, duration_of, count_of, rate_of, port_of, environment_of, positive, at_most,
  or_error, unless_blank, read_port, read_duration, read_count, read_rate, read_environment,
  read_items, all_pass, has_space, split_csv,
}
use codex_go_web_api.Config.Stages.{refuse}

positive-pos : (o : Option ℤ) (n : ℕ) → positive o ≡ some n → 0 < n
positive-pos none n h = cc
positive-pos (some (pos zero)) n h = cc
positive-pos (some (pos (suc m))) n h = ground arith
positive-pos (some (negsuc m)) n h = cc

or_error-ok : (e : ConfigError) (o : Option ℕ) (n : ℕ) → or_error e o ≡ ok n → o ≡ some n
or_error-ok e none n h = cc
or_error-ok e (some m) n h = ground arith

at_most-ok :
    (bound : ℕ) (o : Option ℤ) (n : ℕ) → at_most bound (positive o) ≡ some n → (0 < n) × (n ≤ bound)
at_most-ok bound none n h = cc
at_most-ok bound (some (pos zero)) n h = cc
at_most-ok bound (some (pos (suc m))) n h = ground arith
at_most-ok bound (some (negsuc m)) n h = cc

-- A value is the default or what a variable that is not blank reads as.
unless_blank-cases :
    {A : Type 0} (P : A → Type 0) (raw : Text) (default a : A) (read : Text → Result ConfigError A)
    → P default
    → ((s : Text) → read s ≡ ok a → P a)
    → unless_blank raw default read ≡ ok a
    → P a
unless_blank-cases P raw default a read base given h = choose (is_empty (trim_space raw)) h
  where
    choose : (b : Bool) → (if b then ok default else read (trim_space raw)) ≡ ok a → P a
    choose true e = subst P (ok-injective default a e) base
    choose false e = given (trim_space raw) e

pub read_duration-pos :
    (parsers : Parsers) (name : String) (default n : ℕ) (raw : Text)
    → 0 < default
    → read_duration parsers name default raw ≡ ok n
    → 0 < n
unfolding read_duration
read_duration-pos parsers name default n raw p =
    unless_blank-cases (λ m. 0 < m) raw default n (duration_of parsers name) p
      λ s e.
        positive-pos (parsers.parse_duration s) n (or_error-ok (not_a_positive_duration name) _ n e)

pub read_rate-pos :
    (name : String) (default n : ℕ) (raw : Text)
    → 0 < default
    → read_rate name default raw ≡ ok n
    → 0 < n
unfolding read_rate
read_rate-pos name default n raw p =
    unless_blank-cases (λ m. 0 < m) raw default n (rate_of name) p
      λ s e. positive-pos (parse_int s) n (or_error-ok (not_a_positive_integer name) _ n e)

abbrev pub Within : ℕ → ℕ → Type 0
Within bound n = (0 < n) × (n ≤ bound)

pub read_count-Within :
    (name : String) (bound default n : ℕ) (raw : Text)
    → Within bound default
    → read_count name bound default raw ≡ ok n
    → Within bound n
unfolding read_count
read_count-Within name bound default n raw p =
    unless_blank-cases (Within bound) raw default n (count_of name bound) p
      λ s e. at_most-ok bound (parse_int s) n (or_error-ok (not_up_to name bound) _ n e)

pub read_port-Within : (n : ℕ) (raw : Text) → read_port raw ≡ ok n → Within 65535 n
unfolding read_port
read_port-Within n raw =
    unless_blank-cases (Within 65535) raw 8888 n port_of (omega arith, omega arith)
      λ s e. at_most-ok 65535 (parse_int s) n (or_error-ok port_out_of_range _ n e)

pub read_environment-spaceless :
    (default s raw : Text)
    → has_space default ≡ false
    → read_environment default raw ≡ ok s
    → has_space s ≡ false
unfolding read_environment
read_environment-spaceless default s raw p =
    unless_blank-cases (λ t. has_space t ≡ false) raw default s environment_of p
      λ t e. ground (arith, e)

pub read_items-pass :
    (p : Text → Bool) (e : ConfigError) (raw : Text) (l : List Text)
    → read_items p e raw ≡ ok l
    → all_pass p l ≡ true
unfolding read_items
read_items-pass p e raw l h =
    subst (λ k. all_pass p k ≡ true) (ok-injective _ l (if-ok (all_pass p (split_csv raw)) _ _ _ h))
      (if-true (all_pass p (split_csv raw)) _ _ _ h)

pub refuse-false : (b : Bool) (e : ConfigError) (u : Unit {0}) → refuse b e ≡ ok u → b ≡ false
refuse-false true e u h = cc
refuse-false false e u h = refl
