-- ===== src/Prelude/Decimal.antt =====
-- strconv.FormatInt and strconv.ParseInt at base 10, on code points.
use codex_go_web_api.Prelude.{
  ℕ, zero, suc, ◌+◌, ◌-◌, ◌*◌, ◌/◌, ◌%◌, ◌<◌, ◌≡◌, refl, true, false, ◌&&◌, Option, none, some, [],
  ◌∷◌, arith, ltb, leb, nat_beq, if◌then◌else◌, Text, codes, ℤ, pos, negsuc, two_63, is_empty,
}

-- The digits of `n` in front of `acc`; `n` rounds are more than enough.
digits_onto : ℕ → ℕ → Text → Text
digits_onto zero n acc = acc
digits_onto (suc f) n acc =
    let more = digits_onto f (n / 10) ((48 + n % 10) ∷ acc) in
    if ltb n 10 then (48 + n) ∷ acc else more

unfoldable pub format_int : ℕ → Text
unfolding digits_onto
format_int n = digits_onto (suc n) n []

parse_digits : ℕ → Text → Option ℕ
parse_digits a [] = some a
parse_digits a (c ∷ s) =
    let more = parse_digits (a * 10 + (c - 48)) s in if leb 48 c && leb c 57 then more else none

parse_unsigned : Text → Option ℕ
parse_unsigned s = if is_empty s then none else parse_digits 0 s

abbrev at_most : ℕ → Option ℕ → Option ℕ
at_most bound none = none
at_most bound (some n) = if leb n bound then some n else none

abbrev negated : ℕ → ℤ
negated zero = pos 0
negated (suc n) = negsuc n

abbrev as_pos : Option ℕ → Option ℤ
as_pos none = none
as_pos (some n) = some (pos n)

abbrev as_neg : Option ℕ → Option ℤ
as_neg none = none
as_neg (some n) = some (negated n)

-- One sign, then digits alone; a value outside int64 is an error.
unfoldable pub parse_int : Text → Option ℤ
unfolding parse_unsigned parse_digits
parse_int [] = none
parse_int (c ∷ s) =
    if nat_beq c b'-'
    then as_neg (at_most two_63 (parse_unsigned s))
    else if nat_beq c b'+'
    then as_pos (at_most (two_63 - 1) (parse_unsigned s))
    else as_pos (at_most (two_63 - 1) (parse_unsigned (c ∷ s)))

parse-digits_onto :
    (f n : ℕ) (acc : Text) → n < f → parse_digits 0 (digits_onto f n acc) ≡ parse_digits n acc
unfolding parse_digits digits_onto
parse-digits_onto zero n acc h = absurd (omega arith)
parse-digits_onto (suc f) n acc h =
    ground (arith, parse-digits_onto f (n / 10) ((48 + n % 10) ∷ acc))

-- The first code point of a number is a digit.
abbrev StartsWithDigit : Text → Type 0
StartsWithDigit [] = ⊥
StartsWithDigit (c ∷ s) = (leb 48 c && leb c 57) ≡ true

digits_onto-StartsWithDigit : (f n : ℕ) (acc : Text) → n < f → StartsWithDigit (digits_onto f n acc)
unfolding digits_onto
digits_onto-StartsWithDigit zero n acc h = absurd (omega arith)
digits_onto-StartsWithDigit (suc f) n acc h =
    ground (arith, digits_onto-StartsWithDigit f (n / 10) ((48 + n % 10) ∷ acc))

parse_int-StartsWithDigit :
    (s : Text) → StartsWithDigit s → parse_int s ≡ as_pos (at_most (two_63 - 1) (parse_digits 0 s))
unfolding parse_int
parse_int-StartsWithDigit [] h = absurd h
parse_int-StartsWithDigit (c ∷ s) h = ground arith

is_empty-StartsWithDigit : (s : Text) → StartsWithDigit s → is_empty s ≡ false
is_empty-StartsWithDigit [] h = absurd h
is_empty-StartsWithDigit (c ∷ s) h = refl

parse-format : (n : ℕ) → parse_digits 0 (format_int n) ≡ some n
unfolding format_int parse_digits
parse-format n = parse-digits_onto (suc n) n [] (omega arith)

-- A printed number is never the empty text.
pub is_empty-format_int : (n : ℕ) → is_empty (format_int n) ≡ false
unfolding format_int
is_empty-format_int n =
    is_empty-StartsWithDigit _ (digits_onto-StartsWithDigit (suc n) n [] (omega arith))

-- Printing an int64 that is not negative and parsing it gives it back.
pub parse_int-format_int : (n : ℕ) → n < two_63 → parse_int (format_int n) ≡ some (pos n)
parse_int-format_int n h =
    rw
      (parse_int-StartsWithDigit (format_int n)
        (unfold format_int in digits_onto-StartsWithDigit (suc n) n [] (omega arith)))
      (rw (parse-format n) (ground arith))

format_900 : (format_int 900 ≡ codes "900") × (parse_int (codes "-12") ≡ some (negsuc 11))
unfolding format_int parse_int
format_900 = (refl, refl)
