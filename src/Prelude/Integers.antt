-- ===== src/Prelude/Integers.antt =====
-- Go's int64 values that may be negative: only their sign, order and equality are used.
use Prim.Native.Nat.{ℕ, zero, suc, ◌+◌, ◌%◌, ◌<◌}
use mathlib.Core.Path.{◌≡◌, refl}
use mathlib.Core.Bool.{Bool, true, false}
use mathlib.Core.Logic.{◌↔◌}
use native.Mathlib.Omega.{arith}
use codex_go_web_api.Prelude.Tests.{Eq, nat_beq}

-- `negsuc n` is -(n + 1).
pub data ℤ : Type 0 where
  pos : ℕ → ℤ
  negsuc : ℕ → ℤ

-- `0 < a`
abbrev pub is_pos : ℤ → Bool
is_pos (pos zero) = false
is_pos (pos (suc n)) = true
is_pos (negsuc n) = false

abbrev pub int_beq : ℤ → ℤ → Bool
int_beq (pos a) (pos b) = nat_beq a b
int_beq (pos a) (negsuc b) = false
int_beq (negsuc a) (pos b) = false
int_beq (negsuc a) (negsuc b) = nat_beq a b

pub int_beq_iff : (a b : ℤ) → (int_beq a b ≡ true) ↔ (a ≡ b)
int_beq_iff (pos a) (pos b) = ground arith
int_beq_iff (pos a) (negsuc b) = ground arith
int_beq_iff (negsuc a) (pos b) = ground arith
int_beq_iff (negsuc a) (negsuc b) = ground arith

pub int_beq_sym : (a b : ℤ) → int_beq a b ≡ int_beq b a
int_beq_sym (pos a) (pos b) = ground arith
int_beq_sym (pos a) (negsuc b) = refl
int_beq_sym (negsuc a) (pos b) = refl
int_beq_sym (negsuc a) (negsuc b) = ground arith

instance abbrev pub int_eq : Eq ℤ
int_eq = record { beq = int_beq; beq_iff = int_beq_iff }

-- The bit patterns of int64, and `n++` on one.
abbrev pub two_63 : ℕ
two_63 = 9_223_372_036_854_775_808

unfoldable pub inc64 : ℕ → ℕ
inc64 n = (n + 1) % 18_446_744_073_709_551_616

pub inc64_lem : (n : ℕ) → n + 1 < two_63 → inc64 n ≡ n + 1
unfolding inc64
inc64_lem n h = omega arith
