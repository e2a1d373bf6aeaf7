-- ===== src/Prelude.antt =====
-- The names that every module shares: the libraries', passed on, and those of the children below.
mod Tests
mod Lists
mod Integers
mod Keyed
mod Texts
pub mod Decimal
pub mod Outcome
pub use Tests.*
pub use Lists.*
unfoldable pub use Integers.*
unfoldable pub use Keyed.{lookup, insert}
pub use Keyed.{lookup-insert, insert-absent, insert-present, ==_refl}
unfoldable pub use Texts.{trim_space, text_beq, byte_len, to_lower, contains}
pub use Texts.{Text, codes, text_beq_iff, text_eq, is_empty, is_space}
pub use Prim.Native.Nat.{ℕ, zero, suc, ◌+◌, ◌-◌, ◌*◌, ◌/◌, ◌%◌, ◌^◌, ◌≤◌, ◌<◌}
pub use Prim.Native.String.{String}
pub use mathlib.Core.Path.{◌≡◌, refl, sym, ap, subst, ◌∙◌}
pub use mathlib.Core.Logic.{◌≢◌, ◌↔◌, ◌⊎◌, inl, inr}
pub use mathlib.Core.Bool.{Bool, true, false, not, ◌&&◌, ◌||◌}
pub use mathlib.Core.Option.{Option, none, some}
pub use mathlib.Core.List.{List, [], ◌∷◌, ◌++◌, map}
pub use native.Mathlib.Omega.{arith}
