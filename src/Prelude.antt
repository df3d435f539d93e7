-- ===== src/Prelude.antt =====
-- The names that the other modules share: the libraries', passed on, and those of four children.
mod Tests
mod Lists
mod Errors
mod Numbers
mod Text
pub mod Decimal
pub mod Sorting
pub mod TextSets
pub mod Selections
pub mod Traced
pub use Tests.*
pub use Lists.*
pub use Errors.*
pub use Numbers.*
unfoldable pub use Text.{
  units, is_empty, units_eq, compare_units, is_digit, is_digest, eat_digits, eat, span_digits,
  is_space, trim, split,
}
pub use Text.{units_eq_refl, eq_of_units_eq, HasNo, split-HasNo, split-first}
pub use Prim.Native.Nat.{
  ℕ, zero, suc, ◌+◌, ◌-◌, ◌*◌, ◌/◌, ◌%◌, ◌^◌, ◌≤◌, ◌<◌, min, max, Ordering, compare,
}
pub use Prim.Native.String.{String}
pub use mathlib.Core.Path.{◌≡◌, refl, sym, ap, ◌∙◌}
pub use mathlib.Core.Logic.{◌≢◌, ◌↔◌, ◌⊎◌, inl, inr}
pub use mathlib.Core.Bool.{Bool, true, false, not, ◌&&◌, ◌||◌}
pub use mathlib.Core.Option.{Option, none, some}
pub use mathlib.Core.List.{List, [], ◌∷◌, ◌++◌, map}
pub use native.Mathlib.Omega.{arith}
