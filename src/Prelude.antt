-- ===== src/Prelude.antt =====
-- Shared names: the libraries', passed on, and those of the children (tests on numbers, lists
-- measured by native numbers, machine words).
mod Tests
mod Lists
mod Words
mod Counts
mod Sorted
mod Masks
mod Congruence
pub use Tests.*
pub use Lists.*
pub use Words.*
pub use Counts.*
pub use Sorted.*
pub use Masks.*
pub use Congruence.*
pub use Prim.Native.Nat.{
  ℕ, zero, suc, ◌+◌, ◌-◌, ◌*◌, ◌/◌, ◌%◌, ◌^◌, ◌≤◌, ◌<◌, min, max, bit_and, bit_or, bit_xor,
}
pub use mathlib.Core.Path.{◌≡◌, refl, sym, ap, ◌∙◌, subst}
pub use mathlib.Core.Logic.{◌≢◌, ◌↔◌, ◌⊎◌, inl, inr}
pub use mathlib.Core.Bool.{Bool, true, false, ◌&&◌, ◌||◌, not}
pub use mathlib.Core.Option.{Option, none, some}
pub use mathlib.Core.List.{List, [], ◌∷◌, ◌++◌, map, reverse}
pub use native.Mathlib.Omega.{arith}
