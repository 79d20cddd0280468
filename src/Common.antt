-- ===== src/Common.antt =====
-- The names that the components share: the libraries', passed on, and those of the children.
mod Tests
mod Lists
mod Text
mod Monad
mod Dict
mod Integers
pub mod Among
pub mod Strings
pub mod Checks
pub mod Returns
pub use Tests.*
pub use Monad.*
pub use Lists.*
pub use Integers.*
unfoldable pub use Dict.{lookup, insert}
pub use Dict.{lookup-insert}
unfoldable pub use Text.{
  split, join, split_comma, join_comma, is_space, lstrip, rstrip, strip, int, lower_eq,
}
pub use Text.{
  comma, Lacks, AllLack, split-join_comma, join-split_comma, ℤ, pos, negsuc, same_letter,
}
pub use Prim.Native.Nat.{ℕ, zero, suc, ◌+◌, ◌-◌, ◌*◌, ◌/◌, ◌%◌, ◌≤◌, ◌<◌, min}
pub use Prim.Native.Char.{Char, code}
pub use Prim.Native.String.{String, ◌++◌ as ◌⧺◌}
pub use mathlib.Core.Path.{◌≡◌, refl, sym, ap, ◌∙◌}
pub use mathlib.Core.Logic.{◌≢◌, ◌↔◌, ◌⊎◌, inl, inr}
pub use mathlib.Core.Bool.{Bool, true, false, not, ◌&&◌, ◌||◌}
pub use mathlib.Core.Option.{Option, none, some}
pub use mathlib.Core.List.{List, [], ◌∷◌, ◌++◌, map}
pub use native.Mathlib.Omega.{arith}
pub use text.Mathlib.TextEquality.{eq_iff}
