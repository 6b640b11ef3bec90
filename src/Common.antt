-- ===== src/Common.antt =====
-- The names that the other modules share: the libraries', passed on, Boolean tests and lists.
mod Tests
mod Lists
mod Text
pub mod Tables
pub mod Counting
pub mod Parts
unfoldable pub use Tests.{substring, codes, to_lower, starts_with}
unfoldable pub use Lists.{find, select, update_where}
pub use Tests.*
pub use Lists.*
unfoldable pub use Text.{is_space, trim_start, trim_end, trim, decimal, split}
pub use Text.*
pub use Prim.Native.Nat.{ℕ, zero, suc, ◌+◌, ◌-◌, ◌*◌, ◌/◌, ◌%◌, ◌^◌, ◌≤◌, ◌<◌}
pub use Prim.Native.String.{String}
pub use mathlib.Core.Path.{◌≡◌, refl, sym, ap, subst, ◌∙◌}
pub use mathlib.Core.Logic.{◌≢◌, ◌↔◌, ◌⊎◌, inl, inr}
pub use mathlib.Core.Bool.{Bool, true, false, not, ◌&&◌, ◌||◌}
pub use mathlib.Core.Option.{Option, none, some}
pub use mathlib.Core.List.{List, [], ◌∷◌, ◌++◌, map}
pub use native.Mathlib.Omega.{arith}
pub use text.Mathlib.Text.{◌==◌ as str_eq}
pub use text.Mathlib.TextEquality.{eq_iff as str_eq_iff}
