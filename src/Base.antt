-- ===== src/Base.antt =====
-- Shared by every module: the libraries' names passed on, Boolean tests, lists measured by native
-- numbers, JavaScript texts and objects, and the outcome of a callback chain.
mod Tests
mod Lists
pub mod Texts
pub mod Objects
pub mod Sorting
mod Outcomes
pub use Tests.*
pub use Lists.*
pub use Outcomes.*
pub use Texts.{Text, codes, text_eq, text_eq_iff}
unfoldable pub use Texts.{text_dec}
pub use Prim.Native.Nat.{ℕ, zero, suc, ◌+◌, ◌-◌, ◌*◌, ◌/◌, ◌%◌, ◌≤◌, ◌<◌}
pub use mathlib.Core.Path.{◌≡◌, refl, sym, ap, ◌∙◌, subst}
pub use mathlib.Core.Logic.{◌≢◌, ◌↔◌, ◌⊎◌, inl, inr}
pub use mathlib.Core.Bool.{Bool, true, false, ◌&&◌, ◌||◌, not}
pub use mathlib.Core.Option.{Option, none, some}
pub use mathlib.Core.List.{List, [], ◌∷◌, ◌++◌, map}
pub use native.Mathlib.Omega.{arith}
