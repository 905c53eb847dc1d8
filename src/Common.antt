-- ===== src/Common.antt =====
-- The names that the modules share: the libraries' names passed on, Boolean tests on the native
-- numbers, and lists measured by them.
mod Tests
mod Lists
mod Integers
mod Pigeonhole
pub use Tests.*
pub use Lists.*
pub use Integers.*
pub use Pigeonhole.{Distinct, length-Distinct}
pub use Prim.Native.Nat.{ℕ, zero, suc, ◌+◌, ◌-◌, ◌*◌, ◌/◌, ◌%◌, ◌≤◌, ◌<◌}
pub use mathlib.Core.Path.{◌≡◌, refl, sym, ap, ap₂, subst, ◌∙◌}
pub use mathlib.Core.Logic.{◌≢◌, ◌↔◌, ◌⊎◌, inl, inr}
pub use mathlib.Core.Bool.{Bool, true, false, not, ◌&&◌, ◌||◌}
pub use mathlib.Core.Option.{Option, none, some}
pub use mathlib.Core.List.{List, [], ◌∷◌, ◌++◌}
pub use native.Mathlib.Omega.{arith}
