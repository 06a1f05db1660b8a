-- ===== src/Common.antt =====
-- The names that the other modules share: the libraries', passed on, the Boolean tests, the native
-- list operations and the errors of app/core/exceptions.py.
mod Tests
mod Lists
mod Errors
mod Integers
mod Keys
pub mod Text
pub mod Json
pub mod Decimal
pub use Tests.*
pub use Lists.*
pub use Keys.*
pub use Errors.*
pub use Integers.*
pub use Prim.Native.Nat.{ℕ, zero, suc, ◌+◌, ◌-◌, ◌*◌, ◌/◌, ◌%◌, ◌^◌, ◌≤◌, ◌<◌, min, max}
pub use mathlib.Core.Path.{◌≡◌, refl, sym, ap, subst, ◌∙◌}
pub use mathlib.Core.Logic.{◌≢◌, ◌↔◌, ◌⊎◌, inl, inr}
pub use mathlib.Core.Bool.{Bool, true, false, not, ◌&&◌, ◌||◌}
pub use mathlib.Core.Option.{Option, none, some}
pub use mathlib.Core.List.{List, [], ◌∷◌, ◌++◌, map}
pub use native.Mathlib.Omega.{arith}
