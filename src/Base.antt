-- ===== src/Base.antt =====
-- The names that the modules share: the libraries', passed on, and those of the children:
-- equality tests, Boolean tests on numbers, lists under native lengths, and text.
mod Equality
mod Tests
mod Lists
mod Results
pub mod Text
pub mod Sort
pub mod Perms
pub mod Distinct
pub mod Ints
pub mod Visit
unfoldable pub use Equality.*
pub use Tests.*
unfoldable pub use Lists.*
pub use Results.*
pub use Prim.Native.Nat.{ℕ, zero, suc, ◌+◌, ◌-◌, ◌*◌, ◌≤◌, ◌<◌, max, min}
pub use Prim.Native.String.{String, ◌++◌ as ◌<>◌}
pub use mathlib.Core.Path.{◌≡◌, refl, sym, ap, ap₂, ◌∙◌, subst}
pub use mathlib.Core.Logic.{◌≢◌, ◌↔◌, ◌⊎◌, inl, inr}
pub use mathlib.Core.Bool.{Bool, true, false, not, ◌&&◌, ◌||◌}
pub use mathlib.Core.Option.{Option, none, some}
pub use mathlib.Core.List.{List, [], ◌∷◌, ◌++◌, map}
pub use native.Mathlib.Omega.{arith}
