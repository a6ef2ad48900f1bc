-- ===== src/Base.antt =====
-- Names that the modules of the library share: those of the libraries, passed on, Boolean tests on
-- numbers, lists indexed by numbers, signed integers and the sequencing of undefined behaviour.
mod Tests
mod Lists
mod Int
mod Partial
pub use Tests.*
pub use Lists.*
unfoldable pub use Int.*
pub use Partial.*
pub use Prim.Native.Nat.{ℕ, zero, suc, ◌+◌, ◌-◌, ◌*◌, ◌/◌, ◌%◌, ◌^◌, ◌≤◌, ◌<◌}
pub use mathlib.Core.Path.{◌≡◌, refl, sym, ap, ◌∙◌, subst}
pub use mathlib.Core.Logic.{◌≢◌, ◌↔◌, ◌⊎◌, inl, inr}
pub use mathlib.Core.Bool.{Bool, true, false, not, ◌&&◌, ◌||◌}
pub use mathlib.Core.Option.{Option, none, some}
pub use mathlib.Core.List.{List, [], ◌∷◌, ◌++◌, map}
pub use native.Mathlib.Omega.{arith}
