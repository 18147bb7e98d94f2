-- ===== src/Base.antt =====
-- Names shared by every module: the libraries', passed on, and those of the children. `Tests` holds
-- the Boolean tests, `Lists` lists measured by native numbers, `Int` the signed integers, `Word` the
-- machine integers of the C++ code, and `Roe` its result type (lib/common/ResultOrError.hpp).
mod Tests
mod Lists
pub mod Int
pub mod Word
pub mod Roe
pub use Tests.*
pub use Lists.*
unfoldable pub use Int.*
pub use Prim.Native.Nat.{ℕ, zero, suc, ◌+◌, ◌-◌, ◌*◌, ◌/◌, ◌%◌, ◌^◌, ◌≤◌, ◌<◌}
pub use mathlib.Core.Path.{◌≡◌, refl, sym, ap, ◌∙◌, subst}
pub use mathlib.Core.Logic.{◌≢◌, ◌↔◌, ◌⊎◌, inl, inr}
pub use mathlib.Core.Bool.{Bool, true, false, ◌&&◌, ◌||◌, not}
pub use mathlib.Core.Option.{Option, none, some}
pub use mathlib.Core.List.{List, [], ◌∷◌, ◌++◌, map}
pub use native.Mathlib.Omega.{arith}
unfoldable pub use native.Mathlib.Decide.{dec_lt, ℕ_discrete}
