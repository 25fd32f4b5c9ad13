-- ===== src/Prelude.antt =====
-- Names that every module shares: the libraries', passed on, and those of the children: Boolean
-- tests, lists measured by native numbers, integers, equality tests, results and
-- dictionaries.
mod Tests
mod Lists
mod Int
mod Equality
mod Results
mod Dicts
mod Counts
pub use Tests.*
pub use Lists.*
unfoldable pub use Int.*
pub use Equality.*
pub use Results.*
pub use Counts.*
pub use Dicts.*
pub use Prim.Native.Nat.{ℕ, zero, suc, ◌+◌, ◌-◌, ◌*◌, ◌≤◌, ◌<◌, min, max}
pub use Prim.Native.String.{String}
pub use mathlib.Core.Path.{◌≡◌, refl, sym, ap, ◌∙◌, subst}
pub use mathlib.Core.Logic.{◌≢◌, ◌↔◌, ◌⊎◌, inl, inr}
pub use mathlib.Core.Bool.{Bool, true, false, ◌&&◌, ◌||◌, not}
pub use mathlib.Core.Option.{Option, none, some}
pub use mathlib.Core.List.{List, [], ◌∷◌, ◌++◌, map}
pub use native.Mathlib.Omega.{arith}
