-- ===== src/Base.antt =====
-- What the components share: the library's names, passed on, Boolean tests on native numbers,
-- equality as an instance, lists measured by native numbers, and Python's `dict`.
mod Tests
mod Equality
mod Lists
mod Dicts
mod Outcomes
pub use Tests.*
pub use Equality.*
unfoldable pub use Lists.*
unfoldable pub use Outcomes.*
unfoldable pub use Dicts.*
pub use Prim.Native.Nat.{ℕ, zero, suc, ◌+◌, ◌-◌, ◌*◌, ◌^◌, ◌≤◌, ◌<◌}
pub use Prim.Native.String.{String}
pub use mathlib.Core.Path.{◌≡◌, refl, sym, ap, ◌∙◌}
pub use mathlib.Core.Logic.{◌≢◌, ◌↔◌, ◌⊎◌, inl, inr}
pub use mathlib.Core.Bool.{Bool, true, false, not, ◌&&◌, ◌||◌}
pub use mathlib.Core.Option.{Option, none, some}
pub use mathlib.Core.List.{List, [], ◌∷◌, ◌++◌, map}
pub use native.Mathlib.Omega.{arith}
pub use text.Mathlib.TextEquality.{eq_iff}
