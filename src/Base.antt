-- ===== src/Base.antt =====
-- The names that the modules share: those of the libraries, passed on, and those of its children.
mod Tests
mod Lists
mod Words
mod Keys
mod Equality
mod Integers
pub use Tests.*
pub use Lists.*
pub use Words.*
pub use Keys.*
unfoldable pub use Equality.*
pub use Integers.*
pub use Prim.Native.Nat.{
  Ordering, ℕ, zero, suc, ◌+◌, ◌-◌, ◌*◌, ◌^◌, ◌/◌, ◌%◌, compare, ◌≤◌, ◌<◌, min, max,
}
pub use Prim.Native.String.{String}
pub use mathlib.Core.Path.{◌≡◌, refl, sym, ap, subst, ◌∙◌}
pub use mathlib.Core.Logic.{◌≢◌, ◌↔◌, ◌⊎◌, inl, inr}
pub use mathlib.Core.Bool.{Bool, true, false, not, ◌&&◌, ◌||◌}
pub use mathlib.Core.Option.{Option, none, some}
pub use mathlib.Core.List.{List, [], ◌∷◌, ◌++◌, map}
pub use native.Mathlib.Omega.{arith}
pub use text.Mathlib.Text.{◌==◌ as str_eq}
pub use text.Mathlib.TextEquality.{eq_iff}
