-- ===== src/Base.antt =====
-- The names that the other modules share: those of the libraries, passed on, and the tests, sets,
-- dictionaries and list lemmas of the children.
pub mod Tests
pub mod Lists
pub mod Sets
pub mod Dicts
pub mod Errors
pub mod Texts
pub mod Rotation
pub mod Loops
pub mod Search
pub mod Cases
pub use Tests.*
pub use Lists.*
unfoldable pub use Sets.*
unfoldable pub use Dicts.*
pub use Errors.*
pub use Cases.*
unfoldable pub use Texts.*
pub use Prim.Native.Nat.{ℕ, zero, suc, ◌+◌, ◌-◌, ◌*◌, ◌/◌, ◌%◌, ◌≤◌, ◌<◌}
pub use Prim.Native.String.{String}
pub use mathlib.Core.Path.{◌≡◌, refl, sym, ap, ◌∙◌, subst}
pub use mathlib.Core.Logic.{◌≢◌, ◌↔◌, ◌⊎◌, inl, inr}
pub use mathlib.Core.Bool.{Bool, true, false, not, ◌&&◌, ◌||◌}
pub use mathlib.Core.Option.{Option, none, some}
pub use mathlib.Core.List.{List, [], ◌∷◌, ◌++◌, map}
pub use native.Mathlib.Omega.{arith}
pub use text.Mathlib.TextEquality.{eq_iff}
