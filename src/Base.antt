-- ===== src/Base.antt =====
-- The names that the other modules share: the libraries', passed on, and those of the children:
-- tests and equality, lists under native indices, Python's `str`, and results with exceptions.
mod Tests
mod Lists
mod Equality
pub mod Text
mod Sets
pub mod Dict
mod Errors
mod Int
pub mod Pages
pub mod Decimal
pub use Tests.*
pub use Lists.*
pub use Equality.*
unfoldable pub use Sets.*
unfoldable pub use Errors.*
pub use Int.*
pub use Text.{Str, codes}
pub use Prim.Native.Nat.{ℕ, zero, suc, ◌+◌, ◌-◌, ◌*◌, ◌/◌, ◌%◌, ◌^◌, ◌≤◌, ◌<◌}
pub use Prim.Native.String.{String}
pub use mathlib.Core.Path.{◌≡◌, refl, sym, ap, ◌∙◌}
pub use mathlib.Core.Logic.{◌≢◌, ◌↔◌, ◌⊎◌, inl, inr}
pub use mathlib.Core.Bool.{Bool, true, false, not, ◌&&◌, ◌||◌}
pub use mathlib.Core.Option.{Option, none, some}
pub use mathlib.Core.List.{List, [], ◌∷◌, ◌++◌, map}
pub use native.Mathlib.Omega.{arith}
