-- ===== src/Mugenmanifest/Sorted.antt =====
-- The order of the rows of the manifest.
use mathlib.Core.List.{Perm}
use mathlib.Core.List.Perm
use muen.Base.{List, [], ◌∷◌, true, All}
use muen.Base.{ℤ, ◌≡◌}
use muen.Base.{int_leb}

module _ {A : Type 0} where
  -- No item has a greater key than one behind it.
  abbrev pub IsSorted : List (ℤ × A) → Type 0
  IsSorted [] = Unit
  IsSorted (a ∷ rest) = All (λ b. int_leb a.0 b.0 ≡ true) rest × IsSorted rest
