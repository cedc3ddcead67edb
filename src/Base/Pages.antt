-- ===== src/Base/Pages.antt =====
-- The idiom `size -= size % -4096` of the scripts. Python's `%` takes the sign of the divisor, so the
-- remainder is nought or the negated distance to the next multiple of a page.
use Prim.Native.Nat.{ℕ, ◌+◌, ◌-◌, ◌%◌, ◌≤◌, ◌<◌}
use mathlib.Core.Path.{◌≡◌}
use native.Mathlib.Omega.{arith}

unfoldable pub round_up : ℕ → ℕ
round_up size = size + (4096 - size % 4096) % 4096

-- The result is the least multiple of a page that is not below the size.
pub round_up_lem :
    (size : ℕ) → (round_up size % 4096 ≡ 0) × (size ≤ round_up size) × (round_up size < size + 4096)
unfolding round_up
round_up_lem size = (omega arith, omega arith, omega arith)
