-- ===== src/Base/Decimal.antt =====
-- Python's `str` at an integer.
use Prim.Native.Nat.{ℕ, zero, suc, ◌+◌, ◌/◌, ◌%◌}
use mathlib.Core.Bool.{true, false}
use mathlib.Core.List.{[], ◌∷◌}
use muen.Base.Int.{ℤ, pos, negsuc}
use muen.Base.Tests.{eqb}
use muen.Base.Text.{Str}

-- The decimal digits of `n` in front of `out`; `fuel` rounds are enough if `n` is at most `fuel`.
unfoldable pub decimal_digits : ℕ → ℕ → Str → Str
decimal_digits zero n out = out
decimal_digits (suc fuel) n out = elim (eqb n 0) [
  | true ↦ out
  | false ↦ decimal_digits fuel (n / 10) ((b'0' + n % 10) ∷ out)
]

-- `str(i)` at a number above nought
abbrev pub decimal : ℕ → Str
decimal i = decimal_digits i i []

abbrev pub int_text : ℤ → Str
int_text (pos zero) = b'0' ∷ []
int_text (pos (suc n)) = decimal (suc n)
int_text (negsuc n) = b'-' ∷ decimal (suc n)
