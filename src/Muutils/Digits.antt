-- ===== src/Muutils/Digits.antt =====
-- Python's `hex` and `int(_, 16)` against each other.
use muen.Base.{ℕ, zero, suc, ◌/◌, ◌%◌, ◌<◌, ◌≤◌, ◌≡◌, ◌≢◌, ◌⊎◌, arith}
use muen.Base.{Str, [], ◌∷◌, some, ok, pos}
use muen.Base.{All, Bool-cases, inl, inr, eqb}
use muen.Base.Text.{whitespace}
use muen.Base.Text.Laws.{Avoids, strip_self}
use muen.Muutils.Hex.{hex_digit, hex_digits, digit_value, value_from, signed, int_base_16}

-- The digits that `hex` writes.
abbrev pub IsHexDigit : ℕ → Type 0
IsHexDigit c = (b'0' ≤ c) × (c ≤ b'9') ⊎ (b'a' ≤ c) × (c ≤ b'f')

digit_value-hex_digit : (d : ℕ) → d < 16 → digit_value (hex_digit d) ≡ some d
unfolding digit_value
digit_value-hex_digit d h = ground arith

hex_digit-IsHexDigit : (d : ℕ) → d < 16 → IsHexDigit (hex_digit d)
hex_digit-IsHexDigit d h = ground arith

pub hex_digits-IsHexDigit :
    (fuel n : ℕ) (out : Str) → All IsHexDigit out → All IsHexDigit (hex_digits fuel n out)
unfolding hex_digits
hex_digits-IsHexDigit zero n out h = h
hex_digits-IsHexDigit (suc fuel) n out h = elim (Bool-cases (eqb n 0)) [
  | inl e ↦ rw (e, hex_digits) h
  | inr e ↦
      rw (e, hex_digits)
        (hex_digits-IsHexDigit fuel (n / 16) (hex_digit (n % 16) ∷ out)
          (hex_digit-IsHexDigit (n % 16) (omega arith), h))
]

-- The digits of `n`, read behind nothing, leave `n` as the number so far.
pub value_from-hex_digits :
    (fuel n : ℕ) (out : Str) → n ≤ fuel → value_from (hex_digits fuel n out) 0 ≡ value_from out n
unfolding hex_digits value_from
value_from-hex_digits zero n out h = ground arith
value_from-hex_digits (suc fuel) n out h = ground (
  arith,
  value_from-hex_digits fuel (n / 16) (hex_digit (n % 16) ∷ out),
  digit_value-hex_digit (n % 16),
)

hex_digits_last :
    (fuel n : ℕ) (out : Str)
    → 0 < n
    → n / 16 ≡ 0
    → hex_digits (suc fuel) n out ≡ hex_digit (n % 16) ∷ out
unfolding hex_digits
hex_digits_last zero n out p e = ground arith
hex_digits_last (suc fuel) n out p e = ground arith

-- A positive number has a first digit, and it is not zero.
pub hex_digits-cons :
    (fuel n : ℕ) (out : Str)
    → 0 < n
    → n ≤ fuel
    → (c : ℕ) × (r : Str) × (hex_digits fuel n out ≡ c ∷ r) × IsHexDigit c × (c ≢ b'0')
unfolding hex_digits
hex_digits-cons zero n out p h = absurd (omega arith)
hex_digits-cons (suc fuel) n out p h = elim (Bool-cases (eqb (n / 16) 0)) [
  | inl e ↦ (
    hex_digit (n % 16),
    out,
    hex_digits_last fuel n out p (ground arith),
    hex_digit-IsHexDigit (n % 16) (omega arith),
    ground arith,
  )
  | inr e ↦
      let (c, r, q, d, z) =
        hex_digits-cons fuel (n / 16) (hex_digit (n % 16) ∷ out) (ground arith) (omega arith) in
      (c, r, ground arith, d, z)
]

hex_digits-Avoids : (s : Str) → All IsHexDigit s → Avoids whitespace s
hex_digits-Avoids [] h = tt
hex_digits-Avoids (c ∷ s) h = (ground arith, hex_digits-Avoids s h.1)

signed-digits :
    (c : ℕ) (r : Str) (n : ℕ)
    → All IsHexDigit (c ∷ r)
    → value_from (c ∷ r) 0 ≡ some n
    → signed (c ∷ r) ≡ ok (pos n)
unfolding signed
signed-digits c [] n h v = ground arith
signed-digits c (d ∷ r) n h v = ground arith

-- A text of digits is read as its value.
pub int_base_16-digits :
    (c : ℕ) (r : Str) (n : ℕ)
    → All IsHexDigit (c ∷ r)
    → value_from (c ∷ r) 0 ≡ some n
    → int_base_16 (c ∷ r) ≡ ok (pos n)
unfolding int_base_16
int_base_16-digits c r n h v =
    rw (strip_self (c ∷ r) (hex_digits-Avoids (c ∷ r) h)) (signed-digits c r n h v)
