-- ===== src/Muutils/Hex.antt =====
-- What muutils.py uses of Python's built-ins: `hex(n)` and `int(s, 16)`, over ASCII text. Digits of
-- other scripts and underscores between digits, which `int` also takes, are left out: the caller
-- removes every underscore, and the policies are ASCII.
use muen.Base.{ℕ, zero, suc, ◌+◌, ◌-◌, ◌*◌, ◌/◌, ◌%◌, true, false, ◌&&◌, ◌||◌}
use muen.Base.{[], ◌∷◌, ◌++◌, Option, none, some, Str, codes, ℤ, pos, negsuc, negate}
use muen.Base.{if◌then◌else◌, eqb, leb, ltb, drop}
use muen.Base.{Result, ok, err, value_error, ◌>>=◌}
use muen.Base.Text.{starts_with, strip}

-- The character of a digit below sixteen.
abbrev pub hex_digit : ℕ → ℕ
hex_digit d = if ltb d 10 then b'0' + d else b'a' + (d - 10)

-- The digits of `n` in front of `out`; `fuel` rounds are enough if `n` is at most `fuel`.
unfoldable pub hex_digits : ℕ → ℕ → Str → Str
hex_digits zero n out = out
hex_digits (suc fuel) n out = elim (eqb n 0) [
  | true ↦ out
  | false ↦ hex_digits fuel (n / 16) (hex_digit (n % 16) ∷ out)
]

abbrev hex_magnitude : ℕ → Str
hex_magnitude n = codes "0x" ++ (if eqb n 0 then codes "0" else hex_digits n n [])

unfoldable pub hex : ℤ → Str
unfolding hex_digits
hex (pos n) = hex_magnitude n
hex (negsuc n) = b'-' ∷ hex_magnitude (n + 1)

unfoldable pub digit_value : ℕ → Option ℕ
digit_value c =
    if leb b'0' c && leb c b'9'
    then some (c - b'0')
    else if leb b'a' c && leb c b'f'
    then some (c - b'a' + 10)
    else if leb b'A' c && leb c b'F'
    then some (c - b'A' + 10)
    else none

unfoldable pub value_from : Str → ℕ → Option ℕ
unfolding digit_value
value_from [] n = some n
value_from (c ∷ s) n = elim (digit_value c) [ none ↦ none | some d ↦ value_from s (n * 16 + d) ]

-- At least one digit, behind an optional prefix.
unfoldable pub magnitude : Str → Result ℕ
unfolding value_from
magnitude s =
    let t = if starts_with s (codes "0x") || starts_with s (codes "0X") then drop 2 s else s in
    elim t [
      | [] ↦ err (value_error (codes "invalid literal for int() with base 16"))
      | c ∷ r ↦ elim (value_from (c ∷ r) 0) [
        | none ↦ err (value_error (codes "invalid literal for int() with base 16"))
        | some n ↦ ok n
      ]
    ]

unfoldable pub signed : Str → Result ℤ
unfolding magnitude
signed [] = err (value_error (codes "invalid literal for int() with base 16"))
signed (c ∷ s) =
    if eqb c b'-'
    then (do n ← magnitude s; ok (negate n))
    else if eqb c b'+'
    then (do n ← magnitude s; ok (pos n))
    else (do n ← magnitude (c ∷ s); ok (pos n))

-- `int(s, 16)`
unfoldable pub int_base_16 : Str → Result ℤ
unfolding signed strip
int_base_16 s = signed (strip s)
