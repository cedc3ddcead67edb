-- ===== src/Muutils/RoundTrip.antt =====
-- tools/libmupy/muutils.py: `int_to_ada_hex` and `ada_hex_to_int` against each other.
use mathlib.Core.List.{append_assoc, append-nil}
use muen.Base.{ℕ, zero, suc, ◌+◌, ◌-◌, ◌*◌, ◌/◌, ◌<◌, ◌≡◌, ◌≢◌, ◌↔◌, refl, sym, ap, ◌∙◌, arith}
use muen.Base.{Str, codes, [], ◌∷◌, ◌++◌, some, ok, ◌>>=◌, ℤ, pos, replicate, length, not, eqb}
use muen.Base.{Bool, true, false, All, All-append, select, select-append, init, init-append, drop}
use muen.Base.Text.{lstrip, rstrip, rjust, replace}
use muen.Base.Text.Laws.{Avoids, rstrip_self, lstrip-append, lstrip-cons, replace_char}
use muen.Muutils.{int, int_to_ada_hex, ada_hex_to_int, group_from, marked, format_hex}
use muen.Muutils.Hex.{hex, hex_digits, int_base_16, value_from}
use muen.Muutils.Digits.{
  IsHexDigit, hex_digits-IsHexDigit, value_from-hex_digits, hex_digits-cons, int_base_16-digits,
}

-- The digits of a positive number, with zeros in front up to a multiple of four.
pub padded : ℕ → Str
padded n = let d = hex_digits n n [] in replicate ((length d + 3) / 4 * 4 - length d) b'0' ++ d

abbrev is_digit : ℕ → Bool
is_digit c = not (eqb c b'_')

marked-append : (m : Bool) (a b c : Str) → marked m (a ++ b) ++ c ≡ a ++ (marked m b ++ c)
marked-append true a b c = simp append_assoc
marked-append false a b c = append_assoc a b c

group_from-append :
    (index : ℕ) (val a b : Str) → group_from index val (a ++ b) ≡ a ++ group_from index val b
unfolding group_from
group_from-append index [] a b = refl
group_from-append index (c ∷ val) a b = rw marked-append (group_from-append (index + 1) val a _)

select-marked : (m : Bool) (s : Str) → select is_digit (marked m s) ≡ select is_digit s
select-marked true s = select-append is_digit s (codes "_") ∙ append-nil _
select-marked false s = refl

-- Without its underscores the loop's text is the value.
select-group_from :
    (index : ℕ) (val acc : Str)
    → select is_digit (group_from index val acc) ≡ select is_digit acc ++ select is_digit val
unfolding group_from
select-group_from index [] acc = sym (append-nil _)
select-group_from index (c ∷ val) acc =
    select-group_from (index + 1) val _
    ∙ rw (select-append, select-marked, append_assoc, ← select-append) refl

Avoids-L : (s : Str) → All IsHexDigit s → Avoids (codes "L") s
Avoids-L [] h = tt
Avoids-L (c ∷ s) h = (ground arith, Avoids-L s h.1)

select_digits : (s : Str) → All IsHexDigit s → select is_digit s ≡ s
select_digits [] h = refl
select_digits (c ∷ s) h = ground (arith, select_digits s h.1)

hex-pos : (n : ℕ) → 0 < n → hex (pos n) ≡ b'0' ∷ b'x' ∷ hex_digits n n []
unfolding hex
hex-pos n p = ground arith

strip_digits :
    (c : ℕ) (r : Str)
    → All IsHexDigit (c ∷ r)
    → c ≢ b'0'
    → lstrip (codes "0x") (rstrip (codes "L") (b'0' ∷ b'x' ∷ c ∷ r)) ≡ c ∷ r
strip_digits c r h z = rw (
  rstrip_self (codes "L") (b'0' ∷ b'x' ∷ c ∷ r) (refl, (refl, Avoids-L (c ∷ r) h)),
  lstrip-append (codes "0x") (b'0' ∷ b'x' ∷ []) (c ∷ r) (refl, (refl, tt)),
  lstrip-cons (codes "0x") c r (ground arith),
)

-- The two strips leave the digits of a positive number.
strip-hex :
    (n : ℕ) → 0 < n → lstrip (codes "0x") (rstrip (codes "L") (hex (pos n))) ≡ hex_digits n n []
strip-hex n p =
    let (c, r, e, d, z) = hex_digits-cons n n [] p (omega arith) in
    let digits : All IsHexDigit (c ∷ r) = rw e at (hex_digits-IsHexDigit n n [] tt) in
    rw (hex-pos n p, e) (strip_digits c r digits z)

format_hex-hex :
    (n : ℕ)
    → 0 < n
    → format_hex (hex (pos n)) ≡ codes "16#" ++ (group_from 0 (padded n) [] ++ codes "#")
unfolding format_hex padded rjust
format_hex-hex n p =
    rw (strip-hex n p) (ap (λ s. s ++ codes "#") (group_from-append 0 (padded n) (codes "16#") []))

All-replicate : (k : ℕ) → All IsHexDigit (replicate k b'0')
All-replicate zero = tt
All-replicate (suc k) = (omega arith, All-replicate k)

padded-IsHexDigit : (n : ℕ) → All IsHexDigit (padded n)
unfolding padded
padded-IsHexDigit n =
    All-append _ (replicate _ b'0') _ (All-replicate _) (hex_digits-IsHexDigit n n [] tt)

value_from-replicate : (k : ℕ) (s : Str) → value_from (replicate k b'0' ++ s) 0 ≡ value_from s 0
unfolding value_from
value_from-replicate zero s = refl
value_from-replicate (suc k) s = value_from-replicate k s

value_from-padded : (n : ℕ) → value_from (padded n) 0 ≡ some n
unfolding padded value_from
value_from-padded n =
    value_from-replicate ((length (hex_digits n n []) + 3) / 4 * 4 - length (hex_digits n n []))
      (hex_digits n n [])
    ∙ value_from-hex_digits n n [] (omega arith)

int_base_16-padded :
    (s : Str) (n : ℕ)
    → s ≢ []
    → All IsHexDigit s
    → value_from s 0 ≡ some n
    → int_base_16 s ≡ ok (pos n)
int_base_16-padded [] n z h v = absurd (z refl)
int_base_16-padded (c ∷ r) n z h v = int_base_16-digits c r n h v

padded-ne-nil : (n : ℕ) → 0 < n → padded n ≢ []
unfolding value_from
padded-ne-nil n p e = ground (arith, value_from-padded n, ap (λ s. value_from s 0) e)

-- What `int` is called with in `ada_hex_to_int`.
body-format_hex :
    (n : ℕ) → 0 < n → init (drop 3 (replace (codes "_") [] (format_hex (hex (pos n))))) ≡ padded n
body-format_hex n p =
    rw
      (
        format_hex-hex n p,
        replace_char b'_',
        select-append is_digit (group_from 0 (padded n) []) (codes "#"),
        select-group_from 0 (padded n) [],
        select_digits (padded n) (padded-IsHexDigit n),
      )
      (init-append (padded n) b'#')

ada_hex_to_int_of_body :
    (s : Str) {t : Str} {z : ℤ}
    → s ≢ []
    → init (drop 3 (replace (codes "_") [] s)) ≡ t
    → int_base_16 t ≡ ok z
    → ada_hex_to_int s ≡ ok (int z)
unfolding ada_hex_to_int
ada_hex_to_int_of_body [] h e i = absurd (h refl)
ada_hex_to_int_of_body (c ∷ s) h e i = rw (e, i)

int_to_ada_hex-pos : (n : ℕ) → int_to_ada_hex (int (pos n)) ≡ ok (format_hex (hex (pos n)))
unfolding int_to_ada_hex
int_to_ada_hex-pos n = refl

format_hex-ne-nil : (n : ℕ) → 0 < n → format_hex (hex (pos n)) ≢ []
format_hex-ne-nil n p = rw (format_hex-hex n p) (cc)

pub ada_hex_to_int-format_hex :
    (n : ℕ) → 0 < n → ada_hex_to_int (format_hex (hex (pos n))) ≡ ok (int (pos n))
ada_hex_to_int-format_hex n p =
    ada_hex_to_int_of_body (format_hex (hex (pos n))) (format_hex-ne-nil n p) (body-format_hex n p)
      (int_base_16-padded (padded n) n (padded-ne-nil n p) (padded-IsHexDigit n)
        (value_from-padded n))

-- Zero is written as the text without digits, which is refused when it is read.
zero_refused : (int_to_ada_hex (int (pos 0)) >>= ada_hex_to_int) ≢ ok (int (pos 0))
unfolding int_to_ada_hex ada_hex_to_int format_hex hex replace int_base_16
zero_refused h = cc

-- A number that is not negative is read back from the Ada literal that is written for it if and only if
-- it is not zero.
pub ada_hex_to_int-int_to_ada_hex :
    (n : ℕ) → ((int_to_ada_hex (int (pos n)) >>= ada_hex_to_int) ≡ ok (int (pos n))) ↔ (0 < n)
ada_hex_to_int-int_to_ada_hex zero = ((λ h. absurd (zero_refused h)), λ p. absurd (omega arith))
ada_hex_to_int-int_to_ada_hex (suc n) =
    ((λ h. omega arith), λ p. rw int_to_ada_hex-pos (ada_hex_to_int-format_hex (suc n) p))
