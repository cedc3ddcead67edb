-- ===== src/Smpify/Numbers.antt =====
-- The numbers in the names that policy/xml/smp/smpify.py gives.
use muen.Base.{
  ℕ, zero, suc, ◌+◌, ◌*◌, ◌-◌, ◌/◌, ◌%◌, ◌≤◌, ◌≡◌, sym, ap, ◌∙◌, arith, [], ◌∷◌, ◌++◌, Str, codes,
  some, eqb, Bool-cases, inl, inr,
}
use muen.Base.Dict.{lookup}
use muen.Xml.{Etree, IsLawful}
use muen.Base.Decimal.{decimal_digits, decimal}
use muen.Smpify.{phys_channel}

-- The number that decimal digits stand for, behind `n`.
abbrev pub digits_value : Str → ℕ → ℕ
digits_value [] n = n
digits_value (d ∷ ds) n = digits_value ds (n * 10 + (d - b'0'))

digits_value-decimal_digits :
    (fuel n : ℕ) (out : Str)
    → n ≤ fuel
    → digits_value (decimal_digits fuel n out) 0 ≡ digits_value out n
unfolding decimal_digits
digits_value-decimal_digits zero n out h = let z : n ≡ 0 = omega arith in rw z
digits_value-decimal_digits (suc fuel) n out h = elim (Bool-cases (eqb n 0)) [
  | inl e ↦ let z : n ≡ 0 = ground arith in rw z
  | inr e ↦
      let last : n / 10 * 10 + (b'0' + n % 10 - b'0') ≡ n = omega arith in
      let smaller : n / 10 ≤ fuel = ground arith in
      rw (e, decimal_digits)
        (digits_value-decimal_digits fuel (n / 10) ((b'0' + n % 10) ∷ out) smaller
          ∙ ap (λ k. digits_value out k) last)
]

decimal_injective : (m n : ℕ) → decimal m ≡ decimal n → m ≡ n
decimal_injective m n h =
    sym (digits_value-decimal_digits m m [] (omega arith))
    ∙ ap (λ (s : Str). digits_value s 0) h
    ∙ digits_value-decimal_digits n n [] (omega arith)

some_injective : {s t : Str} → some s ≡ some t → s ≡ t
some_injective h = cc

prefix_cancel : (p s t : Str) → p ++ s ≡ p ++ t → s ≡ t
prefix_cancel [] s t h = h
prefix_cancel (c ∷ p) s t h = prefix_cancel p s t (cc)

-- The physical channels that are added for the debug server have different names.
pub phys_channel_injective :
    (X : Etree) (L : IsLawful X) (i j : ℕ)
    → X.get (phys_channel X i) (codes "name") ≡ X.get (phys_channel X j) (codes "name")
    → i ≡ j
unfolding lookup
phys_channel_injective X L i j h =
    let same = sym (L.get-element _ _ (codes "name")) ∙ h ∙ L.get-element _ _ (codes "name") in
    omega (
      arith,
      decimal_injective (4 + i) (4 + j)
          (prefix_cancel (codes "debuglog_subject") _ _ (some_injective same)),
    )
