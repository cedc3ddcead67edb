-- ===== src/Compose/Interfaces.antt =====
-- The names of interfaces that policy/xml/mirageos/compose.py hands to Linux.
use mathlib.Core.List.{reverse, reverse-append, reverse-reverse, reverse-cons}
use muen.Base.{ok_injective}
use muen.Base.{
  ◌≡◌, ◌↔◌, refl, sym, ap, ◌∙◌, arith, ℕ, false, [], ◌∷◌, ◌++◌, Str, codes, Bool-cases, inl, inr,
  length, ◌≤◌, length-append, if◌then◌else◌,
}
use muen.Base.{some, ok}
use muen.Xml.{Etree}
use muen.Compose.{interfaces}
use muen.Base.Text.{rstrip, lstrip, is_in}

length-lstrip : (chars s : Str) → length (lstrip chars s) ≤ length s
unfolding lstrip
length-lstrip chars [] = omega arith
length-lstrip chars (c ∷ s) = ground (arith, length-lstrip chars s)

length-reverse : (s : Str) → length (reverse s) ≡ length s
length-reverse [] = refl
length-reverse (c ∷ s) =
    rw reverse-cons (omega (arith, length-append (reverse s) (c ∷ []), length-reverse s))

rstrip-suffix : (s : Str) → rstrip (codes "|in") (s ++ codes "|in") ≡ rstrip (codes "|in") s
unfolding rstrip lstrip
rstrip-suffix s =
    ap (λ (r : Str). reverse (lstrip (codes "|in") r)) (reverse-append s (codes "|in"))

rstrip-last :
    (s : Str) (c : ℕ)
    → rstrip (codes "|in") (s ++ c ∷ [])
      ≡ (if is_in (codes "|in") c then rstrip (codes "|in") s else s ++ c ∷ [])
unfolding rstrip lstrip
rstrip-last s c = elim (Bool-cases (is_in (codes "|in") c)) [
  | inl m ↦ rw (m, reverse-append s (c ∷ []), m)
  | inr m ↦ rw (m, reverse-append s (c ∷ []), m, reverse-cons, reverse-reverse)
]

length-rstrip : (s : Str) → length (rstrip (codes "|in") s) ≤ length s
unfolding rstrip
length-rstrip s = omega (
  arith,
  length-reverse (lstrip (codes "|in") (reverse s)),
  length-lstrip (codes "|in") (reverse s),
  length-reverse s,
)

-- The name of a channel without its suffix is what `rstrip("|in")` leaves if and only if the name does
-- not end in one of the characters of the suffix.
rstrip_suffix :
    (name : Str) (c : ℕ)
    → (rstrip (codes "|in") ((name ++ c ∷ []) ++ codes "|in") ≡ name ++ c ∷ [])
      ↔ (is_in (codes "|in") c ≡ false)
rstrip_suffix name c =
    let e = rstrip-suffix (name ++ c ∷ []) ∙ rstrip-last name c in
    (
      (λ h. elim (Bool-cases (is_in (codes "|in") c)) [
        | inl m ↦
            let left : rstrip (codes "|in") name ≡ name ++ c ∷ [] =
              sym (e ∙ ap (λ b. if b then rstrip (codes "|in") name else name ++ c ∷ []) m) ∙ h in
            absurd (
              omega (
                arith,
                ap (λ (r : Str). length r) left,
                length-append name (c ∷ []),
                length-rstrip name,
              ))
        | inr m ↦ m
      ]),
      λ m. e ∙ ap (λ b. if b then rstrip (codes "|in") name else name ++ c ∷ []) m,
    )

-- For one reader, whose logical name is a name with the suffix `|in`, Linux gets the name as its
-- interface if and only if the name does not end in one of the characters of the suffix.
pub interfaces_lem :
    (X : Etree) (reader : X.Elem) (name : Str) (c : ℕ)
    → X.tag reader ≡ some (codes "reader")
    → X.get reader (codes "logical") ≡ some ((name ++ c ∷ []) ++ codes "|in")
    → (interfaces X (reader ∷ []) [] ≡ ok (name ++ c ∷ [])) ↔ (is_in (codes "|in") c ≡ false)
unfolding interfaces
interfaces_lem X reader name c t l =
    let all_of : interfaces X (reader ∷ []) []
        ≡ ok (rstrip (codes "|in") ((name ++ c ∷ []) ++ codes "|in")) =
      rw (t, l) in
    (
      (λ h. (rstrip_suffix name c).0 (ok_injective _ _ (sym all_of ∙ h))),
      λ m. all_of ∙ ap ok ((rstrip_suffix name c).1 m),
    )
