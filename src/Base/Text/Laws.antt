-- ===== src/Base/Text/Laws.antt =====
-- Laws of the `str` methods.
use mathlib.Core.Logic.{◌≢◌, inl, inr}
use mathlib.Core.List.{cons-ne-nil, reverse, reverse-reverse, append_assoc, append-nil}
use mathlib.Core.Path.{◌≡◌, refl, ap, ◌∙◌, sym}
use mathlib.Core.Bool.{true, false, not}
use mathlib.Core.List.{List, [], ◌∷◌, ◌++◌, reverse-cons}
use native.Mathlib.Omega.{arith}
use Prim.Native.Nat.{ℕ, zero, suc, ◌-◌}
use muen.Base.Tests.{eqb, eqb_iff, Bool-cases}
use muen.Base.Lists.{any, length, All, All-append, select}
use muen.Base.Text.{Str, is_in, lstrip, rstrip, split_from, split, join, replace, strip}
use muen.Base.Text.{starts_with, whitespace}

abbrev pub Avoids : Str → Str → Type 0
Avoids chars = All (λ c. is_in chars c ≡ false)

pub lstrip-append :
    (chars p s : Str) → All (λ c. is_in chars c ≡ true) p → lstrip chars (p ++ s) ≡ lstrip chars s
unfolding lstrip
lstrip-append chars [] s h = refl
lstrip-append chars (c ∷ p) s h = rw h.0 (lstrip-append chars p s h.1)

pub lstrip-cons :
    (chars : Str) (c : ℕ) (s : Str) → is_in chars c ≡ false → lstrip chars (c ∷ s) ≡ c ∷ s
unfolding lstrip
lstrip-cons chars c s h = rw h

pub lstrip_self : (chars s : Str) → Avoids chars s → lstrip chars s ≡ s
unfolding lstrip
lstrip_self chars [] h = refl
lstrip_self chars (c ∷ s) h = rw h.0

All-reverse : (P : ℕ → Type 0) (s : Str) → All P s → All P (reverse s)
All-reverse P [] h = tt
All-reverse P (c ∷ s) h =
    rw reverse-cons (All-append P (reverse s) _ (All-reverse P s h.1) (h.0, tt))

pub rstrip_self : (chars s : Str) → Avoids chars s → rstrip chars s ≡ s
unfolding rstrip
rstrip_self chars s h = rw (lstrip_self chars (reverse s) (All-reverse _ s h)) (reverse-reverse s)

pub strip_self : (s : Str) → Avoids whitespace s → strip s ≡ s
unfolding strip
strip_self s h = rw (rstrip_self whitespace s h) (lstrip_self whitespace s h)

join_nil-cons : (p : Str) (ps : List Str) → join [] (p ∷ ps) ≡ p ++ join [] ps
join_nil-cons p [] = sym (append-nil p)
join_nil-cons p (q ∷ ps) = refl

join-split_from :
    (d : ℕ) (s cur : Str)
    → join [] (split_from (d ∷ []) s 0 cur) ≡ cur ++ select (λ c. not (eqb c d)) s
join-split_from d [] cur = sym (append-nil cur)
join-split_from d (c ∷ s) cur = ground (
  arith,
  join_nil-cons cur (split_from (d ∷ []) s 0 []),
  join-split_from d s [],
  join-split_from d s (cur ++ c ∷ []),
  append_assoc cur (c ∷ []) (select (λ c. not (eqb c d)) s),
)

-- Replacing a character by the empty text is to filter it out.
pub replace_char : (d : ℕ) (s : Str) → replace (d ∷ []) [] s ≡ select (λ c. not (eqb c d)) s
unfolding replace
replace_char d s = join-split_from d s []

pub starts_with-nil : (s : Str) → starts_with s [] ≡ true
starts_with-nil [] = refl
starts_with-nil (c ∷ s) = refl

is_in_subset :
    (small big : Str) (c : ℕ)
    → All (λ d. is_in big d ≡ true) small
    → is_in small c ≡ true
    → is_in big c ≡ true
is_in_subset [] big c h m = cc
is_in_subset (d ∷ small) big c h m = ground (arith, h.0, eqb_iff d c, is_in_subset small big c h.1)

-- A text that avoids some characters avoids fewer.
pub Avoids-subset :
    (small big s : Str) → All (λ d. is_in big d ≡ true) small → Avoids big s → Avoids small s
Avoids-subset small big [] h a = tt
Avoids-subset small big (c ∷ s) h a =
    (ground (arith, is_in_subset small big c h), Avoids-subset small big s h a.1)

pub starts_with-append : (p s : Str) → starts_with (p ++ s) p ≡ true
starts_with-append [] s = starts_with-nil s
starts_with-append (c ∷ p) s = ground (arith, eqb_iff c c, starts_with-append p s)

-- The separators are `d ∷ ds`. What lies in front of the first one is one part.
module _ (d : ℕ) (ds : Str) where
  split_from-append :
      (p rest cur : Str)
      → Avoids (d ∷ []) p
      → split_from (d ∷ ds) (p ++ rest) 0 cur ≡ split_from (d ∷ ds) rest 0 (cur ++ p)
  split_from-append [] rest cur h = rw append-nil
  split_from-append (c ∷ p) rest cur h = ground (
    arith,
    h.0,
    eqb_iff c d,
    eqb_iff d c,
    split_from-append p rest (cur ++ c ∷ []) h.1,
    append_assoc cur (c ∷ []) p,
  )

  split_from_skip :
      (p s cur : Str) → split_from (d ∷ ds) (p ++ s) (length p) cur ≡ split_from (d ∷ ds) s 0 cur
  split_from_skip [] s cur = refl
  split_from_skip (c ∷ p) s cur = split_from_skip p s cur

  split_from_at :
      (s cur : Str) → split_from (d ∷ ds) (d ∷ (ds ++ s)) 0 cur ≡ cur ∷ split_from (d ∷ ds) s 0 []
  split_from_at s cur =
      let e : length (d ∷ ds) - 1 ≡ length ds = omega arith in
      ground (arith, starts_with-append ds s, e, split_from_skip ds s [])

  pub split-cons :
      (p s : Str) → Avoids (d ∷ []) p → split (d ∷ ds) (p ++ (d ∷ (ds ++ s))) ≡ p ∷ split (d ∷ ds) s
  unfolding split
  split-cons p s h = split_from-append p (d ∷ (ds ++ s)) [] h ∙ split_from_at s p

  pub split_self : (p : Str) → Avoids (d ∷ []) p → split (d ∷ ds) p ≡ p ∷ []
  unfolding split
  split_self p h =
      rw (← append-nil p) (split_from-append p [] [] h ∙ ap (λ q. q ∷ []) (sym (append-nil p)))

pub split_from-ne-nil : (sep s : Str) (skip : ℕ) (cur : Str) → split_from sep s skip cur ≢ []
split_from-ne-nil sep [] skip cur = cons-ne-nil _ _
split_from-ne-nil sep (c ∷ s) (suc skip) cur = split_from-ne-nil sep s skip cur
split_from-ne-nil sep (c ∷ s) zero cur = ground (
  arith,
  cons-ne-nil cur (split_from sep s (length sep - 1) []),
  split_from-ne-nil sep s zero (cur ++ c ∷ []),
)

pub join-cons :
    (sep p : Str) (ps : List Str) → ps ≢ [] → join sep (p ∷ ps) ≡ p ++ (sep ++ join sep ps)
join-cons sep p [] h = absurd (h refl)
join-cons sep p (q ∷ ps) h = refl

join-split_from_char :
    (d : ℕ) (s cur : Str) → join (d ∷ []) (split_from (d ∷ []) s 0 cur) ≡ cur ++ s
join-split_from_char d [] cur = sym (append-nil cur)
join-split_from_char d (c ∷ s) cur = ground (
  arith,
  eqb_iff c d,
  join-cons (d ∷ []) cur (split_from (d ∷ []) s 0 []) (split_from-ne-nil (d ∷ []) s 0 []),
  join-split_from_char d s [],
  join-split_from_char d s (cur ++ c ∷ []),
  append_assoc cur (c ∷ []) s,
)

-- Joining the parts of a split by a character gives the text back.
pub join-split : (d : ℕ) (s : Str) → join (d ∷ []) (split (d ∷ []) s) ≡ s
unfolding split
join-split d s = join-split_from_char d s []

-- No part of a split by a character holds it.
split_from-Avoids :
    (d : ℕ) (s cur : Str)
    → Avoids (d ∷ []) cur
    → All (Avoids (d ∷ [])) (split_from (d ∷ []) s 0 cur)
split_from-Avoids d [] cur h = (h, tt)
split_from-Avoids d (c ∷ s) cur h = elim (Bool-cases (eqb c d)) [
  | inl e ↦ rw (e, split_from) (h, split_from-Avoids d s [] tt)
  | inr e ↦
      rw (e, split_from)
        (split_from-Avoids d s (cur ++ c ∷ [])
          (All-append _ cur (c ∷ []) h (ground (arith, eqb_iff c d, eqb_iff d c), tt)))
]

pub split-Avoids : (d : ℕ) (s : Str) → All (Avoids (d ∷ [])) (split (d ∷ []) s)
unfolding split
split-Avoids d s = split_from-Avoids d s [] tt

-- Splitting a join by a character gives the parts back, if there is a part and none holds it.
pub split-join :
    (d : ℕ) (ps : List Str)
    → ps ≢ []
    → All (Avoids (d ∷ [])) ps
    → split (d ∷ []) (join (d ∷ []) ps) ≡ ps
split-join d [] h a = absurd (h refl)
split-join d (p ∷ []) h a = split_self d [] p a.0
split-join d (p ∷ q ∷ ps) h a =
    split-cons d [] p (join (d ∷ []) (q ∷ ps)) a.0
    ∙ ap (λ r. p ∷ r) (split-join d (q ∷ ps) (cons-ne-nil q ps) a.1)

pub split-ne-nil : (sep s : Str) → split sep s ≢ []
unfolding split
split-ne-nil sep s = split_from-ne-nil sep s 0 []

pub Avoids-of_test : (chars s : Str) → any (is_in chars) s ≡ false → Avoids chars s
Avoids-of_test chars [] h = tt
Avoids-of_test chars (c ∷ s) h = (ground arith, Avoids-of_test chars s (ground arith))
