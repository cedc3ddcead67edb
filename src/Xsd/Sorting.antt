-- ===== src/Xsd/Sorting.antt =====
-- `list.sort` on texts, and that a sorted list forgets the order it was made in.
use mathlib.Core.List.{Perm, Permᴰ}
use mathlib.Core.List.Permᴰ.{nil, cons, swap, trans}
use mathlib.Core.Logic.{∥∥₁_elim}
use muen.Base.{
  map, Bool, true, false, ◌&&◌, ◌||◌, List, [], ◌∷◌, Str, if◌then◌else◌, ltb, eqb, ◌≡◌, refl, ◌∙◌,
  arith,
}

-- `s <= t` on texts, by their code points
abbrev pub str_leb : Str → Str → Bool
str_leb [] t = true
str_leb (c ∷ s) [] = false
str_leb (c ∷ s) (d ∷ t) = ltb c d || (eqb c d && str_leb s t)

abbrev pub place : Str → List Str → List Str
place s [] = s ∷ []
place s (t ∷ ts) = if str_leb s t then s ∷ t ∷ ts else t ∷ place s ts

unfoldable pub sort : List Str → List Str
sort [] = []
sort (s ∷ ss) = place s (sort ss)

str_leb_total : (s t : Str) → str_leb s t ≡ false → str_leb t s ≡ true
str_leb_total [] t h = cc
str_leb_total (c ∷ s) [] h = refl
str_leb_total (c ∷ s) (d ∷ t) h = ground (arith, str_leb_total s t)

str_leb_antisym : (s t : Str) → str_leb s t ≡ true → str_leb t s ≡ true → s ≡ t
str_leb_antisym [] [] h k = refl
str_leb_antisym [] (d ∷ t) h k = cc
str_leb_antisym (c ∷ s) [] h k = cc
str_leb_antisym (c ∷ s) (d ∷ t) h k = ground (arith, str_leb_antisym s t)

str_leb_trans : (s t u : Str) → str_leb s t ≡ true → str_leb t u ≡ true → str_leb s u ≡ true
str_leb_trans [] t u h k = refl
str_leb_trans (c ∷ s) [] u h k = cc
str_leb_trans (c ∷ s) (d ∷ t) [] h k = cc
str_leb_trans (c ∷ s) (d ∷ t) (e ∷ u) h k = ground (arith, str_leb_trans s t u)

place_comm : (s t : Str) (us : List Str) → place s (place t us) ≡ place t (place s us)
place_comm s t [] = ground (arith, str_leb_total s t, str_leb_total t s, str_leb_antisym s t)
place_comm s t (u ∷ us) = ground (
  arith,
  str_leb_total s t,
  str_leb_antisym s t,
  str_leb_trans s t u,
  str_leb_trans t s u,
  place_comm s t us,
)

sort-map_cases {ℓ} :
    {A : Type ℓ} (f : A → Str) {xs ys : List A} → Permᴰ xs ys → sort (map f xs) ≡ sort (map f ys)
unfolding sort
sort-map_cases f nil = refl
sort-map_cases f (cons e p) = rw (e, sort-map_cases f p)
sort-map_cases f (swap {a} {b} {a'} {b'} {l} e g) =
    rw (e, g) (place_comm (f b') (f a') (sort (map f l)))
sort-map_cases f (trans p q) = sort-map_cases f p ∙ sort-map_cases f q

-- The order in which the items come does not matter.
pub sort-map_perm {ℓ} :
    {A : Type ℓ} (f : A → Str) (xs ys : List A) → Perm xs ys → sort (map f xs) ≡ sort (map f ys)
sort-map_perm f xs ys p = ∥∥₁_elim p (hlevel) (sort-map_cases f)
