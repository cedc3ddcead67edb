-- ===== src/CpuValues/Entries.antt =====
-- The entries of an array, and the mark of the CPUID leaves that have several.
use muen.Base.{
  ℕ, suc, ◌+◌, ◌<◌, List, [], ◌∷◌, ◌++◌, Str, codes, length, ◌≡◌, arith, list_eq, nat_eq, option_eq,
}
use muen.Base.{Error, Result-cases, inl, inr}
use muen.Base.{ok_injective}
use muen.Base.{Result, ok, err, ◌>>=◌, >>=-eq-ok, sym, ap, refl, ◌∙◌}
use mathlib.Core.List.{append_assoc}
use muen.Base.Text.{join}
use muen.Xml.{Etree}
use muen.CpuValues.{separator, write_entries}

separator_last : (idx count : ℕ) → count ≡ idx → separator idx count ≡ codes "\n"
separator_last idx count h = ground (arith, h)

separator_more : (idx count : ℕ) → idx < count → separator idx count ≡ codes ",\n"
separator_more idx count h = ground (arith, h)

module _ (X : Etree) (entry : ℕ → X.Elem → Result Str) where
  -- The entries with their numbers, as values
  abbrev pub entries_from : ℕ → List X.Elem → Result (List Str)
  entries_from idx [] = ok []
  entries_from idx (c ∷ cs) = do
    text ← entry idx c
    rest ← entries_from (suc idx) cs
    ok (text ∷ rest)

  -- The entries behind the first
  abbrev followed : List Str → Str
  followed [] = codes "\n"
  followed (t ∷ ts) = codes ",\n" ++ (t ++ followed ts)

  abbrev ended : List Str → Str
  ended [] = []
  ended (t ∷ ts) = t ++ followed ts

  separated :
      (count idx : ℕ) (cs : List X.Elem) (ts : List Str)
      → count ≡ idx + length cs
      → entries_from (suc idx) cs ≡ ok ts
      → separator idx count ++ ended ts ≡ followed ts
  separated count idx [] ts h e =
      let q : [] ≡ ts = ok_injective [] ts e in
      rw (← q, separator_last idx count (omega (arith, h))) refl
  separated count idx (c ∷ cs) [] h e =
      let (t, i, k) = >>=-eq-ok (entry (suc idx) c) _ e in
      let (us, j, l) = >>=-eq-ok (entries_from (suc (suc idx)) cs) _ k in
      let q : t ∷ us ≡ [] = ok_injective (t ∷ us) [] l in cc
  separated count idx (c ∷ cs) (t ∷ ts) h e = rw (separator_more idx count (omega (arith, h))) refl

  written :
      (count idx : ℕ) (cs : List X.Elem) (ts : List Str)
      → count + 1 ≡ idx + length cs
      → entries_from idx cs ≡ ok ts
      → write_entries X entry count idx cs ≡ ok (ended ts)
  unfolding write_entries
  written count idx [] ts h e = let q : [] ≡ ts = ok_injective [] ts e in rw (← q) refl
  written count idx (c ∷ cs) ts h e =
      let (t, i, k) = >>=-eq-ok (entry idx c) _ e in
      let (us, j, l) = >>=-eq-ok (entries_from (suc idx) cs) _ k in
      let q : t ∷ us ≡ ts = ok_injective (t ∷ us) ts l in
      rw (← q, i, written count (suc idx) cs us (omega (arith, h)) j)
        (ap (λ s. ok (t ++ s)) (separated count idx cs us (omega (arith, h)) j))

  refused :
      (count idx : ℕ) (cs : List X.Elem) (why : Error)
      → entries_from idx cs ≡ err why
      → write_entries X entry count idx cs ≡ err why
  unfolding write_entries
  refused count idx [] why e = cc
  refused count idx (c ∷ cs) why e = elim (Result-cases (entry idx c)) [
    | inl (t, i) ↦ elim (Result-cases (entries_from (suc idx) cs)) [
      | inl (ts, j) ↦ let k : ok (t ∷ ts) ≡ err why = rw (i, j) at e in cc
      | inr (f, j) ↦
          let k : err f ≡ err why = rw (i, j) at e in
          let q : f ≡ why = cc in rw (i, refused count (suc idx) cs f j) (ap err q)
    ]
    | inr (f, i) ↦ let k : err f ≡ err why = rw i at e in let q : f ≡ why = cc in rw i (ap err q)
  ]

  followed_lem :
      (t : Str) (ts : List Str) → t ++ followed ts ≡ join (codes ",\n") (t ∷ ts) ++ codes "\n"
  followed_lem t [] = refl
  followed_lem t (u ∷ ts) =
      ap (λ r. t ++ (codes ",\n" ++ r)) (followed_lem u ts)
      ∙ sym (append_assoc t (codes ",\n" ++ join (codes ",\n") (u ∷ ts)) (codes "\n"))

  ended_lem :
      (idx : ℕ) (c : X.Elem) (cs : List X.Elem) (ts : List Str)
      → entries_from idx (c ∷ cs) ≡ ok ts
      → ended ts ≡ join (codes ",\n") ts ++ codes "\n"
  ended_lem idx c cs (t ∷ ts) e = followed_lem t ts
  ended_lem idx c cs [] e =
      let (t, i, k) = >>=-eq-ok (entry idx c) _ e in
      let (us, j, l) = >>=-eq-ok (entries_from (suc idx) cs) _ k in
      let q : t ∷ us ≡ [] = ok_injective (t ∷ us) [] l in cc

  -- The entries are written in their order, with a comma and a new line between two of them and a new line
  -- behind the last; an entry that raises does so for the whole array.
  pub write_entries-join :
      (c : X.Elem) (cs : List X.Elem)
      → write_entries X entry (length (c ∷ cs)) 1 (c ∷ cs)
        ≡ (entries_from 1 (c ∷ cs) >>= (λ ts. ok (join (codes ",\n") ts ++ codes "\n")))
  write_entries-join c cs = elim (Result-cases (entries_from 1 (c ∷ cs))) [
    | inl (ts, e) ↦
        written (length (c ∷ cs)) 1 (c ∷ cs) ts (omega arith) e
        ∙ ap ok (ended_lem 1 c cs ts e)
        ∙ ap (λ r. r >>= (λ ts. ok (join (codes ",\n") ts ++ codes "\n"))) (sym e)
    | inr (why, e) ↦
        refused (length (c ∷ cs)) 1 (c ∷ cs) why e
        ∙ ap (λ r. r >>= (λ ts. ok (join (codes ",\n") ts ++ codes "\n"))) (sym e)
  ]
