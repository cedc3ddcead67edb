-- ===== src/AdjustXmlSpec/Cleared.antt =====
-- The specification that is written has no hash of a writable region left.
use muen.Base.{
  Bool, true, false, not, ◌&&◌, ◌||◌, List, [], ◌∷◌, Option, none, some, codes, arith, eqb, length,
}
use muen.Base.{
  Result, ok, >>=-eq-ok, ◌==◌, list_eq, nat_eq, option_eq, any, all, map, ◌≡◌, refl, ap, ◌∙◌, sym,
  Bool-cases, inl, inr,
}
use muen.Base.{text_of}
use muen.Xml.{Etree, IsLawful, has_tag}
use muen.Base.{ok_injective}
use muen.AdjustXmlSpec.{
  map_ok, hash_path, is_hash, is_writable, clear_hash, adjust_memory, adjust_provides,
  adjust_xml_spec,
}

map_ok-all :
    {A : Type 0} (p : A → Bool) (f : A → Result A) (xs ys : List A)
    → ((x y : A) → f x ≡ ok y → p y ≡ true)
    → map_ok f xs ≡ ok ys
    → all p ys ≡ true
unfolding map_ok
map_ok-all p f [] ys h e = ap (all p) (sym (ok_injective [] ys e))
map_ok-all p f (x ∷ xs) ys h e =
    let (y, i, k) = >>=-eq-ok (f x) _ e in
    let (zs, j, l) = >>=-eq-ok (map_ok f xs) _ k in
    let q : y ∷ zs ≡ ys = ok_injective (y ∷ zs) ys l in
    rw (← q) (ground (arith, h x y i, map_ok-all p f xs zs h j))

module _ (X : Etree) where
  abbrev pub hash_cleared : X.Elem → Bool
  hash_cleared c = not (is_hash X c) || (X.get c (codes "value") == some (codes "none"))

  abbrev pub memory_cleared : X.Elem → Bool
  memory_cleared m = not (is_writable X m) || all hash_cleared (X.children m)

  abbrev pub provides_cleared : X.Elem → Bool
  provides_cleared p = not (has_tag X (codes "provides") p) || all memory_cleared (X.children p)

  no_hash : (cs : List X.Elem) → any (is_hash X) cs ≡ false → all hash_cleared cs ≡ true
  no_hash [] h = refl
  no_hash (c ∷ cs) h = ground (arith, no_hash cs)

  module _ (L : IsLawful X) where
    clear_hash-cleared : (c : X.Elem) → hash_cleared (clear_hash X c) ≡ true
    clear_hash-cleared c = elim (Bool-cases (is_hash X c)) [
      | inl b ↦
          let e : clear_hash X c ≡ X.set c (codes "value") (codes "none") = rw b refl in
          let g : X.get (X.set c (codes "value") (codes "none")) (codes "value")
              ≡ some (codes "none") =
            L.get-set c (codes "value") (codes "value") (codes "none") in
          ap hash_cleared e
          ∙ ap
              (λ v.
                not (is_hash X (X.set c (codes "value") (codes "none")))
                || (v == some (codes "none")))
              g
          ∙ ground arith
      | inr b ↦ let e : clear_hash X c ≡ c = rw b refl in ap hash_cleared e ∙ ground (arith, b)
    ]

    all_cleared : (cs : List X.Elem) → all hash_cleared (map (clear_hash X) cs) ≡ true
    all_cleared [] = refl
    all_cleared (c ∷ cs) = ground (arith, clear_hash-cleared c, all_cleared cs)

    adjust_memory-cleared : (m m' : X.Elem) → adjust_memory X m ≡ ok m' → memory_cleared m' ≡ true
    adjust_memory-cleared m m' h =
        elim (Bool-cases (is_writable X m && any (is_hash X) (X.children m))) [
          | inl b ↦
              let (logical, i, k) = >>=-eq-ok (text_of (X.get m (codes "logical"))) _ (rw b at h) in
              let cs = map (clear_hash X) (X.children m) in
              let q : X.set_children m cs ≡ m' = ok_injective _ m' k in
              rw (← q) (
                ap (λ ds. not (is_writable X (X.set_children m cs)) || all hash_cleared ds)
                  (L.children-set_children m cs)
                ∙ ground (arith, all_cleared (X.children m)))
          | inr b ↦
              let q : m ≡ m' = ok_injective m m' (rw b at h) in
              rw (← q) (ground (arith, b, no_hash (X.children m)))
        ]

    adjust_provides-cleared :
        (p p' : X.Elem) → adjust_provides X p ≡ ok p' → provides_cleared p' ≡ true
    adjust_provides-cleared p p' h = elim (Bool-cases (has_tag X (codes "provides") p)) [
      | inl b ↦
          let (ms, i, k) = >>=-eq-ok (map_ok (adjust_memory X) (X.children p)) _ (rw b at h) in
          let q : X.set_children p ms ≡ p' = ok_injective _ p' k in
          let c =
            map_ok-all memory_cleared (adjust_memory X) (X.children p) ms adjust_memory-cleared i in
          rw (← q) (
            ap
              (λ ds.
                not (has_tag X (codes "provides") (X.set_children p ms)) || all memory_cleared ds)
              (L.children-set_children p ms)
            ∙ ground (arith, c))
      | inr b ↦ let q : p ≡ p' = ok_injective p p' (rw b at h) in rw (← q) (ground (arith, b))
    ]

    -- In a specification that is written, every hash of a writable region that the component provides has
    -- the value none, so that a changed region is not refused.
    pub adjust_xml_spec_cleared :
        (doc doc' : X.Elem)
        → adjust_xml_spec X doc ≡ ok (some doc')
        → all provides_cleared (X.children doc') ≡ true
    unfolding adjust_xml_spec
    adjust_xml_spec_cleared doc doc' h =
        elim (Bool-cases (eqb (length (X.xpath doc hash_path)) 0)) [
          | inl b ↦
              let w : ◌≡◌ {A = Result (Option X.Elem)} (ok none) (ok (some doc')) = rw b at h in cc
          | inr b ↦
              let (ps, i, k) =
                >>=-eq-ok (map_ok (adjust_provides X) (X.children doc)) _ (rw b at h) in
              let w : some (X.set_children doc ps) ≡ some doc' = ok_injective _ (some doc') k in
              let q : X.set_children doc ps ≡ doc' = cc in
              rw (← q) (
                ap (all provides_cleared) (L.children-set_children doc ps)
                ∙ map_ok-all provides_cleared (adjust_provides X) (X.children doc) ps
                    adjust_provides-cleared i)
        ]
