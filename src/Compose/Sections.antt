-- ===== src/Compose/Sections.antt =====
-- The sections of the system policy that compose.py leaves or extends.
use muen.Base.{text_of}
use muen.Base.{
  false, List, [], ◌∷◌, Str, codes, ok, >>=-eq-ok, select, ◌≡◌, refl, ap, ◌∙◌, ◌==◌, list_eq,
  nat_eq, sym,
}
use muen.Xml.{Etree, IsLawful, has_tag}
use muen.Xml.Sections.{place}
use muen.Xml.Untouched.{at_section_other, at_section_own}
use muen.Base.{ok_injective}
use muen.Compose.{called, add_physical_channels, interfaces}
use muen.Compose.Policy.{
  subject_name, reset_path, add_component, reset_variable, copy_first, copy_reset_variable,
  extend_bootparams, bootparams_of, set_subject_bootparams, add_interfaces, compose,
}

module _ (X : Etree) where
  -- The sections of a tag, in the order of the document
  abbrev pub sections : Str → X.Elem → List X.Elem
  sections t doc = select (has_tag X t) (X.children doc)

module _ (X : Etree) (L : IsLawful X) where
  tag-add_physical_channels :
      (subject : Str) (cs : List X.Elem) (e e' : X.Elem)
      → add_physical_channels X subject cs e ≡ ok e'
      → X.tag e' ≡ X.tag e
  unfolding add_physical_channels
  tag-add_physical_channels subject [] e e' h = ap X.tag (sym (ok_injective e e' h))
  tag-add_physical_channels subject (c ∷ cs) e e' h =
      let (name, i, k) = >>=-eq-ok (called (X.get c (codes "logical"))) _ h in
      let (size, j, l) = >>=-eq-ok (text_of (X.get c (codes "size"))) _ k in
      tag-add_physical_channels subject cs _ e' l ∙ L.tag-append e _

  tag-reset_variable : (v e e' : X.Elem) → reset_variable X v e ≡ ok e' → X.tag e' ≡ X.tag e
  tag-reset_variable v e e' h =
      let (value, i, k) = >>=-eq-ok (text_of (X.get v (codes "value"))) _ h in
      ap X.tag (sym (ok_injective _ e' k)) ∙ L.tag-append e _

  module _ (t : Str) where
    component_other :
        (cspec e e' : X.Elem)
        → (t == codes "components") ≡ false
        → add_component X cspec e ≡ ok e'
        → sections X t e' ≡ sections X t e
    unfolding add_component
    component_other cspec e e' n h =
        at_section_other X L t (place (codes "system")) (place (codes "components")) [] _ e e'
          (λ c c' k.
            let (name, i, m) = >>=-eq-ok (text_of (X.get cspec (codes "name"))) _ k in
            ap X.tag (sym (ok_injective _ c' m)) ∙ L.tag-append c cspec)
          n h

    module _ (n : (t == codes "subjects") ≡ false) where
      extend_other :
          (subject bootparams : Str) (e e' : X.Elem)
          → extend_bootparams X subject bootparams e ≡ ok e'
          → sections X t e' ≡ sections X t e
      unfolding extend_bootparams
      extend_other subject bootparams e e' h =
          at_section_other X L t (place (codes "system")) (place (codes "subjects")) _ _ e e' tt n h

      interfaces_other :
          (cs : List X.Elem) (e e' : X.Elem)
          → add_interfaces X cs e ≡ ok e'
          → sections X t e' ≡ sections X t e
      unfolding add_interfaces
      interfaces_other cs e e' h =
          let (ifaces, i, k) = >>=-eq-ok (interfaces X cs []) _ h in extend_other _ _ e e' k

      params_other :
          (ps : List X.Elem) (e e' : X.Elem)
          → bootparams_of X ps e ≡ ok e'
          → sections X t e' ≡ sections X t e
      params_other [] e e' h = ap (sections X t) (sym (ok_injective e e' h))
      params_other (p ∷ ps) e e' h =
          let (value, i, k) = >>=-eq-ok (text_of (X.get p (codes "value"))) _ h in
          extend_other _ _ e e' k

    reset_other :
        (vs : List X.Elem) (e e' : X.Elem)
        → (t == codes "config") ≡ false
        → copy_first X vs e ≡ ok e'
        → sections X t e' ≡ sections X t e
    reset_other [] e e' n h = cc
    reset_other (v ∷ vs) e e' n h =
        at_section_other X L t (place (codes "system")) (place (codes "config")) [] _ e e'
          (tag-reset_variable v) n h

  -- If the script returns, the first section of physical channels of the template is extended by the
  -- channels of the component, in spite of all that is done to the other sections; further sections of
  -- this tag are what they were.
  pub compose-sections :
      (cspec doc doc' : X.Elem)
      → compose X cspec doc ≡ ok doc'
      → ((c : X.Elem) × (c' : X.Elem) × (rest : List X.Elem) × (sections X (codes "channels") doc
            ≡ c ∷ rest)
          × (add_physical_channels X subject_name
                (X.xpath cspec (codes "/component/requires/channels/*"))
                c
              ≡ ok c')
          × (sections X (codes "channels") doc' ≡ c' ∷ rest))
  unfolding compose set_subject_bootparams copy_reset_variable
  compose-sections cspec doc doc' h =
      let cs = X.xpath cspec (codes "/component/requires/channels/*") in
      let (d1, i1, h1) = >>=-eq-ok (add_component X cspec doc) _ h in
      let (d2, i2, h2) = >>=-eq-ok _ _ h1 in
      let (d3, i3, h3) = >>=-eq-ok _ _ h2 in
      let (d4, i4, h4) = >>=-eq-ok _ _ h3 in
      let (d5, i5, h5) = >>=-eq-ok (add_interfaces X cs d4) _ h4 in
      let (d6, i6, h6) = >>=-eq-ok (set_subject_bootparams X cspec d5) _ h5 in
      let t = codes "channels" in
      let (c, c', rest, a, g, b) =
        at_section_own X L t (place (codes "system")) _ d1 d2
          (tag-add_physical_channels subject_name cs) i2 in
      (
        c,
        c',
        rest,
        sym (component_other t cspec doc d1 refl i1) ∙ a,
        g,
        reset_other t (X.xpath d6 reset_path) d6 doc' refl h6
            ∙ params_other t refl _ d5 d6 i6
            ∙ interfaces_other t refl cs d4 d5 i5
            ∙ at_section_other X L t (place (codes "system")) (place (codes "subjects")) _ _ d3 d4
                tt refl i4
            ∙ at_section_other X L t (place (codes "system")) (place (codes "subjects")) _ _ d2 d3
                tt refl i3
            ∙ b,
      )
