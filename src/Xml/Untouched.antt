-- ===== src/Xml/Untouched.antt =====
-- What an update of a section leaves of the children of the root: all sections of another tag, and the
-- others of its own.
use muen.Base.{
  Bool, true, false, ◌&&◌, List, [], ◌∷◌, Option, none, some, Str, if◌then◌else◌, select, arith,
}
use muen.Base.{
  Result, ok, err, index_error, Bool-cases, Result-cases, ◌≡◌, refl, ap, ◌∙◌, sym, inl, inr, ◌==◌,
  list_eq, nat_eq, list_beq_iff,
}
use muen.Xml.{Etree, IsLawful, has_tag}
use muen.Xml.Chosen.{set_in-some, keep-some, chosen}
use muen.Xml.Paths.{update_first}
use muen.Xml.Sections.{Place, place, place_test, outcome, update_section, finished, at_section}

abbrev tag_is : Str → Option Str → Bool
tag_is t tag = elim tag [ none ↦ false | some u ↦ u == t ]

tag_is_other :
    (t p : Str) (o : Option Str) → tag_is p o ≡ true → (t == p) ≡ false → tag_is t o ≡ false
tag_is_other t p none h n = refl
tag_is_other t p (some u) h n = ground (arith, list_beq_iff u p, list_beq_iff u t, list_beq_iff t p)

-- The test of a place finds its tag.
placed : (a b : Bool) → (a && b) ≡ true → a ≡ true
placed true b h = refl
placed false b h = cc

module _ (X : Etree) (L : IsLawful X) where
  -- The update behind a path leaves the tag of the element that the path starts from.
  abbrev pub IsKeeping : List Place → (X.Elem → Result X.Elem) → Type 0
  IsKeeping [] f = (e e' : X.Elem) → f e ≡ ok e' → X.tag e' ≡ X.tag e
  IsKeeping (p ∷ ps) f = Unit

  outcome-ok : (r : Result X.Elem) (e e' : X.Elem) → outcome X r e ≡ (ok tt, e') → r ≡ ok e'
  outcome-ok (ok d) e e' h = cc
  outcome-ok (err why) e e' h = cc

  finished-ok :
      (o : Option (Result (Unit {0}) × X.Elem)) (e : X.Elem)
      → finished X o ≡ ok e
      → o ≡ some (ok tt, e)
  finished-ok none e h = cc
  finished-ok (some (ok tt, d)) e h = cc
  finished-ok (some (err why, d)) e h = cc

  in_root :
      (b : Bool) (o : Option (Result (Unit {0}) × X.Elem)) (e : X.Elem)
      → (if b then finished X o else err index_error) ≡ ok e
      → o ≡ some (ok tt, e)
  in_root true o e h = finished-ok o e h
  in_root false o e h = cc

  pub tag-update_section :
      (ps : List Place) (f : X.Elem → Result X.Elem) (e e' : X.Elem)
      → IsKeeping ps f
      → update_section X ps f e ≡ some (ok tt, e')
      → X.tag e' ≡ X.tag e
  unfolding update_section
  tag-update_section [] f e e' k h = k e e' (outcome-ok (f e) e e' cc)
  tag-update_section (p ∷ ps) f e e' k h =
      let (cs, m, q) =
        set_in-some X e e' (update_first X (update_section X ps f) (place_test X p) (X.children e))
          h in
      rw (← q) (L.tag-set_children e cs)

  has_tag-eq : (t : Str) (e e' : X.Elem) → X.tag e' ≡ X.tag e → has_tag X t e' ≡ has_tag X t e
  has_tag-eq t e e' h = ap (tag_is t) h

  -- The children of another tag
  other_tags :
      (t : Str) (p : Place) (ps : List Place) (f : X.Elem → Result X.Elem) (cs ds : List X.Elem)
      → IsKeeping ps f
      → (t == p.local) ≡ false
      → update_first X (update_section X ps f) (place_test X p) cs ≡ some (ok tt, ds)
      → select (has_tag X t) ds ≡ select (has_tag X t) cs
  other_tags t p ps f [] ds k n h = cc
  other_tags t p ps f (c ∷ cs) ds k n h =
      elim (chosen X (place_test X p c) c cs ds (update_section X ps f c) _ h) [
        | inl (c', b, o, q) ↦
            let other = tag_is_other t p.local (X.tag c) (placed (has_tag X p.local c) _ b) n in
            let other' = has_tag-eq t c c' (tag-update_section ps f c c' k o) ∙ other in
            rw q (ground (arith, other, other'))
        | inr (es, r, q) ↦ rw q (ground (arith, other_tags t p ps f cs es k n r))
      ]

  -- The sections of another tag are what they were, in their order.
  pub at_section_other :
      (t : Str) (root p : Place) (ps : List Place) (f : X.Elem → Result X.Elem) (e e' : X.Elem)
      → IsKeeping ps f
      → (t == p.local) ≡ false
      → at_section X root (p ∷ ps) f e ≡ ok e'
      → select (has_tag X t) (X.children e') ≡ select (has_tag X t) (X.children e)
  unfolding update_section
  at_section_other t root p ps f e e' k n h =
      let u = in_root (place_test X root e) (update_section X (p ∷ ps) f e) e' h in
      let (cs, m, q) =
        set_in-some X e e' (update_first X (update_section X ps f) (place_test X p) (X.children e))
          u in
      ap (λ d. select (has_tag X t) (X.children d)) (sym q)
      ∙ ap (select (has_tag X t)) (L.children-set_children e cs)
      ∙ other_tags t p ps f (X.children e) cs k n m

  own_tag :
      (t : Str) (f : X.Elem → Result X.Elem) (cs ds : List X.Elem)
      → IsKeeping [] f
      → update_first X (update_section X [] f) (place_test X (place t)) cs ≡ some (ok tt, ds)
      → (c : X.Elem) × (c' : X.Elem) × (rest : List X.Elem) × (select (has_tag X t) cs ≡ c ∷ rest)
        × (f c ≡ ok c')
        × (select (has_tag X t) ds ≡ c' ∷ rest)
  unfolding update_section
  own_tag t f [] ds k h = cc
  own_tag t f (d ∷ cs) ds k h = elim (Bool-cases (has_tag X t d)) [
    | inl b ↦ elim (Result-cases (f d)) [
      | inl (d', e) ↦
          let w : ◌≡◌ {A = Option (Result (Unit {0}) × List X.Elem)} (some (ok tt, d' ∷ cs))
              (some (ok tt, ds)) =
            rw (b, e) at h in
          let q : d' ∷ cs ≡ ds = cc in
          let g : has_tag X t d' ≡ true = has_tag-eq t d d' (k d d' e) ∙ b in
          (d, d', select (has_tag X t) cs, rw b refl, e, rw (← q, g) refl)
      | inr (why, e) ↦
          let w : ◌≡◌ {A = Option (Result (Unit {0}) × List X.Elem)} (some (err why, d ∷ cs))
              (some (ok tt, ds)) =
            rw (b, e) at h in
          cc
    ]
    | inr b ↦
        let (es, r, q) =
          keep-some X d ds (update_first X (update_section X [] f) (place_test X (place t)) cs)
            (rw b at h) in
        let (c, c', rest, e, g, e') = own_tag t f cs es k r in
        (c, c', rest, rw b e, g, rw (q, b) e')
  ]

  -- The first section of the tag is updated, and the others of its tag are what they were.
  pub at_section_own :
      (t : Str) (root : Place) (f : X.Elem → Result X.Elem) (e e' : X.Elem)
      → IsKeeping [] f
      → at_section X root (place t ∷ []) f e ≡ ok e'
      → (c : X.Elem) × (c' : X.Elem) × (rest : List X.Elem) × (select (has_tag X t) (X.children e)
          ≡ c ∷ rest)
        × (f c ≡ ok c')
        × (select (has_tag X t) (X.children e') ≡ c' ∷ rest)
  unfolding update_section
  at_section_own t root f e e' k h =
      let u = in_root (place_test X root e) (update_section X (place t ∷ []) f e) e' h in
      let (cs, m, q) =
        set_in-some X e e'
          (update_first X (update_section X [] f) (place_test X (place t)) (X.children e)) u in
      let (c, c', rest, a, g, b) = own_tag t f (X.children e) cs k m in
      (
        c,
        c',
        rest,
        a,
        g,
        ap (λ d. select (has_tag X t) (X.children d)) (sym q)
            ∙ ap (select (has_tag X t)) (L.children-set_children e cs)
            ∙ b,
      )
