-- ===== src/Xsd/Elements.antt =====
-- Names and namespaces of the elements that libmuxsdplugin.py creates and moves.
use mathlib.Core.List.{append_assoc}
use muen.Base.{false, List, [], ◌∷◌, ◌++◌, Option, none, some, Str, codes, ok}
use muen.Base.{sym}
use muen.Base.{◌≡◌, refl, ap, ◌∙◌, ◌⊎◌, inl, inr, Option-cases, list_eq, nat_eq, arith}
use muen.Base.{option_eq}
use muen.Base.Dict.{Dict, lookup}
use muen.Base.Text.{split, starts_with}
use muen.Base.Text.Laws.{Avoids, split-cons, split_self, Avoids-subset}
use muen.Xml.{Etree, IsLawful}
use muen.Xml.Names.{Names, IsNamed, expanded}
use muen.Xsd.{NsInfo, ns_info, ns_of, url_of, localname, after_brace, node_text, node_to_string}
use muen.Xsd.Groups.{group_reference}

-- The name in front of a local name: nothing, or a namespace in braces
abbrev pub IsPrefix : Str → Type 0
IsPrefix p = (p ≡ []) ⊎ ((url : Str) × (p ≡ expanded url) × Avoids (codes "}") url)

after_brace-expanded :
    (p url t : Str)
    → Avoids (codes "}") url
    → Avoids (codes "}") t
    → after_brace (some p) (some (expanded url ++ t)) ≡ some t
after_brace-expanded p url t hu ht =
    rw
      (
        append_assoc url (codes "}") t,
        split-cons b'}' [] (b'{' ∷ url) t (refl, hu),
        split_self b'}' [] t ht,
      )
      refl

split-expanded :
    (url t : Str)
    → Avoids (codes "}") url
    → split (codes "}") (expanded url ++ t) ≡ (b'{' ∷ url) ∷ split (codes "}") t
split-expanded url t h =
    ap (λ (r : Str). split (codes "}") (b'{' ∷ r)) (append_assoc url (codes "}") t)
    ∙ split-cons b'}' [] (b'{' ∷ url) t (refl, h)

expanded_injective :
    (u v s t : Str)
    → Avoids (codes "}") u
    → Avoids (codes "}") v
    → expanded u ++ s ≡ expanded v ++ t
    → u ≡ v
expanded_injective u v s t h k e =
    let p : (b'{' ∷ u) ∷ split (codes "}") s ≡ (b'{' ∷ v) ∷ split (codes "}") t =
      sym (split-expanded u s h) ∙ ap (split (codes "}")) e ∙ split-expanded v t k in
    cc

not_expanded : (t : Str) → Avoids (codes "}{") t → starts_with t (codes "{") ≡ false
not_expanded [] h = refl
not_expanded (c ∷ t) h = ground (arith, h.0)

after_brace-some : (p : Option Str) (q : Str) → (l : Str) × (after_brace p (some q) ≡ some l)
after_brace-some none q = (q, refl)
after_brace-some (some p) q = (_, refl)

module _ (X : Etree) where
  -- The element that refers to the group
  abbrev pub reference : Str → X.Elem
  reference prefix =
      X.set (X.element (prefix ++ codes "group") []) (codes "ref")
        (codes "universal_starting_group")

module _ (X : Etree) (N : Names X) (L : IsLawful X) (M : IsNamed X N) where
  pub ns_info-IsPrefix :
      (e : X.Elem) → (ns : NsInfo) × (ns_info X N e ≡ ok ns) × IsPrefix ns.ns_prefix
  ns_info-IsPrefix e = elim (Option-cases (N.prefix e)) [
    | inl n ↦ (_, ap (λ o. ns_of o (N.nsmap e)) n, inl refl)
    | inr (p, h) ↦
        let (url, t, g, m, a, b) = M.nsmap_lem e p h in
        (
          record { ns_short = p; ns_url = url; nsmap = N.nsmap e; ns_prefix = expanded url },
          ap (λ o. ns_of o (N.nsmap e)) h ∙ ap (url_of p (N.nsmap e)) m,
          inr (url, refl, a),
        )
  ]

  pub localname-element :
      (p t : Str) (a : Dict Str Str)
      → IsPrefix p
      → Avoids (codes "}{") t
      → localname X N (X.element (p ++ t) a) ≡ some t
  localname-element p t a (inl e) h =
      let n = M.prefix-element t a (not_expanded t h) in
      rw e (ap (λ o. after_brace o (X.tag (X.element t a))) n ∙ L.tag-element t a)
  localname-element p t a (inr (url, e, u)) h =
      let b = Avoids-subset (codes "}") (codes "}{") t (refl, tt) h in
      let (q, m) = M.prefix-element_expanded url t a u b in
      rw e (
        ap (λ o. after_brace o (X.tag (X.element (expanded url ++ t) a))) m
        ∙ ap (after_brace (some q)) (L.tag-element (expanded url ++ t) a)
        ∙ after_brace-expanded q url t u b)

  -- An element has the prefix that it is made with.
  pub ns_info-element :
      (p t : Str)
      → IsPrefix p
      → Avoids (codes "}{") t
      → (ns : NsInfo) × (ns_info X N (X.element (p ++ t) []) ≡ ok ns) × (ns.ns_prefix ≡ p)
  ns_info-element p t (inl e) h = rw e (
    _,
    ap (λ o. ns_of o (N.nsmap (X.element t []))) (M.prefix-element t [] (not_expanded t h)),
    refl,
  )
  ns_info-element p t (inr (url, e, u)) h = rw e (
      let b = Avoids-subset (codes "}") (codes "}{") t (refl, tt) h in
      let x = X.element (expanded url ++ t) [] in
      let (q, m) = M.prefix-element_expanded url t [] u b in
      let (v, s, g, k, a, _) = M.nsmap_lem x q m in
      let w : some (expanded v ++ s) ≡ some (expanded url ++ t) =
        sym g ∙ L.tag-element (expanded url ++ t) [] in
      let same : expanded v ++ s ≡ expanded url ++ t = cc in
      (
        record { ns_short = q; ns_url = v; nsmap = N.nsmap x; ns_prefix = expanded v },
        ap (λ o. ns_of o (N.nsmap x)) m ∙ ap (url_of q (N.nsmap x)) k,
        ap expanded (expanded_injective v url s t a u same),
      ))

  pub localname-set_children :
      (e : X.Elem) (cs : List X.Elem) → localname X N (X.set_children e cs) ≡ localname X N e
  localname-set_children e cs =
      ap (λ o. after_brace o (X.tag (X.set_children e cs))) (M.prefix-set_children e cs)
      ∙ ap (after_brace (N.prefix e)) (L.tag-set_children e cs)

  pub ns_info-set_children :
      (e : X.Elem) (cs : List X.Elem) → ns_info X N (X.set_children e cs) ≡ ns_info X N e
  ns_info-set_children e cs =
      ap (λ o. ns_of o (N.nsmap (X.set_children e cs))) (M.prefix-set_children e cs)
      ∙ ap (ns_of (N.prefix e)) (M.nsmap-set_children e cs)

  pub group_reference_lem : (prefix : Str) → group_reference X N prefix ≡ ok (reference X prefix)
  unfolding lookup
  group_reference_lem prefix = refl

  pub node_to_string-reference :
      (prefix : Str) → (t : Str) × (node_to_string X N (reference X prefix) ≡ ok t)
  unfolding node_text
  node_to_string-reference prefix =
      let q = prefix ++ codes "group" in
      let e : X.tag (reference X prefix) ≡ some q =
        L.tag-set (X.element q []) (codes "ref") (codes "universal_starting_group")
        ∙ L.tag-element q [] in
      let (l, h) = after_brace-some (N.prefix (reference X prefix)) q in
      (
        _,
        ap (λ o. node_text (N.prefix (reference X prefix)) o (N.attrib (reference X prefix)))
            (ap (after_brace (N.prefix (reference X prefix))) e ∙ h),
      )
