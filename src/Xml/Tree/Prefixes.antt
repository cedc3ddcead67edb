-- ===== src/Xml/Tree/Prefixes.antt =====
-- The concrete tree with prefixes, whose tags have the form `{url}name`.
use mathlib.Core.List.{append_assoc}
use muen.Base.{
  ℕ, Bool, true, false, List, [], ◌∷◌, ◌++◌, Option, none, some, Str, codes, ◌≡◌, ◌&&◌, refl, ap,
  ◌∙◌, sym,
}
use muen.Base.{
  list_eq, nat_eq, option_eq, if◌then◌else◌, arith, All, eqb, eqb_iff, Bool-cases, inl, inr,
}
use muen.Base.Dict.{Dict, lookup}
use muen.Base.Text.{split, join, starts_with}
use muen.Base.Text.Laws.{Avoids, starts_with-nil, split-cons, split_self, join-split, split-Avoids}
use muen.Xml.Names.{Names, expanded}
use muen.Xml.Tree.{
  Tree, node, tree, tag, children, set_children, to_list, of_list, Items, nil, cons,
}

-- A tag of the form `{url}name` has the prefix `xs`.
abbrev parts_prefix : List Str → Option Str
parts_prefix [] = none
parts_prefix (u ∷ []) = none
parts_prefix (u ∷ t ∷ []) = if starts_with u (codes "{") then some (codes "xs") else none
parts_prefix (u ∷ t ∷ v ∷ ps) = none

abbrev prefix : Tree → Option Str
prefix e = elim (tag e) [ none ↦ none | some t ↦ parts_prefix (split (codes "}") t) ]

abbrev parts_url : List Str → Str
parts_url ((c ∷ u) ∷ ps) = u
parts_url ([] ∷ ps) = []
parts_url [] = []

abbrev nsmap : Tree → Dict (Option Str) Str
nsmap e = elim (tag e) [
  | none ↦ []
  | some t ↦ (some (codes "xs"), parts_url (split (codes "}") t)) ∷ []
]

abbrev attrib : Tree → Dict Str Str
attrib (node t a x ts) = a

abbrev pub names : Names tree
names = record { prefix = prefix; nsmap = nsmap; attrib = attrib }

of_list-to_list : (ts : Items) → of_list (to_list ts) ≡ ts
of_list-to_list nil = refl
of_list-to_list (cons t ts) = ap (cons t) (of_list-to_list ts)

pub set_children_self : (e : Tree) → set_children e (children e) ≡ e
set_children_self (node t a x ts) = ap (node t a x) (of_list-to_list ts)

pub prefix-set_children : (e : Tree) (cs : List Tree) → prefix (set_children e cs) ≡ prefix e
prefix-set_children (node t a x ts) cs = refl

pub nsmap-set_children : (e : Tree) (cs : List Tree) → nsmap (set_children e cs) ≡ nsmap e
nsmap-set_children (node t a x ts) cs = refl

pub attrib-set_children : (e : Tree) (cs : List Tree) → attrib (set_children e cs) ≡ attrib e
attrib-set_children (node t a x ts) cs = refl

pub parts_prefix_plain :
    (t : Str) (ps : List Str)
    → join (codes "}") ps ≡ t
    → starts_with t (codes "{") ≡ false
    → parts_prefix ps ≡ none
parts_prefix_plain t [] e h = refl
parts_prefix_plain t (u ∷ []) e h = refl
parts_prefix_plain t (u ∷ s ∷ v ∷ ps) e h = refl
parts_prefix_plain t ([] ∷ s ∷ []) e h = refl
parts_prefix_plain t ((c ∷ u) ∷ s ∷ []) e h =
    let k : starts_with (c ∷ (u ++ (codes "}" ++ s))) (codes "{") ≡ false =
      ap (λ g. starts_with g (codes "{")) e ∙ h in
    ground (arith, starts_with-nil u, starts_with-nil (u ++ (codes "}" ++ s)), k)

pub prefix-element_expanded :
    (url t : Str)
    → Avoids (codes "}") url
    → Avoids (codes "}") t
    → parts_prefix (split (codes "}") (expanded url ++ t)) ≡ some (codes "xs")
prefix-element_expanded url t a b =
    rw
      (
        append_assoc url (codes "}") t,
        split-cons b'}' [] (b'{' ∷ url) t (refl, a),
        split_self b'}' [] t b,
      )
      refl

opening :
    (c : ℕ) (b : Bool) (p : Str)
    → (if eqb c b'{' && b then some (codes "xs") else none) ≡ some p
    → (c ≡ b'{') × (p ≡ codes "xs")
opening c true p h = elim (Bool-cases (eqb c b'{')) [
  | inl e ↦ ((eqb_iff c b'{').0 e, let k : some (codes "xs") ≡ some p = rw e at h in cc)
  | inr e ↦ let k : none ≡ some p = rw e at h in cc
]
opening c false p h = elim (Bool-cases (eqb c b'{')) [
  | inl e ↦ let k : none ≡ some p = rw e at h in cc
  | inr e ↦ let k : none ≡ some p = rw e at h in cc
]

parts_expanded :
    (ps : List Str) (p : Str)
    → parts_prefix ps ≡ some p
    → All (Avoids (codes "}")) ps
    → (url : Str) × (t : Str) × (ps ≡ (b'{' ∷ url) ∷ t ∷ [])
      × (p ≡ codes "xs")
      × Avoids (codes "}") url
      × Avoids (codes "}") t
parts_expanded [] p h a = cc
parts_expanded (u ∷ []) p h a = cc
parts_expanded (u ∷ t ∷ v ∷ ps) p h a = cc
parts_expanded ([] ∷ t ∷ []) p h a = cc
parts_expanded ((c ∷ u) ∷ t ∷ []) p h a =
    let (e, q) = opening c (starts_with u []) p h in (u, t, rw e refl, q, a.0.1, a.1.0)

tag_found : (g url t : Str) → split (codes "}") g ≡ (b'{' ∷ url) ∷ t ∷ [] → g ≡ expanded url ++ t
tag_found g url t e =
    sym (join-split b'}' g)
    ∙ ap (join (codes "}")) e
    ∙ sym (append_assoc (b'{' ∷ url) (codes "}") t)

url_found :
    (ps : List Str) (p url t : Str)
    → ps ≡ (b'{' ∷ url) ∷ t ∷ []
    → p ≡ codes "xs"
    → lookup (some p) ((some (codes "xs"), parts_url ps) ∷ []) ≡ some url
unfolding lookup
url_found ps p url t e q = rw (e, q) refl

pub nsmap_lem :
    (e : Tree) (p : Str)
    → prefix e ≡ some p
    → (url : Str) × (t : Str) × (tag e ≡ some (expanded url ++ t))
      × (lookup (some p) (nsmap e) ≡ some url)
      × Avoids (codes "}") url
      × Avoids (codes "}") t
unfolding lookup
nsmap_lem (node none a x ts) p h = cc
nsmap_lem (node (some g) a x ts) p h =
    let (url, t, e, q, u, v) = parts_expanded (split (codes "}") g) p h (split-Avoids b'}' g) in
    (url, t, ap some (tag_found g url t e), url_found (split (codes "}") g) p url t e q, u, v)
