-- ===== src/Xsd/Returns.antt =====
-- The complex types on which the insertion of the reference to the group returns.
use muen.Base.{
  Error, Bool, true, false, List, [], ◌∷◌, ◌++◌, Option, none, some, Str, codes, Result, ok, err,
}
use muen.Base.{◌≡◌, refl, ap, ◌∙◌, ltb, length, ◌>>=◌, if◌then◌else◌, list_eq, nat_eq}
use muen.Xml.{Etree, IsLawful}
use muen.Xml.Names.{Names, IsNamed}
use muen.Xsd.{localname, node_text, node_to_string}
use muen.Xsd.Groups.{
  Kind, kind_of, insert_at, insert_at_end, insert_from, insert_usg_in_complex_type,
  insert_usg_in_sequence, insert_first, restriction_path,
}
use muen.Xsd.Groups.Kind.{
  simple_content, complex_content, annotation, particle, sequence, attributes, other,
}
use muen.Xsd.Elements.{ns_info-IsPrefix, reference, node_to_string-reference}
use muen.Xsd.Started.{insert_lem, insert_first-cons}
use muen.Xsd.Types.{insert_from-cons}
use muen.Xsd.Content.{Content, view, view_at, view_end}
use muen.Xsd.Content.Content.{text, derived, elements}

kept :
    {A C : Type 0} (b : Bool) (why : Error) (x : A) (d c : C)
    → (if b then none else some d) ≡ some c
    → (if b then err why else ok x) ≡ ok x
kept true why x d c h = cc
kept false why x d c h = refl

particle_named : (o : Option Str) → kind_of o ≡ particle → (name : Str) × (o ≡ some name)
particle_named none h = cc
particle_named (some name) h = (name, refl)

module _ (X : Etree) (N : Names X) where
  -- The first element is no comment, so that it can be compared.
  abbrev pub IsReadable : List X.Elem → Type 0
  IsReadable [] = Unit
  IsReadable (first ∷ cs) = (name : Str) × (localname X N first ≡ some name)

  abbrev pub IsComparable : Content X N → Type 0
  IsComparable text = Unit
  IsComparable derived = Unit
  IsComparable (elements before particles cs) = IsReadable particles

  comparable :
      (before ps cs : List X.Elem) (c : Content X N)
      → some (elements before ps cs) ≡ some c
      → IsComparable c
      → IsReadable ps
  comparable before ps cs text h r = cc
  comparable before ps cs derived h r = cc
  comparable before ps cs (elements bs qs ds) h r = let q : qs ≡ ps = cc in rw (← q) r

  module _ (L : IsLawful X) (M : IsNamed X N) where
    node_to_string_returns :
        (e : X.Elem) (name : Str)
        → localname X N e ≡ some name
        → (t : Str) × (node_to_string X N e ≡ ok t)
    unfolding node_text
    node_to_string_returns e name h = (_, ap (λ o. node_text (N.prefix e) o (N.attrib e)) h)

    insert_first_returns :
        (node r : X.Elem) (t : Str) (cs : List X.Elem)
        → node_to_string X N r ≡ ok t
        → IsReadable cs
        → (s : X.Elem) × (insert_first X N node r cs ≡ ok s)
    insert_first_returns node r t [] e h = (_, refl)
    insert_first_returns node r t (first ∷ cs) e (name, h) =
        let (u, f) = node_to_string_returns first name h in
        (_, insert_first-cons X N L M node r first cs u t f e)

    insert_returns :
        (node : X.Elem) (cs : List X.Elem)
        → X.children node ≡ cs
        → IsReadable cs
        → (s : X.Elem) × (insert_usg_in_sequence X N node ≡ ok s)
    insert_returns node cs c h =
        let (ns, i, _) = ns_info-IsPrefix X N L M node in
        let (t, e) = node_to_string-reference X N L M ns.ns_prefix in
        let (s, k) = insert_first_returns node (reference X ns.ns_prefix) t cs e h in
        (
          s,
          insert_lem X N L M node ns i
              ∙ ap (insert_first X N node (reference X ns.ns_prefix)) c
              ∙ k,
        )

    module _ (ancestors : List X.Elem) (node : X.Elem) where
      returns_at :
          (k : Kind) (prefix : Str) (before : List X.Elem) (child : X.Elem) (cs : List X.Elem)
          (later : Option (Content X N)) (continued : Result X.Elem) (c : Content X N)
          → kind_of (localname X N child) ≡ k
          → (later ≡ some c → (n : X.Elem) × (continued ≡ ok n))
          → view_at X N k before child cs later ≡ some c
          → IsComparable c
          → (n : X.Elem) × (insert_at X N ancestors node k prefix before child cs continued ≡ ok n)
      returns_at simple_content prefix before child cs later continued c e next v r = (node, refl)
      returns_at complex_content prefix before child cs later continued c e next v r =
          (node, kept (ltb 0 (length (X.xpath child restriction_path))) _ node derived c v)
      returns_at annotation prefix before child cs later continued c e next v r = next v
      returns_at particle prefix before child cs later continued c e next v r =
          let new = X.element (prefix ++ codes "sequence") [] in
          let (s, i) =
            insert_returns (X.append new child) (child ∷ [])
              (L.children-append new child
                ∙ ap (λ ds. ds ++ child ∷ []) (L.children-element (prefix ++ codes "sequence") []))
              (particle_named (localname X N child) e) in
          (_, ap (λ q. q >>= (λ t. ok (X.set_children node (before ++ t ∷ cs)))) i)
      returns_at sequence prefix before child cs later continued c e next v r =
          let (s, i) =
            insert_returns child (X.children child) refl
              (comparable before (X.children child) cs c v r) in
          (_, ap (λ q. q >>= (λ t. ok (X.set_children node (before ++ t ∷ cs)))) i)
      returns_at attributes prefix before child cs later continued c e next v r =
          let new = X.element (prefix ++ codes "sequence") [] in
          let (s, i) =
            insert_returns new [] (L.children-element (prefix ++ codes "sequence") []) tt in
          (_, ap (λ q. q >>= (λ t. ok (X.set_children node (before ++ t ∷ child ∷ cs)))) i)
      returns_at other prefix before child cs later continued c e next v r = cc

      returns_at_end :
          (prefix : Option Str) (before : List X.Elem) (c : Content X N)
          → (prefix ≡ none → before ≡ [])
          → view_end X N before ≡ some c
          → (n : X.Elem) × (insert_at_end X N ancestors node prefix ≡ ok n)
      returns_at_end none before c p v =
          let e : view_end X N before ≡ none = ap (view_end X N) (p refl) in cc
      returns_at_end (some prefix) before c p v =
          let new = X.element (prefix ++ codes "sequence") [] in
          let (s, i) =
            insert_returns new [] (L.children-element (prefix ++ codes "sequence") []) tt in
          (_, ap (λ q. q >>= (λ t. ok (X.append node t))) i)

      returns_from :
          (prefix : Option Str) (before cs : List X.Elem) (c : Content X N)
          → (prefix ≡ none → before ≡ [])
          → view X N before cs ≡ some c
          → IsComparable c
          → (n : X.Elem) × (insert_from X N ancestors node prefix before cs ≡ ok n)
      unfolding insert_from
      returns_from prefix before [] c p v r = returns_at_end prefix before c p v
      returns_from prefix before (child ∷ cs) c p v r =
          let (ns, i, _) = ns_info-IsPrefix X N L M child in
          let rest = insert_from X N ancestors node (some ns.ns_prefix) (before ++ child ∷ []) cs in
          let (n, e) =
            returns_at (kind_of (localname X N child)) ns.ns_prefix before child cs
              (view X N (before ++ child ∷ []) cs) rest c refl
              (λ w. returns_from (some ns.ns_prefix) (before ++ child ∷ []) cs c (λ a. cc) w r) v
              r in
          (n, insert_from-cons X N L M ancestors node prefix before child cs ns i ∙ e)

      -- The insertion returns on each type that is supported, if the first of its elements is no comment.
      pub insert_usg_in_complex_type_returns :
          (c : Content X N)
          → view X N [] (X.children node) ≡ some c
          → IsComparable c
          → (n : X.Elem) × (insert_usg_in_complex_type X N ancestors node ≡ ok n)
      unfolding insert_usg_in_complex_type
      insert_usg_in_complex_type_returns c v r =
          returns_from none [] (X.children node) c (λ e. refl) v r
