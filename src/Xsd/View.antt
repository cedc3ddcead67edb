-- ===== src/Xsd/View.antt =====
-- The insertion of the reference to the group is an operation on what a complex type allows.
use mathlib.Core.List.{append_assoc, append-nil}
use muen.Base.{Error, List, [], ◌∷◌, ◌++◌, Option, none, some, Str, codes, Result, ok, err}
use muen.Base.{◌≡◌, refl, ap, ◌∙◌, sym, >>=-eq-ok, ltb, length, ◌⊎◌, inl, inr}
use muen.Base.{Result-cases}
use muen.Xml.{Etree, IsLawful}
use muen.Xml.Names.{Names, IsNamed}
use muen.Xsd.{NsInfo, ns_info, localname, node_ancestors_string}
use muen.Base.Text.Laws.{Avoids-of_test}
use muen.Xsd.Groups.{
  Kind, kind_of, insert_at, insert_at_end, insert_from, insert_usg_in_complex_type,
  insert_usg_in_sequence, restriction_path,
}
use muen.Xsd.Groups.Kind.{
  simple_content, complex_content, annotation, particle, sequence, attributes, other,
}
use muen.Xsd.Elements.{
  IsPrefix, ns_info-IsPrefix, localname-set_children, reference, ns_info-element,
  ns_info-set_children,
}
use muen.Xsd.Started.{Begins, insert_cases, localname-insert}
use muen.Base.{ok_injective}
use muen.Xsd.Types.{refused, localname-new, insert_from-cons}
use muen.Xsd.Content.{
  Content, view, view_end, view_at, view_sequence, origin, origin_at, IsPrefixOf, Refines,
}
use muen.Xsd.Content.Content.{text, derived, elements}

abbrev IsFilled {ℓ} : {A : Type ℓ} → List A → Type ℓ
IsFilled {A} xs = (ys : List A) × (y : A) × (xs ≡ y ∷ ys)

append-IsFilled {ℓ} : {A : Type ℓ} (xs : List A) (x : A) → IsFilled (xs ++ x ∷ [])
append-IsFilled [] x = ([], x, refl)
append-IsFilled (y ∷ ys) x = (ys ++ x ∷ [], y, refl)

module _ (X : Etree) (N : Names X) where
  module _ (L : IsLawful X) (M : IsNamed X N) where
    children-insert :
        (e s : X.Elem) (ms : NsInfo) (prefix : Str)
        → ns_info X N e ≡ ok ms
        → ms.ns_prefix ≡ prefix
        → insert_usg_in_sequence X N e ≡ ok s
        → (Begins X N prefix (X.children e) × (X.children s ≡ X.children e))
          ⊎ (¬ Begins X N prefix (X.children e)
              × (X.children s ≡ reference X prefix ∷ X.children e))
    children-insert e s ms prefix j p h =
        let (ns, i, cases) = insert_cases X N L M e s h in
        let q : ns.ns_prefix ≡ prefix =
          ap (λ (n : NsInfo). n.ns_prefix) (ok_injective ns ms (sym i ∙ j)) ∙ p in
        rw (← q) (elim cases [
          | inl (o, w) ↦ inl (o, ap X.children w)
          | inr (o, w) ↦ inr (
            o,
            ap X.children w ∙ L.children-set_children e (reference X ns.ns_prefix ∷ X.children e),
          )
        ])

    -- A new sequence has the prefix that it is made with.
    ns_info-new :
        (prefix : Str)
        → IsPrefix prefix
        → (ns : NsInfo) × (ns_info X N (X.element (prefix ++ codes "sequence") []) ≡ ok ns)
          × (ns.ns_prefix ≡ prefix)
    ns_info-new prefix p =
        ns_info-element X N L M prefix (codes "sequence") p
          (Avoids-of_test (codes "}{") (codes "sequence") refl)

    module _ (ancestors : List X.Elem) (node node' : X.Elem) where
      -- The sequence `s` made of `e`, whose children are `particles`, is put in the place of a child.
      put :
          (before : List X.Elem) (e s : X.Elem) (particles cs : List X.Elem) (child : Option X.Elem)
          (prefix : Str)
          → X.set_children node (before ++ s ∷ cs) ≡ node'
          → ((ds : List X.Elem) → view X N [] (before ++ ds) ≡ view X N before ds)
          → kind_of (localname X N e) ≡ sequence
          → X.children e ≡ particles
          → IsPrefixOf X N child prefix
          → (ms : NsInfo) × (ns_info X N e ≡ ok ms) × (ms.ns_prefix ≡ prefix)
          → insert_usg_in_sequence X N e ≡ ok s
          → Refines X N (X.children node') child (some (elements before particles cs))
      put before e s particles cs child prefix w keep l k o (ms, j, p) h =
          let v : view X N [] (X.children node') ≡ some (elements before (X.children s) cs) =
            ap (λ n. view X N [] (X.children n)) (sym w)
            ∙ ap (view X N []) (L.children-set_children node (before ++ s ∷ cs))
            ∙ keep (s ∷ cs)
            ∙ view_sequence X N before s cs (ap kind_of (localname-insert X N L M e s h) ∙ l) in
          (
            elements before particles cs,
            prefix,
            refl,
            o,
            elim (children-insert e s ms prefix j p h) [
              | inl (b, q) ↦ inl (rw (← k) b, v ∙ ap (λ ps. some (elements before ps cs)) (q ∙ k))
              | inr (b, q) ↦ inr (
                rw (← k) b,
                v
                    ∙ ap (λ ps. some (elements before ps cs))
                        (q ∙ ap (λ ps. reference X prefix ∷ ps) k),
              )
            ],
          )

      Refines-at :
          (k : Kind) (before : List X.Elem) (child : X.Elem) (ns : NsInfo) (cs : List X.Elem)
          (older : Option X.Elem) (later : Option (Content X N)) (continued : Result X.Elem)
          → kind_of (localname X N child) ≡ k
          → ns_info X N child ≡ ok ns
          → IsPrefix ns.ns_prefix
          → X.children node ≡ before ++ child ∷ cs
          → ((ds : List X.Elem) → view X N [] (before ++ ds) ≡ view X N before ds)
          → (k ≡ annotation → continued ≡ ok node' → Refines X N (X.children node') older later)
          → insert_at X N ancestors node k ns.ns_prefix before child cs continued ≡ ok node'
          → Refines X N
              (X.children node')
              (origin_at X N k child older)
              (view_at X N k before child cs later)
      Refines-at simple_content before child ns cs older later continued e i p c keep next h = (
        text,
        ns.ns_prefix,
        refl,
        (child, ns, refl, i, refl),
        inl (tt, rw (← ok_injective node node' h, c) (keep (child ∷ cs) ∙ rw e refl)),
      )
      Refines-at complex_content before child ns cs older later continued e i p c keep next h =
          let (b, q) = refused (ltb 0 (length (X.xpath child restriction_path))) _ node node' h in
          (
            derived,
            ns.ns_prefix,
            rw b refl,
            (child, ns, refl, i, refl),
            inl (tt, rw (← q, c) (keep (child ∷ cs) ∙ rw (e, b) refl)),
          )
      Refines-at annotation before child ns cs older later continued e i p c keep next h =
          next refl h
      Refines-at particle before child ns cs older later continued e i p c keep next h =
          let prefix = ns.ns_prefix in
          let new = X.element (prefix ++ codes "sequence") [] in
          let (s, j, r) = >>=-eq-ok (insert_usg_in_sequence X N (X.append new child)) _ h in
          let (ms, l, m) = ns_info-new prefix p in
          put before (X.append new child) s (child ∷ []) cs (some child) prefix
            (ok_injective _ node' r) keep
            (ap kind_of (
              ap (localname X N) (M.append_lem new child)
              ∙ localname-set_children X N L M new (X.children new ++ child ∷ [])
              ∙ localname-new X N L M prefix p))
            (L.children-append new child
              ∙ ap (λ ds. ds ++ child ∷ []) (L.children-element (prefix ++ codes "sequence") []))
            (child, ns, refl, i, refl)
            (
              ms,
              ap (ns_info X N) (M.append_lem new child)
                  ∙ ns_info-set_children X N L M new (X.children new ++ child ∷ [])
                  ∙ l,
              m,
            )
            j
      Refines-at sequence before child ns cs older later continued e i p c keep next h =
          let (s, j, r) = >>=-eq-ok (insert_usg_in_sequence X N child) _ h in
          put before child s (X.children child) cs (some child) ns.ns_prefix
            (ok_injective _ node' r) keep e refl (child, ns, refl, i, refl) (ns, i, refl) j
      Refines-at attributes before child ns cs older later continued e i p c keep next h =
          let prefix = ns.ns_prefix in
          let new = X.element (prefix ++ codes "sequence") [] in
          let (s, j, r) = >>=-eq-ok (insert_usg_in_sequence X N new) _ h in
          put before new s [] (child ∷ cs) (some child) prefix (ok_injective _ node' r) keep
            (ap kind_of (localname-new X N L M prefix p))
            (L.children-element (prefix ++ codes "sequence") []) (child, ns, refl, i, refl)
            (ns_info-new prefix p) j
      Refines-at other before child ns cs older later continued e i p c keep next h =
          let (s, j, r) = >>=-eq-ok (node_ancestors_string X N child (node ∷ ancestors)) _ h in cc

      Refines-at_end :
          (prefix : Option Str) (last : Option X.Elem) (before : List X.Elem)
          → X.children node ≡ before
          → ((p : Str) → prefix ≡ some p → IsPrefix p × IsPrefixOf X N last p × IsFilled before)
          → ((ds : List X.Elem) → view X N [] (before ++ ds) ≡ view X N before ds)
          → insert_at_end X N ancestors node prefix ≡ ok node'
          → Refines X N (X.children node') last (view_end X N before)
      Refines-at_end none last before c p keep h = cc
      Refines-at_end (some prefix) last before c p keep h =
          let new = X.element (prefix ++ codes "sequence") [] in
          let (s, j, r) = >>=-eq-ok (insert_usg_in_sequence X N new) _ h in
          let (q, o, (bs, b, e)) = p prefix refl in
          let v : view_end X N before ≡ some (elements before [] []) =
            ap (view_end X N) e ∙ ap (λ ds. some (elements ds [] [])) (sym e) in
          rw v (
            put before new s [] [] last prefix
              (ap (λ ds. X.set_children node (ds ++ s ∷ [])) (sym c)
                ∙ sym (M.append_lem node s)
                ∙ ok_injective _ node' r)
              keep (ap kind_of (localname-new X N L M prefix q))
              (L.children-element (prefix ++ codes "sequence") []) o (ns_info-new prefix q) j)

      annotation_views :
          (before : List X.Elem) (child : X.Elem)
          → ((ds : List X.Elem) → view X N [] (before ++ ds) ≡ view X N before ds)
          → kind_of (localname X N child) ≡ annotation
          → (ds : List X.Elem)
          → view X N [] ((before ++ child ∷ []) ++ ds) ≡ view X N (before ++ child ∷ []) ds
      annotation_views before child keep e ds =
          ap (view X N []) (append_assoc before (child ∷ []) ds) ∙ keep (child ∷ ds) ∙ rw e refl

      Refines-from :
          (prefix : Option Str) (last : Option X.Elem) (before cs : List X.Elem)
          → X.children node ≡ before ++ cs
          → ((p : Str) → prefix ≡ some p → IsPrefix p × IsPrefixOf X N last p × IsFilled before)
          → ((ds : List X.Elem) → view X N [] (before ++ ds) ≡ view X N before ds)
          → insert_from X N ancestors node prefix before cs ≡ ok node'
          → Refines X N (X.children node') (origin X N last cs) (view X N before cs)
      unfolding insert_from
      Refines-from prefix last before [] c p keep h =
          Refines-at_end prefix last before (c ∙ append-nil before) p keep h
      Refines-from prefix last before (child ∷ cs) c p keep h =
          let (ns, i, q) = ns_info-IsPrefix X N L M child in
          let rest = insert_from X N ancestors node (some ns.ns_prefix) (before ++ child ∷ []) cs in
          Refines-at (kind_of (localname X N child)) before child ns cs (origin X N (some child) cs)
            (view X N (before ++ child ∷ []) cs) rest refl i q c keep
            (λ a g.
              Refines-from (some ns.ns_prefix) (some child) (before ++ child ∷ []) cs
                (c ∙ sym (append_assoc before (child ∷ []) cs))
                (λ t e.
                  let w : ns.ns_prefix ≡ t = cc in
                  (rw (← w) q, (child, ns, refl, i, w), append-IsFilled before child))
                (annotation_views before child keep a) g)
            (sym (insert_from-cons X N L M ancestors node prefix before child cs ns i) ∙ h)

    pub insert_usg_in_complex_type-Refines :
        (ancestors : List X.Elem) (node node' : X.Elem)
        → insert_usg_in_complex_type X N ancestors node ≡ ok node'
        → Refines X N
            (X.children node')
            (origin X N none (X.children node))
            (view X N [] (X.children node))
    unfolding insert_usg_in_complex_type
    insert_usg_in_complex_type-Refines ancestors node node' h =
        Refines-from ancestors node node' none none [] (X.children node) refl (λ p e. cc)
          (λ ds. refl) h

    -- A type that is not supported is refused with an exception.
    pub insert_usg_in_complex_type_rejects :
        (ancestors : List X.Elem) (node : X.Elem)
        → view X N [] (X.children node) ≡ none
        → (e : Error) × (insert_usg_in_complex_type X N ancestors node ≡ err e)
    insert_usg_in_complex_type_rejects ancestors node n =
        elim (Result-cases (insert_usg_in_complex_type X N ancestors node)) [
          | inl (node', h) ↦
              let (c, prefix, v, _, _) =
                insert_usg_in_complex_type-Refines ancestors node node' h in
              cc
          | inr e ↦ e
        ]
