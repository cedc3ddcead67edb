-- ===== src/XsdDoc/Documented.antt =====
-- A schema that the plugin has written: it defines the group, the types of documentation, and the `doc`
-- element in the group; and a second run of the plugin leaves it as it is.
use mathlib.Core.List.{append_assoc}
use muen.Base.{Bool, true, false, ◌&&◌, [], ◌∷◌, ◌++◌, Option, none, some, Str, codes, arith}
use muen.Base.{
  Result, ok, ◌≡◌, refl, ap, ◌∙◌, sym, >>=-eq-ok, if◌then◌else◌, inl, inr, ◌==◌, list_eq, option_eq,
  nat_eq,
}
use muen.Base.Dict.{lookup}
use muen.Base.Text.Laws.{Avoids, Avoids-of_test, split-cons, split_self}
use muen.Xml.{Etree, IsLawful}
use muen.Xml.Names.{Names, IsNamed}
use muen.Xml.Steps.{Step, step_test, reaches, update_walk, local_part, is_local, is_named}
use muen.Xml.Reach.{
  step_test-set_children, reaches-set_children, reaches-update, reaches_one-update,
}
use muen.Xsd.Groups.{
  insert_universal_starting_group, insert_children_from_string, universal_starting_group_defined,
  universal_starting_group_definition, in_types,
}
use muen.Xsd.{create_element_from_dict}
use muen.Xsd.Elements.{IsPrefix, ns_info-IsPrefix}
use muen.Base.{ok_injective}
use muen.XsdDoc.{
  group_step, sequence_step, doc_step, type_step, doc_type_step, doc_attributes, first_of,
  documentation_type_defined, doc_in_universal_starting_group,
  insert_doc_in_universal_starting_group, add_documentation, documentation_type_definition,
}
use muen.XsdDoc.Defined.{group_defined, type_defined, doc_defined}
use muen.XsdDoc.Children.{reaches-insert_children}

local_part-prefix : (p t : Str) → IsPrefix p → Avoids (codes "}") t → local_part (p ++ t) ≡ t
unfolding local_part
local_part-prefix p t (inl e) h = rw (e, split_self b'}' [] t h) refl
local_part-prefix p t (inr (url, e, a)) h =
    rw
      (
        e,
        append_assoc url (codes "}") t,
        split-cons b'}' [] (b'{' ∷ url) t (refl, a),
        split_self b'}' [] t h,
      )
      refl

module _ (X : Etree) (N : Names X) where
  first_of-some :
      (o : Option (Unit {0} × X.Elem)) (e : X.Elem) → first_of X N o ≡ ok e → o ≡ some (tt, e)
  first_of-some none e h = cc
  first_of-some (some (tt, d)) e h = ap (λ c. some (tt, c)) (ok_injective d e h)

  -- The three tests of the plugin pass.
  abbrev pub IsDocumented : X.Elem → Type 0
  IsDocumented root =
      (universal_starting_group_defined X N root ≡ ok true)
      × (documentation_type_defined X N root ≡ ok true)
      × (doc_in_universal_starting_group X N root ≡ ok true)

  -- What lxml makes of the two constant texts
  abbrev pub IsParsed : (Str → Result X.Elem) → Type 0
  IsParsed fromstring =
      (group_root : X.Elem) × (type_root : X.Elem) × (fromstring universal_starting_group_definition
        ≡ ok group_root)
      × (fromstring documentation_type_definition ≡ ok type_root)
      × (reaches X (group_step ∷ []) group_root ≡ true)
      × (reaches X (type_step ∷ []) type_root ≡ true)
      × (reaches X (doc_type_step ∷ []) type_root ≡ true)

  module _ (L : IsLawful X) (M : IsNamed X N) where
    abbrev doc_element : Str → X.Elem
    doc_element prefix =
        X.set
          (X.set
            (X.set (X.set (X.element (prefix ++ codes "element") []) (codes "name") (codes "doc"))
              (codes "type") (codes "documentationType"))
            (codes "minOccurs") (codes "0"))
          (codes "maxOccurs") (codes "unbounded")

    doc_element_lem :
        (prefix : Str)
        → create_element_from_dict X N (doc_attributes prefix) ≡ ok (doc_element prefix)
    unfolding lookup
    doc_element_lem prefix = refl

    tag-doc_element : (prefix : Str) → X.tag (doc_element prefix) ≡ some (prefix ++ codes "element")
    tag-doc_element prefix =
        L.tag-set _ _ _
        ∙ L.tag-set _ _ _
        ∙ L.tag-set _ _ _
        ∙ L.tag-set _ _ _
        ∙ L.tag-element (prefix ++ codes "element") []

    name-doc_element :
        (prefix : Str) → X.get (doc_element prefix) (codes "name") ≡ some (codes "doc")
    name-doc_element prefix =
        L.get-set _ _ (codes "name") _
        ∙ L.get-set _ _ (codes "name") _
        ∙ L.get-set _ _ (codes "name") _
        ∙ L.get-set _ _ (codes "name") _

    step_test-doc_element :
        (prefix : Str) → IsPrefix prefix → step_test X doc_step (doc_element prefix) ≡ true
    step_test-doc_element prefix p =
        ap
          (λ t.
            is_local (codes "element") t
            && is_named (some (codes "doc")) (X.get (doc_element prefix) (codes "name")))
          (tag-doc_element prefix)
        ∙ ap
            (λ v.
              is_local (codes "element") (some (prefix ++ codes "element"))
              && is_named (some (codes "doc")) v)
            (name-doc_element prefix)
        ∙ ap (λ l. (l == codes "element") && true)
            (local_part-prefix prefix (codes "element") p
              (Avoids-of_test (codes "}") (codes "element") refl))

    keeps :
        (new : X.Elem) (s : Step) (c : X.Elem) → step_test X s (X.insert c 0 new) ≡ step_test X s c
    keeps new s c =
        ap (step_test X s) (M.insert_lem c new 0)
        ∙ step_test-set_children X L s c (new ∷ X.children c)

    -- The new element is reached in every sequence it was put into.
    reaches-doc :
        (prefix : Str) (c : X.Elem)
        → IsPrefix prefix
        → reaches X (doc_step ∷ []) (X.insert c 0 (doc_element prefix)) ≡ true
    unfolding reaches
    reaches-doc prefix c p =
        ap (reaches X (doc_step ∷ [])) (M.insert_lem c (doc_element prefix) 0)
        ∙ reaches-set_children X L doc_step [] c (doc_element prefix ∷ X.children c)
        ∙ rw (step_test-doc_element prefix p) refl

    inserted_doc :
        (root root' : X.Elem)
        → insert_doc_in_universal_starting_group X N root ≡ ok root'
        → (reaches X (group_step ∷ sequence_step ∷ doc_step ∷ []) root' ≡ true)
          × ((r : Step) → reaches X (r ∷ []) root' ≡ reaches X (r ∷ []) root)
    unfolding insert_doc_in_universal_starting_group
    inserted_doc root root' h =
        let (ns, i, p) = ns_info-IsPrefix X N L M root in
        let new = doc_element ns.ns_prefix in
        let f : X.Elem → X.Elem = λ c. X.insert c 0 new in
        let u : update_walk X (group_step ∷ sequence_step ∷ []) f root ≡ some (tt, root') =
          first_of-some (update_walk X (group_step ∷ sequence_step ∷ []) f root) root'
            (rw (i, doc_element_lem ns.ns_prefix) at h) in
        (
          reaches-update X L f (keeps new) (group_step ∷ sequence_step ∷ []) (doc_step ∷ []) root
              root' (λ c. reaches-doc ns.ns_prefix c p) u,
          λ r. reaches_one-update X L f (keeps new) r group_step (sequence_step ∷ []) root root' u,
        )

    module _ (fromstring : Str → Result X.Elem) (parsed : IsParsed fromstring) where
      with_group :
          (b : Bool) (root r : X.Elem)
          → b ≡ reaches X (group_step ∷ []) root
          → (if b then ok root else insert_universal_starting_group X N fromstring root) ≡ ok r
          → reaches X (group_step ∷ []) r ≡ true
      unfolding insert_universal_starting_group
      with_group true root r e h = rw (← ok_injective root r h) (sym e)
      with_group false root r e h =
          let (g, d, f, _, t, _, _) = parsed in
          let (cs, i, k) = >>=-eq-ok (in_types X N root (X.children root)) _ h in
          reaches-insert_children X N L fromstring (X.set_children root cs) g r
            universal_starting_group_definition group_step [] f k
          ∙ rw t refl

      with_type :
          (b : Bool) (root r : X.Elem)
          → b ≡ (reaches X (type_step ∷ []) root && reaches X (doc_type_step ∷ []) root)
          → reaches X (group_step ∷ []) root ≡ true
          → (if b
              then ok root
              else insert_children_from_string X N fromstring root documentation_type_definition
                  none)
            ≡ ok r
          → (reaches X (group_step ∷ []) r ≡ true)
            × ((reaches X (type_step ∷ []) r && reaches X (doc_type_step ∷ []) r) ≡ true)
      with_type true root r e g h = let q = ok_injective root r h in rw (← q) (g, sym e)
      with_type false root r e g h =
          let (_, d, _, f, _, t, u) = parsed in
          let reached = λ (s : Step).
            reaches-insert_children X N L fromstring root d r documentation_type_definition s [] f
              h in
          (
            reached group_step ∙ ground (arith, g),
            rw (reached type_step, reached doc_type_step, t, u) refl,
          )

      with_doc :
          (b : Bool) (root r : X.Elem)
          → b ≡ reaches X (group_step ∷ sequence_step ∷ doc_step ∷ []) root
          → reaches X (group_step ∷ []) root ≡ true
          → (reaches X (type_step ∷ []) root && reaches X (doc_type_step ∷ []) root) ≡ true
          → (if b then ok root else insert_doc_in_universal_starting_group X N root) ≡ ok r
          → IsDocumented r
      with_doc true root r e g t h =
          let q = ok_injective root r h in
          rw (← q) (
            group_defined X N L M root ∙ ap ok g,
            type_defined X N L M root ∙ ap ok t,
            doc_defined X N L M root ∙ ap ok (sym e),
          )
      with_doc false root r e g t h =
          let (d, same) = inserted_doc root r h in
          (
            group_defined X N L M r ∙ ap ok (same group_step ∙ g),
            type_defined X N L M r ∙ ap ok (rw (same type_step, same doc_type_step) t),
            doc_defined X N L M r ∙ ap ok d,
          )

      -- Whatever the schema defines already: if the plugin returns, the schema defines the group, both types
      -- of documentation and the `doc` element of the group, given what its two texts are parsed to.
      pub add_documentation-IsDocumented :
          (root root' : X.Elem)
          → add_documentation X N fromstring root ≡ ok root'
          → IsDocumented root'
      unfolding add_documentation
      add_documentation-IsDocumented root root' h =
          let (b, i, h1) = >>=-eq-ok (universal_starting_group_defined X N root) _ h in
          let (w, j, h2) = >>=-eq-ok _ _ h1 in
          let (t, k, h3) = >>=-eq-ok (documentation_type_defined X N w) _ h2 in
          let (v, l, h4) = >>=-eq-ok _ _ h3 in
          let (d, m, h5) = >>=-eq-ok (doc_in_universal_starting_group X N v) _ h4 in
          let g : reaches X (group_step ∷ []) w ≡ true =
            with_group b root w (ok_injective b _ (sym i ∙ group_defined X N L M root)) j in
          let (g', t') = with_type t w v (ok_injective t _ (sym k ∙ type_defined X N L M w)) g l in
          with_doc d v root' (ok_injective d _ (sym m ∙ doc_defined X N L M v)) g' t' h5

      -- A second run of the plugin on the schema that a run has made changes nothing.
      pub add_documentation_idempotent :
          (root root' : X.Elem)
          → add_documentation X N fromstring root ≡ ok root'
          → add_documentation X N fromstring root' ≡ ok root'
      unfolding add_documentation
      add_documentation_idempotent root root' h =
          let (g, t, d) = add_documentation-IsDocumented root root' h in rw (g, t, d) refl
