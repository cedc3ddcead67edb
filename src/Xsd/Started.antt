-- ===== src/Xsd/Started.antt =====
-- The sequences that begin with the reference to the group, and that inserting it does so once.
use muen.Base.{arith, ok_injective}
use muen.Base.{not, List, [], ◌∷◌, ◌++◌, Str, ok}
use muen.Base.{
  ◌≡◌, refl, ap, ◌∙◌, sym, ◌==◌, list_eq, nat_eq, >>=-eq-ok, beq_self, list_beq_iff, Bool-cases,
  inl, inr,
}
use muen.Base.{if◌then◌else◌, ◌⊎◌}
use muen.Xml.{Etree, IsLawful}
use muen.Xml.Names.{Names, IsNamed}
use muen.Xsd.{NsInfo, ns_info, localname, node_to_string}
use muen.Xsd.Groups.{insert_first, insert_usg_in_sequence}
use muen.Xsd.Elements.{
  reference, group_reference_lem, node_to_string-reference, ns_info-set_children,
  localname-set_children, ns_info-IsPrefix,
}

module _ (X : Etree) (N : Names X) where
  -- The first child reads as the reference to the group.
  abbrev pub IsOpened : X.Elem → Type 0
  IsOpened node =
      (ns : NsInfo) × (first : X.Elem) × (rest : List X.Elem) × (text : Str) × (ns_info X N node
        ≡ ok ns)
      × (X.children node ≡ first ∷ rest)
      × (node_to_string X N first ≡ ok text)
      × (node_to_string X N (reference X ns.ns_prefix) ≡ ok text)

  -- The first of the elements has the given text.
  abbrev pub StartsWith : Str → List X.Elem → Type 0
  StartsWith text [] = ⊥
  StartsWith text (first ∷ rest) = node_to_string X N first ≡ ok text

  -- The first of the elements reads as the reference to the group, with the given prefix.
  abbrev pub Begins : Str → List X.Elem → Type 0
  Begins prefix cs =
      (text : Str) × (node_to_string X N (reference X prefix) ≡ ok text) × StartsWith text cs

  module _ (L : IsLawful X) (M : IsNamed X N) where
    pub insert_lem :
        (node : X.Elem) (ns : NsInfo)
        → ns_info X N node ≡ ok ns
        → insert_usg_in_sequence X N node
          ≡ insert_first X N node (reference X ns.ns_prefix) (X.children node)
    unfolding insert_usg_in_sequence
    insert_lem node ns h = rw (h, group_reference_lem X N L M ns.ns_prefix) refl

    pub insert_first-cons :
        (node new first : X.Elem) (rest : List X.Elem) (u t : Str)
        → node_to_string X N first ≡ ok u
        → node_to_string X N new ≡ ok t
        → insert_first X N node new (first ∷ rest)
          ≡ ok (if not (u == t) then X.insert node 0 new else node)
    insert_first-cons node new first rest u t f n = rw (f, n) refl

    pub insert_IsOpened :
        (node : X.Elem) → IsOpened node → insert_usg_in_sequence X N node ≡ ok node
    insert_IsOpened node (ns, first, rest, text, h, c, f, r) =
        insert_lem node ns h
        ∙ ap (insert_first X N node (reference X ns.ns_prefix)) c
        ∙ insert_first-cons node (reference X ns.ns_prefix) first rest text text f r
        ∙ rw (beq_self text) refl

    insert_first_cases :
        (node new s : X.Elem) (cs : List X.Elem) (t : Str)
        → X.children node ≡ cs
        → node_to_string X N new ≡ ok t
        → insert_first X N node new cs ≡ ok s
        → ((first : X.Elem) × (rest : List X.Elem) × (cs ≡ first ∷ rest)
            × (node_to_string X N first ≡ ok t)
            × (s ≡ node))
          ⊎ (¬ StartsWith t cs × (s ≡ X.set_children node (new ∷ cs)))
    insert_first_cases node new s [] t c n h = inr (
      (λ b. b),
      sym (ok_injective (X.append node new) s h)
          ∙ M.append_lem node new
          ∙ ap (λ ds. X.set_children node (ds ++ new ∷ [])) c,
    )
    insert_first_cases node new s (first ∷ rest) t c n h =
        let (u, f, k) = >>=-eq-ok (node_to_string X N first) _ h in
        let e : (if not (u == t) then X.insert node 0 new else node) ≡ s =
          ok_injective _ s (sym (insert_first-cons node new first rest u t f n) ∙ h) in
        elim (Bool-cases (u == t)) [
          | inl b ↦
              let q : u ≡ t = (list_beq_iff u t).0 b in
              let r : (if not (u == t) then X.insert node 0 new else node) ≡ node = rw b refl in
              inl (first, rest, refl, f ∙ ap ok q, sym e ∙ r)
          | inr b ↦
              let r : (if not (u == t) then X.insert node 0 new else node) ≡ X.insert node 0 new =
                rw b refl in
              inr (
                (λ p.
                    let q : u ≡ t = ok_injective u t (sym f ∙ p) in
                    ground (arith, b, list_beq_iff u t)),
                sym e ∙ r ∙ M.insert_lem node new 0 ∙ ap (λ ds. X.set_children node (new ∷ ds)) c,
              )
        ]

    -- What an insertion leaves of a sequence: it, if it begins with the reference to the group, or else it
    -- with the reference in front of its children.
    pub insert_cases :
        (node s : X.Elem)
        → insert_usg_in_sequence X N node ≡ ok s
        → (ns : NsInfo) × (ns_info X N node ≡ ok ns)
          × ((Begins ns.ns_prefix (X.children node) × (s ≡ node))
              ⊎ (¬ Begins ns.ns_prefix (X.children node)
                  × (s ≡ X.set_children node (reference X ns.ns_prefix ∷ X.children node))))
    insert_cases node s h =
        let (ns, i, _) = ns_info-IsPrefix X N L M node in
        let (t, n) = node_to_string-reference X N L M ns.ns_prefix in
        elim (insert_first_cases node (reference X ns.ns_prefix) s (X.children node) t refl n
          (sym (insert_lem node ns i) ∙ h)) [
            | inl (first, rest, c, f, e) ↦ (ns, i, inl ((t, n, rw c f), e))
            | inr (o, e) ↦ (
              ns,
              i,
              inr (
                (λ (u, m, b). let q : u ≡ t = ok_injective u t (sym m ∙ n) in o (rw (← q) b)),
                e,
              ),
            )
          ]

    opened :
        (node : X.Elem) (ns : NsInfo) (cs : List X.Elem)
        → ns_info X N node ≡ ok ns
        → X.children node ≡ cs
        → Begins ns.ns_prefix cs
        → IsOpened node
    opened node ns [] i c (t, n, b) = absurd b
    opened node ns (first ∷ rest) i c (t, n, b) = (ns, first, rest, t, i, c, b, n)

    -- After an insertion the sequence begins with the reference.
    pub insert-IsOpened : (node s : X.Elem) → insert_usg_in_sequence X N node ≡ ok s → IsOpened s
    insert-IsOpened node s h =
        let (ns, i, cases) = insert_cases node s h in
        let (t, n) = node_to_string-reference X N L M ns.ns_prefix in
        elim cases [
          | inl (o, e) ↦ rw e (opened node ns (X.children node) i refl o)
          | inr (_, e) ↦ rw e (
            ns,
            reference X ns.ns_prefix,
            X.children node,
            t,
            ns_info-set_children X N L M node (reference X ns.ns_prefix ∷ X.children node) ∙ i,
            L.children-set_children node (reference X ns.ns_prefix ∷ X.children node),
            n,
            n,
          )
        ]

    pub localname-insert :
        (node s : X.Elem)
        → insert_usg_in_sequence X N node ≡ ok s
        → localname X N s ≡ localname X N node
    localname-insert node s h =
        let (ns, i, cases) = insert_cases node s h in
        elim cases [
          | inl (o, e) ↦ rw e refl
          | inr (_, e) ↦
              rw e
                (localname-set_children X N L M node (reference X ns.ns_prefix ∷ X.children node))
        ]
