-- ===== src/Xsd/Types.antt =====
-- The complex types whose content begins with the reference to the group: an insertion makes one, and
-- leaves it as it is.
use muen.Base.{
  Error, Bool, true, false, List, [], ◌∷◌, ◌++◌, Option, none, some, Str, codes, Result, ok, err,
}
use muen.Base.{◌≡◌, refl, ap, ◌∙◌, sym, >>=-eq-ok, ltb, length, if◌then◌else◌}
use mathlib.Core.List.{append_assoc, append-nil}
use muen.Base.Text.Laws.{Avoids-of_test}
use muen.Xml.{Etree, IsLawful}
use muen.Xml.Names.{Names, IsNamed}
use muen.Xsd.{NsInfo, ns_info, localname, node_ancestors_string}
use muen.Xsd.Groups.{
  Kind, kind_of, insert_at, insert_at_end, insert_from, insert_usg_in_complex_type,
  insert_usg_in_sequence, restriction_path,
}
use muen.Xsd.Groups.Kind.{
  simple_content, complex_content, annotation, particle, sequence, attributes, other,
}
use muen.Xsd.Elements.{IsPrefix, ns_info-IsPrefix, localname-element, localname-set_children}
use muen.Xsd.Started.{IsOpened, insert_IsOpened, insert-IsOpened, localname-insert}
use muen.Base.{ok_injective}

pub refused :
    {A : Type 0} (b : Bool) (why : Error) (x y : A)
    → (if b then err why else ok x) ≡ ok y
    → (b ≡ false) × (x ≡ y)
refused true why x y h = cc
refused false why x y h = (refl, ok_injective x y h)

module _ (X : Etree) (N : Names X) where
  -- What is required of the first child that is no annotation, by its kind; `later` is the requirement on
  -- the children behind an annotation.
  abbrev pub StartsAt : Kind → X.Elem → Type 0 → Type 0
  StartsAt simple_content child later = Unit
  StartsAt complex_content child later = ltb 0 (length (X.xpath child restriction_path)) ≡ false
  StartsAt annotation child later = later
  StartsAt sequence child later = IsOpened X N child
  StartsAt particle child later = ⊥
  StartsAt attributes child later = ⊥
  StartsAt other child later = ⊥

  -- The content is text, is derived by extension, or begins with the reference to the group.
  abbrev pub IsStarted : List X.Elem → Type 0
  IsStarted [] = ⊥
  IsStarted (child ∷ cs) = StartsAt (kind_of (localname X N child)) child (IsStarted cs)

  starts_sequence :
      (s : X.Elem) (cs : List X.Elem)
      → localname X N s ≡ some (codes "sequence")
      → IsOpened X N s
      → IsStarted (s ∷ cs)
  starts_sequence s cs e o = rw e o

  module _ (L : IsLawful X) (M : IsNamed X N) where
    pub localname-new :
        (prefix : Str)
        → IsPrefix prefix
        → localname X N (X.element (prefix ++ codes "sequence") []) ≡ some (codes "sequence")
    localname-new prefix p =
        localname-element X N L M prefix (codes "sequence") [] p
          (Avoids-of_test (codes "}{") (codes "sequence") refl)

    -- A new sequence, with any children
    opened_new :
        (prefix : Str) (cs : List X.Elem) (e s : X.Elem)
        → IsPrefix prefix
        → e ≡ X.set_children (X.element (prefix ++ codes "sequence") []) cs
        → insert_usg_in_sequence X N e ≡ ok s
        → (ds : List X.Elem) → IsStarted (s ∷ ds)
    opened_new prefix cs e s p q h ds =
        starts_sequence s ds
          (localname-insert X N L M e s h
            ∙ ap (localname X N) q
            ∙ localname-set_children X N L M (X.element (prefix ++ codes "sequence") []) cs
            ∙ localname-new prefix p)
          (insert-IsOpened X N L M e s h)

    pub insert_from-cons :
        (ancestors : List X.Elem) (node : X.Elem) (prefix : Option Str) (before : List X.Elem)
        (child : X.Elem) (cs : List X.Elem) (ns : NsInfo)
        → ns_info X N child ≡ ok ns
        → insert_from X N ancestors node prefix before (child ∷ cs)
          ≡ insert_at X N ancestors node
              (kind_of (localname X N child))
              ns.ns_prefix
              before
              child
              cs
              (insert_from X N ancestors node (some ns.ns_prefix) (before ++ child ∷ []) cs)
    unfolding insert_from
    insert_from-cons ancestors node prefix before child cs ns i = rw i refl

    module _ (ancestors : List X.Elem) (node node' : X.Elem) where
      put :
          (before : List X.Elem) (s : X.Elem) (cs : List X.Elem)
          → X.set_children node (before ++ s ∷ cs) ≡ node'
          → ((ds : List X.Elem) → IsStarted ds → IsStarted (before ++ ds))
          → IsStarted (s ∷ cs)
          → IsStarted (X.children node')
      put before s cs e keep h =
          rw (← e, L.children-set_children node (before ++ s ∷ cs)) (keep (s ∷ cs) h)

      -- One child: `keep` says that what was passed are annotations.
      IsStarted-at :
          (k : Kind) (prefix : Str) (before : List X.Elem) (child : X.Elem) (cs : List X.Elem)
          (continued : Result X.Elem)
          → kind_of (localname X N child) ≡ k
          → IsPrefix prefix
          → X.children node ≡ before ++ child ∷ cs
          → ((ds : List X.Elem) → IsStarted ds → IsStarted (before ++ ds))
          → (k ≡ annotation → continued ≡ ok node' → IsStarted (X.children node'))
          → insert_at X N ancestors node k prefix before child cs continued ≡ ok node'
          → IsStarted (X.children node')
      IsStarted-at simple_content prefix before child cs continued e p c keep next h =
          rw (← ok_injective node node' h, c) (keep (child ∷ cs) (rw e tt))
      IsStarted-at complex_content prefix before child cs continued e p c keep next h =
          let (b, q) = refused (ltb 0 (length (X.xpath child restriction_path))) _ node node' h in
          rw (← q, c) (keep (child ∷ cs) (rw e b))
      IsStarted-at annotation prefix before child cs continued e p c keep next h = next refl h
      IsStarted-at particle prefix before child cs continued e p c keep next h =
          let new = X.element (prefix ++ codes "sequence") [] in
          let (s, i, r) = >>=-eq-ok (insert_usg_in_sequence X N (X.append new child)) _ h in
          put before s cs (ok_injective _ node' r) keep (
            opened_new prefix (X.children new ++ child ∷ []) (X.append new child) s p
              (M.append_lem new child) i cs)
      IsStarted-at sequence prefix before child cs continued e p c keep next h =
          let (s, i, r) = >>=-eq-ok (insert_usg_in_sequence X N child) _ h in
          put before s cs (ok_injective _ node' r) keep
            (rw (localname-insert X N L M child s i, e) (insert-IsOpened X N L M child s i))
      IsStarted-at attributes prefix before child cs continued e p c keep next h =
          let new = X.element (prefix ++ codes "sequence") [] in
          let (s, i, r) = >>=-eq-ok (insert_usg_in_sequence X N new) _ h in
          put before s (child ∷ cs) (ok_injective _ node' r) keep (
            opened_new prefix (X.children new) new s p (sym (M.set_children_self new)) i
              (child ∷ cs))
      IsStarted-at other prefix before child cs continued e p c keep next h =
          let (s, i, r) = >>=-eq-ok (node_ancestors_string X N child (node ∷ ancestors)) _ h in cc

      IsStarted-at_end :
          (prefix : Option Str)
          → ((p : Str) → prefix ≡ some p → IsPrefix p)
          → ((ds : List X.Elem) → IsStarted ds → IsStarted (X.children node ++ ds))
          → insert_at_end X N ancestors node prefix ≡ ok node'
          → IsStarted (X.children node')
      IsStarted-at_end none p keep h = cc
      IsStarted-at_end (some prefix) p keep h =
          let new = X.element (prefix ++ codes "sequence") [] in
          let (s, i, r) = >>=-eq-ok (insert_usg_in_sequence X N new) _ h in
          put (X.children node) s [] (sym (M.append_lem node s) ∙ ok_injective _ node' r) keep (
            opened_new prefix (X.children new) new s (p prefix refl) (sym (M.set_children_self new))
              i [])

      annotation_keeps :
          (before : List X.Elem) (child : X.Elem)
          → ((ds : List X.Elem) → IsStarted ds → IsStarted (before ++ ds))
          → kind_of (localname X N child) ≡ annotation
          → (ds : List X.Elem) → IsStarted ds
          → IsStarted ((before ++ child ∷ []) ++ ds)
      annotation_keeps before child keep e ds h =
          rw (append_assoc before (child ∷ []) ds) (keep (child ∷ ds) (rw e h))

      IsStarted-from :
          (prefix : Option Str) (before cs : List X.Elem)
          → X.children node ≡ before ++ cs
          → ((p : Str) → prefix ≡ some p → IsPrefix p)
          → ((ds : List X.Elem) → IsStarted ds → IsStarted (before ++ ds))
          → insert_from X N ancestors node prefix before cs ≡ ok node'
          → IsStarted (X.children node')
      unfolding insert_from
      IsStarted-from prefix before [] c p keep h =
          IsStarted-at_end prefix p (rw (c, append-nil before) keep) h
      IsStarted-from prefix before (child ∷ cs) c p keep h =
          let (ns, i, q) = ns_info-IsPrefix X N L M child in
          let rest = insert_from X N ancestors node (some ns.ns_prefix) (before ++ child ∷ []) cs in
          IsStarted-at (kind_of (localname X N child)) ns.ns_prefix before child cs rest refl q c
            keep
            (λ a g.
              IsStarted-from (some ns.ns_prefix) (before ++ child ∷ []) cs
                (c ∙ sym (append_assoc before (child ∷ []) cs))
                (λ t e. let w : ns.ns_prefix ≡ t = cc in rw (← w) q)
                (annotation_keeps before child keep a) g)
            (sym (insert_from-cons ancestors node prefix before child cs ns i) ∙ h)

      -- The content of a complex type begins with the reference to the group after an insertion that
      -- returns, or it is text or an extension.
      pub insert-IsStarted :
          insert_usg_in_complex_type X N ancestors node ≡ ok node' → IsStarted (X.children node')
      unfolding insert_usg_in_complex_type
      insert-IsStarted h = IsStarted-from none [] (X.children node) refl (λ p e. cc) (λ ds d. d) h

    module _ (ancestors : List X.Elem) (node : X.Elem) where
      unchanged_at :
          (k : Kind) (prefix : Str) (before : List X.Elem) (child : X.Elem) (cs : List X.Elem)
          (later : Type 0) (continued : Result X.Elem)
          → X.children node ≡ before ++ child ∷ cs
          → (later → continued ≡ ok node)
          → StartsAt k child later
          → insert_at X N ancestors node k prefix before child cs continued ≡ ok node
      unchanged_at simple_content prefix before child cs later continued c next s = refl
      unchanged_at complex_content prefix before child cs later continued c next s = rw s refl
      unchanged_at annotation prefix before child cs later continued c next s = next s
      unchanged_at sequence prefix before child cs later continued c next s =
          rw (insert_IsOpened X N L M child s)
            (ap (λ ds. ok (X.set_children node ds)) (sym c) ∙ ap ok (M.set_children_self node))
      unchanged_at particle prefix before child cs later continued c next s = absurd s
      unchanged_at attributes prefix before child cs later continued c next s = absurd s
      unchanged_at other prefix before child cs later continued c next s = absurd s

      unchanged_from :
          (prefix : Option Str) (before cs : List X.Elem)
          → X.children node ≡ before ++ cs
          → IsStarted cs
          → insert_from X N ancestors node prefix before cs ≡ ok node
      unchanged_from prefix before [] c s = absurd s
      unchanged_from prefix before (child ∷ cs) c s =
          let (ns, i, q) = ns_info-IsPrefix X N L M child in
          insert_from-cons ancestors node prefix before child cs ns i
          ∙ unchanged_at (kind_of (localname X N child)) ns.ns_prefix before child cs (IsStarted cs)
              (insert_from X N ancestors node (some ns.ns_prefix) (before ++ child ∷ []) cs) c
              (unchanged_from (some ns.ns_prefix) (before ++ child ∷ []) cs
                (c ∙ sym (append_assoc before (child ∷ []) cs)))
              s

      pub insert_IsStarted :
          IsStarted (X.children node) → insert_usg_in_complex_type X N ancestors node ≡ ok node
      unfolding insert_usg_in_complex_type
      insert_IsStarted s = unchanged_from none [] (X.children node) refl s

    -- Inserting the reference a second time changes nothing: what `insert_usg_in_complex_type` returns, it
    -- returns again, whatever the ancestors are.
    pub insert_usg_in_complex_type_idempotent :
        (ancestors ancestors' : List X.Elem) (node node' : X.Elem)
        → insert_usg_in_complex_type X N ancestors node ≡ ok node'
        → insert_usg_in_complex_type X N ancestors' node' ≡ ok node'
    insert_usg_in_complex_type_idempotent ancestors ancestors' node node' h =
        insert_IsStarted ancestors' node' (insert-IsStarted ancestors node node' h)
