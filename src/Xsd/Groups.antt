-- ===== src/Xsd/Groups.antt =====
-- The reference to the group `universal_starting_group` as the first element of each complex type of a
-- schema, of tools/libmuxml/schema_plugins/libmuxsdplugin.py. An update in place of an element is the
-- element rebuilt; `fromstring` is lxml's parser, which may raise.
use muen.Base.{ℕ, suc, Bool, not, ◌||◌, List, [], ◌∷◌, ◌++◌, Option, none, some, Str, codes}
use muen.Base.{
  Result, ok, err, ◌>>=◌, name_error, value_error, if◌then◌else◌, ◌==◌, list_eq, nat_eq,
}
use muen.Base.{option_eq, length, ltb, leb}
use muen.Xml.{Etree}
use muen.Xml.Names.{Names}
use muen.Xsd.{ns_info, localname, node_to_string, node_ancestors_string, create_element_from_dict}

abbrev pub universal_starting_group_definition : Str
universal_starting_group_definition =
    codes
      "\n<dummy_root xmlns:xs=\"http://www.w3.org/2001/XMLSchema\">\n <xs:group name=\"universal_starting_group\">\n   <xs:annotation>\n     <xs:documentation>\n       This group holds content that can appear at the beginning\n       of every complex type.\n     </xs:documentation>\n   </xs:annotation>\n   <xs:sequence/>\n </xs:group>\n</dummy_root>\n"

-- The cases of the children of a complex type, in the order of the tests
pub data Kind : Type 0 where
  simple_content complex_content annotation particle sequence attributes other : Kind

abbrev pub kind_of : Option Str → Kind
kind_of none = other
kind_of (some name) =
    if name == codes "simpleContent"
    then simple_content
    else if name == codes "complexContent"
    then complex_content
    else if name == codes "annotation"
    then annotation
    else if (name == codes "choice" || name == codes "group")
    then particle
    else if name == codes "sequence"
    then sequence
    else if (name == codes "attribute" || name == codes "attributeGroup")
    then attributes
    else other

abbrev unsupported : Option Str → Str
unsupported none = []
unsupported (some name) = codes "Found unsupported tag in complexType: " ++ name

abbrev pub restriction_path : Str
restriction_path = codes "./*[local-name()='restriction']"

abbrev pub universal_starting_group_path : Str
universal_starting_group_path =
    codes "./*[local-name()='group' and @name='universal_starting_group']"

module _ (X : Etree) (N : Names X) where
  abbrev pub group_reference : Str → Result X.Elem
  group_reference prefix = create_element_from_dict X N (
      (codes "qname", prefix ++ codes "group")
      ∷ (codes "ref", codes "universal_starting_group")
      ∷ [])

  abbrev pub insert_first : X.Elem → X.Elem → List X.Elem → Result X.Elem
  insert_first node new_element [] = ok (X.append node new_element)
  insert_first node new_element (first ∷ cs) = do
    s ← node_to_string X N first
    t ← node_to_string X N new_element
    ok (if not (s == t) then X.insert node 0 new_element else node)

  unfoldable pub insert_usg_in_sequence : X.Elem → Result X.Elem
  insert_usg_in_sequence node = do
    ns ← ns_info X N node
    new_element ← group_reference ns.ns_prefix
    insert_first node new_element (X.children node)

  module _ (ancestors : List X.Elem) (node : X.Elem) where
    -- What is done at a child of `node`: `before` and `cs` are its siblings, `continued` is what the loop
    -- does at the next child.
    abbrev pub insert_at :
        Kind → Str → List X.Elem → X.Elem → List X.Elem → Result X.Elem → Result X.Elem
    insert_at simple_content prefix before child cs continued = ok node
    insert_at complex_content prefix before child cs continued =
        if ltb 0 (length (X.xpath child restriction_path))
        then err (value_error (codes "Found unsupported element in complexType: 'restriction'"))
        else ok node
    insert_at annotation prefix before child cs continued = continued
    insert_at particle prefix before child cs continued = do
      s ← insert_usg_in_sequence (X.append (X.element (prefix ++ codes "sequence") []) child)
      ok (X.set_children node (before ++ s ∷ cs))
    insert_at sequence prefix before child cs continued = do
      s ← insert_usg_in_sequence child
      ok (X.set_children node (before ++ s ∷ cs))
    insert_at attributes prefix before child cs continued = do
      s ← insert_usg_in_sequence (X.element (prefix ++ codes "sequence") [])
      ok (X.set_children node (before ++ s ∷ child ∷ cs))
    insert_at other prefix before child cs continued = do
      location ← node_ancestors_string X N child (node ∷ ancestors)
      err (
          value_error
            (unsupported (localname X N child) ++ (codes "\nLocation of finding: " ++ location)))

    -- Behind the loop: `prefix` is a variable of the loop, without a value if no child was seen.
    abbrev pub insert_at_end : Option Str → Result X.Elem
    insert_at_end none = err name_error
    insert_at_end (some prefix) = do
      s ← insert_usg_in_sequence (X.element (prefix ++ codes "sequence") [])
      ok (X.append node s)

    unfoldable pub insert_from : Option Str → List X.Elem → List X.Elem → Result X.Elem
    insert_from prefix before [] = insert_at_end prefix
    insert_from prefix before (child ∷ cs) = ns_info X N child >>= (λ ns.
        insert_at (kind_of (localname X N child)) ns.ns_prefix before child cs
          (insert_from (some ns.ns_prefix) (before ++ child ∷ []) cs))

    unfoldable pub insert_usg_in_complex_type : Result X.Elem
    unfolding insert_from
    insert_usg_in_complex_type = insert_from none [] (X.children node)

  abbrev pub in_types : X.Elem → List X.Elem → Result (List X.Elem)
  in_types doc_root [] = ok []
  in_types doc_root (child_node ∷ cs) = do
    c ←
        if localname X N child_node == some (codes "complexType")
        then insert_usg_in_complex_type (doc_root ∷ []) child_node
        else ok child_node
    ds ← in_types doc_root cs
    ok (c ∷ ds)

  unfoldable pub universal_starting_group_defined : X.Elem → Result Bool
  universal_starting_group_defined root = do
    ns ← ns_info X N root
    ok (leb 1 (length (X.xpath root universal_starting_group_path)))

  abbrev pub index_of : X.Elem → Option Str → Result ℕ
  index_of root none = ok 0
  index_of root (some position) =
      if position == codes "top"
      then ok 0
      else if position == codes "bottom"
      then ok (length (X.children root))
      else err (value_error (codes "Unknown value for parameter 'position': " ++ position))

  abbrev pub insert_all : List X.Elem → ℕ → X.Elem → X.Elem
  insert_all [] index root = root
  insert_all (child ∷ cs) index root = insert_all cs (suc index) (X.insert root index child)

  module _ (fromstring : Str → Result X.Elem) where
    unfoldable pub insert_children_from_string : X.Elem → Str → Option Str → Result X.Elem
    insert_children_from_string root xml_string position = do
      new_doc ← fromstring xml_string
      index ← index_of root position
      ok (insert_all (X.children new_doc) index root)

    unfoldable pub insert_universal_starting_group : X.Elem → Result X.Elem
    unfolding insert_children_from_string
    insert_universal_starting_group doc_root = do
      cs ← in_types doc_root (X.children doc_root)
      insert_children_from_string (X.set_children doc_root cs) universal_starting_group_definition
          none
