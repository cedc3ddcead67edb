-- ===== src/Tests/Schema.antt =====
-- A small schema, and the theorems on the schema plugins at it.
use mathlib.Core.List.{flat_map}
use mathlib.Core.List.Permᴰ.{swap}
use muen.Base.{
  List, [], ◌∷◌, ◌++◌, some, Str, codes, Result, ok, err, ◌>>=◌, ◌≡◌, refl, value_error, name_error,
  if◌then◌else◌, ◌==◌, list_eq, nat_eq,
}
use muen.Base.Dict.{lookup, insert}
use muen.Base.Text.{split}
use muen.Xml.Names.{expanded}
use muen.Xml.Steps.{local_part, reaches, update_walk, path_text}
use muen.Xml.Tree.{Tree, tree, elem, tree-IsLawful}
use muen.Xml.Tree.Named.{names-IsNamed}
use muen.Xml.Tree.Prefixes.{names}
use muen.Xsd.Groups.{
  universal_starting_group_defined, insert_universal_starting_group, insert_usg_in_complex_type,
  insert_from, insert_usg_in_sequence, insert_children_from_string,
  universal_starting_group_definition,
}
use muen.Xsd.{node_text, node_to_string}
use muen.XsdDoc.{
  documentation_type_definition, add_documentation, documentation_type_defined,
  doc_in_universal_starting_group, insert_doc_in_universal_starting_group, doc_path, group_step,
  sequence_step, doc_step,
}
use muen.XsdDoc.Children.{placed, children-insert_children_from_string}
use muen.XsdDoc.Documented.{
  IsParsed, IsDocumented, add_documentation-IsDocumented, add_documentation_idempotent,
}
use muen.Xsd.Sorting.{sort}
use muen.Xsd.Order.{node_to_string_perm}
use muen.Xsd.Types.{insert_usg_in_complex_type_idempotent}
use muen.Xsd.Content.{view}
use muen.Xsd.Content.Content.{elements}
use muen.Xsd.Returns.{insert_usg_in_complex_type_returns}

abbrev xs : Str → Str
xs name = expanded (codes "http://www.w3.org/2001/XMLSchema") ++ name

abbrev annotation : Tree
annotation = elem (xs (codes "annotation")) [] []

abbrev choice : Tree
choice =
    elem (xs (codes "choice")) []
      (elem (xs (codes "element")) ((codes "name", codes "memory") ∷ []) [] ∷ [])

abbrev attribute : Tree
attribute = elem (xs (codes "attribute")) ((codes "name", codes "size") ∷ []) []

abbrev complex : List Tree → Tree
complex cs = elem (xs (codes "complexType")) ((codes "name", codes "memoryType") ∷ []) cs

abbrev choice_type : Tree
choice_type = complex (annotation ∷ choice ∷ attribute ∷ [])

abbrev group_reference : Tree
group_reference =
    elem (xs (codes "group")) ((codes "ref", codes "universal_starting_group") ∷ []) []

abbrev started_type : Tree
started_type =
    complex (
      annotation ∷ elem (xs (codes "sequence")) [] (group_reference ∷ choice ∷ []) ∷ attribute ∷ [])

choice_type_started : insert_usg_in_complex_type tree names [] choice_type ≡ ok started_type
unfolding insert_usg_in_complex_type insert_from insert_usg_in_sequence node_text sort split lookup
    insert
choice_type_started = refl

insert_usg_in_complex_type_idempotent_example :
    insert_usg_in_complex_type tree names [] started_type ≡ ok started_type
insert_usg_in_complex_type_idempotent_example =
    insert_usg_in_complex_type_idempotent tree names tree-IsLawful names-IsNamed [] [] choice_type
      started_type choice_type_started

choice_type-view :
    view tree names [] (tree.children choice_type)
    ≡ some (elements (annotation ∷ []) (choice ∷ []) (attribute ∷ []))
unfolding split lookup
choice_type-view = refl

insert_usg_in_complex_type_returns_example :
    (n : Tree) × (insert_usg_in_complex_type tree names [] choice_type ≡ ok n)
unfolding split
insert_usg_in_complex_type_returns_example =
    insert_usg_in_complex_type_returns tree names tree-IsLawful names-IsNamed [] choice_type
      (elements (annotation ∷ []) (choice ∷ []) (attribute ∷ [])) choice_type-view
      (codes "choice", refl)

-- A type with no children reads a variable that has no value.
empty_type_raises : insert_usg_in_complex_type tree names [] (complex []) ≡ err name_error
unfolding insert_usg_in_complex_type insert_from
empty_type_raises = refl

abbrev first_order : Tree
first_order =
    elem (xs (codes "element")) ((codes "name", codes "a") ∷ (codes "type", codes "b") ∷ []) []

abbrev second_order : Tree
second_order =
    elem (xs (codes "element")) ((codes "type", codes "b") ∷ (codes "name", codes "a") ∷ []) []

node_to_string_perm_example :
    node_to_string tree names first_order ≡ node_to_string tree names second_order
node_to_string_perm_example =
    node_to_string_perm tree names first_order second_order refl refl (∣ swap refl refl ∣₁)

abbrev group_definition : Tree
group_definition =
    elem (xs (codes "group")) ((codes "name", codes "universal_starting_group") ∷ [])
      (annotation ∷ elem (xs (codes "sequence")) [] [] ∷ [])

abbrev documentation_types : List Tree
documentation_types =
    elem (xs (codes "complexType")) ((codes "name", codes "documentationType") ∷ [])
      (annotation ∷ elem (xs (codes "simpleContent")) [] [] ∷ [])
    ∷ elem (xs (codes "simpleType")) ((codes "name", codes "docTypeType") ∷ []) (annotation ∷ [])
    ∷ []

-- A parser that knows two texts
abbrev fromstring : Str → Result Tree
fromstring text =
    if text == universal_starting_group_definition
    then ok (elem (codes "dummy_root") [] (group_definition ∷ []))
    else if text == documentation_type_definition
    then ok (elem (codes "dummy_root") [] documentation_types)
    else err (value_error (codes "not known"))

abbrev group_parsed : Tree
group_parsed = elem (codes "dummy_root") [] (group_definition ∷ [])

children-insert_children_from_string_example :
    (insert_children_from_string tree names fromstring choice_type
        universal_starting_group_definition
        (some (codes "bottom"))
      >>= (λ root'. ok (tree.children root')))
    ≡ placed (some (codes "bottom")) (group_definition ∷ []) (annotation ∷ choice ∷ attribute ∷ [])
children-insert_children_from_string_example =
    children-insert_children_from_string tree names tree-IsLawful fromstring choice_type
      group_parsed universal_starting_group_definition (some (codes "bottom")) refl

abbrev schema : List Tree → Tree
schema cs = elem (xs (codes "schema")) [] cs

abbrev doc : Tree
doc =
    elem (xs (codes "element"))
      ((codes "name", codes "doc")
        ∷ (codes "type", codes "documentationType")
        ∷ (codes "minOccurs", codes "0")
        ∷ (codes "maxOccurs", codes "unbounded")
        ∷ [])
      []

abbrev group_with_doc : Tree
group_with_doc =
    elem (xs (codes "group")) ((codes "name", codes "universal_starting_group") ∷ [])
      (annotation ∷ elem (xs (codes "sequence")) [] (doc ∷ []) ∷ [])

abbrev documented : Tree
documented = schema (documentation_types ++ (group_with_doc ∷ started_type ∷ []))

parsed : IsParsed tree names fromstring
unfolding reaches local_part split lookup
parsed =
    (group_parsed, elem (codes "dummy_root") [] documentation_types, refl, refl, refl, refl, refl)

schema-documented :
    add_documentation tree names fromstring (schema (choice_type ∷ [])) ≡ ok documented
unfolding add_documentation universal_starting_group_defined insert_universal_starting_group
    documentation_type_defined doc_in_universal_starting_group
    insert_doc_in_universal_starting_group insert_children_from_string update_walk
    insert_usg_in_complex_type insert_from insert_usg_in_sequence node_text sort split lookup insert
    local_part flat_map
schema-documented = refl

add_documentation-IsDocumented_example : IsDocumented tree names documented
add_documentation-IsDocumented_example =
    add_documentation-IsDocumented tree names tree-IsLawful names-IsNamed fromstring parsed
      (schema (choice_type ∷ [])) documented schema-documented

documented_again : add_documentation tree names fromstring documented ≡ ok documented
documented_again =
    add_documentation_idempotent tree names tree-IsLawful names-IsNamed fromstring parsed
      (schema (choice_type ∷ [])) documented schema-documented

-- The text of the paths, and their steps
doc_path_text : path_text (group_step ∷ sequence_step ∷ doc_step ∷ []) ≡ doc_path
doc_path_text = refl
