-- ===== src/XsdDoc.antt =====
-- The schema plugin that allows `doc` elements in every complex type,
-- tools/libmuxml/schema_plugins/xsd_plugin_doc.py. `fromstring` is lxml's parser, which may raise.
pub mod Defined
pub mod Children
pub mod Documented
use muen.Base.{Bool, true, false, ◌&&◌, List, [], ◌∷◌, ◌++◌, Option, none, some, Str, codes}
use muen.Base.{Result, ok, err, ◌>>=◌, index_error, if◌then◌else◌, leb, length}
use muen.Base.Dict.{Dict}
use muen.Xml.{Etree}
use muen.Xml.Names.{Names}
use muen.Xml.Steps.{Step, update_walk}
use muen.Xsd.{NsInfo, ns_info, create_element_from_dict}
use muen.Xsd.Groups.{
  universal_starting_group_defined, insert_universal_starting_group, insert_children_from_string,
}

abbrev pub documentation_type_definition : Str
documentation_type_definition =
    codes
      "\n<dummy_root xmlns:xs=\"http://www.w3.org/2001/XMLSchema\">\n <xs:complexType name=\"documentationType\">\n  <xs:annotation>\n   <xs:documentation>\n    A \\texttt{doc} node contains documentation about its parent node.\n    The type of the documentation specifies its intended recipients.\n   </xs:documentation>\n  </xs:annotation>\n  <xs:simpleContent>\n   <xs:extension base=\"xs:string\">\n    <xs:attribute name=\"type\" type=\"docTypeType\" use=\"optional\"/>\n    <xs:attribute name=\"chapter\" type=\"xs:string\" use=\"optional\"/>\n    <xs:attribute name=\"priority\" type=\"xs:nonNegativeInteger\" use=\"optional\"/>\n   </xs:extension>\n  </xs:simpleContent>\n </xs:complexType>\n <xs:simpleType name=\"docTypeType\">\n  <xs:annotation>\n   <xs:documentation>\n    Supported types of documentation.\n   </xs:documentation>\n  </xs:annotation>\n  <xs:restriction base=\"xs:string\">\n   <xs:enumeration value=\"muen-tools\"/>\n   <xs:enumeration value=\"dev\"/>\n  </xs:restriction>\n </xs:simpleType>\n</dummy_root>\n"

-- The paths, by their steps
abbrev pub group_step : Step
group_step = record { local = codes "group"; name = some (codes "universal_starting_group") }

abbrev pub sequence_step : Step
sequence_step = record { local = codes "sequence"; name = none }

abbrev pub doc_step : Step
doc_step = record { local = codes "element"; name = some (codes "doc") }

abbrev pub type_step : Step
type_step = record { local = codes "complexType"; name = some (codes "documentationType") }

abbrev pub doc_type_step : Step
doc_type_step = record { local = codes "simpleType"; name = some (codes "docTypeType") }

abbrev pub documentation_type_path : Str
documentation_type_path = codes "./*[local-name()='complexType' and @name='documentationType']"

abbrev pub doc_type_type_path : Str
doc_type_type_path = codes "./*[local-name()='simpleType' and @name='docTypeType']"

abbrev pub doc_path : Str
doc_path =
    codes
      "./*[local-name()='group' and @name='universal_starting_group']/*[local-name()='sequence']/*[local-name()='element' and @name='doc']"

-- The attributes of a `doc` element, with its tag
abbrev pub doc_attributes : Str → Dict Str Str
doc_attributes prefix =
    (codes "qname", prefix ++ codes "element")
    ∷ (codes "name", codes "doc")
    ∷ (codes "type", codes "documentationType")
    ∷ (codes "minOccurs", codes "0")
    ∷ (codes "maxOccurs", codes "unbounded")
    ∷ []

module _ (X : Etree) (N : Names X) where
  unfoldable pub documentation_type_defined : X.Elem → Result Bool
  documentation_type_defined root = do
    ns ← ns_info X N root
    let docT_nodes = X.xpath root documentation_type_path
    let docTT_nodes = X.xpath root doc_type_type_path
    ok (leb 1 (length docT_nodes) && leb 1 (length docTT_nodes))

  unfoldable pub doc_in_universal_starting_group : X.Elem → Result Bool
  doc_in_universal_starting_group root = do
    ns ← ns_info X N root
    ok (leb 1 (length (X.xpath root doc_path)))

  abbrev pub first_of : Option (Unit {0} × X.Elem) → Result X.Elem
  first_of none = err index_error
  first_of (some (tt, e)) = ok e

  -- The sequence is the first that `./*[local-name()='group' and …]/*[local-name()='sequence']` selects.
  unfoldable pub insert_doc_in_universal_starting_group : X.Elem → Result X.Elem
  insert_doc_in_universal_starting_group doc_root = do
    ns ← ns_info X N doc_root
    new_node ← create_element_from_dict X N (doc_attributes ns.ns_prefix)
    first_of (
        update_walk X (group_step ∷ sequence_step ∷ []) (λ seq_node. X.insert seq_node 0 new_node)
          doc_root)

  module _ (fromstring : Str → Result X.Elem) where
    -- The update of the root, without the files
    unfoldable pub add_documentation : X.Elem → Result X.Elem
    add_documentation doc_root = do
      group_defined ← universal_starting_group_defined X N doc_root
      with_group ←
          if group_defined
          then ok doc_root
          else insert_universal_starting_group X N fromstring doc_root
      type_defined ← documentation_type_defined with_group
      with_type ←
          if type_defined
          then ok with_group
          else insert_children_from_string X N fromstring with_group documentation_type_definition
              none
      doc_defined ← doc_in_universal_starting_group with_type
      if doc_defined then ok with_type else insert_doc_in_universal_starting_group with_type
