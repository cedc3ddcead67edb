-- ===== src/Xsd.antt =====
-- The library of the schema plugins, tools/libmuxml/schema_plugins/libmuxsdplugin.py: the namespace and
-- the text of an element, the element that defines a type, and an element made from a `dict`.
pub mod Sorting
pub mod Groups
pub mod Elements
pub mod Order
pub mod Started
pub mod Returns
pub mod Types
pub mod Content
pub mod View
use muen.Base.{Bool, true, false, not, List, [], ◌∷◌, ◌++◌, Option, none, some, Str, codes, map}
use muen.Base.{Result, ok, err, ◌>>=◌, key_error, type_error, value_error, if◌then◌else◌, ◌==◌}
use muen.Base.{list_eq, nat_eq, option_eq, drop, length, ltb, ◌≡◌}
use muen.Base.Dict.{Dict, lookup}
use muen.Base.Text.{split, join}
use muen.Xml.{Etree}
use muen.Xml.Names.{Names, expanded}
use muen.Xsd.Sorting.{sort}

pub record NsInfo : Type 0 where
  pub ns_short : Str
  pub ns_url : Str
  pub nsmap : Dict (Option Str) Str
  pub ns_prefix : Str

abbrev pub url_of : Str → Dict (Option Str) Str → Option Str → Result NsInfo
url_of short nsmap none = err key_error
url_of short nsmap (some url) =
    ok (record { ns_short = short; ns_url = url; nsmap = nsmap; ns_prefix = expanded url })

abbrev pub ns_of : Option Str → Dict (Option Str) Str → Result NsInfo
ns_of none nsmap = ok (record { ns_short = []; ns_url = []; nsmap = []; ns_prefix = [] })
ns_of (some p) nsmap = url_of p nsmap (lookup (some p) nsmap)

abbrev pub after_brace : Option Str → Option Str → Option Str
after_brace none tag = tag
after_brace (some p) none = none
after_brace (some p) (some tag) = some (join (codes "}") (drop 1 (split (codes "}") tag)))

abbrev pub attribute_text : Str × Str → Str
attribute_text (k, v) = k ++ (codes "=\"" ++ (v ++ codes "\""))

abbrev colon : Option Str → Str
colon none = []
colon (some p) = p ++ codes ":"

-- `<prefix:name a="1" b="2">`
abbrev pub with_attributes : Option Str → Str → List Str → Result Str
with_attributes prefix name attrib_list =
    let space = if ltb 0 (length attrib_list) then codes " " else [] in
    ok (
      codes "<"
      ++ (colon prefix ++ (name ++ (space ++ (join (codes " ") attrib_list ++ codes ">")))))

-- A name that is no text cannot be added to one.
unfoldable pub node_text : Option Str → Option Str → Dict Str Str → Result Str
unfolding sort
node_text prefix none attributes = err type_error
node_text prefix (some name) attributes =
    with_attributes prefix name (sort (map attribute_text attributes))

module _ (X : Etree) (N : Names X) where
  abbrev pub ns_info : X.Elem → Result NsInfo
  ns_info node = ns_of (N.prefix node) (N.nsmap node)

  -- `none` for a comment, whose `tag` is a function
  abbrev pub localname : X.Elem → Option Str
  localname node = after_brace (N.prefix node) (X.tag node)

  abbrev pub node_to_string : X.Elem → Result Str
  node_to_string node = node_text (N.prefix node) (localname node) (N.attrib node)

  abbrev add_ancestors : Str → List X.Elem → Result Str
  add_ancestors out [] = ok out
  add_ancestors out (curr_node ∷ nodes) =
      node_to_string curr_node >>= (λ s. add_ancestors (s ++ out) nodes)

  -- The ancestors of an element, nearest first, are an argument.
  unfoldable pub node_ancestors_string : X.Elem → List X.Elem → Result Str
  node_ancestors_string node ancestors =
      node_to_string node >>= (λ out. add_ancestors out ancestors)

  abbrev pub set_all : Dict Str Str → X.Elem → X.Elem
  set_all [] e = e
  set_all ((k, v) ∷ attribs) e =
      set_all attribs (if not (k == codes "qname") then X.set e k v else e)

  abbrev named : Dict Str Str → Option Str → Result X.Elem
  named attribs none = err key_error
  named attribs (some qname) = ok (set_all attribs (X.element qname []))

  abbrev pub create_element_from_dict : Dict Str Str → Result X.Elem
  create_element_from_dict attribs = named attribs (lookup (codes "qname") attribs)

  abbrev only : Str → List X.Elem → Result X.Elem
  only message [] = err (value_error message)
  only message (e ∷ []) = ok e
  only message (e ∷ d ∷ es) = err (value_error message)

  abbrev target_tags : List Str
  target_tags = codes "complexType" ∷ codes "simpleType" ∷ codes "group" ∷ []

  abbrev target : Str → Str → Str → Str
  target prefix def_name t =
      codes "./" ++ (prefix ++ (codes ":" ++ (t ++ (codes "[@name='" ++ (def_name ++ codes "']")))))

  -- `root` is the root of the tree of `node`, and `xpath` lxml's evaluation, which may raise.
  unfoldable pub get_defining_node :
      (X.Elem → Str → Result (List X.Elem)) → X.Elem → X.Elem → Str → Result X.Elem
  get_defining_node xpath root node def_name = do
    ns ← ns_info node
    results ← xpath root (join (codes " | ") (map (target ns.ns_short def_name) target_tags))
    only
        (codes "Could not find unique defining node for type/group with name '"
          ++ (def_name ++ codes "'"))
        results
