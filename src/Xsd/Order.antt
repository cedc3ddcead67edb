-- ===== src/Xsd/Order.antt =====
-- The text of an element does not depend on the order of its attributes.
use mathlib.Core.List.{Perm}
use muen.Base.{Str, Option, some, none, ◌≡◌, refl, ap, ◌∙◌}
use muen.Base.Dict.{Dict}
use muen.Xml.{Etree}
use muen.Xml.Names.{Names}
use muen.Xsd.Sorting.{sort-map_perm}
use muen.Xsd.{localname, node_text, node_to_string, attribute_text, with_attributes}

node_text_perm :
    (prefix name : Option Str) (a b : Dict Str Str)
    → Perm a b
    → node_text prefix name a ≡ node_text prefix name b
unfolding node_text
node_text_perm prefix none a b p = refl
node_text_perm prefix (some name) a b p =
    ap (with_attributes prefix name) (sort-map_perm attribute_text a b p)

-- Two elements with the same prefix and name and the same attributes, in whatever order, have the same
-- text; the comparison of an element with one to be inserted relies on it.
pub node_to_string_perm :
    (X : Etree) (N : Names X) (e d : X.Elem)
    → N.prefix e ≡ N.prefix d
    → localname X N e ≡ localname X N d
    → Perm (N.attrib e) (N.attrib d)
    → node_to_string X N e ≡ node_to_string X N d
node_to_string_perm X N e d p l a =
    ap (λ q. node_text q (localname X N e) (N.attrib e)) p
    ∙ ap (λ q. node_text (N.prefix d) q (N.attrib e)) l
    ∙ node_text_perm (N.prefix d) (localname X N d) (N.attrib e) (N.attrib d) a
