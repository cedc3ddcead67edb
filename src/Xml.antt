-- ===== src/Xml.antt =====
-- What the scripts use of lxml's `etree`, as an interface: elements of an unknown type with the
-- operations that are called, and the documented behaviour that the proofs rely on. A tree owns its
-- elements, so a script's update of an element in place is the tree with that element rebuilt, and a
-- deep copy is the element itself.
pub mod Tree
pub mod Paths
pub mod Chosen
pub mod Steps
pub mod Reach
pub mod Names
pub mod Sections
pub mod Untouched
use mathlib.Core.List.{flat_map, head?}
use muen.Base.{ℕ, Bool, true, false, List, [], ◌∷◌, ◌++◌, Option, none, some, Str, codes, ◌≡◌, ◌≢◌}
use muen.Base.{◌==◌, list_eq, nat_eq, select, take, drop}
use muen.Base.Dict.{Dict, lookup}
use muen.Base.{if◌then◌else◌}
use muen.Base.Text.Laws.{Avoids}

pub record Etree : Type 1 where
  pub Elem : Type 0
  -- `none` for a comment or a processing instruction, whose tag is no text
  pub tag : Elem → Option Str
  pub get : Elem → Str → Option Str
  -- `list(e)`
  pub children : Elem → List Elem
  pub find : Elem → Str → Option Elem
  pub findall : Elem → Str → List Elem
  pub xpath : Elem → Str → List Elem
  pub insert : Elem → ℕ → Elem → Elem
  -- `e` with its children rebuilt
  pub set_children : Elem → List Elem → Elem
  -- `etree.Element(tag, **attributes)`
  pub element : Str → Dict Str Str → Elem
  -- `e.append(x)`
  pub append : Elem → Elem → Elem
  -- `e.set(key, value)`
  pub set : Elem → Str → Str → Elem
  pub text : Elem → Option Str
  -- `e.text = t`
  pub set_text : Elem → Str → Elem

-- The characters that mean something in a path.
abbrev pub special : Str
special = codes "/[]@*.|:(){}'\" "

-- A name that a path takes literally.
abbrev pub IsName : Str → Type 0
IsName t = (t ≢ []) × Avoids special t

module _ (X : Etree) where
  abbrev pub is_element : X.Elem → Bool
  is_element e = elim (X.tag e) [ none ↦ false | some t ↦ true ]

  abbrev pub has_tag : Str → X.Elem → Bool
  has_tag name e = elim (X.tag e) [ none ↦ false | some t ↦ t == name ]

  pub record IsLawful : Type 0 where
    pub findall_star : (e : X.Elem) → X.findall e (codes "*") ≡ select is_element (X.children e)
    pub findall_name :
        (e : X.Elem) (t : Str) → IsName t → X.findall e t ≡ select (has_tag t) (X.children e)
    pub find_lem : (e : X.Elem) (t : Str) → X.find e t ≡ head? (X.findall e t)
    pub xpath_two :
        (e : X.Elem) (a b : Str)
        → IsName a
        → IsName b
        → X.xpath e (a ++ (codes "/" ++ b)) ≡ flat_map (λ c. X.findall c b) (X.findall e a)
    pub tag-insert : (e x : X.Elem) (i : ℕ) → X.tag (X.insert e i x) ≡ X.tag e
    pub get-insert : (e x : X.Elem) (i : ℕ) (k : Str) → X.get (X.insert e i x) k ≡ X.get e k
    pub children-insert :
        (e x : X.Elem) (i : ℕ)
        → X.children (X.insert e i x) ≡ take i (X.children e) ++ x ∷ drop i (X.children e)
    pub tag-set_children : (e : X.Elem) (cs : List X.Elem) → X.tag (X.set_children e cs) ≡ X.tag e
    pub get-set_children :
        (e : X.Elem) (cs : List X.Elem) (k : Str) → X.get (X.set_children e cs) k ≡ X.get e k
    pub children-set_children :
        (e : X.Elem) (cs : List X.Elem) → X.children (X.set_children e cs) ≡ cs
    pub tag-element : (t : Str) (a : Dict Str Str) → X.tag (X.element t a) ≡ some t
    pub get-element : (t : Str) (a : Dict Str Str) (k : Str) → X.get (X.element t a) k ≡ lookup k a
    pub children-element : (t : Str) (a : Dict Str Str) → X.children (X.element t a) ≡ []
    pub tag-append : (e x : X.Elem) → X.tag (X.append e x) ≡ X.tag e
    pub get-append : (e x : X.Elem) (k : Str) → X.get (X.append e x) k ≡ X.get e k
    pub children-append : (e x : X.Elem) → X.children (X.append e x) ≡ X.children e ++ x ∷ []
    pub get-set :
        (e : X.Elem) (k j v : Str) → X.get (X.set e k v) j ≡ (if k == j then some v else X.get e j)
    pub tag-set : (e : X.Elem) (k v : Str) → X.tag (X.set e k v) ≡ X.tag e
    pub text-set_text : (e : X.Elem) (t : Str) → X.text (X.set_text e t) ≡ some t

  -- `etree.SubElement(e, tag, **attributes)`
  abbrev pub sub_element : X.Elem → Str → Dict Str Str → X.Elem
  sub_element e t a = X.append e (X.element t a)
