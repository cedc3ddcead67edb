-- ===== src/Xml/Names.antt =====
-- What the schema plugins use of lxml beyond the interface of `Xml`: the namespaces and all the
-- attributes of an element, and the paths with `local-name()`. An element keeps its prefix where it is
-- moved, which lxml does if the document calls the namespace as the element does (`xs` in each schema).
use muen.Base.{ℕ, false, List, [], ◌∷◌, ◌++◌, Option, none, some, Str, codes, ◌≡◌, take, drop}
use muen.Base.{All}
use muen.Base.Dict.{Dict, lookup}
use muen.Base.{option_eq, list_eq, nat_eq}
use muen.Base.Text.{starts_with}
use muen.Base.Text.Laws.{Avoids}
use muen.Xml.{Etree}
use muen.Xml.Steps.{Step, IsStep, path_text, walk}

pub record Names (X : Etree) : Type 0 where
  pub prefix : X.Elem → Option Str
  -- the namespace of each prefix in the scope of an element
  pub nsmap : X.Elem → Dict (Option Str) Str
  -- the attributes, in the order of their iteration
  pub attrib : X.Elem → Dict Str Str

-- A tag or prefix that opens an expanded name, `{url}`
abbrev pub expanded : Str → Str
expanded url = codes "{" ++ (url ++ codes "}")

module _ (X : Etree) (N : Names X) where
  pub record IsNamed : Type 0 where
    pub xpath_steps :
        (e : X.Elem) (ss : List Step)
        → All IsStep ss
        → X.xpath e (path_text ss) ≡ walk X ss (e ∷ [])
    pub set_children_self : (e : X.Elem) → X.set_children e (X.children e) ≡ e
    pub insert_lem :
        (e x : X.Elem) (i : ℕ)
        → X.insert e i x ≡ X.set_children e (take i (X.children e) ++ x ∷ drop i (X.children e))
    pub append_lem : (e x : X.Elem) → X.append e x ≡ X.set_children e (X.children e ++ x ∷ [])
    pub prefix-set_children :
        (e : X.Elem) (cs : List X.Elem) → N.prefix (X.set_children e cs) ≡ N.prefix e
    pub nsmap-set_children :
        (e : X.Elem) (cs : List X.Elem) → N.nsmap (X.set_children e cs) ≡ N.nsmap e
    pub attrib-set_children :
        (e : X.Elem) (cs : List X.Elem) → N.attrib (X.set_children e cs) ≡ N.attrib e
    -- an element has a prefix if it is created with an expanded name, and not with a plain one
    pub prefix-element :
        (t : Str) (a : Dict Str Str)
        → starts_with t (codes "{") ≡ false
        → N.prefix (X.element t a) ≡ none
    pub prefix-element_expanded :
        (url t : Str) (a : Dict Str Str)
        → Avoids (codes "}") url
        → Avoids (codes "}") t
        → (p : Str) × (N.prefix (X.element (expanded url ++ t) a) ≡ some p)
    -- the map of a prefix is the namespace in the tag
    pub nsmap_lem :
        (e : X.Elem) (p : Str)
        → N.prefix e ≡ some p
        → (url : Str) × (t : Str) × (X.tag e ≡ some (expanded url ++ t))
          × (lookup (some p) (N.nsmap e) ≡ some url)
          × Avoids (codes "}") url
          × Avoids (codes "}") t
