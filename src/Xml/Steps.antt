-- ===== src/Xml/Steps.antt =====
-- Paths of the form `./*[local-name()='a' and @name='b']/*[local-name()='c']`: their text, the
-- elements that they select, and the update of the first of these.
use mathlib.Core.List.{flat_map}
use muen.Base.{Bool, true, false, ◌&&◌, List, [], ◌∷◌, ◌++◌, Option, none, some, Str, codes}
use muen.Base.{◌==◌, list_eq, nat_eq, select, any, map}
use muen.Base.Text.{split, join}
use muen.Base.Text.Laws.{Avoids}
use muen.Base.{option_eq}
use muen.Xml.{Etree}
use muen.Xml.Paths.{update_first, set_in}

-- `local` is the name without its namespace, `name` the value of the attribute of that name.
pub record Step : Type 0 where
  pub local : Str
  pub name : Option Str

abbrev last_of : Str → List Str → Str
last_of s [] = s
last_of s (p ∷ ps) = last_of p ps

-- A tag without the `{url}` of its namespace
unfoldable pub local_part : Str → Str
local_part t = last_of [] (split (codes "}") t)

abbrev pub step_text : Step → Str
step_text s = elim s.name [
  | none ↦ codes "*[local-name()='" ++ (s.local ++ codes "']")
  | some n ↦ codes "*[local-name()='" ++ (s.local ++ (codes "' and @name='" ++ (n ++ codes "']")))
]

abbrev pub path_text : List Step → Str
path_text ss = join (codes "/") (codes "." ∷ map step_text ss)

-- Names that a step takes literally
abbrev pub IsStep : Step → Type 0
IsStep s =
    Avoids (codes "/'") s.local × elim s.name [ none ↦ Unit | some n ↦ Avoids (codes "/'") n ]

abbrev pub is_local : Str → Option Str → Bool
is_local name tag = elim tag [ none ↦ false | some t ↦ local_part t == name ]

abbrev pub is_named : Option Str → Option Str → Bool
is_named wanted value = elim wanted [ none ↦ true | some n ↦ value == some n ]

module _ (X : Etree) where
  abbrev pub has_local : Str → X.Elem → Bool
  has_local name e = is_local name (X.tag e)

  abbrev pub step_test : Step → X.Elem → Bool
  step_test s e = has_local s.local e && is_named s.name (X.get e (codes "name"))

  -- What a path selects, from a list of elements
  abbrev pub walk : List Step → List X.Elem → List X.Elem
  walk [] es = es
  walk (s ∷ ss) es = walk ss (flat_map (λ e. select (step_test s) (X.children e)) es)

  -- Whether it selects anything
  unfoldable pub reaches : List Step → X.Elem → Bool
  reaches [] e = true
  reaches (s ∷ ss) e = any (λ c. step_test s c && reaches ss c) (X.children e)

  abbrev pair_up : X.Elem → Option (Unit {0} × X.Elem)
  pair_up e = some (tt, e)

  -- The update `f` at the first element, in the order of the document, that a path selects
  unfoldable pub update_walk : List Step → (X.Elem → X.Elem) → X.Elem → Option (Unit {0} × X.Elem)
  update_walk [] f e = pair_up (f e)
  update_walk (s ∷ ss) f e =
      set_in X e (update_first X (update_walk ss f) (step_test s) (X.children e))
