-- ===== src/Xsd/Content.antt =====
-- What a complex type allows, whether or not its elements stand in a sequence of their own, and how an
-- insertion of libmuxsdplugin.py may change that.
use muen.Base.{List, [], ◌∷◌, ◌++◌, Option, none, some, Str, ok}
use muen.Base.{◌≡◌, refl, ltb, length, ◌⊎◌, if◌then◌else◌}
use muen.Xml.{Etree}
use muen.Xml.Names.{Names}
use muen.Xsd.{NsInfo, ns_info, localname}
use muen.Xsd.Groups.{Kind, kind_of, restriction_path}
use muen.Xsd.Groups.Kind.{
  simple_content, complex_content, annotation, particle, sequence, attributes, other,
}
use muen.Xsd.Elements.{reference}
use muen.Xsd.Started.{Begins}

module _ (X : Etree) (N : Names X) where
  -- Text, an extension of another type, or elements with what stands before and behind them
  pub data Content : Type 0 where
    text derived : Content
    elements : List X.Elem → List X.Elem → List X.Elem → Content

  abbrev pub view_at : Kind → List X.Elem → X.Elem → List X.Elem → Option Content → Option Content
  view_at simple_content before child cs later = some text
  view_at complex_content before child cs later =
      if ltb 0 (length (X.xpath child restriction_path)) then none else some derived
  view_at annotation before child cs later = later
  view_at particle before child cs later = some (elements before (child ∷ []) cs)
  view_at sequence before child cs later = some (elements before (X.children child) cs)
  view_at attributes before child cs later = some (elements before [] (child ∷ cs))
  view_at other before child cs later = none

  abbrev pub view_end : List X.Elem → Option Content
  view_end [] = none
  view_end (b ∷ bs) = some (elements (b ∷ bs) [] [])

  -- `none` for a type that the insertion does not support
  abbrev pub view : List X.Elem → List X.Elem → Option Content
  view before [] = view_end before
  view before (child ∷ cs) =
      view_at (kind_of (localname X N child)) before child cs (view (before ++ child ∷ []) cs)

  -- The insertion, on what a type allows
  abbrev pub start : X.Elem → Content → Content
  start r text = text
  start r derived = derived
  start r (elements before particles cs) = elements before (r ∷ particles) cs

  -- What a type allows begins with the reference already, or has no elements of its own.
  abbrev pub IsStarted : Str → Content → Type 0
  IsStarted prefix text = Unit
  IsStarted prefix derived = Unit
  IsStarted prefix (elements before particles cs) = Begins X N prefix particles

  -- The child whose name has the prefix of the reference: the first that is no annotation, or else the
  -- last one. `last` is the child before `cs`.
  abbrev pub origin_at : Kind → X.Elem → Option X.Elem → Option X.Elem
  origin_at annotation child later = later
  origin_at simple_content child later = some child
  origin_at complex_content child later = some child
  origin_at particle child later = some child
  origin_at sequence child later = some child
  origin_at attributes child later = some child
  origin_at other child later = some child

  abbrev pub origin : Option X.Elem → List X.Elem → Option X.Elem
  origin last [] = last
  origin last (child ∷ cs) =
      origin_at (kind_of (localname X N child)) child (origin (some child) cs)

  abbrev pub IsPrefixOf : Option X.Elem → Str → Type 0
  IsPrefixOf child prefix =
      (e : X.Elem) × (ns : NsInfo) × (child ≡ some e)
      × (ns_info X N e ≡ ok ns)
      × (ns.ns_prefix ≡ prefix)

  -- What a type allows, `old`, is left as it is if it begins with the reference, and otherwise it gets the
  -- reference in front of its elements, with the prefix of `child`.
  abbrev pub Refines : List X.Elem → Option X.Elem → Option Content → Type 0
  Refines cs' child old =
      (c : Content) × (prefix : Str) × (old ≡ some c)
      × IsPrefixOf child prefix
      × ((IsStarted prefix c × (view [] cs' ≡ some c))
          ⊎ (¬ IsStarted prefix c × (view [] cs' ≡ some (start (reference X prefix) c))))

  pub view_sequence :
      (before : List X.Elem) (s : X.Elem) (cs : List X.Elem)
      → kind_of (localname X N s) ≡ sequence
      → view before (s ∷ cs) ≡ some (elements before (X.children s) cs)
  view_sequence before s cs e = rw e refl
