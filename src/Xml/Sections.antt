-- ===== src/Xml/Sections.antt =====
-- The scripts' idiom `doc.xpath("/a/b[@name='c']/d")[0]` with a function that updates the section it
-- reaches and may raise.
use muen.Base.{
  Bool, ◌&&◌, List, [], ◌∷◌, Option, none, some, Str, codes, if◌then◌else◌, Result, ok, err,
}
use muen.Base.{index_error}
use muen.Xml.{Etree, has_tag}
use muen.Xml.Paths.{update_first, set_in}
use muen.Xml.Steps.{is_named}

-- One step: the tag, and the name if the path asks for one
pub record Place : Type 0 where
  pub local : Str
  pub name : Option Str

abbrev pub place : Str → Place
place t = record { local = t; name = none }

abbrev pub named_place : Str → Str → Place
named_place t n = record { local = t; name = some n }

module _ (X : Etree) where
  abbrev pub place_test : Place → X.Elem → Bool
  place_test p e = has_tag X p.local e && is_named p.name (X.get e (codes "name"))

  -- The update with its outcome: a section whose update raises stays as it is.
  abbrev pub outcome : Result X.Elem → X.Elem → Result (Unit {0}) × X.Elem
  outcome (ok e') e = (ok tt, e')
  outcome (err why) e = (err why, e)

  unfoldable pub update_section :
      List Place → (X.Elem → Result X.Elem) → X.Elem → Option (Result (Unit {0}) × X.Elem)
  update_section [] f e = some (outcome (f e) e)
  update_section (p ∷ ps) f e =
      set_in X e (update_first X (update_section ps f) (place_test p) (X.children e))

  abbrev pub finished : Option (Result (Unit {0}) × X.Elem) → Result X.Elem
  finished none = err index_error
  finished (some (ok tt, e)) = ok e
  finished (some (err why, e)) = err why

  -- The first place is the root.
  abbrev pub at_section : Place → List Place → (X.Elem → Result X.Elem) → X.Elem → Result X.Elem
  at_section root ps f doc =
      if place_test root doc then finished (update_section ps f doc) else err index_error
