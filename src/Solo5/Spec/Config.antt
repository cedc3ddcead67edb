-- ===== src/Solo5/Spec/Config.antt =====
-- The section `<config>` that tools/scripts/solo5-muen-gencspec.py leaves in a specification.
use muen.Base.{
  ◌≡◌, refl, ap, ◌∙◌, Bool, true, false, List, [], ◌∷◌, ◌++◌, Str, codes, any, ◌==◌, list_eq,
  nat_eq, some, none, Option,
}
use muen.Xml.{Etree, IsLawful, has_tag}
use muen.Xml.Paths.{update_path_found, update_path-none}
use muen.Solo5.Memory.{flag}
use muen.Solo5.Spec.{in_config, with_unit, set_resetable, add_bootparams, update_config}

module _ (X : Etree) (L : IsLawful X) where
  abbrev tag_test : Option Str → Bool
  tag_test o = elim o [ none ↦ false | some t ↦ t == codes "config" ]

  abbrev is_config : X.Elem → Bool
  is_config = has_tag X (codes "config")

  update_config_found :
      (f : X.Elem → X.Elem) (comp c : X.Elem) (pre post : List X.Elem)
      → X.children comp ≡ pre ++ c ∷ post
      → any is_config pre ≡ false
      → is_config c ≡ true
      → X.children (update_config X f comp) ≡ pre ++ f c ∷ post
  update_config_found f comp c pre post e h k =
      ap (λ r. X.children (in_config X f r comp))
        (update_path_found X (with_unit X f) (codes "config") comp c pre post e h k)
      ∙ L.children-set_children comp _

  update_config_none :
      (f : X.Elem → X.Elem) (comp : X.Elem)
      → any is_config (X.children comp) ≡ false
      → X.children (update_config X f comp) ≡ f (X.element (codes "config") []) ∷ X.children comp
  update_config_none f comp h =
      ap (λ r. X.children (in_config X f r comp))
        (update_path-none X (with_unit X f) (codes "config") comp h)
      ∙ L.children-insert comp (f (X.element (codes "config") [])) 0

  -- The two elements for the boot parameters and the reset.
  abbrev pub boolean_of : Bool → X.Elem
  boolean_of resetable =
      X.element (codes "boolean")
        ((codes "name", codes "resetable") ∷ (codes "value", flag resetable) ∷ [])

  abbrev pub string_of : Str → X.Elem
  string_of bootparams =
      X.element (codes "string")
        ((codes "name", codes "bootparams") ∷ (codes "value", bootparams) ∷ [])

  config_of : Bool → Str → X.Elem → X.Elem
  config_of resetable bootparams c =
      X.insert (X.append c (string_of bootparams)) 0 (boolean_of resetable)

  children-config_of :
      (resetable : Bool) (bootparams : Str) (c : X.Elem)
      → X.children (config_of resetable bootparams c)
        ≡ boolean_of resetable ∷ (X.children c ++ string_of bootparams ∷ [])
  unfolding config_of
  children-config_of resetable bootparams c =
      L.children-insert _ _ 0
      ∙ ap (λ (l : List X.Elem). boolean_of resetable ∷ l) (L.children-append c _)

  tag_config : (c d : X.Elem) → X.tag d ≡ X.tag c → is_config c ≡ true → is_config d ≡ true
  tag_config c d e h = ap tag_test e ∙ h

  -- In a component with a section `<config>` the first such section gets the reset in front of its
  -- variables and the boot parameters behind them, and all else keeps its place.
  pub set_resetable-add_bootparams :
      (resetable : Bool) (bootparams : Str) (comp c : X.Elem) (pre post : List X.Elem)
      → X.children comp ≡ pre ++ c ∷ post
      → any is_config pre ≡ false
      → is_config c ≡ true
      → (c' : X.Elem) × (X.children (set_resetable X resetable (add_bootparams X bootparams comp))
          ≡ pre ++ c' ∷ post)
        × (X.children c' ≡ boolean_of resetable ∷ (X.children c ++ string_of bootparams ∷ []))
  unfolding set_resetable add_bootparams config_of
  set_resetable-add_bootparams resetable bootparams comp c pre post e h k = (
    config_of resetable bootparams c,
    update_config_found _ _ _ pre post (update_config_found _ comp c pre post e h k) h
        (tag_config c _ (L.tag-append c _) k),
    children-config_of resetable bootparams c,
  )

  -- In a component without such a section, one is put in front of all else, with the two variables.
  pub set_resetable-add_bootparams_new :
      (resetable : Bool) (bootparams : Str) (comp : X.Elem)
      → any is_config (X.children comp) ≡ false
      → (c' : X.Elem) × (X.children (set_resetable X resetable (add_bootparams X bootparams comp))
          ≡ c' ∷ X.children comp)
        × (X.children c' ≡ boolean_of resetable ∷ string_of bootparams ∷ [])
  unfolding set_resetable add_bootparams config_of
  set_resetable-add_bootparams_new resetable bootparams comp h =
      let new = X.element (codes "config") [] in
      (
        config_of resetable bootparams new,
        update_config_found _ _ _ [] (X.children comp) (update_config_none _ comp h) refl
            (tag_config new _ (L.tag-append new _) (ap tag_test (L.tag-element _ _))),
        children-config_of resetable bootparams new
            ∙ ap (λ (l : List X.Elem). boolean_of resetable ∷ (l ++ string_of bootparams ∷ []))
                (L.children-element _ _),
      )
