-- ===== src/Compose/Policy.antt =====
-- The functions of policy/xml/mirageos/compose.py that take other sections, and its main part: the
-- template `doc` and the specification `cspec` become the system policy.
use muen.Base.{text_of}
use muen.Base.{List, [], ◌∷◌, ◌++◌, Str, codes, Result, ok, err, ◌>>=◌, index_error}
use muen.Xml.{Etree}
use muen.Xml.Sections.{Place, place, named_place, at_section}
use muen.Compose.{
  add_physical_channels, add_subject_channel_mappings, add_linux_channels, interfaces,
  extend_subject_bootparams,
}

abbrev pub subject_name : Str
subject_name = codes "unikernel"

abbrev pub linux_name : Str
linux_name = codes "nic_linux"

abbrev pub reset_path : Str
reset_path =
    codes "/system/components/component[@name='"
    ++ (subject_name ++ codes "']/config/boolean[@name='resetable']")

module _ (X : Etree) where
  -- A section of the system
  abbrev pub in_system : List Place → (X.Elem → Result X.Elem) → X.Elem → Result X.Elem
  in_system = at_section X (place (codes "system"))

  abbrev pub of_subject : Str → Str → List Place
  of_subject subject section =
      place (codes "subjects") ∷ named_place (codes "subject") subject ∷ place section ∷ []

  unfoldable pub add_component : X.Elem → X.Elem → Result X.Elem
  add_component comp_doc = in_system (place (codes "components") ∷ []) (λ components. do
    name ← text_of (X.get comp_doc (codes "name"))
    ok (X.append components comp_doc))

  abbrev pub reset_variable : X.Elem → X.Elem → Result X.Elem
  reset_variable comp_rst sys_config = do
    value ← text_of (X.get comp_rst (codes "value"))
    ok (
        X.append sys_config (
          X.element (codes "boolean")
            ((codes "name", subject_name ++ codes "_resetable") ∷ (codes "value", value) ∷ [])))

  abbrev pub copy_first : List X.Elem → X.Elem → Result X.Elem
  copy_first [] doc = err index_error
  copy_first (comp_rst ∷ more) doc =
      in_system (place (codes "config") ∷ []) (reset_variable comp_rst) doc

  unfoldable pub copy_reset_variable : X.Elem → Result X.Elem
  copy_reset_variable doc = copy_first (X.xpath doc reset_path) doc

  unfoldable pub extend_bootparams : Str → Str → X.Elem → Result X.Elem
  extend_bootparams subject bootparams =
      in_system (of_subject subject (codes "bootparams"))
        (λ subj_params. ok (extend_subject_bootparams X bootparams subj_params))

  abbrev pub bootparams_of : List X.Elem → X.Elem → Result X.Elem
  bootparams_of [] doc = ok doc
  bootparams_of (param ∷ comp_params) doc =
      text_of (X.get param (codes "value")) >>= (λ value. extend_bootparams subject_name value doc)

  unfoldable pub set_subject_bootparams : X.Elem → X.Elem → Result X.Elem
  set_subject_bootparams comp_spec doc =
      bootparams_of (X.xpath comp_spec (codes "/component/config/string[@name='bootparams']")) doc

  unfoldable pub add_interfaces : List X.Elem → X.Elem → Result X.Elem
  add_interfaces comp_channels doc = do
    ifaces ← interfaces X comp_channels []
    extend_bootparams linux_name (codes "unikernel_iface=" ++ ifaces) doc

  -- The main part, in its order
  unfoldable pub compose : X.Elem → X.Elem → Result X.Elem
  compose cspec doc = do
    let comp_channels = X.xpath cspec (codes "/component/requires/channels/*")
    with_component ← add_component cspec doc
    with_physical ←
        in_system (place (codes "channels") ∷ [])
          (add_physical_channels X subject_name comp_channels) with_component
    with_mappings ←
        in_system (of_subject subject_name (codes "component"))
          (add_subject_channel_mappings X subject_name comp_channels) with_physical
    with_linux ←
        in_system (of_subject linux_name (codes "channels"))
          (add_linux_channels X subject_name comp_channels) with_mappings
    with_interfaces ← add_interfaces comp_channels with_linux
    with_bootparams ← set_subject_bootparams cspec with_interfaces
    copy_reset_variable with_bootparams
