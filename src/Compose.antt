-- ===== src/Compose.antt =====
-- policy/xml/mirageos/compose.py: the system policy of a unikernel, from a template and the
-- specification of the unikernel's component. The functions get the section that they change.
pub mod Names
pub mod Interfaces
pub mod Policy
pub mod Sections
use muen.Base.{
  ℕ, ◌+◌, ◌-◌, Bool, true, false, List, [], ◌∷◌, ◌++◌, Str, codes, if◌then◌else◌, ◌==◌, Eq, list_eq,
  option_eq, nat_eq,
}
use muen.Base.{
  Option, some, none, Result, ok, err, ◌>>=◌, attribute_error, type_error, ℤ, pos, ◌+ℤ◌, text_of,
}
use muen.Base.Text.{replace, rstrip}
use muen.Muutils.{Value, format_hex, ada_hex_to_int}
use muen.Muutils.Hex.{hex}
use muen.Xml.{Etree, sub_element}

-- An attribute that a method is called on
abbrev pub called : Option Str → Result Str
called none = err attribute_error
called (some v) = ok v

-- `subject_name + "_" + name.replace('|', '_')`
unfoldable pub phys_name : Str → Str → Str
phys_name subject_name name = subject_name ++ (codes "_" ++ replace (codes "|") (codes "_") name)

-- `address += size`
abbrev pub advance : ℤ → Value → Result ℤ
advance address (Value.int size) = ok (address +ℤ size)
advance address (Value.bool b) = ok (address +ℤ pos (if b then 1 else 0))
advance address (Value.str s) = err type_error

unfoldable pub extended_params : Str → Option Str → Str
extended_params bootparams none = bootparams
extended_params bootparams (some text) =
    if text == [] then bootparams else text ++ (codes " " ++ bootparams)

module _ (X : Etree) where
  abbrev pub physical_channel : Str → Str → X.Elem
  physical_channel name size =
      X.element (codes "channel") ((codes "name", name) ∷ (codes "size", size) ∷ [])

  unfoldable pub add_physical_channels : Str → List X.Elem → X.Elem → Result X.Elem
  add_physical_channels subject_name [] phys_channels = ok phys_channels
  add_physical_channels subject_name (comp_chan ∷ comp_channels) phys_channels = do
    name ← called (X.get comp_chan (codes "logical"))
    size ← text_of (X.get comp_chan (codes "size"))
    add_physical_channels subject_name comp_channels
        (X.append phys_channels (physical_channel (phys_name subject_name name) size))

  abbrev pub channel_map : Str → Str → X.Elem
  channel_map log_name physical =
      X.element (codes "map") ((codes "logical", log_name) ∷ (codes "physical", physical) ∷ [])

  unfoldable pub add_subject_channel_mappings : Str → List X.Elem → X.Elem → Result X.Elem
  add_subject_channel_mappings subject_name [] subj_comp = ok subj_comp
  add_subject_channel_mappings subject_name (comp_chan ∷ comp_channels) subj_comp = do
    log_name ← called (X.get comp_chan (codes "logical"))
    add_subject_channel_mappings subject_name comp_channels
        (X.append subj_comp (channel_map log_name (phys_name subject_name log_name)))

  -- The role of the Linux subject at a channel of the component.
  unfoldable pub flipped : Option Str → Str
  flipped tag = if tag == some (codes "writer") then codes "reader" else codes "writer"

  abbrev pub linux_channel : Str → Str → Str → ℤ → X.Elem
  linux_channel chan_type log_name physical address = X.element chan_type (
      (codes "logical", log_name)
      ∷ (codes "physical", physical)
      ∷ (codes "virtualAddress", format_hex (hex address))
      ∷ [])

  -- The loop of `add_linux_channels`, from an address on.
  unfoldable pub add_linux_channels_from : ℤ → Str → List X.Elem → X.Elem → Result X.Elem
  add_linux_channels_from address subject_name [] subj_channels = ok subj_channels
  add_linux_channels_from address subject_name (comp_chan ∷ comp_channels) subj_channels = do
    size_text ← called (X.get comp_chan (codes "size"))
    size ← ada_hex_to_int size_text
    log_name ← called (X.get comp_chan (codes "logical"))
    next ← advance address size
    add_linux_channels_from next subject_name comp_channels (
        X.append subj_channels (
          linux_channel (flipped (X.tag comp_chan)) log_name (phys_name subject_name log_name)
            address))

  unfoldable pub add_linux_channels : Str → List X.Elem → X.Elem → Result X.Elem
  add_linux_channels = add_linux_channels_from (pos 0xe03000000)

  -- The loop of `add_linux_bootparams`: the names of the readers, separated by commas.
  unfoldable pub interfaces : List X.Elem → Str → Result Str
  interfaces [] ifaces = ok ifaces
  interfaces (comp_chan ∷ comp_channels) ifaces =
      let rest = interfaces comp_channels ifaces in
      if X.tag comp_chan == some (codes "reader")
      then (do
        logical ← called (X.get comp_chan (codes "logical"))
        let log_name = rstrip (codes "|in") logical in
            let separated = if ifaces == [] then ifaces else ifaces ++ codes "," in
            interfaces comp_channels (separated ++ log_name))
      else rest

  -- The update of the element `<bootparams>`.
  unfoldable pub extend_subject_bootparams : Str → X.Elem → X.Elem
  extend_subject_bootparams bootparams subj_params =
      X.set_text subj_params (extended_params bootparams (X.text subj_params))

  unfoldable pub add_linux_bootparams : List X.Elem → X.Elem → Result X.Elem
  add_linux_bootparams comp_channels subj_params = do
    ifaces ← interfaces comp_channels []
    ok (extend_subject_bootparams (codes "unikernel_iface=" ++ ifaces) subj_params)
