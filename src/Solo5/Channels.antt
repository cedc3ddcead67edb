-- ===== src/Solo5/Channels.antt =====
-- tools/scripts/solo5-muen-gencspec.py: the channels of the network devices of a Solo5 manifest. The
-- loop over the devices works on the section `<requires>`.
pub mod Layout
use mathlib.Core.List.{head?}
use muen.Base.{
  ℕ, zero, suc, ◌+◌, ◌*◌, Bool, true, false, List, [], ◌∷◌, ◌++◌, Str, codes, if◌then◌else◌,
}
use muen.Base.{◌==◌, Eq, list_eq, nat_eq, eqb, length, Option, some, none}
use muen.Solo5.Memory.{ada}
use muen.Xml.{Etree, has_tag}

pub record Device : Type 0 where
  pub kind : Str
  pub name : Str

abbrev pub chan_size : ℕ
chan_size = 0x100000

abbrev pub is_net : Device → Bool
is_net dev = dev.kind == codes "NET_BASIC"

module _ {ℓ} {A : Type ℓ} where
  -- A list without its first item that passes a test.
  abbrev pub without_first : (A → Bool) → List A → List A
  without_first p [] = []
  without_first p (x ∷ xs) = if p x then xs else x ∷ without_first p xs

  abbrev pub first_of : Option A → List A
  first_of none = []
  first_of (some x) = x ∷ []

-- What the variable `channels` holds: the list of the sections that a path has found, or an element that
-- the script has put into `<requires>`, with the elements that follow it there.
pub data Channels (E : Type 0) : Type 0 where
  nodes : List E → Channels E
  section_with : E → List E → Channels E

-- The state of the loop: `<requires>` up to the new section, the variables `channels` and `chan_addr`.
pub record Loop (E : Type 0) : Type 0 where
  pub requires : E
  pub channels : Channels E
  pub chan_addr : ℕ

module _ (X : Etree) where
  abbrev pub channel : Str → Str → ℕ → X.Elem
  channel tag logical address = X.element tag (
      (codes "logical", logical)
      ∷ (codes "virtualAddress", ada address)
      ∷ (codes "size", ada chan_size)
      ∷ [])

  -- The elements that `add_channel` appends for a device, at the given address.
  abbrev pub reader_of : Str → ℕ → X.Elem
  reader_of name address = channel (codes "reader") (name ++ codes "|in") address

  abbrev pub writer_of : Str → ℕ → X.Elem
  writer_of name address = channel (codes "writer") (name ++ codes "|out") address

  -- `channels.append(x)`: an item of a list, or a child of an element.
  unfoldable pub append_to : Channels X.Elem → X.Elem → Channels X.Elem
  append_to (nodes es) x = nodes (es ++ x ∷ [])
  append_to (section_with e behind) x = section_with (X.append e x) behind

  unfoldable pub add_channel : Str → Loop X.Elem → Loop X.Elem
  add_channel name s =
      let channels' = append_to (s.channels) (reader_of name (s.chan_addr)) in
      let channels'' = append_to channels' (writer_of name (s.chan_addr + chan_size)) in
      record {
        requires = s.requires;
        channels = channels'';
        chan_addr = s.chan_addr + chan_size + chan_size;
      }

  -- `len(channels)`
  abbrev pub len : Channels X.Elem → ℕ
  len (nodes es) = length es
  len (section_with e behind) = length (X.children e)

  -- `<requires>` as it stands in the document.
  unfoldable pub closed : Loop X.Elem → X.Elem
  closed s = elim (s.channels) [
    | nodes es ↦ s.requires
    | section_with e behind ↦ X.set_children (s.requires) (X.children (s.requires) ++ e ∷ behind)
  ]

  -- A new section at the end of `<requires>`; a section `<devices>` is moved behind it.
  unfoldable pub add_section : Loop X.Elem → Loop X.Elem
  add_section s =
      let req = closed s in
      let is_devices = has_tag X (codes "devices") in
      record {
        requires = X.set_children req (without_first is_devices (X.children req));
        channels =
            section_with (X.element (codes "channels") [])
              (first_of (X.find req (codes "devices")));
        chan_addr = s.chan_addr;
      }

  unfoldable pub add_device : Device → Loop X.Elem → Loop X.Elem
  add_device dev s =
      let opened = if eqb (len (s.channels)) 0 then add_section s else s in
      if is_net dev then add_channel (dev.name) opened else s

  unfoldable pub add_devices : List Device → Loop X.Elem → Loop X.Elem
  add_devices [] s = s
  add_devices (dev ∷ devs) s = add_devices devs (add_device dev s)
