-- ===== src/LinuxGencspec.antt =====
-- components/linux/misc/linux-muen-gencspec.py: the memory regions that the specification of Linux
-- provides, and the address of an additional initramfs. The policy is its root element.
pub mod Adjacent
pub mod Mappings
pub mod Main
use muen.Base.{
  ℕ, ◌+◌, ◌-◌, ◌&&◌, Bool, true, false, not, List, [], ◌∷◌, ◌++◌, Str, codes, if◌then◌else◌, leb,
  map, ltb, length,
}
use muen.Base.{
  ◌==◌, Eq, list_eq, nat_eq, Option, some, none, Result, ok, err, ◌>>=◌, key_error, type_error, ℤ,
  pos,
}
use muen.Base.Pages.{round_up}
use muen.Muutils.{Value, int, bool, str, int_to_ada_hex, ada_hex_to_int}
use muen.Solo5.Memory.{ada}
use muen.Compose.{advance}
use muen.Xml.{Etree}

-- `s.lower()` over ASCII text
abbrev pub lower : Str → Str
lower s = map (λ c. if leb b'A' c && leb c b'Z' then c + 32 else c) s

-- `e.attrib[key]`
abbrev pub attrib : Option Str → Result Str
attrib none = err key_error
attrib (some v) = ok v

-- `a and b` for a text `a`, where `b` is looked up only if `a` is not empty.
abbrev pub and_then : Str → Result Str → Result Str
and_then [] b = ok []
and_then (c ∷ s) b = b

-- `a + b`; a truth value counts as a number.
abbrev pub sum_of : Value → Value → Result Value
sum_of (str s) (str t) = ok (str (s ++ t))
sum_of (str s) (int n) = err type_error
sum_of (str s) (bool b) = err type_error
sum_of (int m) v = do n ← advance m v; ok (int n)
sum_of (bool b) v = do n ← advance (pos (if b then 1 else 0)) v; ok (int n)

-- The address, or `None`, with the two flags: texts from the policy, or `False`.
pub record Attrs : Type 0 where
  pub address : Option Str
  pub executable : Value
  pub writable : Value

-- What the main part does to the result: `None` itself cannot be unpacked.
abbrev pub unpacked : Option Attrs → Result Attrs
unpacked none = err type_error
unpacked (some attrs) = ok attrs

abbrev pub default_attrs : Attrs
default_attrs = record {
  address = some (ada 0x90000000);
  executable = bool false;
  writable = bool false;
}

abbrev pub no_attrs : Attrs
no_attrs = record { address = none; executable = bool false; writable = bool false }

module _ (X : Etree) where
  -- `add_provides_memory`, on the section `<provides>`.
  unfoldable pub add_provides_memory : Str → Str → Str → Str → ℕ → Str → Str → X.Elem → X.Elem
  add_provides_memory name region_type address filename size executable writable provides =
      X.append provides (
        X.append
          (X.element (codes "memory") (
            (codes "logical", name)
            ∷ (codes "virtualAddress", address)
            ∷ (codes "size", ada (round_up size))
            ∷ (codes "executable", executable)
            ∷ (codes "writable", writable)
            ∷ (codes "type", region_type)
            ∷ []))
          (X.element (codes "file")
            ((codes "filename", filename) ∷ (codes "offset", codes "none") ∷ [])))

  -- The loop over the mappings, with the flags so far; `none` if an address differs.
  unfoldable pub check_mappings : Str → List X.Elem → Str × Str → Result (Option (Str × Str))
  check_mappings virtual_address [] flags = ok (some flags)
  check_mappings virtual_address (mapping ∷ mems) (executable, writable) = do
    address ← attrib (X.get mapping (codes "virtualAddress"))
    if not (address == virtual_address) then ok none else (do
      executable' ← and_then executable (attrib (X.get mapping (codes "executable")))
      writable' ← and_then writable (attrib (X.get mapping (codes "writable")))
      check_mappings virtual_address mems (executable', writable'))

  abbrev pub adjacent : Str → Value → Option (Str × Str) → Result (Option Attrs)
  adjacent virtual_address size none = ok (some no_attrs)
  adjacent virtual_address size (some (executable, writable)) = do
    start ← ada_hex_to_int virtual_address
    new_address ← sum_of start size
    address ← int_to_ada_hex new_address
    ok (
        some
          (record { address = some address; executable = str executable; writable = str writable }))

  -- The part for one region, with its mappings.
  unfoldable pub mapped_attrs : X.Elem → List X.Elem → Result (Option Attrs)
  mapped_attrs region [] = ok (some default_attrs)
  mapped_attrs region (first ∷ mems) = do
    size_text ← attrib (X.get region (codes "size"))
    size ← ada_hex_to_int size_text
    virtual_address ← attrib (X.get first (codes "virtualAddress"))
    executable ← attrib (X.get first (codes "executable"))
    writable ← attrib (X.get first (codes "writable"))
    flags ← check_mappings virtual_address (first ∷ mems) (executable, writable)
    adjacent virtual_address size flags

  unfoldable pub attrs_of : X.Elem → List X.Elem → Result (Option Attrs)
  attrs_of xml_spec [] = ok (some default_attrs)
  attrs_of xml_spec (region ∷ []) = do
    name ← attrib (X.get region (codes "name"))
    mapped_attrs region (
        X.xpath xml_spec (
          codes "/system/subjects/subject/memory/memory[@physical='" ++ (lower name ++ codes "']")))
  attrs_of xml_spec (region ∷ other ∷ regions) = ok none

  unfoldable pub get_initramfs_attrs : X.Elem → Result (Option Attrs)
  get_initramfs_attrs xml_spec =
      attrs_of xml_spec (X.xpath xml_spec (codes "/system/memory/memory[@type='subject_initrd']"))
