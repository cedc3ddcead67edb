-- ===== src/Solo5/Spec.antt =====
-- tools/scripts/solo5-muen-gencspec.py: the other functions that change the specification, the checks of
-- the binary's notes, and the main part. The specification is its root element `<component>`; the
-- notes are the texts that json has read.
pub mod Checks
pub mod Config
use muen.Base.{
  ℕ, ◌+◌, ◌-◌, Bool, true, false, not, List, [], ◌∷◌, ◌++◌, Str, codes, if◌then◌else◌, pos, ℤ,
}
use muen.Base.{
  ◌==◌, Eq, list_eq, nat_eq, Option, some, none, Result, ok, err, ◌>>=◌, ◌>>◌, guard, exit, map,
  replicate, eqb,
}
use muen.Muutils.{format_hex, Value, int_to_ada_hex}
use muen.Muutils.Hex.{hex}
use muen.Base.{index_error}
use muen.LinuxGencspec.{attrib, lower}
use muen.Xml.{Etree, has_tag, sub_element}
use muen.Xml.Paths.{update_path, at_path}
use muen.Solo5.Memory.{
  ada, flag, minus, Segment, add_elf_memory, add_ram_region, set_rsp, ram_size_of,
}
use muen.Solo5.Channels.{Device, Channels, nodes, Loop, closed, add_devices}

-- The strings of the two notes, and the ABI's version as it is printed.
pub record Abi : Type 0 where
  pub kind : Str
  pub target : Str
  pub version : ℕ
  pub version_text : Str

pub record Manifest : Type 0 where
  pub kind : Str
  pub devices : List Device

unfoldable pub validate_solo5_abi : Abi → Result (Unit {0})
validate_solo5_abi abi = do
  guard (abi.kind == codes "solo5.abi") (exit (codes "Error: JSON file does not contain Solo5 ABI"))
  guard (abi.target == codes "muen")
      (exit (codes "Error: Solo5 ABI target mismatch: " ++ (abi.target ++ codes ", expected muen")))
  guard (eqb (abi.version) 3)
      (exit (codes "Error: Solo5 ABI version: " ++ (abi.version_text ++ codes ", expected 3")))

module _ (X : Etree) where
  abbrev pub with_unit : (X.Elem → X.Elem) → X.Elem → Unit {0} × X.Elem
  with_unit f e = (tt, f e)

  -- The first section `<config>` of the component, which is made if there is none.
  abbrev pub in_config : (X.Elem → X.Elem) → Option (Unit {0} × X.Elem) → X.Elem → X.Elem
  in_config f (some (u, comp)) e = comp
  in_config f none e = X.insert e 0 (f (X.element (codes "config") []))

  abbrev pub update_config : (X.Elem → X.Elem) → X.Elem → X.Elem
  update_config f comp = in_config f (update_path X (codes "config" ∷ []) (with_unit f) comp) comp

  unfoldable pub add_bootparams : Str → X.Elem → X.Elem
  add_bootparams bootparams = update_config (λ config.
      sub_element X config (codes "string")
        ((codes "name", codes "bootparams") ∷ (codes "value", bootparams) ∷ []))

  unfoldable pub set_resetable : Bool → X.Elem → X.Elem
  set_resetable resetable = update_config (λ config. X.insert config 0 (
      X.element (codes "boolean")
        ((codes "name", codes "resetable") ∷ (codes "value", flag resetable) ∷ [])))

  abbrev gpr : Str → List Str
  gpr name = codes "requires" ∷ codes "vcpu" ∷ codes "registers" ∷ codes "gpr" ∷ name ∷ []

  unfoldable pub set_rip : ℕ → X.Elem → Result (Unit {0} × X.Elem)
  set_rip entrypoint =
      at_path X (gpr (codes "rip")) (with_unit (λ rip. X.set_text rip (ada entrypoint)))

  -- The end of the RAM region, and the specification.
  unfoldable pub add_ram_memory : ℕ → ℕ → X.Elem → Result (ℕ × X.Elem)
  add_ram_memory binary_end ram_size_mb spec =
      let ram_size = ram_size_of ram_size_mb in
      do
        (u, with_ram) ←
            at_path X (codes "provides" ∷ []) (with_unit (add_ram_region X binary_end ram_size))
              spec
        (v, with_rsp) ←
            at_path X (gpr (codes "rsp")) (with_unit (set_rsp X binary_end ram_size)) with_ram
        ok (binary_end + ram_size, with_rsp)

  unfoldable pub add_elf : Str → Str → List Segment → X.Elem → Result (ℕ × X.Elem)
  add_elf comp_name filename segments =
      at_path X (codes "provides" ∷ [])
        (λ provides. let (p, e) = add_elf_memory X comp_name filename segments provides in (e, p))

  -- The specification that is written, for the root of the document. Without an element `<component>` the
  -- first change raises. A component has one section `<requires>`; the loop over the devices looks for it
  -- when it has a channel to add, and here it always does, since `set_rip` has found the section before.
  unfoldable pub gencspec :
      Str → Bool → ℕ → ℕ → List Segment → Abi → Manifest → Str → X.Elem → Result X.Elem
  gencspec binary_name resetable ram_size_mb entrypoint segments abi manifest boot_params src_spec =
      do
        name ← attrib (X.get src_spec (codes "name"))
        guard (has_tag X (codes "component") src_spec) index_error
        (u, with_rip) ←
            set_rip entrypoint (set_resetable resetable (add_bootparams boot_params src_spec))
        (end_address, with_elf) ← add_elf (lower name) binary_name segments with_rip
        (chan_addr, with_ram) ← add_ram_memory end_address ram_size_mb with_elf
        validate_solo5_abi abi
        guard (manifest.kind == codes "solo5.manifest")
            (exit (codes "Error: JSON file does not contain Solo5 Manifest"))
        let channels = X.xpath with_ram (codes "/component/requires/channels")
        (v, with_channels) ←
            at_path X (codes "requires" ∷ [])
              (with_unit (λ requires. closed X (
                add_devices X (manifest.devices) (record {
                  requires = requires;
                  channels = nodes channels;
                  chan_addr = chan_addr;
                }))))
              with_ram
        ok with_channels
