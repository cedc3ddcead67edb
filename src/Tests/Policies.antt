-- ===== src/Tests/Policies.antt =====
-- A small template with the specification of a unikernel, and a patched binary.
use muen.Base.{
  ℕ, List, [], ◌∷◌, some, Str, codes, Result, ok, err, ◌≡◌, refl, arith, take, drop, replicate,
  length, ◌-◌,
}
use muen.Base.Dict.{lookup, insert}
use muen.Base.Text.{split, replace, strip, lstrip, rstrip, rjust}
use mathlib.Core.List.{flat_map}
use muen.Xml.Tree.{Tree, tree, elem, tree-IsLawful}
use muen.Xml.Sections.{update_section}
use muen.Compose
use muen.Compose.{add_physical_channels}
use muen.Compose.Policy.{subject_name, compose}
use muen.Compose.Policy
use muen.Compose.Sections.{sections, compose-sections}
use muen.Muutils.{ada_hex_to_int, format_hex}
use muen.Solo5.Patch.{patch_binary, nop, patch_binary_nops}

abbrev leaf : Str → Tree
leaf t = elem t [] []

abbrev named : Str → Str → List Tree → Tree
named t name cs = elem t ((codes "name", name) ∷ []) cs

abbrev channel : Str → Str → Tree
channel kind logical =
    elem kind ((codes "logical", logical) ∷ (codes "size", codes "16#1000#") ∷ []) []

abbrev specification : Tree
specification = named (codes "component") (codes "unikernel") (
    elem (codes "config") [] (
      elem (codes "boolean")
        ((codes "name", codes "resetable") ∷ (codes "value", codes "true") ∷ []) []
      ∷ [])
    ∷ elem (codes "requires") [] (
        elem (codes "channels") [] (
          channel (codes "reader") (codes "net|in")
          ∷ channel (codes "writer") (codes "net|out")
          ∷ [])
        ∷ [])
    ∷ [])

abbrev template : Tree
template = elem (codes "system") [] (
    leaf (codes "config")
    ∷ leaf (codes "components")
    ∷ leaf (codes "channels")
    ∷ elem (codes "subjects") [] (
        named (codes "subject") (codes "nic_linux")
          (leaf (codes "bootparams") ∷ leaf (codes "channels") ∷ [])
        ∷ named (codes "subject") (codes "unikernel") (leaf (codes "component") ∷ [])
        ∷ [])
    ∷ [])

-- The system policy, if the script returns
abbrev value_or : Tree → Result Tree → Tree
value_or e (ok d) = d
value_or e (err why) = e

abbrev composed : Tree
composed = value_or template (compose tree specification template)

compose_returns : compose tree specification template ≡ ok composed
unfolding compose Policy.add_component update_section lookup add_physical_channels split flat_map
    Compose.add_subject_channel_mappings Compose.add_linux_channels Compose.add_linux_channels_from
    ada_hex_to_int muen.Muutils.Hex.int_base_16 replace Policy.add_interfaces Compose.interfaces
    Policy.extend_bootparams Policy.set_subject_bootparams Policy.copy_reset_variable insert lstrip
    rjust rstrip strip Compose.extend_subject_bootparams Compose.extended_params Compose.flipped
    Compose.phys_name muen.Muutils.Hex.digit_value muen.Muutils.Hex.hex muen.Muutils.Hex.hex_digits
    muen.Muutils.Hex.magnitude muen.Muutils.Hex.signed muen.Muutils.Hex.value_from format_hex
    muen.Muutils.group_from
compose_returns = refl

compose-sections_example :
    (c : Tree) × (c' : Tree) × (rest : List Tree) × (sections tree (codes "channels") template
      ≡ c ∷ rest)
    × (add_physical_channels tree subject_name
          (tree.xpath specification (codes "/component/requires/channels/*"))
          c
        ≡ ok c')
    × (sections tree (codes "channels") composed ≡ c' ∷ rest)
compose-sections_example =
    compose-sections tree tree-IsLawful specification template composed compose_returns

abbrev binary : List ℕ
binary = 1 ∷ 2 ∷ 3 ∷ 4 ∷ 5 ∷ 6 ∷ []

abbrev interp : ℕ
interp = 2

abbrev text : ℕ
text = 5

patch_binary_nops_example :
    (out : List ℕ) × (patch_binary (some interp) (some text) binary ≡ ok out)
    × (length out ≡ length binary)
    × (take interp out ≡ take interp binary)
    × (take (text - interp) (drop interp out) ≡ replicate (text - interp) nop)
    × (drop text out ≡ drop text binary)
patch_binary_nops_example = patch_binary_nops interp text binary (omega arith) (omega arith)
