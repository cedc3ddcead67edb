-- ===== src/Tests/Scripts.antt =====
-- Policies with several cores, Linux specifications and the log of a subject, and the theorems at them.
use muen.Base.{
  ℕ, zero, suc, ◌+◌, ◌-◌, ◌%◌, ◌≤◌, ◌<◌, ◌≡◌, ◌↔◌, refl, sym, ap, arith, Bool, true, false, List,
  [], ◌∷◌, ◌++◌, map, Str, codes,
}
use muen.Base.{
  Option, some, none, Result, ok, err, ◌>>=◌, ℤ, pos, select, length, get_elem?, All, if◌then◌else◌,
  eqb,
}
use muen.Base.Text.{is_in, join, has_infix, rstrip, lstrip}
use muen.Base.Dict.{lookup}
use muen.Muutils.{int, ada_hex_to_int, int_to_ada_hex}
use muen.Xml.{Etree}
use muen.Xml.Tree.{Tree, elem, tree, tree-IsLawful}
use muen.Base.{type_error}
use muen.LinuxGencspec.{
  check_mappings, get_initramfs_attrs, attrs_of, mapped_attrs, Attrs, default_attrs,
}
use muen.LinuxGencspec.Mappings.{check_mappings-last}
use muen.LinuxGencspec.Adjacent.{IsAdjacent, get_initramfs_attrs-IsAdjacent}
use muen.Base.{◌⊎◌, ◌==◌, list_eq, nat_eq}
use muen.Muutils.{str}
use muen.MulogSubject.{is_match, mulog_subject}
use muen.MulogSubject.Records.{records, mulog_subject-records}
use muen.Compose.{
  add_physical_channels, add_subject_channel_mappings, add_linux_channels, interfaces,
}
use muen.Compose.Names.{under, physical_of, add_linux_channels-add_physical_channels}
use muen.Compose.Interfaces.{interfaces_lem}
use muen.Smpify.{
  range, create_phys_channels, create_dbg_resources, partition, create_scheduling_partitions,
}
use muen.Smpify.Numbers.{phys_channel_injective}
use muen.Smpify.Devices.{spread_devices, sections, every, spread_devices-every}
use muen.Smpify.References.{
  create_dbg_resources-create_phys_channels, create_scheduling_partitions_lem,
}
use muen.Smpify.Schedule.{adjust_core_one, new_core, total, adjust_core_one-new_core}
use muen.Tests.Unikernels.{provides, config, tree_or}

abbrev device : Str → Tree
device n = elem (codes "device") ((codes "logical", n) ∷ []) []

abbrev devices : List Tree
devices = device (codes "a") ∷ device (codes "b") ∷ device (codes "c") ∷ []

abbrev subjects : List Tree
subjects = elem (codes "devices") [] [] ∷ elem (codes "devices") [] [] ∷ []

spread_devices-every_example :
    (ss' : List Tree) × (s' : Tree) × (spread_devices tree devices (sections tree subjects)
      ≡ ok (sections tree ss'))
    × (length ss' ≡ length subjects)
    × (get_elem? ss' 0 ≡ some s')
    × (tree.children s' ≡ [] ++ every tree (length subjects) 0 0 devices)
spread_devices-every_example =
    spread_devices-every tree tree-IsLawful devices subjects 0 (elem (codes "devices") [] []) refl

abbrev empty_section : Tree
empty_section = elem (codes "channels") [] []

create_dbg_resources-create_phys_channels_example :
    (new : List Tree) × (maps : List Tree) × (tree.children
        (create_phys_channels tree 3 empty_section)
      ≡ tree.children empty_section ++ new)
    × (tree.children (create_dbg_resources tree 3 provides) ≡ tree.children provides ++ maps)
    × (map (λ e. tree.get e (codes "name")) new ≡ map (λ e. tree.get e (codes "physical")) maps)
    × (length new ≡ 3)
create_dbg_resources-create_phys_channels_example =
    create_dbg_resources-create_phys_channels tree tree-IsLawful 3 empty_section provides

create_scheduling_partitions_example :
    tree.children
      (create_scheduling_partitions tree 3 (elem (codes "partitions") [] (config ∷ provides ∷ [])))
    ≡ config ∷ (map (partition tree) (range 1 3) ++ provides ∷ [])
create_scheduling_partitions_example =
    create_scheduling_partitions_lem tree tree-IsLawful 3
      (elem (codes "partitions") [] (config ∷ provides ∷ [])) config (provides ∷ []) refl

abbrev minor_frame : Str → Str → Tree
minor_frame p t = elem (codes "minorFrame") ((codes "partition", p) ∷ (codes "ticks", t) ∷ []) []

abbrev core_one : Tree
core_one =
    elem (codes "cpu") [] (
      minor_frame (codes "time") (codes "10") ∷ minor_frame (codes "debugserver") (codes "90") ∷ [])

adjust_core_one-new_core_example :
    (c' : Tree) × (adjust_core_one tree core_one ≡ ok c')
    × (total tree (tree.children c') ≡ 100)
    × (total tree (tree.children (new_core tree 2)) ≡ 100)
unfolding lookup
adjust_core_one-new_core_example =
    adjust_core_one-new_core tree tree-IsLawful core_one
      (minor_frame (codes "debugserver") (codes "90")) (minor_frame (codes "time") (codes "10")) 2
      refl refl refl refl

abbrev comp_channels : List Tree
comp_channels =
    elem (codes "reader")
      ((codes "logical", codes "eth0|in") ∷ (codes "size", codes "16#0010_0000#") ∷ []) []
    ∷ elem (codes "writer")
        ((codes "logical", codes "eth0|out") ∷ (codes "size", codes "16#0010_0000#") ∷ []) []
    ∷ []

add_linux_channels-add_physical_channels_example :
    (phys : List Tree) × (maps : List Tree) × (own : List Tree) × (tree.children
        (tree_or provides (add_physical_channels tree (codes "unikernel") comp_channels provides))
      ≡ [] ++ phys)
    × (tree.children (
          tree_or provides
            (add_subject_channel_mappings tree (codes "unikernel") comp_channels provides))
        ≡ [] ++ maps)
    × (tree.children
          (tree_or provides (add_linux_channels tree (codes "unikernel") comp_channels provides))
        ≡ [] ++ own)
    × (under tree tree-IsLawful (codes "name") phys
        ≡ map
            (λ c. physical_of tree tree-IsLawful (codes "unikernel") (tree.get c (codes "logical")))
            comp_channels)
    × (under tree tree-IsLawful (codes "physical") maps
        ≡ under tree tree-IsLawful (codes "name") phys)
    × (under tree tree-IsLawful (codes "physical") own
        ≡ under tree tree-IsLawful (codes "name") phys)
unfolding add_physical_channels add_subject_channel_mappings add_linux_channels lookup
    muen.Compose.add_linux_channels_from ada_hex_to_int muen.Muutils.Hex.int_base_16
    muen.Base.Text.replace
add_linux_channels-add_physical_channels_example =
    add_linux_channels-add_physical_channels tree tree-IsLawful (codes "unikernel") comp_channels
      provides provides provides
      (tree_or provides (add_physical_channels tree (codes "unikernel") comp_channels provides))
      (tree_or provides
        (add_subject_channel_mappings tree (codes "unikernel") comp_channels provides))
      (tree_or provides (add_linux_channels tree (codes "unikernel") comp_channels provides)) refl
      refl refl

abbrev main_reader : Tree
main_reader = elem (codes "reader") ((codes "logical", codes "main|in") ∷ []) []

interfaces_example :
    (interfaces tree (main_reader ∷ []) [] ≡ ok (codes "mai" ++ b'n' ∷ []))
    ↔ (is_in (codes "|in") b'n' ≡ false)
unfolding lookup
interfaces_example = interfaces_lem tree main_reader (codes "mai") b'n' refl refl

abbrev mapping : Str → Str → Tree
mapping x w =
    elem (codes "memory")
      ((codes "physical", codes "initramfs")
        ∷ (codes "virtualAddress", codes "16#7000_0000#")
        ∷ (codes "executable", x)
        ∷ (codes "writable", w)
        ∷ [])
      []

check_mappings-last_example :
    (tree.get (mapping (codes "true") (codes "true")) (codes "executable") ≡ some (codes "true"))
    × (tree.get (mapping (codes "true") (codes "true")) (codes "writable") ≡ some (codes "true"))
    × (tree.get (mapping (codes "true") (codes "true")) (codes "virtualAddress")
        ≡ some (codes "16#7000_0000#"))
    × All
        (λ m. tree.get m (codes "virtualAddress") ≡ some (codes "16#7000_0000#"))
        (mapping (codes "false") (codes "false") ∷ [])
unfolding lookup check_mappings
check_mappings-last_example =
    check_mappings-last tree (codes "16#7000_0000#") (mapping (codes "false") (codes "false") ∷ [])
      (mapping (codes "true") (codes "true")) (codes "false") (codes "false") (codes "true")
      (codes "true") (λ e. cc) (λ e. cc) ((λ e. cc, λ e. cc), tt) (λ e. cc, λ e. cc) refl

-- A policy with one region for an initramfs, which two subjects map
abbrev initramfs : Tree
initramfs =
    elem (codes "memory")
      ((codes "name", codes "initramfs") ∷ (codes "size", codes "16#2000#") ∷ []) []

abbrev mapped_twice : Etree
mapped_twice = record tree {
  xpath = λ e path.
      if path == codes "/system/memory/memory[@type='subject_initrd']"
      then initramfs ∷ []
      else mapping (codes "true") (codes "false") ∷ mapping (codes "false") (codes "true") ∷ [];
}

abbrev behind_initramfs : Attrs
behind_initramfs = record {
  address = some (codes "16#7000_2000#");
  executable = str (codes "false");
  writable = str (codes "true");
}

initramfs_attrs : get_initramfs_attrs mapped_twice provides ≡ ok (some behind_initramfs)
unfolding get_initramfs_attrs attrs_of mapped_attrs check_mappings lookup ada_hex_to_int
    muen.Muutils.Hex.int_base_16 muen.Muutils.Hex.signed muen.Muutils.Hex.magnitude
    muen.Muutils.Hex.value_from muen.Muutils.Hex.digit_value muen.Base.Text.replace
    muen.Base.Text.strip muen.Base.Text.split lstrip rstrip int_to_ada_hex muen.Muutils.format_hex
    muen.Muutils.Hex.hex
initramfs_attrs = refl

get_initramfs_attrs-IsAdjacent_example :
    (default_attrs ≡ behind_initramfs) ⊎ IsAdjacent mapped_twice provides (codes "16#7000_2000#")
get_initramfs_attrs-IsAdjacent_example =
    get_initramfs_attrs-IsAdjacent mapped_twice provides behind_initramfs (codes "16#7000_2000#")
      initramfs_attrs refl

abbrev subject_log : List Str
subject_log =
    codes "16#000a#|first\n"
    ∷ codes "16#000b#|other\n"
    ∷ codes "16#000a#> and more\n"
    ∷ codes "16#000a#|second\n"
    ∷ []

mulog_subject-records_example :
    mulog_subject 10 subject_log
    ≡ ok (join (codes "\n") (records (select (is_match 10) subject_log)) ++ codes "\n")
mulog_subject-records_example = mulog_subject-records 10 subject_log (omega arith)

abbrev second : ℕ
second = 2

phys_channel_injective_example : second ≡ second
unfolding lookup
phys_channel_injective_example = phys_channel_injective tree tree-IsLawful second second refl
