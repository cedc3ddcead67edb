-- ===== src/Tests/Unikernels.antt =====
-- Logs, literals and Solo5 binaries, and the theorems at them.
use muen.Base.{
  ◌+◌, ◌%◌, ◌≤◌, ◌<◌, ◌≡◌, ◌↔◌, refl, arith, true, false, List, [], ◌∷◌, ◌++◌, map, Str, codes,
}
use muen.Base.{some, Result, ok, err, ◌>>=◌, pos, select, length}
use muen.Base.Text.{rstrip}
use muen.Base.Pages.{round_up, round_up_lem}
use muen.Muutils.{int, ada_hex_to_int, int_to_ada_hex}
use muen.Muutils.RoundTrip.{ada_hex_to_int-int_to_ada_hex}
use muen.Mulog.{mulog}
use muen.Mulog.Continued.{mulog_lem, parents}
use muen.Mulog.Extended.{printed}
use muen.Xml.{Etree, has_tag}
use muen.Xml.Tree.{Tree, elem, tree, tree-IsLawful}
use muen.Solo5.Memory.{Segment, add_elf_memory, add_segment}
use muen.Solo5.Regions.{Holds, end_of, add_elf_memory-Holds}
use muen.Solo5.Names.{IsBounded, add_elf_memory_names, add_segment_exceeds}
use muen.Base.{All, List}
use muen.Solo5.Channels.{Device, is_net, nodes, closed, add_devices, without_first, first_of}
use muen.Solo5.Channels.Layout.{channels_from, add_devices-nodes, add_devices-channels_from}
use muen.Solo5.Spec.{Abi, Manifest, validate_solo5_abi, gencspec, set_resetable, add_bootparams}
use muen.Solo5.Spec.Checks.{IsMuenAbi, validate_solo5_abi_lem, gencspec_checks}
use muen.Solo5.Spec.Config.{
  boolean_of, string_of, set_resetable-add_bootparams, set_resetable-add_bootparams_new,
}
use muen.Base.Text.{lstrip}
use muen.Base.{eqb, not, none, exit}
use muen.Arguments.{Files, dirname}
use muen.Solo5.Output.{out_spec_path, out_spec_path_here}

ada_hex_to_int-int_to_ada_hex_example :
    ((int_to_ada_hex (int (pos 74565)) >>= ada_hex_to_int) ≡ ok (int (pos 74565))) ↔ (0 < 74565)
ada_hex_to_int-int_to_ada_hex_example = ada_hex_to_int-int_to_ada_hex 74565

page_rounding : (round_up 4097 % 4096 ≡ 0) × (4097 ≤ round_up 4097) × (round_up 4097 < 4097 + 4096)
page_rounding = round_up_lem 4097

abbrev log : List Str
log = codes "16#0001#|a\n" ∷ codes "16#0001#>b\n" ∷ []

mulog_example : (mulog log ≡ ok (codes "16#0001#|ab" ∷ [])) ↔ (
    (parents [] (map (rstrip (13 ∷ 10 ∷ [])) log) ≡ true)
    × (codes "16#0001#|ab" ∷ [] ≡ printed (map (rstrip (13 ∷ 10 ∷ [])) log)))
mulog_example = mulog_lem log (codes "16#0001#|ab" ∷ [])

abbrev text_segment : Segment
text_segment = record {
  is_load = true;
  sections = codes ".interp" ∷ codes ".text" ∷ [];
  w = false;
  x = true;
  virtual_address = 0x100000;
  physical_size = 5000;
  virtual_size = 20000;
  file_offset = 4096;
}

abbrev pub provides : Tree
provides = elem (codes "provides") [] []

add_elf_memory-Holds_example :
    let r = add_elf_memory tree (codes "net") (codes "net.muen") (text_segment ∷ []) provides in
    (es : List Tree) × (tree.children (r.0) ≡ tree.children provides ++ es)
    × Holds tree es (text_segment ∷ [])
    × (r.1 ≡ end_of (text_segment ∷ []) 0)
add_elf_memory-Holds_example =
    add_elf_memory-Holds tree tree-IsLawful (codes "net") (codes "net.muen") (text_segment ∷ [])
      provides ((omega arith, omega arith), tt)

abbrev long_names : List Str
long_names =
    codes ".note.solo5.manifest"
    ∷ codes ".note.solo5.not-openbsd"
    ∷ codes ".eh_frame"
    ∷ codes ".tdata"
    ∷ []

-- A segment whose sections have long names and that is larger in memory
abbrev long_segment : Segment
long_segment = record {
  is_load = true;
  sections = long_names;
  w = true;
  x = false;
  virtual_address = 4096;
  physical_size = 100;
  virtual_size = 8192;
  file_offset = 4096;
}

abbrev provided : Tree
provided = elem (codes "provides") [] []

add_elf_memory_names_example :
    (es : List Tree) × (tree.children
        (add_elf_memory tree (codes "unikernel") (codes "b") (long_segment ∷ []) provided).0
      ≡ [] ++ es)
    × All (IsBounded tree (codes "unikernel")) es
add_elf_memory_names_example =
    add_elf_memory_names tree tree-IsLawful (codes "unikernel") (codes "b") (long_segment ∷ [])
      provided (omega arith)

add_segment_exceeds_example :
    (es : List Tree) × (m : Tree) × (logical : Str) × (tree.children
        (add_segment tree (codes "unikernel") (codes "b") long_segment (provided, 0)).0
      ≡ es ++ m ∷ [])
    × (tree.get m (codes "logical") ≡ some logical)
    × (9 + 1 + length logical ≡ 68)
unfolding round_up
add_segment_exceeds_example =
    add_segment_exceeds tree tree-IsLawful (codes "unikernel") (codes "b") long_segment provided 0
      (omega arith) refl (omega arith) refl (omega arith)

abbrev net_device : Device
net_device = record { kind = codes "NET_BASIC"; name = codes "net0" }

abbrev block_device : Device
block_device = record { kind = codes "BLOCK_BASIC"; name = codes "storage" }

abbrev requires : Tree
requires =
    elem (codes "requires") [] (elem (codes "devices") [] [] ∷ elem (codes "vcpu") [] [] ∷ [])

add_devices-nodes_example :
    closed tree (
      add_devices tree (net_device ∷ []) (record {
        requires = requires;
        channels = nodes (elem (codes "channels") [] [] ∷ []);
        chan_addr = 4096;
      }))
    ≡ requires
add_devices-nodes_example =
    add_devices-nodes tree (net_device ∷ []) requires (elem (codes "channels") [] []) [] 4096

add_devices-channels_from_example :
    (e : Tree) × (tree.children (
        closed tree (
          add_devices tree
            (block_device ∷ net_device ∷ [])
            (record { requires = requires; channels = nodes []; chan_addr = 4096 })))
      ≡ without_first (has_tag tree (codes "devices")) (tree.children requires)
        ++ e ∷ first_of (tree.find requires (codes "devices")))
    × (tree.children e ≡ channels_from tree (select is_net (block_device ∷ net_device ∷ [])) 4096)
    × (tree.tag e ≡ some (codes "channels"))
add_devices-channels_from_example =
    add_devices-channels_from tree tree-IsLawful (block_device ∷ net_device ∷ []) requires 4096 refl

abbrev muen_abi : Abi
muen_abi = record {
  kind = codes "solo5.abi";
  target = codes "muen";
  version = 3;
  version_text = codes "3";
}

abbrev manifest : Manifest
manifest = record { kind = codes "solo5.manifest"; devices = net_device ∷ [] }

abbrev pub config : Tree
config = elem (codes "config") [] []

abbrev spec : Tree
spec = elem (codes "component") ((codes "name", codes "Net") ∷ []) (
    config
    ∷ elem (codes "requires") [] (
        elem (codes "vcpu") [] (
          elem (codes "registers") []
            (elem (codes "gpr") [] (elem (codes "rip") [] [] ∷ elem (codes "rsp") [] [] ∷ []) ∷ [])
          ∷ [])
        ∷ [])
    ∷ provides
    ∷ [])

abbrev pub tree_or : Tree → Result Tree → Tree
tree_or t (ok r) = r
tree_or t (err e) = t

abbrev generated : Result Tree
generated =
    gencspec tree (codes "net.muen") true 512 0x100100 (text_segment ∷ []) muen_abi manifest
      (codes "ip=dhcp") spec

validate_solo5_abi_example : (validate_solo5_abi muen_abi ≡ ok tt) ↔ IsMuenAbi muen_abi
validate_solo5_abi_example = validate_solo5_abi_lem muen_abi

gencspec_checks_example : IsMuenAbi muen_abi × (manifest.kind ≡ codes "solo5.manifest")
unfolding gencspec muen.Solo5.Spec.set_rip muen.Xml.Paths.update_path set_resetable add_bootparams
    muen.Solo5.Spec.add_elf muen.Solo5.Spec.add_ram_memory muen.Solo5.Memory.add_ram_region
    muen.Solo5.Memory.set_rsp add_elf_memory muen.Solo5.Memory.add_segments
    muen.Solo5.Memory.add_segment muen.Solo5.Memory.add_fill_region round_up
    muen.Solo5.Memory.add_file_region validate_solo5_abi muen.Base.Dict.lookup muen.Base.Text.split
    mathlib.Core.List.flat_map
gencspec_checks_example =
    gencspec_checks tree (codes "net.muen") true 512 0x100100 (text_segment ∷ []) muen_abi manifest
      (codes "ip=dhcp") spec (tree_or spec generated) refl

set_resetable-add_bootparams_example :
    (c' : Tree) × (tree.children (
        set_resetable tree true (
          add_bootparams tree
            (codes "ip=dhcp")
            (elem (codes "component") [] (config ∷ provides ∷ []))))
      ≡ [] ++ c' ∷ provides ∷ [])
    × (tree.children c'
        ≡ boolean_of tree tree-IsLawful true
          ∷ (tree.children config ++ string_of tree tree-IsLawful (codes "ip=dhcp") ∷ []))
set_resetable-add_bootparams_example =
    set_resetable-add_bootparams tree tree-IsLawful true (codes "ip=dhcp")
      (elem (codes "component") [] (config ∷ provides ∷ [])) config [] (provides ∷ []) refl refl
      refl

config_added :
    (c' : Tree) × (tree.children (
        set_resetable tree true
          (add_bootparams tree (codes "ip=dhcp") (elem (codes "component") [] (provides ∷ []))))
      ≡ c' ∷ provides ∷ [])
    × (tree.children c'
        ≡ boolean_of tree tree-IsLawful true ∷ string_of tree tree-IsLawful (codes "ip=dhcp") ∷ [])
config_added =
    set_resetable-add_bootparams_new tree tree-IsLawful true (codes "ip=dhcp")
      (elem (codes "component") [] (provides ∷ [])) refl

-- An output directory with a directory for specifications, and the current directory
abbrev directories : Files
directories = record { is_file = λ path. true; is_dir = λ path. not (eqb (length path) 0) }

specification_placed :
    out_spec_path directories none (codes "out") (codes "hello") ≡ ok (codes "out/cspecs/hello.xml")
unfolding out_spec_path dirname rstrip lstrip
specification_placed = refl

specification_refused :
    out_spec_path directories (some (codes "c.xml")) (codes "out") (codes "hello")
    ≡ err (exit (codes "Error: Output directory for component specification does not exist ('')"))
specification_refused =
    out_spec_path_here directories (codes "c.xml") (codes "out") (codes "hello")
      (refl, (refl, (refl, (refl, (refl, tt))))) refl
