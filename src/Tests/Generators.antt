-- ===== src/Tests/Generators.antt =====
-- Small inputs of the scripts that generate files, and the theorems at them.
use mathlib.Core.List.{flat_map}
use muen.Base.{
  true, all, none, ℕ, List, [], ◌∷◌, ◌++◌, some, Str, codes, Result, ok, ◌>>=◌, ◌≡◌, refl, arith,
  pos, ℤ, if◌then◌else◌, ◌==◌, list_eq, nat_eq, map, length, contains,
}
use muen.Base.Text.{join, split, lstrip, rstrip}
use muen.Base.Dict.{lookup, insert}
use muen.Xml.{Etree}
use muen.Xml.Tree.{Tree, tree, elem, tree-IsLawful}
use muen.AdjustXmlSpec.{adjust_xml_spec, map_ok}
use muen.AdjustXmlSpec.Cleared.{provides_cleared, adjust_xml_spec_cleared}
use muen.Cslencode.{cslencode, csl_vermagic, pack, bytes}
use muen.Cslencode.Stream.{next_command, cslencode-next_command}
use muen.SubjectList.{write_spec}
use muen.SubjectList.Padding.{ArePadded, ada_package, array_text, write_spec_padded}
use muen.CpuValues.{write_entries, msr_entry}
use muen.CpuValues.Entries.{entries_from, write_entries-join}
use muen.Mugenmanifest
use muen.Mugenmanifest.{nodes_path}
use muen.Arguments.{Files, Args, checked, dirname}
use muen.CpuValues
use muen.CpuValues.Main.{main, main_lem}
use muen.Base.{false, err, exit}

abbrev vendor : ℕ
vendor = 60001

abbrev content : List ℕ
content = 7 ∷ 8 ∷ 9 ∷ []

abbrev commands : List ℕ
commands = 1 ∷ 2 ∷ []

abbrev image : List ℕ
image = csl_vermagic ++ commands

abbrev encoded : List ℕ
encoded =
    csl_vermagic
    ++ (97 ∷ 234 ∷ 0 ∷ 0 ∷ 0 ∷ 0 ∷ 0 ∷ 0 ∷ 3 ∷ 0 ∷ 0 ∷ 0 ∷ 0 ∷ 0 ∷ 0 ∷ 0 ∷ 7 ∷ 8 ∷ 9 ∷ 1 ∷ 2 ∷ [])

cslencode-next_command_example :
    (out : List ℕ) × (cslencode (codes "in") (some image) (pos vendor) (codes "file") (some content)
      ≡ ok (csl_vermagic ++ out))
    × (next_command out ≡ (vendor, content, commands))
cslencode-next_command_example =
    cslencode-next_command (codes "in") (codes "file") vendor commands content (omega arith)
      (omega arith) (omega arith)

image-encoded :
    cslencode (codes "in") (some image) (pos vendor) (codes "file") (some content) ≡ ok encoded
unfolding cslencode pack bytes
image-encoded = refl

abbrev subject_names : List Str
subject_names = codes "nic_linux" ∷ codes "vt" ∷ []

write_spec_padded_example :
    (width : ℕ) × (fields : List Str) × (write_spec
        (map some subject_names)
        (codes "Dbg.Subject_List")
      ≡ ok (ada_package width (codes "Dbg.Subject_List") (array_text fields)))
    × ArePadded width subject_names fields
    × ((n : Str) × (contains subject_names n ≡ true) × (length n ≡ width))
write_spec_padded_example =
    write_spec_padded (codes "nic_linux") (codes "vt" ∷ []) (codes "Dbg.Subject_List")

abbrev msr : Str → Str → Tree
msr address regval =
    elem (codes "msr") ((codes "address", address) ∷ (codes "regval", regval) ∷ []) []

abbrev msrs : List Tree
msrs = msr (codes "16#0010#") (codes "16#00ff#") ∷ []

msr_entries :
    write_entries tree
      (msr_entry tree)
      (length (msr (codes "16#0001#") (codes "16#0002#") ∷ msrs))
      1
      (msr (codes "16#0001#") (codes "16#0002#") ∷ msrs)
    ≡ (entries_from tree (msr_entry tree) 1 (msr (codes "16#0001#") (codes "16#0002#") ∷ msrs)
        >>= (λ ts. ok (join (codes ",\n") ts ++ codes "\n")))
msr_entries =
    write_entries-join tree (msr_entry tree) (msr (codes "16#0001#") (codes "16#0002#")) msrs

-- The tree with the two paths of the manifest
abbrev manifest_tree : Etree
manifest_tree = record tree {
  xpath = λ e p.
      if p == nodes_path
      then tree.children e
      else if p == codes "file|fill"
      then tree.children e
      else [];
}

abbrev memory : Str → Str → Tree
memory name address =
    elem (codes "memory")
      ((codes "name", name)
        ∷ (codes "physicalAddress", address)
        ∷ (codes "size", codes "16#1000#")
        ∷ [])
      (elem (codes "fill") ((codes "pattern", codes "16#00#") ∷ []) [] ∷ [])

abbrev system : Tree
system =
    elem (codes "system") []
      (memory (codes "high") (codes "16#2000#") ∷ memory (codes "low") (codes "16#1000#") ∷ [])

abbrev quotient : ℤ → ℤ → Result Str
quotient m n = ok (codes "100.0")

abbrev keyed : List (ℤ × Tree)
keyed =
    (pos 8192, memory (codes "high") (codes "16#2000#"))
    ∷ (pos 4096, memory (codes "low") (codes "16#1000#"))
    ∷ []

-- A component with a writable region, and one with the given hashes for the two regions
abbrev region : Str → Str → Str → Tree
region name writable hash =
    elem (codes "memory") ((codes "logical", name) ∷ (codes "writable", writable) ∷ [])
      (elem (codes "hash") ((codes "value", hash) ∷ []) [] ∷ [])

abbrev hashed : Str → Tree
hashed hash = elem (codes "component") [] (
    elem (codes "provides") [] (
      region (codes "text") (codes "false") (codes "16#01#")
      ∷ region (codes "data") (codes "true") hash
      ∷ [])
    ∷ [])

hash_adjusted : adjust_xml_spec tree (hashed (codes "16#02#")) ≡ ok (some (hashed (codes "none")))
unfolding adjust_xml_spec map_ok split lookup flat_map insert
hash_adjusted = refl

adjust_xml_spec_cleared_example :
    all (provides_cleared tree) (tree.children (hashed (codes "none"))) ≡ true
adjust_xml_spec_cleared_example =
    adjust_xml_spec_cleared tree tree-IsLawful (hashed (codes "16#02#")) (hashed (codes "none"))
      hash_adjusted

-- Without a hash of a writable region no file is written.
nothing_adjusted : adjust_xml_spec tree (elem (codes "component") [] []) ≡ ok none
unfolding adjust_xml_spec map_ok split lookup flat_map
nothing_adjusted = refl

-- The paths of the scripts that write an Ada package
abbrev files : Files
files = record { is_file = λ path. true; is_dir = λ path. false }

abbrev args : Str → Args
args out = record {
  out = some out;
  src_policy = some (codes "policy.xml");
  package_name = codes "Cpu_Values";
}

nested_directory : dirname (codes "/gen//src/names.ads") ≡ codes "/gen//src"
unfolding dirname rstrip lstrip
nested_directory = refl

root_directory : dirname (codes "//names.ads") ≡ codes "//"
unfolding dirname rstrip lstrip
root_directory = refl

-- The message names the directory above the one that is missing.
directory_above :
    checked [] files (args (codes "gen/src/names.ads"))
    ≡ err (exit (codes "Error: Output directory for source file does not exist ('gen')"))
unfolding checked dirname rstrip lstrip
directory_above = refl

here_written : main tree files (λ path. system) (args (codes "cpu_values.ads")) ≡ (
    CpuValues.write_spec tree system (codes "Cpu_Values")
    >>= (λ text. ok (codes "cpu_values.ads", text)))
unfolding dirname rstrip lstrip
here_written =
    main_lem tree files (λ path. system) (args (codes "cpu_values.ads")) (codes "cpu_values.ads")
      (codes "policy.xml") refl refl refl refl
