-- ===== src/Solo5/Memory.antt =====
-- tools/scripts/solo5-muen-gencspec.py: the memory regions of a component, made from the segments of an
-- ELF binary, and its RAM region. The functions get the section `<provides>` that they append to.
use muen.Base.{ℕ, ◌+◌, ◌-◌, ◌*◌, ◌^◌, Bool, ◌&&◌}
use muen.Base.{
  List, [], ◌∷◌, ◌++◌, Str, codes, if◌then◌else◌, ltb, leb, length, take, ℤ, pos, negsuc,
}
use muen.Base.Text.{join, has_infix}
use muen.Base.Pages.{round_up}
use muen.Muutils.{format_hex}
use muen.Muutils.Hex.{hex}
use muen.Xml.{Etree, sub_element}

-- `int_to_ada_hex` at a number that is not negative, where it always returns a text.
abbrev pub ada : ℕ → Str
ada n = format_hex (hex (pos n))

-- The difference of two numbers, as an integer.
abbrev pub minus : ℕ → ℕ → ℤ
minus a b = if leb b a then pos (a - b) else negsuc (b - a - 1)

-- `bool_to_str` at a truth value.
abbrev pub flag : Bool → Str
flag b = if b then codes "true" else codes "false"

-- What the script reads of a segment: whether its type is LOAD, the names of its sections, its flags,
-- address, sizes and place in the file.
pub record Segment : Type 0 where
  pub is_load : Bool
  pub sections : List Str
  pub w : Bool
  pub x : Bool
  pub virtual_address : ℕ
  pub physical_size : ℕ
  pub virtual_size : ℕ
  pub file_offset : ℕ

-- `n[:max_len - k]` where `max_len = 63 - (length + 1)`: a stop below nought counts from the end.
abbrev cut : ℕ → ℕ → Str → Str
cut k used n =
    if leb (used + 1 + k) 63
    then take (63 - (used + 1 + k)) n
    else take (length n - (used + 1 + k - 63)) n

-- The logical name of a region, for a component name of `used` characters.
unfoldable pub region_name : ℕ → List Str → Str
region_name used sections =
    let n = join (codes "+") sections in
    let mem_name = if leb (length n + used + 1) 63 then n else cut 2 used n ++ codes ".." in
    if has_infix mem_name (codes ".text") then codes "text" else mem_name

module _ (X : Etree) where
  -- The element of a region that is executable by `x` and writable by `w`; `child` is the element inside it.
  abbrev pub region : Str → ℕ → ℕ → Bool → Bool → X.Elem → X.Elem
  region name address size x w child =
      X.append
        (X.element (codes "memory") (
          (codes "logical", name)
          ∷ (codes "virtualAddress", ada address)
          ∷ (codes "size", ada size)
          ∷ (codes "executable", flag x)
          ∷ (codes "writable", flag w)
          ∷ (codes "type", codes "subject_binary")
          ∷ []))
        child

  -- The region of the segment's contents.
  unfoldable pub add_file_region : Str → Str → Segment → X.Elem → X.Elem
  add_file_region name filename segment provides =
      let phy_size = round_up (segment.physical_size) in
      let file =
        X.element (codes "file")
          ((codes "filename", filename) ∷ (codes "offset", ada (segment.file_offset)) ∷ []) in
      if ltb 0 phy_size
      then X.append provides
          (region name (segment.virtual_address) phy_size (segment.x) (segment.w) file)
      else provides

  -- The region filled with noughts, if the segment is larger in memory than in the file.
  unfoldable pub add_fill_region : Str → Segment → X.Elem → X.Elem
  add_fill_region name segment provides =
      let phy_size = round_up (segment.physical_size) in
      let mem_size = round_up (segment.virtual_size) in
      let fill = X.element (codes "fill") ((codes "pattern", codes "16#00#") ∷ []) in
      if ltb phy_size mem_size
      then X.append provides (
          region (name ++ codes "|fill") (segment.virtual_address + phy_size) (mem_size - phy_size)
            (segment.x) (segment.w) fill)
      else provides

  -- One round of the loop; the state is the section and the end address.
  unfoldable pub add_segment : Str → Str → Segment → X.Elem × ℕ → X.Elem × ℕ
  add_segment comp_name filename segment (provides, end_addr) =
      let name = region_name (length comp_name) (segment.sections) in
      if segment.is_load && ltb 0 (length (segment.sections))
      then (
        add_fill_region name segment (add_file_region name filename segment provides),
        segment.virtual_address + round_up (segment.virtual_size),
      )
      else (provides, end_addr)

  unfoldable pub add_segments : Str → Str → List Segment → X.Elem × ℕ → X.Elem × ℕ
  add_segments comp_name filename [] s = s
  add_segments comp_name filename (segment ∷ segments) s =
      add_segments comp_name filename segments (add_segment comp_name filename segment s)

  unfoldable pub add_elf_memory : Str → Str → List Segment → X.Elem → X.Elem × ℕ
  add_elf_memory comp_name filename segments provides =
      add_segments comp_name filename segments (provides, 0)

  -- The three parts of `add_ram_memory`: the region, the element `<rsp>`, and the end address.
  unfoldable pub add_ram_region : ℕ → ℕ → X.Elem → X.Elem
  add_ram_region binary_end ram_size provides = sub_element X provides (codes "memory") (
      (codes "logical", codes "ram")
      ∷ (codes "virtualAddress", ada binary_end)
      ∷ (codes "size", ada ram_size)
      ∷ (codes "executable", codes "false")
      ∷ (codes "writable", codes "true")
      ∷ (codes "type", codes "subject")
      ∷ [])

  unfoldable pub set_rsp : ℕ → ℕ → X.Elem → X.Elem
  set_rsp binary_end ram_size rsp =
      X.set_text rsp (format_hex (hex (minus (binary_end + ram_size) 8)))

abbrev pub ram_size_of : ℕ → ℕ
ram_size_of ram_size_mb = ram_size_mb * 2 ^ 20
