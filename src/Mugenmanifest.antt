-- ===== src/Mugenmanifest.antt =====
-- The script tools/scripts/mugenmanifest.py, which lists the memory regions with contents by their
-- physical addresses. `quotient` is the text of Python's division of two integers, a float.
pub mod Sorted
use muen.Base.{
  ℕ, suc, ◌*◌, List, [], ◌∷◌, ◌++◌, Option, none, some, Str, codes, Bool, true, false,
  if◌then◌else◌, ◌==◌, list_eq, nat_eq,
}
use muen.Base.{
  Result, ok, err, ◌>>=◌, exit, type_error, attribute_error, index_error, ℤ, pos, negsuc, negate,
  leb, option_eq, map,
}
use muen.Base.Text.{join}
use muen.Base.{int_leb, ◌+ℤ◌, opposite, times}
use muen.Muutils.{Value, int, bool, str, ada_hex_to_int, int_to_ada_hex}
use muen.Base.{text_of}
use muen.Xml.{Etree, has_tag}

-- `ada_hex_to_int` of an attribute, which calls a method of it
abbrev pub hex_of : Option Str → Result Value
hex_of none = err attribute_error
hex_of (some value) = ada_hex_to_int value

-- A value in an integer expression
abbrev pub number : Value → Result ℤ
number (int n) = ok n
number (bool b) = err type_error
number (str s) = err type_error

-- Stable insertion by the key
abbrev pub place {ℓ} : {A : Type ℓ} → ℤ × A → List (ℤ × A) → List (ℤ × A)
place a [] = a ∷ []
place a (b ∷ bs) = if int_leb a.0 b.0 then a ∷ b ∷ bs else b ∷ place a bs

unfoldable pub sort_by_key {ℓ} : {A : Type ℓ} → List (ℤ × A) → List (ℤ × A)
sort_by_key [] = []
sort_by_key (a ∷ rest) = place a (sort_by_key rest)

abbrev pub nodes_path : Str
nodes_path = codes "/system/memory/memory[file|fill]"

abbrev pub header : Str
header = codes "[Name;PhysicalAddress;MemorySize;Offset;ContentSize;Usage;Type;Content]\n"

module _ (X : Etree) where
  abbrev pub keys_of : List X.Elem → Result (List (Value × X.Elem))
  keys_of [] = ok []
  keys_of (c ∷ cs) = do
    key ← hex_of (X.get c (codes "physicalAddress"))
    rest ← keys_of cs
    ok ((key, c) ∷ rest)

  abbrev pub int_keys : List (Value × X.Elem) → Result (List (ℤ × X.Elem))
  int_keys [] = ok []
  int_keys ((key, c) ∷ rest) = do n ← number key; more ← int_keys rest; ok ((n, c) ∷ more)

  abbrev pub all_texts : List (Value × X.Elem) → Bool
  all_texts [] = true
  all_texts ((str s, c) ∷ rest) = all_texts rest
  all_texts ((int n, c) ∷ rest) = false
  all_texts ((bool b, c) ∷ rest) = false

  abbrev pub second : ℤ × X.Elem → X.Elem
  second (n, c) = c

  abbrev pub value_second : Value × X.Elem → X.Elem
  value_second (v, c) = c

  -- `sorted` on the keys: integers, or the empty text that stands for no address; the two cannot be
  -- compared.
  unfoldable pub sorted_nodes : List X.Elem → Result (List X.Elem)
  sorted_nodes nodes = do
    keyed ← keys_of nodes
    let by_number = int_keys keyed >>= (λ ks. ok (map second (sort_by_key ks)))
    if all_texts keyed then ok (map value_second keyed) else by_number

  abbrev some_text : Option Str → Result Str
  some_text none =
      err (exit (codes "Error: No size attribute in file node, use mucfgmemhashes to add one"))
  some_text (some s) =
      if s == []
      then err (exit (codes "Error: No size attribute in file node, use mucfgmemhashes to add one"))
      else ok s

  -- The columns that depend on the kind of contents
  pub record Columns : Type 0 where
    pub offset : Option Str
    pub content_size : Option Str
    pub usage : Str
    pub type : Option Str
    pub content : Option Str

  abbrev pub offset_of : Option Str → Option Str
  offset_of f_offset = if f_offset == some (codes "none") then some (codes "16#0000#") else f_offset

  unfoldable pub file_columns : (ℤ → ℤ → Result Str) → X.Elem → X.Elem → Result Columns
  file_columns quotient node content_node = do
    let offset = offset_of (X.get content_node (codes "offset"))
    content_size ← some_text (X.get content_node (codes "size"))
    offset_value ← hex_of offset
    size_value ← hex_of (X.get node (codes "size"))
    content_value ← ada_hex_to_int content_size
    content_nr ← number content_value
    offset_nr ← number offset_value
    let content_size_nr = content_nr +ℤ opposite offset_nr
    size_nr ← number size_value
    ratio ← quotient (times 100 content_size_nr +ℤ (size_nr +ℤ negsuc 0)) size_nr
    hex_size ← int_to_ada_hex (int content_size_nr)
    ok (record {
      offset = offset;
      content_size = some hex_size;
      usage = ratio ++ codes "%";
      type = X.get node (codes "type");
      content = X.get content_node (codes "filename");
    })

  abbrev fill_columns : X.Elem → X.Elem → Columns
  fill_columns node content_node = record {
    offset = some (codes "16#0000#");
    content_size = X.get node (codes "size");
    usage = codes "100%";
    type = some (codes "fill_pattern");
    content = X.get content_node (codes "pattern");
  }

  abbrev columns : (ℤ → ℤ → Result Str) → X.Elem → List X.Elem → Result Columns
  columns quotient node [] = err index_error
  columns quotient node (content_node ∷ more) =
      if has_tag X (codes "file") content_node
      then file_columns quotient node content_node
      else ok (fill_columns node content_node)

  unfoldable pub row : (ℤ → ℤ → Result Str) → X.Elem → Result Str
  row quotient node = do
    c ← columns quotient node (X.xpath node (codes "file|fill"))
    name ← text_of (X.get node (codes "name"))
    addr ← text_of (X.get node (codes "physicalAddress"))
    size ← text_of (X.get node (codes "size"))
    offset ← text_of c.offset
    content_size ← text_of c.content_size
    t ← text_of c.type
    content ← text_of c.content
    ok (
        join (codes ";") (name ∷ addr ∷ size ∷ offset ∷ content_size ∷ c.usage ∷ t ∷ content ∷ [])
        ++ codes "\n")

  abbrev pub rows : (ℤ → ℤ → Result Str) → List X.Elem → Result (List Str)
  rows quotient [] = ok []
  rows quotient (node ∷ nodes) = do
    line ← row quotient node
    lines ← rows quotient nodes
    ok (line ∷ lines)

  unfoldable pub mugenmanifest : (ℤ → ℤ → Result Str) → X.Elem → Result Str
  mugenmanifest quotient doc = do
    nodes ← sorted_nodes (X.xpath doc nodes_path)
    lines ← rows quotient nodes
    ok (header ++ join [] lines)
