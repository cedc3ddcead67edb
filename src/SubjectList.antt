-- ===== src/SubjectList.antt =====
-- The scripts components/dbgserver/misc/extract-subject-names.py, which writes the names of the subjects
-- with log channels as an Ada array.
pub mod Padding
pub mod Main
use muen.Base.{
  ℕ, suc, ◌+◌, List, [], ◌∷◌, ◌++◌, Option, none, some, Str, codes, length, if◌then◌else◌, leb, pos,
  eqb,
}
use muen.Base.{Result, ok, err, ◌>>=◌, exit, type_error, value_error}
use muen.Base.Text.{ljust}
use muen.Base.Decimal.{int_text}
use muen.Xml.{Etree}

abbrev component_name : Str
component_name = codes "dbgserver"

module _ (X : Etree) where
  abbrev log_channels_path : Str
  log_channels_path =
      codes "/system/subjects/subject/component[@ref='"
      ++ (component_name ++ codes "']/map[starts-with(@logical,'log_')]")

  abbrev mapping_path : Str → Str
  mapping_path phys_name =
      codes "/system/subjects/subject/component[not(@ref='"
      ++ (component_name ++ (codes "') and map/@physical='" ++ (phys_name ++ codes "']/..")))

  abbrev writer_path : Str → Str
  writer_path phys_name =
      codes "/system/subjects/subject[channels/writer/@physical='" ++ (phys_name ++ codes "']")

  abbrev otherwise : List X.Elem → List X.Elem → List X.Elem
  otherwise [] more = more
  otherwise (s ∷ subjs) more = s ∷ subjs

  abbrev name_of_first : Str → List X.Elem → Result (Option Str)
  name_of_first phys_name [] =
      err (
        exit (codes "Error: Unable to determine subject for channel '" ++ (phys_name ++ codes "'")))
  name_of_first phys_name (s ∷ subjs) = ok (X.get s (codes "name"))

  -- The subject of a channel: a text cannot be joined with an attribute that is missing.
  abbrev pub subject_of : X.Elem → Option Str → Result (Option Str)
  subject_of xml_spec none = err type_error
  subject_of xml_spec (some phys_name) = name_of_first phys_name (
      otherwise (X.xpath xml_spec (mapping_path phys_name))
        (X.xpath xml_spec (writer_path phys_name)))

  abbrev pub names_of : X.Elem → List X.Elem → Result (List (Option Str))
  names_of xml_spec [] = ok []
  names_of xml_spec (channel ∷ channels) = do
    name ← subject_of xml_spec (X.get channel (codes "physical"))
    names ← names_of xml_spec channels
    ok (name ∷ names)

  unfoldable pub extract_subject_names : X.Elem → Result (List (Option Str))
  extract_subject_names xml_spec = names_of xml_spec (X.xpath xml_spec log_channels_path)

-- `len(name)` and the other uses of a name as a text
abbrev pub texts : List (Option Str) → Result (List Str)
texts [] = ok []
texts (none ∷ names) = err type_error
texts (some name ∷ names) = texts names >>= (λ ns. ok (name ∷ ns))

abbrev pub larger : ℕ → ℕ → ℕ
larger m n = if leb m n then n else m

abbrev pub max_from : ℕ → List Str → ℕ
max_from m [] = m
max_from m (name ∷ names) = max_from (larger m (length name)) names

-- `max(len(name) for name in names)`
abbrev pub max_length : List Str → Result ℕ
max_length [] = err (value_error (codes "max() arg is an empty sequence"))
max_length (name ∷ names) = ok (max_from (length name) names)

abbrev pub entry : ℕ → ℕ → Str → Str
entry maxlen i name =
    (if eqb i 0 then codes "     (" else codes ",\n      ")
    ++ (int_text (pos (i + 1)) ++ (codes " => \"" ++ (ljust maxlen name ++ codes "\"")))

abbrev pub entries : ℕ → ℕ → List Str → Str
entries maxlen i [] = []
entries maxlen i (name ∷ names) = entry maxlen i name ++ entries maxlen (suc i) names

abbrev pub spec_text : ℕ → Str → List Str → Str
spec_text maxlen package_name names =
    codes "private package "
    ++ (package_name
        ++ (codes "\nis\n\n   subtype Name_Type is String (1 .. "
            ++ (int_text (pos maxlen)
                ++ (codes
                      ");\n\n   type Names_Array is array (Subject_Buffer_Range) of Name_Type;\n\n   Subject_Names : constant Names_Array :=\n"
                    ++ (entries maxlen 0 names
                        ++ (codes ");\n\nend " ++ (package_name ++ codes ";\n")))))))

-- The text that is written to the file
unfoldable pub write_spec : List (Option Str) → Str → Result Str
write_spec subject_names package_name = do
  names ← texts subject_names
  maxlen ← max_length names
  ok (spec_text maxlen package_name names)
