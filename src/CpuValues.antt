-- ===== src/CpuValues.antt =====
-- The script components/sm/misc/cpu-values.py, which writes the CPUID and MSR values of the policy as
-- two Ada arrays.
pub mod Entries
pub mod Main
use muen.Base.{
  ℕ, suc, List, [], ◌∷◌, ◌++◌, Option, none, some, Str, codes, length, if◌then◌else◌, ltb, pos,
}
use muen.Base.{Result, ok, err, ◌>>=◌, type_error, text_of}
use muen.Base.Text.{join}
use muen.Base.Decimal.{int_text}
use muen.Xml.{Etree}

abbrev pub cpuid_path : Str
cpuid_path = codes "/system/hardware/processor/cpuid"

abbrev pub leaf_path : Str → Str
leaf_path leaf = codes "/system/hardware/processor/cpuid[@leaf='" ++ (leaf ++ codes "']")

abbrev msr_path : Str
msr_path = codes "/system/hardware/processor/msr"

-- What stands behind an entry
abbrev pub separator : ℕ → ℕ → Str
separator idx count = if ltb idx count then codes ",\n" else codes "\n"

abbrev numbered : ℕ → Str → Str
numbered idx values =
    codes "         " ++ (int_text (pos idx) ++ (codes " => (" ++ (values ++ codes ")")))

module _ (X : Etree) where
  abbrev pub attribute : X.Elem → Str → Result Str
  attribute c key = text_of (X.get c key)

  abbrev pub has_subleaf : X.Elem → Str → Str
  has_subleaf policy leaf =
      let subleaf_count = length (X.xpath policy (leaf_path leaf)) in
      if ltb 1 subleaf_count then codes "True" else codes "False"

  unfoldable pub cpuid_entry : X.Elem → ℕ → X.Elem → Result Str
  cpuid_entry policy idx c = do
    leaf ← attribute c (codes "leaf")
    subleaf ← attribute c (codes "subleaf")
    eax ← attribute c (codes "eax")
    ebx ← attribute c (codes "ebx")
    ecx ← attribute c (codes "ecx")
    edx ← attribute c (codes "edx")
    ok (
        numbered idx (
          join (codes ", ")
            (leaf ∷ has_subleaf policy leaf ∷ subleaf ∷ eax ∷ ebx ∷ ecx ∷ edx ∷ [])))

  unfoldable pub msr_entry : ℕ → X.Elem → Result Str
  msr_entry idx c = do
    address ← attribute c (codes "address")
    regval ← attribute c (codes "regval")
    ok (numbered idx (address ++ (codes ", " ++ regval)))

  -- The loops over the entries, each with its number from `idx` on
  unfoldable pub write_entries : (ℕ → X.Elem → Result Str) → ℕ → ℕ → List X.Elem → Result Str
  write_entries entry count idx [] = ok []
  write_entries entry count idx (c ∷ cs) = do
    text ← entry idx c
    rest ← write_entries entry count (suc idx) cs
    ok (text ++ (separator idx count ++ rest))

  -- The text that is written to the file
  unfoldable pub write_spec : X.Elem → Str → Result Str
  write_spec policy package_name = do
    let cpuid = X.xpath policy cpuid_path
    cpuid_text ← write_entries (cpuid_entry policy) (length cpuid) 1 cpuid
    let msr = X.xpath policy msr_path
    msr_text ← write_entries msr_entry (length msr) 1 msr
    ok (
        codes "private package "
        ++ (package_name
            ++ (codes
                  "\nis\n\n   CPUID : constant array (Positive range <>) of CPUID_Entry_Type\n     := (\n"
                ++ (cpuid_text
                    ++ (codes
                          "        );\n\n   MSR : constant array (Positive range <>) of MSR_Entry_Type\n     := (\n"
                        ++ (msr_text
                            ++ (codes "        );\n\nend " ++ (package_name ++ codes ";\n"))))))))
