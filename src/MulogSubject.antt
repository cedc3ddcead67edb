-- ===== src/MulogSubject.antt =====
-- tools/scripts/mulog-subject.py: the output of one subject, filtered out of a log. The lines are those
-- of the log with their line ends; the subject's ID is not negative.
pub mod Records
use muen.Base.{
  ℕ, ◌+◌, Bool, true, false, not, ◌&&◌, ◌||◌, List, [], ◌∷◌, ◌++◌, map, Str, codes, if◌then◌else◌,
  eqb, leb, drop,
}
use muen.Base.{Result, ok, err, exit}
use muen.Base.Text.{starts_with, rstrip, rjust, is_in}
use muen.Muutils.Hex.{hex_digits}

-- `format(subject_id, 'x')`
unfoldable pub hex_text : ℕ → Str
hex_text n = if eqb n 0 then codes "0" else hex_digits n n []

-- The text of the pattern before its character class.
unfoldable pub pattern_prefix : ℕ → Str
pattern_prefix subject_id = codes "16#" ++ (rjust 4 b'0' (hex_text subject_id) ++ codes "#")

-- The character at place 8, if it is one of the class.
abbrev pub in_class : Str → Bool
in_class [] = false
in_class (c ∷ s) = is_in (codes "%#>|") c

unfoldable pub is_match : ℕ → Str → Bool
is_match subject_id line = starts_with line (pattern_prefix subject_id) && in_class (drop 8 line)

-- `line[8] == '>'`
abbrev pub is_continuation : Str → Bool
is_continuation line = starts_with (drop 8 line) (codes ">")

-- `s.translate('\r\01')`: the characters 0 and 1 are looked up in the text, the others are kept.
abbrev pub translate : Str → Str
translate s = map (λ c. if eqb c 0 then 13 else c) s

-- What is printed of a line.
abbrev pub text : Str → Str
text line = translate (drop 9 (rstrip (codes "\n") line))

-- One round of the loop: the flag `is_first_line` and the output.
unfoldable pub print_line : ℕ → Str → Bool × Str → Bool × Str
print_line subject_id line (is_first_line, out) =
    let separated =
      if not (is_continuation line) && not is_first_line then out ++ codes "\n" else out in
    if is_match subject_id line then (false, separated ++ text line) else (is_first_line, out)

unfoldable pub print_lines : ℕ → List Str → Bool × Str → Bool × Str
print_lines subject_id [] s = s
print_lines subject_id (line ∷ lines) s =
    print_lines subject_id lines (print_line subject_id line s)

-- The output of the script.
unfoldable pub mulog_subject : ℕ → List Str → Result Str
mulog_subject subject_id lines =
    if leb subject_id 0xffff
    then (let (is_first_line, out) = print_lines subject_id lines (true, []) in
        ok (out ++ codes "\n"))
    else err (
        exit (
          codes "Invalid subject ID "
          ++ (hex_text subject_id ++ codes ": must be in range 0 .. 0xffff")))
