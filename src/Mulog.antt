-- ===== src/Mulog.antt =====
-- tools/scripts/mulog.py: the lines of a log, with the continuation lines of a subject joined to the
-- line that they continue. The lines are those of the file, read as text.
pub mod Append
pub mod Extended
pub mod Continued
use mathlib.Core.List.{reverse}
use muen.Base.{
  ℕ, Bool, true, false, not, ◌&&◌, ◌||◌, List, [], ◌∷◌, ◌++◌, map, Str, codes, take, drop,
}
use muen.Base.{
  ◌==◌, Eq, list_eq, nat_eq, eqb, leb, all, length, if◌then◌else◌, Result, ok, err, ◌>>=◌,
}
use muen.Base.{exception, Option, none, some}
use muen.Base.Text.{starts_with, rstrip, replace}

-- `[0-9a-fA-F]`
abbrev pub is_hex : ℕ → Bool
is_hex c = (leb b'0' c && leb c b'9') || (leb b'a' c && leb c b'f') || (leb b'A' c && leb c b'F')

-- `p.match(line)` for the pattern 16#[0-9a-fA-F]{4}#>, whose text is the first nine characters.
unfoldable pub is_match : Str → Bool
is_match line =
    starts_with line (codes "16#")
    && eqb (length (take 4 (drop 3 line))) 4
    && all is_hex (take 4 (drop 3 line))
    && starts_with (drop 7 line) (codes "#>")

-- The loop of `append`, over the lines from the last one back.
unfoldable pub append_first : Str → Str → List Str → Result (List Str)
append_first prefix line [] =
    err (exception (codes "Parent line '" ++ (prefix ++ codes "' not found")))
append_first prefix line (l ∷ ls) =
    let rest = append_first prefix line ls in
    if take 9 l == prefix then ok ((l ++ line) ∷ ls) else (do ls' ← rest; ok (l ∷ ls'))

-- `append`: the line is joined to the last line that begins with the prefix.
unfoldable pub append : Str → Str → List Str → Result (List Str)
append prefix line formatted = do ls ← append_first prefix line (reverse formatted); ok (reverse ls)

-- `m.group().replace('>', '|')`
unfoldable pub parent_prefix : Str → Str
parent_prefix line = replace (codes ">") (codes "|") (take 9 line)

-- One round of the main loop.
unfoldable pub process_line : Str → List Str → Result (List Str)
process_line line formatted =
    if is_match line
    then append (parent_prefix line) (drop 9 line) formatted
    else if take 3 line == codes "---"
    then ok formatted
    else ok (formatted ++ line ∷ [])

unfoldable pub process_lines : List Str → List Str → Result (List Str)
process_lines [] formatted = ok formatted
process_lines (line ∷ lines) formatted = do f ← process_line line formatted; process_lines lines f

-- The lines that are printed, from the lines of the file with their line ends.
unfoldable pub mulog : List Str → Result (List Str)
unfolding process_lines
mulog file = process_lines (map (rstrip (13 ∷ 10 ∷ [])) file) []
