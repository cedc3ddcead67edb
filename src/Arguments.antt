-- ===== src/Arguments.antt =====
-- The checks with which the main parts of components/dbgserver/misc/extract-subject-names.py and
-- components/sm/misc/cpu-values.py begin, on the arguments that argparse has read.
pub mod Checked
use muen.Base.{
  ℕ, Bool, true, false, not, ◌&&◌, ◌||◌, List, [], ◌∷◌, ◌++◌, Option, none, some, Str, codes, eqb,
  length, replicate, if◌then◌else◌, ◌==◌, list_eq, nat_eq,
}
use muen.Base.{Result, ok, err, ◌>>=◌, ◌>>◌, guard, exit}
use muen.Base.Text.{rstrip}

-- What the scripts ask of the file system
pub record Files : Type 0 where
  pub is_file : Str → Bool
  pub is_dir : Str → Bool

pub record Args : Type 0 where
  pub out : Option Str
  pub src_policy : Option Str
  pub package_name : Str

-- The text up to its last slash
abbrev pub head_of : Str → Str
head_of [] = []
head_of (c ∷ path) =
    let head = head_of path in if not (eqb (length head) 0) || eqb c b'/' then c ∷ head else []

abbrev pub without_slashes : Str → Str
without_slashes head =
    if head == replicate (length head) b'/' then head else rstrip (codes "/") head

-- `os.path.dirname` of Python's library, for the paths of Unix
unfoldable pub dirname : Str → Str
dirname path = without_slashes (head_of path)

abbrev pub given : Str → Option Str → Result Str
given message none = err (exit message)
given message (some path) = ok path

abbrev pub not_found : Str → Str
not_found src_policy_path =
    codes "Error: Muen source system policy XML not found '" ++ (src_policy_path ++ codes "'")

abbrev pub no_directory : Str → Str
no_directory out_dir =
    codes "Error: Output directory for source file does not exist ('"
    ++ (dirname out_dir ++ codes "')")

abbrev pub usable : Files → Str → Bool
usable files out_dir = eqb (length out_dir) 0 || files.is_dir out_dir

-- The checks on the paths
abbrev pub with_paths : Files → Str → Str → Result (Str × Str)
with_paths files out_path src_policy_path = do
  guard (files.is_file src_policy_path) (exit (not_found src_policy_path))
  guard (usable files (dirname out_path)) (exit (no_directory (dirname out_path)))
  ok (out_path, src_policy_path)

-- The paths of the two files. `message` is the text for a missing output file.
unfoldable pub checked : Str → Files → Args → Result (Str × Str)
checked message files args = do
  out_path ← given message args.out
  src_policy_path ←
      given (codes "Error: Muen source system policy XML not specified") args.src_policy
  with_paths files out_path src_policy_path
