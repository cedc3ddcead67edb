-- ===== src/Solo5/Output.antt =====
-- tools/scripts/solo5-muen-gencspec.py: the path of the specification that is written.
use muen.Base.{
  false, [], ◌∷◌, ◌++◌, Option, none, some, Str, codes, if◌then◌else◌, arith, ◌≡◌, refl, ap, ◌∙◌,
}
use muen.Base.{Result, ok, err, ◌>>◌, guard, exit}
use muen.Base.Text.Laws.{Avoids}
use muen.Arguments.{Files, dirname, head_of, without_slashes}

abbrev cspecs_dir : Files → Str → Str
cspecs_dir files out_dir =
    let path = out_dir ++ codes "/" in
    if files.is_dir (path ++ codes "cspecs") then path ++ codes "cspecs/" else path

abbrev pub spec_path : Files → Option Str → Str → Str → Str
spec_path files none out_dir comp_name = cspecs_dir files out_dir ++ (comp_name ++ codes ".xml")
spec_path files (some out_spec) out_dir comp_name = out_spec

abbrev pub no_spec_dir : Str → Str
no_spec_dir path =
    codes "Error: Output directory for component specification does not exist ('"
    ++ (dirname path ++ codes "')")

-- The arguments are those of `--out_spec`, `out_dir` and the name of the component.
unfoldable pub out_spec_path : Files → Option Str → Str → Str → Result Str
out_spec_path files out_spec out_dir comp_name =
    let path = spec_path files out_spec out_dir comp_name in
    guard (files.is_dir (dirname path)) (exit (no_spec_dir path)) >> ok path

head_of-Avoids : (path : Str) → Avoids (codes "/") path → head_of path ≡ []
head_of-Avoids [] h = refl
head_of-Avoids (c ∷ path) h = ground (arith, head_of-Avoids path h.1, h.0)

dirname-Avoids : (path : Str) → Avoids (codes "/") path → dirname path ≡ []
unfolding dirname
dirname-Avoids path h = ap without_slashes (head_of-Avoids path h) ∙ refl

-- A path without a directory is refused, since the empty text is the name of no directory.
pub out_spec_path_here :
    (files : Files) (path out_dir comp_name : Str)
    → Avoids (codes "/") path
    → files.is_dir [] ≡ false
    → out_spec_path files (some path) out_dir comp_name
      ≡ err (exit (codes "Error: Output directory for component specification does not exist ('')"))
unfolding out_spec_path
out_spec_path_here files path out_dir comp_name h d = rw (dirname-Avoids path h, d) refl
