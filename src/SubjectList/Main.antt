-- ===== src/SubjectList/Main.antt =====
-- The main part of components/dbgserver/misc/extract-subject-names.py.
use muen.Base.{Str, codes, Result, ok, ◌>>=◌, ◌≡◌, refl, some, true}
use muen.Xml.{Etree}
use muen.Arguments.{Files, Args, checked, usable, dirname}
use muen.Arguments.Checked.{checked_lem}
use muen.SubjectList.{extract_subject_names, write_spec}

abbrev no_out : Str
no_out = codes "Error: Muen output file not specified"

module _ (X : Etree) where
  -- The path of the file that is written, and its text. `parse` reads the policy.
  unfoldable pub main : Files → (Str → X.Elem) → Args → Result (Str × Str)
  main files parse args = do
    (out_path, src_policy_path) ← checked no_out files args
    names ← extract_subject_names X (parse src_policy_path)
    text ← write_spec names args.package_name
    ok (out_path, text)

  -- With both paths given, a policy that is a file and a directory that exists or is not named, the
  -- script does what its two functions do, and the file is the one that was asked for.
  main_lem :
      (files : Files) (parse : Str → X.Elem) (args : Args) (out src : Str)
      → args.out ≡ some out
      → args.src_policy ≡ some src
      → files.is_file src ≡ true
      → usable files (dirname out) ≡ true
      → main files parse args ≡ (
          extract_subject_names X (parse src)
          >>= (λ names. write_spec names args.package_name >>= (λ text. ok (out, text))))
  unfolding main
  main_lem files parse args out src o s f u =
      rw ((checked_lem no_out files args out src).1 (o, s, f, u)) refl
