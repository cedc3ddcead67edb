-- ===== src/Arguments/Checked.antt =====
-- When the two scripts that write an Ada package go on to read the policy.
use muen.Base.{true, some, none, Str, codes, ◌≡◌, ◌↔◌, arith, Option, ok}
use muen.Base.{◌>>=◌}
use muen.Arguments.{Files, Args, dirname, usable, given, with_paths, checked}

with_paths_lem :
    (files : Files) (o s out src : Str)
    → (with_paths files o s ≡ ok (out, src))
      ↔ ((o ≡ out) × (s ≡ src) × (files.is_file s ≡ true) × (usable files (dirname o) ≡ true))
with_paths_lem files o s out src = ground arith

paths_lem :
    (message : Str) (files : Files) (o s : Option Str) (out src : Str)
    → ((given message o >>= (λ p.
          given (codes "Error: Muen source system policy XML not specified") s
          >>= with_paths files p))
        ≡ ok (out, src))
      ↔ ((o ≡ some out)
          × (s ≡ some src)
          × (files.is_file src ≡ true)
          × (usable files (dirname out) ≡ true))
paths_lem message files none s out src = ground arith
paths_lem message files (some o) none out src = ground arith
paths_lem message files (some o) (some s) out src = ground arith

-- The scripts go on exactly if both paths are given, the policy is a file, and the directory of the
-- output file exists or is not named.
pub checked_lem :
    (message : Str) (files : Files) (args : Args) (out src : Str)
    → (checked message files args ≡ ok (out, src)) ↔ (
        (args.out ≡ some out)
        × (args.src_policy ≡ some src)
        × (files.is_file src ≡ true)
        × (usable files (dirname out) ≡ true))
unfolding checked
checked_lem message files args out src = paths_lem message files args.out args.src_policy out src
