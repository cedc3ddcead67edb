-- ===== src/LinuxGencspec/Main.antt =====
-- The main part of components/linux/misc/linux-muen-gencspec.py, on the files and arguments that it reads.
use muen.Base.{ℕ, ◌+◌, Bool, [], ◌∷◌, ◌++◌, Option, none, some, Str, codes}
use muen.Base.{Result, ok, err, ◌>>=◌, guard, ◌==◌, ◌||◌, list_eq, nat_eq, exit, type_error}
use muen.Muutils.{Value, int, bool, str}
use muen.Xml.{Etree}
use muen.Xml.Sections.{place, at_section}
use muen.Base.{Error, Result-cases, inl, inr, ◌≡◌}
use muen.Xml.{IsLawful}
use muen.Xml.Untouched.{at_section_own}
use muen.LinuxGencspec.{
  Attrs, default_attrs, attrs_of, unpacked, add_provides_memory, get_initramfs_attrs,
}

-- The arguments, with what the files behind the paths are: sizes, and the roots of the XML files. `none`
-- stands for a file that is not there, or an argument that is not given.
pub record Input (E : Type 0) : Type 0 where
  pub src_bin_path : Str
  pub binary_size : Option ℕ
  pub src_spec : Option E
  pub out_spec_path : Option Str
  -- the path and the size of the initramfs
  pub src_initramfs : Option (Str × ℕ)
  pub src_policy : Option (Str × Option E)

abbrev pub present {ℓ} : {A : Type ℓ} → Option A → Str → Result A
present none message = err (exit message)
present (some a) message = ok a

-- What lxml takes as the value of an attribute
abbrev pub attribute_value : Value → Result Str
attribute_value (str s) = ok s
attribute_value (int n) = err type_error
attribute_value (bool b) = err type_error

module _ (X : Etree) (basename dirname : Str → Str) (is_directory : Str → Bool) where
  abbrev in_provides : (X.Elem → Result X.Elem) → X.Elem → Result X.Elem
  in_provides = at_section X (place (codes "component")) (place (codes "provides") ∷ [])

  -- The checks of the policy, which is read if there is an initramfs
  abbrev pub policy_of : Option (Str × Option X.Elem) → Result X.Elem
  policy_of none = err (exit (codes "Error: Muen source system policy XML not specified"))
  policy_of (some (path, policy)) =
      present policy
        (codes "Error: Muen source system policy XML not found '" ++ (path ++ codes "'"))

  abbrev pub policy_check : Option (Str × ℕ) → Option (Str × Option X.Elem) → Result (Option X.Elem)
  policy_check none policy = ok none
  policy_check (some initramfs) policy = policy_of policy >>= (λ p. ok (some p))

  abbrev pub add_mapped : Str × ℕ → Attrs → Option Str → X.Elem → Result X.Elem
  add_mapped initramfs attrs none src_spec = ok src_spec
  add_mapped (path, size) attrs (some address) src_spec =
      in_provides
        (λ provides. do
          executable ← attribute_value attrs.executable
          writable ← attribute_value attrs.writable
          ok (
              add_provides_memory X (codes "modules_initramfs") (codes "subject_initrd") address
                (basename path) size executable writable provides))
        src_spec

  abbrev pub add_initramfs : Option (Str × ℕ) → Option X.Elem → X.Elem → Result X.Elem
  add_initramfs (some initramfs) (some policy) src_spec = do
    result ← get_initramfs_attrs X policy
    attrs ← unpacked result
    add_mapped initramfs attrs attrs.address src_spec
  add_initramfs none policy src_spec = ok src_spec
  add_initramfs (some initramfs) none src_spec = ok src_spec

  -- The region of the kernel, with the heap and the stack of its decompressor
  abbrev pub add_binary : Str → ℕ → X.Elem → Result X.Elem
  add_binary src_bin_path binary_size = in_provides (λ provides. ok (
      add_provides_memory X (codes "binary") (codes "subject_binary") (codes "16#0040_0000#")
        (basename src_bin_path) (binary_size + (0x10000 + 0x4000)) (codes "true") (codes "true")
        provides))

  unfoldable pub linux_gencspec : Input X.Elem → Result X.Elem
  linux_gencspec i = do
    binary_size ←
        present i.binary_size
          (codes "Error: Linux kernel binary not found '" ++ (i.src_bin_path ++ codes "'"))
    src_spec ← present i.src_spec (codes "Error: Source component XML specification not found")
    out_spec_path ←
        present i.out_spec_path
          (codes "Error: Muen output component XML specification not specified")
    policy ← policy_check i.src_initramfs i.src_policy
    let out_spec_dir = dirname out_spec_path
    checked ← guard (out_spec_dir == [] || is_directory out_spec_dir) (
        exit (
          codes "Error: Output directory for component specification does not exist ('"
          ++ (dirname out_spec_dir ++ codes "')")))
    with_binary ← add_binary i.src_bin_path binary_size src_spec
    add_initramfs i.src_initramfs policy with_binary

  -- In a policy without an initramfs region the flags are truth values, which lxml does not take: the
  -- script ends with an exception.
  pub add_initramfs_unmapped :
      (L : IsLawful X) (initramfs : Str × ℕ) (policy src_spec : X.Elem)
      → X.xpath policy (codes "/system/memory/memory[@type='subject_initrd']") ≡ []
      → (e : Error) × (add_initramfs (some initramfs) (some policy) src_spec ≡ err e)
  unfolding get_initramfs_attrs attrs_of
  add_initramfs_unmapped L (path, size) policy src_spec h =
      elim (Result-cases (add_mapped (path, size) default_attrs default_attrs.address src_spec)) [
        | inl (e', k) ↦
            let (c, c', rest, a, g, b) =
              at_section_own X L (codes "provides") (place (codes "component")) _ src_spec e'
                (λ c c' k. cc) k in
            cc
        | inr (e, k) ↦ (e, rw h k)
      ]
