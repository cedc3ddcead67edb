-- ===== src/Solo5/Spec/Checks.antt =====
-- What tools/scripts/solo5-muen-gencspec.py asks of the notes of a binary.
use muen.Base.{ℕ, ◌≡◌, ◌↔◌, refl, arith, Bool, true, false, List, Str, codes}
use muen.Base.{◌==◌, list_eq, nat_eq, list_beq_iff, ok, >>=-eq-ok, guard}
use muen.Base.{index_error}
use muen.LinuxGencspec.{attrib, lower}
use muen.Xml.{Etree, has_tag}
use muen.Solo5.Memory.{Segment}
use muen.Solo5.Spec.{
  Abi, Manifest, validate_solo5_abi, gencspec, set_rip, set_resetable, add_bootparams, add_elf,
  add_ram_memory,
}

abbrev pub IsMuenAbi : Abi → Type 0
IsMuenAbi abi = (abi.kind ≡ codes "solo5.abi") × (abi.target ≡ codes "muen") × (abi.version ≡ 3)

guard-eq-ok : (b : Bool) (e : _) {u : Unit {0}} → guard b e ≡ ok u → b ≡ true
guard-eq-ok true e h = refl
guard-eq-ok false e h = cc

-- The check of the ABI passes exactly for the Solo5 ABI of target muen in version 3, and ends the script
-- otherwise.
pub validate_solo5_abi_lem : (abi : Abi) → (validate_solo5_abi abi ≡ ok tt) ↔ IsMuenAbi abi
unfolding validate_solo5_abi
validate_solo5_abi_lem abi =
    ground
      (arith, list_beq_iff (abi.kind) (codes "solo5.abi"), list_beq_iff (abi.target) (codes "muen"))

-- A specification is returned only for a binary with the Solo5 ABI of target muen in version 3 and with a
-- Solo5 manifest.
pub gencspec_checks :
    (X : Etree) (binary_name : Str) (resetable : Bool) (ram_size_mb entrypoint : ℕ)
    (segments : List Segment) (abi : Abi) (manifest : Manifest) (boot_params : Str)
    (src_spec r : X.Elem)
    → gencspec X binary_name resetable ram_size_mb entrypoint segments abi manifest boot_params
        src_spec
      ≡ ok r
    → IsMuenAbi abi × (manifest.kind ≡ codes "solo5.manifest")
unfolding gencspec
gencspec_checks X binary_name resetable ram_size_mb entrypoint segments abi manifest boot_params
      src_spec r h =
    let (name, _, h₀) = >>=-eq-ok (attrib (X.get src_spec (codes "name"))) _ h in
    let (_, _, h₁) = >>=-eq-ok (guard (has_tag X (codes "component") src_spec) index_error) _ h₀ in
    let ((_, s₁), _, h₂) =
      >>=-eq-ok
        (set_rip X entrypoint (set_resetable X resetable (add_bootparams X boot_params src_spec))) _
        h₁ in
    let ((e₂, s₂), _, h₃) = >>=-eq-ok (add_elf X (lower name) binary_name segments s₁) _ h₂ in
    let ((e₃, s₃), _, h₄) = >>=-eq-ok (add_ram_memory X e₂ ram_size_mb s₂) _ h₃ in
    let (_, v, h₅) = >>=-eq-ok (validate_solo5_abi abi) _ h₄ in
    let (_, g, _) = >>=-eq-ok (guard (manifest.kind == codes "solo5.manifest") _) _ h₅ in
    (
      (validate_solo5_abi_lem abi).0 v,
      (list_beq_iff (manifest.kind) (codes "solo5.manifest")).0 (guard-eq-ok _ _ g),
    )
