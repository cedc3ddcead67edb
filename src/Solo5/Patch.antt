-- ===== src/Solo5/Patch.antt =====
-- `patch_binary` of tools/scripts/solo5-muen-gencspec.py, on the bytes of the copied binary. A section is
-- its offset in the file, `none` if the binary has no such section.
use muen.Base.{
  ℕ, ◌+◌, ◌-◌, ◌≤◌, List, [], ◌∷◌, ◌++◌, Option, some, none, Result, ok, err, exit, codes,
  attribute_error, ◌≡◌, refl, ap, ◌∙◌, sym, arith, take, drop, replicate, length, length-append,
  length-replicate, length-drop, drop-append, length-take, take-drop, drop_sum, take_exact,
  drop_exact,
}
use mathlib.Core.List.{append-nil}

abbrev pub nop : ℕ
nop = 0x90

-- `fh.seek(offset)` and `fh.write(bytes)`: a gap behind the end is filled with zeros, and nothing is
-- written for no bytes.
unfoldable pub write_at : ℕ → List ℕ → List ℕ → List ℕ
write_at offset [] file = file
write_at offset (b ∷ bs) file =
    take offset (file ++ replicate (offset - length file) 0)
    ++ ((b ∷ bs) ++ drop (offset + length (b ∷ bs)) file)

-- A list times a number that is not positive is empty, as the difference on ℕ has it.
unfoldable pub patch_binary : Option ℕ → Option ℕ → List ℕ → Result (List ℕ)
patch_binary interp none file =
    err (exit (codes "Error: Unable to patch binary - '.text' section not found"))
patch_binary none (some text) file = err attribute_error
patch_binary (some interp) (some text) file =
    let patch_size = text - interp in ok (write_at interp (replicate patch_size nop) file)

-- A write inside the file
write_at_inside :
    (offset : ℕ) (bs file : List ℕ)
    → offset + length bs ≤ length file
    → write_at offset bs file ≡ take offset file ++ (bs ++ drop (offset + length bs) file)
unfolding write_at
write_at_inside offset [] file h =
    let e : offset + 0 ≡ offset = omega arith in rw e (sym (take-drop offset file))
write_at_inside offset (b ∷ bs) file h =
    let e : offset - length file ≡ 0 = omega (arith, h) in rw (e, append-nil file) refl

-- With both sections in the file, the interpreter's first, every byte from the start of the interpreter's
-- section to the start of the text section becomes a NOP, and no other byte of the file changes.
pub patch_binary_nops :
    (interp text : ℕ) (file : List ℕ)
    → interp ≤ text
    → text ≤ length file
    → (out : List ℕ) × (patch_binary (some interp) (some text) file ≡ ok out)
      × (length out ≡ length file)
      × (take interp out ≡ take interp file)
      × (take (text - interp) (drop interp out) ≡ replicate (text - interp) nop)
      × (drop text out ≡ drop text file)
unfolding patch_binary
patch_binary_nops interp text file h k =
    let nops = replicate (text - interp) nop in
    let n : length nops ≡ text - interp = length-replicate {A = ℕ} (text - interp) nop in
    let t : interp + length nops ≡ text = omega (arith, n, h) in
    let front = take interp file in
    let f : length front ≡ interp = length-take interp file (omega (arith, h, k)) in
    let back = drop text file in
    let d : drop interp (front ++ (nops ++ back)) ≡ nops ++ back =
      drop_exact interp front (nops ++ back) f in
    (
      front ++ (nops ++ back),
      ap ok (
          write_at_inside interp nops file (omega (arith, t, k))
          ∙ ap (λ m. front ++ (nops ++ drop m file)) t),
      omega (
        arith,
        length-append front (nops ++ back),
        length-append nops back,
        length-drop text file,
        n,
        f,
        h,
        k,
      ),
      take_exact interp front (nops ++ back) f,
      ap (take (text - interp)) d ∙ take_exact (text - interp) nops back n,
      ap (λ m. drop m (front ++ (nops ++ back))) (sym t)
          ∙ drop_sum interp (length nops) (front ++ (nops ++ back))
          ∙ ap (drop (length nops)) d
          ∙ drop-append nops back,
    )
