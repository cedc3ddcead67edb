-- ===== src/Cslencode.antt =====
-- The script tools/scripts/cslencode.py, which encodes a file as the first command of a CSL image. A
-- file is its bytes, `none` if there is no such file; the machine is little-endian.
pub mod Stream
use muen.Base.{
  ℕ, zero, suc, ◌+◌, ◌*◌, ◌/◌, ◌%◌, ◌^◌, Bool, true, false, not, ◌&&◌, List, [], ◌∷◌, ◌++◌, Option,
  none, some, Str, codes,
}
use muen.Base.{
  Result, ok, err, ◌>>=◌, ◌>>◌, guard, exit, exception, if◌then◌else◌, ◌==◌, list_eq, nat_eq, leb,
  ltb, eqb, take, drop, length,
}
use muen.Base.{ℤ, pos, negsuc}
use muen.Base.Decimal.{int_text}

-- `n` in so many bytes, the lowest first
unfoldable pub bytes : ℕ → ℕ → List ℕ
bytes zero n = []
bytes (suc w) n = (n % 256) ∷ bytes w (n / 256)

-- `struct.pack('Q', n)`
unfoldable pub pack : ℕ → Result (List ℕ)
pack n = if ltb n (2 ^ 64) then ok (bytes 8 n) else err (exception (codes "struct.error"))

abbrev pub csl_vermagic : List ℕ
csl_vermagic = 94 ∷ 182 ∷ 140 ∷ 68 ∷ 162 ∷ 95 ∷ 220 ∷ 138 ∷ []

abbrev pub present : Option (List ℕ) → Str → Result (List ℕ)
present none message = err (exit message)
present (some content) message = ok content

-- `60000 <= cmd_id <= 65535`, with the number
abbrev pub vendor_id : ℤ → Result ℕ
vendor_id (pos n) =
    if leb 60000 n && leb n 65535
    then ok n
    else err (
        exit
          (codes "Error: CMD ID " ++ (int_text (pos n) ++ codes " not in vendor specific range")))
vendor_id (negsuc n) = err (
    exit (codes "Error: CMD ID " ++ (int_text (negsuc n) ++ codes " not in vendor specific range")))

-- What is written to the destination
unfoldable pub cslencode : Str → Option (List ℕ) → ℤ → Str → Option (List ℕ) → Result (List ℕ)
cslencode img_src_fname img_src cmd_id file_to_encode file = do
  image ← present img_src (codes "Error: CSL source '" ++ (img_src_fname ++ codes "' not found"))
  content ← present file (codes "Error: file '" ++ (file_to_encode ++ codes "' not found"))
  id ← vendor_id cmd_id
  checked ←
      guard (take 8 image == csl_vermagic)
        (exit (codes "Error: source '" ++ (img_src_fname ++ codes "' is not a CSL image")))
  packed_id ← pack id
  packed_size ← pack (length content)
  ok (csl_vermagic ++ (packed_id ++ (packed_size ++ (content ++ drop 8 image))))
