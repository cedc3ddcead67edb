-- ===== src/Cslencode/Stream.antt =====
-- A CSL image as a sequence of commands: what a reader of the written image finds.
use muen.Base.{
  ℕ, zero, suc, ◌+◌, ◌*◌, ◌/◌, ◌^◌, ◌≤◌, ◌<◌, Bool, true, false, List, [], ◌∷◌, ◌++◌, Option, none,
  some, Str,
}
use muen.Base.{Error, guard, >>=-eq-ok, ◌==◌, list_eq, list_beq_iff, nat_eq}
use muen.Base.{
  ok, ◌≡◌, refl, ap, ◌∙◌, take, drop, length, arith, ℤ, pos, negsuc, take-append, drop-append,
  take_exact, drop_exact,
}
use muen.Cslencode.{bytes, pack, csl_vermagic, present, vendor_id, cslencode}

-- The number that bytes stand for, the lowest first
abbrev pub value : List ℕ → ℕ
value [] = 0
value (b ∷ bs) = b + 256 * value bs

-- One command: its number, its content, and the bytes behind it
abbrev pub next_command : List ℕ → ℕ × List ℕ × List ℕ
next_command bs =
    let size = value (take 8 (drop 8 bs)) in
    let rest = drop 8 (drop 8 bs) in (value (take 8 bs), take size rest, drop size rest)

length-bytes : (w n : ℕ) → length (bytes w n) ≡ w
unfolding bytes
length-bytes zero n = refl
length-bytes (suc w) n = ap suc (length-bytes w (n / 256))

-- How many numbers so many bytes can hold
abbrev room : ℕ → ℕ
room zero = 1
room (suc w) = 256 * room w

value-bytes : (w n : ℕ) → n < room w → value (bytes w n) ≡ n
unfolding bytes
value-bytes zero n h = omega (arith, h)
value-bytes (suc w) n h = omega (arith, h, value-bytes w (n / 256) (omega (arith, h)))

next_command_lem :
    (a b content rest : List ℕ)
    → length a ≡ 8
    → length b ≡ 8
    → value b ≡ length content
    → next_command (a ++ (b ++ (content ++ rest))) ≡ (value a, content, rest)
next_command_lem a b content rest ha hb v =
    rw
      (
        take_exact 8 a (b ++ (content ++ rest)) ha,
        drop_exact 8 a (b ++ (content ++ rest)) ha,
        take_exact 8 b (content ++ rest) hb,
        drop_exact 8 b (content ++ rest) hb,
        v,
        take-append content rest,
        drop-append content rest,
      )
      refl

pack_lem : (n : ℕ) → n < 2 ^ 64 → pack n ≡ ok (bytes 8 n)
unfolding pack
pack_lem n h = ground (arith, h)

vendor_id_lem : (n : ℕ) → 60000 ≤ n → n ≤ 65535 → vendor_id (pos n) ≡ ok n
vendor_id_lem n lo hi = ground (arith, lo, hi)

-- An image that begins with the magic number of a CSL image, and a file that is shorter than 2^64 bytes,
-- make the image whose first command is the file under the number, with the commands that were there
-- before behind it.
pub cslencode-next_command :
    (img_src_fname file_to_encode : Str) (id : ℕ) (commands content : List ℕ)
    → 60000 ≤ id
    → id ≤ 65535
    → length content < 2 ^ 64
    → (out : List ℕ) × (cslencode img_src_fname
          (some (csl_vermagic ++ commands))
          (pos id)
          file_to_encode
          (some content)
        ≡ ok (csl_vermagic ++ out))
      × (next_command out ≡ (id, content, commands))
unfolding cslencode
cslencode-next_command img_src_fname file_to_encode id commands content lo hi short = (
  bytes 8 id ++ (bytes 8 (length content) ++ (content ++ commands)),
  rw (vendor_id_lem id lo hi, pack_lem id (omega (arith, hi)), pack_lem (length content) short)
      refl,
  next_command_lem (bytes 8 id) (bytes 8 (length content)) content commands (length-bytes 8 id)
        (length-bytes 8 (length content)) (value-bytes 8 (length content) short)
      ∙ ap (λ n. (n, content, commands)) (value-bytes 8 id (omega (arith, hi))),
)

present-ok :
    (file : Option (List ℕ)) (message : Str) (content : List ℕ)
    → present file message ≡ ok content
    → file ≡ some content
present-ok none message content h = cc
present-ok (some c) message content h = cc

vendor_id-ok :
    (cmd_id : ℤ) (id : ℕ)
    → vendor_id cmd_id ≡ ok id
    → (cmd_id ≡ pos id) × (60000 ≤ id) × (id ≤ 65535)
vendor_id-ok (pos n) id h = ground (arith)
vendor_id-ok (negsuc n) id h = cc

guard-ok : (b : Bool) (why : Error) (u : Unit) → guard b why ≡ ok u → b ≡ true
guard-ok true why u h = refl
guard-ok false why u h = cc

pack-ok : (n : ℕ) (bs : List ℕ) → pack n ≡ ok bs → n < 2 ^ 64
unfolding pack
pack-ok n bs h = ground (arith)

-- Nothing is written unless both files exist, the number is one of a vendor, and the source begins with
-- the magic number.
pub cslencode-ok :
    (img_src_fname file_to_encode : Str) (img_src file : Option (List ℕ)) (cmd_id : ℤ)
    (out : List ℕ)
    → cslencode img_src_fname img_src cmd_id file_to_encode file ≡ ok out
    → (image : List ℕ) × (content : List ℕ) × (id : ℕ) × (img_src ≡ some image)
      × (file ≡ some content)
      × (cmd_id ≡ pos id)
      × (60000 ≤ id)
      × (id ≤ 65535)
      × (take 8 image ≡ csl_vermagic)
      × (length content < 2 ^ 64)
unfolding cslencode
cslencode-ok img_src_fname file_to_encode img_src file cmd_id out h =
    let (image, i, h1) = >>=-eq-ok (present img_src _) _ h in
    let (content, c, h2) = >>=-eq-ok (present file _) _ h1 in
    let (id, v, h3) = >>=-eq-ok (vendor_id cmd_id) _ h2 in
    let (u, g, h4) = >>=-eq-ok (guard (take 8 image == csl_vermagic) _) _ h3 in
    let (a, p, h5) = >>=-eq-ok (pack id) _ h4 in
    let (b, q, h6) = >>=-eq-ok (pack (length content)) _ h5 in
    let (e, lo, hi) = vendor_id-ok cmd_id id v in
    (
      image,
      content,
      id,
      present-ok img_src _ image i,
      present-ok file _ content c,
      e,
      lo,
      hi,
      (list_beq_iff (take 8 image) csl_vermagic).0 (guard-ok _ _ u g),
      pack-ok (length content) b q,
    )
