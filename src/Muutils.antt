-- ===== src/Muutils.antt =====
-- tools/libmupy/muutils.py: the conversions between integers and Ada's based literals
-- (16#0123_0000#), and of truth values to text. A value that the functions are called with is an
-- integer, a truth value or a text.
pub mod Hex
pub mod Digits
pub mod RoundTrip
use muen.Base.{ℕ, zero, suc, ◌+◌, ◌-◌, ◌*◌, ◌/◌, ◌%◌, Bool, true, false, ◌&&◌, ◌||◌, not}
use muen.Base.{List, [], ◌∷◌, ◌++◌, map, Option, none, some, Str, codes, ℤ, pos, negsuc, negate}
use muen.Base.{if◌then◌else◌, eqb, leb, length, drop, init, list_eq, nat_eq, ◌==◌}
use muen.Base.{Result, ok, err, value_error, type_error, ◌>>=◌}
use muen.Base.Text.{lstrip, rstrip, rjust, replace, starts_with, strip}
use muen.Muutils.Hex.{hex, int_base_16}

pub data Value : Type 0 where
  int : ℤ → Value
  bool : Bool → Value
  str : Str → Value

-- `str(x).lower() if isinstance(x, bool) else x`
unfoldable pub bool_to_str : Value → Value
bool_to_str (bool true) = str (codes "true")
bool_to_str (bool false) = str (codes "false")
bool_to_str (int n) = int n
bool_to_str (str s) = str s

-- Convert an Ada hex text to its number. The empty text is returned as it is.
unfoldable pub ada_hex_to_int : Str → Result Value
ada_hex_to_int value =
    if value == []
    then ok (str [])
    else do n ← int_base_16 (init (drop 3 (replace (codes "_") [] value))); ok (int n)

-- The underscore in front of every fourth character but the first.
abbrev pub marked : Bool → Str → Str
marked true hexvalue = hexvalue ++ codes "_"
marked false hexvalue = hexvalue

-- The loop over the characters of `val`, from position `index` on.
unfoldable pub group_from : ℕ → Str → Str → Str
group_from index [] hexvalue = hexvalue
group_from index (c ∷ val) hexvalue =
    group_from (index + 1) val (marked (eqb (index % 4) 0 && not (eqb index 0)) hexvalue ++ c ∷ [])

-- The part of `int_to_ada_hex` behind the test for the empty text, on the result of `hex`.
unfoldable pub format_hex : Str → Str
unfolding group_from rstrip lstrip rjust
format_hex h =
    let val = lstrip (codes "0x") (rstrip (codes "L") h) in
    let padded = rjust ((length val + 3) / 4 * 4) b'0' val in
    group_from 0 padded (codes "16#") ++ codes "#"

-- Convert a number to an Ada hex text. `hex` refuses a text that is not empty.
unfoldable pub int_to_ada_hex : Value → Result Str
int_to_ada_hex (str s) = if s == [] then ok [] else err type_error
int_to_ada_hex (int n) = ok (format_hex (hex n))
int_to_ada_hex (bool true) = ok (format_hex (hex (pos 1)))
int_to_ada_hex (bool false) = ok (format_hex (hex (pos 0)))
