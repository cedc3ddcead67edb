-- ===== src/Base/Text.antt =====
-- Python's `str` as the list of its code points, and the methods that the scripts call.
pub mod Laws
use Prim.Native.Char.{code}
use Prim.Native.Nat.{ℕ, zero, suc, ◌+◌, ◌-◌}
use Prim.Native.String.{String}
use mathlib.Core.Path.{◌≡◌, refl, ap, ◌∙◌}
use mathlib.Core.Logic.{◌≢◌}
use mathlib.Core.Bool.{Bool, true, false, ◌&&◌, ◌||◌}
use mathlib.Core.List.{List, [], ◌∷◌, ◌++◌, map, reverse}
use mathlib.Core.Option.{Option, none, some}
use native.Mathlib.Omega.{arith}
use muen.Base.Tests.{if◌then◌else◌, eqb, ltb}
use muen.Base.Lists.{length, drop, replicate}

abbrev pub Str : Type 0
Str = List ℕ

abbrev pub codes : String → Str
codes String.[] = []
codes (String.◌∷◌ c s) = code c ∷ codes s

-- `s.startswith(p)`
abbrev pub starts_with : Str → Str → Bool
starts_with s [] = true
starts_with [] (d ∷ p) = false
starts_with (c ∷ s) (d ∷ p) = eqb c d && starts_with s p

-- `p in s`
abbrev pub has_infix : Str → Str → Bool
has_infix [] p = starts_with [] p
has_infix (c ∷ s) p = starts_with (c ∷ s) p || has_infix s p

-- One step of `s.split(sep)`: `skip` characters of a separator are still to be passed over, `cur`
-- is the current part.
abbrev pub split_from : Str → Str → ℕ → Str → List Str
split_from sep [] skip cur = cur ∷ []
split_from sep (c ∷ s) (suc skip) cur = split_from sep s skip cur
split_from sep (c ∷ s) zero cur =
    let part = cur ∷ split_from sep s (length sep - 1) [] in
    let more = split_from sep s zero (cur ++ c ∷ []) in
    if starts_with (c ∷ s) sep then part else more

-- `s.split(sep)` for a separator that is not empty
unfoldable pub split : Str → Str → List Str
split sep s = split_from sep s 0 []

-- `sep.join(parts)`
abbrev pub join : Str → List Str → Str
join sep [] = []
join sep (p ∷ []) = p
join sep (p ∷ q ∷ ps) = p ++ (sep ++ join sep (q ∷ ps))

abbrev pub is_in : Str → ℕ → Bool
is_in [] c = false
is_in (d ∷ ds) c = eqb d c || is_in ds c

-- `s.lstrip(chars)` and `s.rstrip(chars)`
unfoldable pub lstrip : Str → Str → Str
lstrip chars [] = []
lstrip chars (c ∷ s) = let rest = lstrip chars s in if is_in chars c then rest else c ∷ s

unfoldable pub rstrip : Str → Str → Str
unfolding lstrip
rstrip chars s = reverse (lstrip chars (reverse s))

-- `s.rjust(width, fill)` and `s.ljust(width)`
unfoldable pub rjust : ℕ → ℕ → Str → Str
rjust width fill s = replicate (width - length s) fill ++ s

unfoldable pub ljust : ℕ → Str → Str
ljust width s = s ++ replicate (width - length s) b' '

-- `s.replace(old, new)` for a text `old` that is not empty
unfoldable pub replace : Str → Str → Str → Str
unfolding split
replace old new s = join new (split old s)

-- The characters that `int` passes over at both ends.
abbrev pub whitespace : Str
whitespace = b' ' ∷ 9 ∷ 10 ∷ 11 ∷ 12 ∷ 13 ∷ []

-- `s.strip()`
unfoldable pub strip : Str → Str
unfolding lstrip rstrip
strip s = lstrip whitespace (rstrip whitespace s)
