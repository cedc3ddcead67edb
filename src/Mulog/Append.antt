-- ===== src/Mulog/Append.antt =====
-- The function `append` of mulog.py: it joins a text to the last line that has the prefix.
use mathlib.Core.List.{reverse, reverse-reverse, reverse-append, reverse-cons}
use muen.Base.{Bool, true, false, not, ◌&&◌, ◌||◌, List, [], ◌∷◌, ◌++◌, Str, codes, take, drop}
use muen.Base.{◌==◌, list_eq, nat_eq, eqb, all, length, if◌then◌else◌, ok, ◌>>=◌, >>=-eq-ok}
use muen.Base.{
  ◌≡◌, ◌≢◌, ℕ, zero, suc, refl, arith, ◌∙◌, ap, Bool-cases, inl, inr, any, list_beq_iff,
}
use muen.Base.{length-append, length-drop, ◌+◌, ◌≤◌}
use muen.Base.Text.{split, split_from, join, replace, starts_with}
use muen.Base.Text.Laws.{join-cons, split_from-ne-nil}
use muen.Mulog.{is_hex, is_match, append_first, append, parent_prefix}

abbrev pub has_prefix : Str → Str → Bool
has_prefix prefix line = take 9 line == prefix

-- The lines with a text joined to the last one with the prefix.
unfoldable pub joined : Str → Str → List Str → List Str
joined p x [] = []
joined p x (l ∷ ls) =
    (if has_prefix p l && not (any (has_prefix p) ls) then l ++ x else l) ∷ joined p x ls

joined_none : (p x : Str) (ls : List Str) → any (has_prefix p) ls ≡ false → joined p x ls ≡ ls
unfolding joined
joined_none p x [] h = refl
joined_none p x (l ∷ ls) h = ground (arith, joined_none p x ls)

pub any-append : (q : Str → Bool) (xs ys : List Str) → any q (xs ++ ys) ≡ (any q xs || any q ys)
any-append q [] ys = refl
any-append q (x ∷ xs) ys = ground (arith, any-append q xs ys)

any-reverse : (q : Str → Bool) (xs : List Str) → any q (reverse xs) ≡ any q xs
any-reverse q [] = refl
any-reverse q (x ∷ xs) = rw (reverse-cons, any-append) (ground (arith, any-reverse q xs))

append_first_found :
    (p x : Str) (xs ys : List Str)
    → any (has_prefix p) xs ≡ true
    → append_first p x (xs ++ ys) ≡ (do r ← append_first p x xs; ok (r ++ ys))
unfolding append_first
append_first_found p x [] ys h = cc
append_first_found p x (l ∷ xs) ys h = ground (arith, append_first_found p x xs ys)

append_first_not :
    (p x : Str) (xs ys : List Str)
    → any (has_prefix p) xs ≡ false
    → append_first p x (xs ++ ys) ≡ (do r ← append_first p x ys; ok (xs ++ r))
unfolding append_first
append_first_not p x [] ys h = ground arith
append_first_not p x (l ∷ xs) ys h = ground (arith, append_first_not p x xs ys)

reverse-concat : (xs : List Str) (y : Str) → reverse (xs ++ y ∷ []) ≡ y ∷ reverse xs
reverse-concat xs y = reverse-append xs (y ∷ [])

append_first_one :
    (p x l : Str) → has_prefix p l ≡ true → append_first p x (l ∷ []) ≡ ok ((l ++ x) ∷ [])
unfolding append_first
append_first_one p x l h = ground arith

-- `append` succeeds if some line has the prefix.
pub append-joined :
    (p x : Str) (ls : List Str) → any (has_prefix p) ls ≡ true → append p x ls ≡ ok (joined p x ls)
unfolding append joined
append-joined p x [] h = cc
append-joined p x (l ∷ ls) h = elim (Bool-cases (any (has_prefix p) ls)) [
  | inl later ↦
      let (r, e, q) = >>=-eq-ok (append_first p x (reverse ls)) _ (append-joined p x ls later) in
      rw
        (
          reverse-cons,
          append_first_found p x (reverse ls) (l ∷ []) (any-reverse _ ls ∙ later),
          e,
          reverse-concat r l,
        )
        (ground arith)
  | inr last ↦
      rw
        (
          reverse-cons,
          append_first_not p x (reverse ls) (l ∷ []) (any-reverse _ ls ∙ last),
          append_first_one p x l (ground arith),
          reverse-concat (reverse ls) (l ++ x),
          reverse-reverse,
          joined_none p x ls last,
        )
        (ground arith)
]

append_first_missing :
    (p x : Str) (ls r : List Str) → any (has_prefix p) ls ≡ false → append_first p x ls ≢ ok r
unfolding append_first
append_first_missing p x [] r h e = cc
append_first_missing p x (l ∷ ls) r h e =
    let rest = append_first_missing p x ls in ground (arith, rest (drop 1 r))

pub append_missing :
    (p x : Str) (ls r : List Str) → any (has_prefix p) ls ≡ false → append p x ls ≢ ok r
unfolding append
append_missing p x ls r h e =
    let (q, f, _) = >>=-eq-ok (append_first p x (reverse ls)) _ e in
    append_first_missing p x (reverse ls) q (any-reverse _ ls ∙ h) f

pub take_nine : (n : ℕ) (l x : Str) → length (take n l) ≡ n → take n (l ++ x) ≡ take n l
take_nine zero l x h = refl
take_nine (suc n) [] x h = absurd (omega arith)
take_nine (suc n) (c ∷ l) x h = ap (λ (r : Str). c ∷ r) (take_nine n l x (omega arith))

pub any-joined :
    (p x q : Str) (ls : List Str)
    → length p ≡ 9
    → any (has_prefix q) (joined p x ls) ≡ any (has_prefix q) ls
unfolding joined
any-joined p x q [] n = refl
any-joined p x q (l ∷ ls) n = ground (
  arith,
  list_beq_iff (take 9 l) p,
  ap (λ (r : Str). length r),
  take_nine 9 l x,
  any-joined p x q ls n,
)

-- A text of one character is replaced by another of one character.
length-join-split :
    (d e : ℕ) (s cur : Str)
    → length (join (e ∷ []) (split_from (d ∷ []) s 0 cur)) ≡ length cur + length s
length-join-split d e [] cur = ground (arith, length-append cur [])
length-join-split d e (c ∷ s) cur = ground (
  arith,
  join-cons (e ∷ []) cur (split_from (d ∷ []) s 0 []) (split_from-ne-nil (d ∷ []) s 0 []),
  length-join-split d e s [],
  length-join-split d e s (cur ++ c ∷ []),
  length-append cur (c ∷ []),
  length-append cur (e ∷ join (e ∷ []) (split_from (d ∷ []) s 0 [])),
)

length-take : (n : ℕ) (s : Str) → n ≤ length s → length (take n s) ≡ n
length-take zero s h = refl
length-take (suc n) [] h = omega arith
length-take (suc n) (c ∷ s) h = ap suc (length-take n s (omega arith))

length-starts_with : (s p : Str) → starts_with s p ≡ true → length p ≤ length s
length-starts_with s [] h = omega arith
length-starts_with [] (d ∷ p) h = cc
length-starts_with (c ∷ s) (d ∷ p) h = ground (arith, length-starts_with s p)

and_last : (a b c : Bool) {d : Bool} → (a && b && c && d) ≡ true → d ≡ true
and_last true true true h = h
and_last false b c h = cc
and_last true false c h = cc
and_last true true false h = cc

pub length-parent_prefix : (line : Str) → is_match line ≡ true → length (parent_prefix line) ≡ 9
unfolding is_match parent_prefix replace split
length-parent_prefix line m = omega (
  arith,
  length-join-split b'>' b'|' (take 9 line) [],
  length-take 9 line (
      omega (
        arith,
        length-drop 7 line,
        length-starts_with (drop 7 line) (codes "#>") (
            and_last (starts_with line (codes "16#")) (eqb (length (take 4 (drop 3 line))) 4)
              (all is_hex (take 4 (drop 3 line))) m),
      )),
)
