-- ===== src/Mulog/Extended.antt =====
-- The lines of mulog.py with the texts that continue them.
use mathlib.Core.List.{append_assoc, append-nil}
use muen.Base.{Bool, true, false, not, ◌&&◌, List, [], ◌∷◌, ◌++◌, Str, codes, take, drop}
use muen.Base.{◌==◌, list_eq, nat_eq, length, if◌then◌else◌}
use muen.Base.{◌≡◌, refl, arith, ◌∙◌, ap, Bool-cases, inl, inr, any, list_beq_iff, beq_self}
use muen.Mulog.{is_match, parent_prefix}
use muen.Mulog.Append.{has_prefix, joined, any-append, take_nine, any-joined}

-- Lines that are printed: neither continuations nor separators.
abbrev pub is_printed : Str → Bool
is_printed line = not (is_match line) && not (take 3 line == codes "---")

-- The texts that continue a line with the given prefix, up to the next line with it.
pub continued : Str → List Str → Str
continued prefix [] = []
continued prefix (line ∷ lines) =
    if is_match line
    then (if parent_prefix line == prefix
        then drop 9 line ++ continued prefix lines
        else continued prefix lines)
    else if is_printed line && take 9 line == prefix
    then []
    else continued prefix lines

-- The printed lines of a log.
unfoldable pub printed : List Str → List Str
unfolding continued
printed [] = []
printed (line ∷ lines) =
    if is_printed line
    then (line ++ continued (take 9 line) lines) ∷ printed lines
    else printed lines

-- A line with what continues it, unless a later line takes that.
pub entry : Bool → Str → List Str → Str
entry true f lines = f
entry false f lines = f ++ continued (take 9 f) lines

-- The lines so far, with what continues them.
unfoldable pub extended : List Str → List Str → List Str
extended [] lines = []
extended (f ∷ fs) lines = entry (any (has_prefix (take 9 f)) fs) f lines ∷ extended fs lines

-- The line with a prefix that is not the last one is left, and so is one with another prefix.
entry_other :
    (line f : Str) (b : Bool) (lines : List Str)
    → is_match line ≡ true
    → (b ≡ false → has_prefix (parent_prefix line) f ≡ false)
    → entry b f lines ≡ entry b f (line ∷ lines)
unfolding entry continued
entry_other line f true lines m h = refl
entry_other line f false lines m h = ground (
  arith,
  h refl,
  list_beq_iff (parent_prefix line) (take 9 f),
  list_beq_iff (take 9 f) (parent_prefix line),
)

entry_last :
    (line f : Str) (lines : List Str)
    → is_match line ≡ true
    → length (parent_prefix line) ≡ 9
    → take 9 f ≡ parent_prefix line
    → entry false (f ++ drop 9 line) lines ≡ entry false f (line ∷ lines)
unfolding entry continued
entry_last line f lines m n e =
    let t : take 9 (f ++ drop 9 line) ≡ take 9 f = take_nine 9 f (drop 9 line) (rw e n) in
    let same : (parent_prefix line == take 9 f) ≡ true = rw (e, beq_self (parent_prefix line)) in
    rw (t, m, same) (append_assoc f _ _)

not_last :
    (p f : Str) (fs : List Str)
    → (has_prefix p f && not (any (has_prefix p) fs)) ≡ false
    → any (has_prefix (take 9 f)) fs ≡ false
    → has_prefix p f ≡ false
not_last p f fs other none_later = elim (Bool-cases (has_prefix p f)) [
  | inl e ↦
      let same : take 9 f ≡ p = ground (arith, list_beq_iff (take 9 f) p) in
      ground (arith, ap (λ (q : Str). any (has_prefix q) fs) same)
  | inr e ↦ e
]

pub extended-joined :
    (line : Str) (ls lines : List Str)
    → is_match line ≡ true
    → length (parent_prefix line) ≡ 9
    → extended (joined (parent_prefix line) (drop 9 line) ls) lines ≡ extended ls (line ∷ lines)
unfolding extended joined
extended-joined line [] lines m n = refl
extended-joined line (f ∷ fs) lines m n =
    let p = parent_prefix line in
    let x = drop 9 line in
    elim (Bool-cases (has_prefix p f && not (any (has_prefix p) fs))) [
      | inl last ↦
          let e : take 9 f ≡ p = ground (arith, list_beq_iff (take 9 f) p) in
          let t : take 9 (f ++ x) ≡ p = take_nine 9 f x (rw e n) ∙ e in
          let none_later : any (has_prefix p) fs ≡ false = ground arith in
          rw
            (
              last,
              t,
              any-joined p x p fs n,
              none_later,
              e,
              none_later,
              extended-joined line fs lines m n,
            )
            (ap (λ (r : Str). r ∷ extended fs (line ∷ lines)) (entry_last line f lines m n e))
      | inr other ↦
          rw (other, any-joined p x (take 9 f) fs n, extended-joined line fs lines m n)
            (ap (λ (r : Str). r ∷ extended fs (line ∷ lines))
              (entry_other line f (any (has_prefix (take 9 f)) fs) lines m (not_last p f fs other)))
    ]

pub extended_nil : (ls : List Str) → extended ls [] ≡ ls
unfolding extended entry continued
extended_nil [] = refl
extended_nil (f ∷ fs) = ground (arith, append-nil f, extended_nil fs)

-- A line that is neither a continuation nor printed changes nothing.
pub extended_skip :
    (line : Str) (ls lines : List Str)
    → is_match line ≡ false
    → is_printed line ≡ false
    → extended ls (line ∷ lines) ≡ extended ls lines
unfolding extended entry continued
extended_skip line [] lines m q = refl
extended_skip line (f ∷ fs) lines m q = ground (arith, extended_skip line fs lines)

pub extended-last :
    (l : Str) (ls lines : List Str)
    → is_match l ≡ false
    → is_printed l ≡ true
    → extended (ls ++ l ∷ []) lines
      ≡ extended ls (l ∷ lines) ++ (l ++ continued (take 9 l) lines) ∷ []
unfolding extended entry continued
extended-last l [] lines m q = refl
extended-last l (f ∷ fs) lines m q =
    rw (any-append (has_prefix (take 9 f)) fs (l ∷ []))
      (ground (arith, append-nil f, extended-last l fs lines))
