-- ===== src/MulogSubject/Records.antt =====
-- The output of tools/scripts/mulog-subject.py and the records of the log.
use mathlib.Core.List.{append_assoc}
use muen.Base.{
  ℕ, ◌≤◌, ◌≡◌, refl, ap, ◌∙◌, arith, Bool, true, false, List, [], ◌∷◌, ◌++◌, Str, codes,
  if◌then◌else◌, select, ok, Bool-cases, inl, inr, leb,
}
use muen.Base.Text.{join}
use muen.MulogSubject.{is_match, is_continuation, text, print_line, print_lines, mulog_subject}

-- The records of lines, the first of them with the text `cur` so far: a continuation line goes on with
-- the record before it.
pub records_from : Str → List Str → List Str
records_from cur [] = cur ∷ []
records_from cur (line ∷ lines) =
    if is_continuation line
    then records_from (cur ++ text line) lines
    else cur ∷ records_from (text line) lines

pub records : List Str → List Str
records [] = []
records (line ∷ lines) = records_from (text line) lines

join-cons_from :
    (p cur : Str) (lines : List Str)
    → join (codes "\n") (p ∷ records_from cur lines)
      ≡ p ++ (codes "\n" ++ join (codes "\n") (records_from cur lines))
unfolding records_from
join-cons_from p cur [] = refl
join-cons_from p cur (line ∷ lines) = elim (Bool-cases (is_continuation line)) [
  | inl c ↦ rw c (join-cons_from p (cur ++ text line) lines)
  | inr n ↦ rw n
]

module _ (id : ℕ) (line : Str) where
  line_continued :
      (first : Bool) (out : Str)
      → is_match id line ≡ true
      → is_continuation line ≡ true
      → print_line id line (first, out) ≡ (false, out ++ text line)
  unfolding print_line
  line_continued first out m c = rw (m, c)

  line_first :
      (out : Str)
      → is_match id line ≡ true
      → print_line id line (true, out) ≡ (false, out ++ text line)
  unfolding print_line
  line_first out m = elim (Bool-cases (is_continuation line)) [
    | inl c ↦ rw (m, c)
    | inr n ↦ rw (m, n)
  ]

  line_new :
      (out : Str)
      → is_match id line ≡ true
      → is_continuation line ≡ false
      → print_line id line (false, out) ≡ (false, (out ++ codes "\n") ++ text line)
  unfolding print_line
  line_new out m n = rw (m, n)

  line_other : (s : Bool × Str) → is_match id line ≡ false → print_line id line s ≡ s
  unfolding print_line
  line_other (first, out) m = rw m

print_lines-records_from :
    (id : ℕ) (lines : List Str) (before cur : Str)
    → (print_lines id lines (false, before ++ cur)).1
      ≡ before ++ join (codes "\n") (records_from cur (select (is_match id) lines))
unfolding print_lines records_from
print_lines-records_from id [] before cur = refl
print_lines-records_from id (line ∷ lines) before cur = elim (Bool-cases (is_match id line)) [
  | inl m ↦ elim (Bool-cases (is_continuation line)) [
    | inl c ↦
        rw (m, c)
          (ap (λ s. (print_lines id lines s).1) (line_continued id line false (before ++ cur) m c)
            ∙ ap (λ (r : Str). (print_lines id lines (false, r)).1)
                (append_assoc before cur (text line))
            ∙ print_lines-records_from id lines before (cur ++ text line))
    | inr n ↦
        let rest = join (codes "\n") (records_from (text line) (select (is_match id) lines)) in
        rw (m, n, join-cons_from cur (text line) (select (is_match id) lines))
          (ap (λ s. (print_lines id lines s).1) (line_new id line (before ++ cur) m n)
            ∙ print_lines-records_from id lines ((before ++ cur) ++ codes "\n") (text line)
            ∙ append_assoc (before ++ cur) (codes "\n") rest
            ∙ append_assoc before cur (codes "\n" ++ rest))
  ]
  | inr m ↦ rw m (
      ap (λ s. (print_lines id lines s).1) (line_other id line (false, before ++ cur) m)
      ∙ print_lines-records_from id lines before cur)
]

print_lines-records :
    (id : ℕ) (lines : List Str)
    → (print_lines id lines (true, [])).1 ≡ join (codes "\n") (records (select (is_match id) lines))
unfolding print_lines records
print_lines-records id [] = refl
print_lines-records id (line ∷ lines) = elim (Bool-cases (is_match id line)) [
  | inl m ↦ rw m (
      ap (λ s. (print_lines id lines s).1) (line_first id line [] m)
      ∙ print_lines-records_from id lines [] (text line))
  | inr m ↦ rw m (
      ap (λ s. (print_lines id lines s).1) (line_other id line (true, []) m)
      ∙ print_lines-records id lines)
]

-- For an ID of at most 16 bits the output is the records of the subject's lines, each on a line of its
-- own, where a continuation line goes on with the record before it.
pub mulog_subject-records :
    (id : ℕ) (lines : List Str)
    → id ≤ 0xffff
    → mulog_subject id lines
      ≡ ok (join (codes "\n") (records (select (is_match id) lines)) ++ codes "\n")
unfolding mulog_subject
mulog_subject-records id lines h =
    let small : leb id 0xffff ≡ true = ground arith in rw (small, print_lines-records id lines)
