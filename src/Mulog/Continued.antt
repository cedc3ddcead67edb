-- ===== src/Mulog/Continued.antt =====
-- The lines that mulog.py prints, said without its state: a line is followed by the texts of the
-- continuation lines with its prefix, up to the next line that takes them.
use muen.Base.Text.{rstrip}
use mathlib.Core.List.{append_assoc, append-nil}
use muen.Base.{Bool, true, ◌&&◌, List, [], ◌∷◌, ◌++◌, map, Str, codes, take, drop}
use muen.Base.{◌==◌, list_eq, nat_eq, if◌then◌else◌, Result, ok, ◌>>=◌, >>=-eq-ok}
use muen.Base.{◌≡◌, ◌↔◌, refl, arith, ◌∙◌, sym, ap, Bool-cases, inl, inr, any}
use muen.Mulog.{is_match, append, parent_prefix, process_line, process_lines, mulog}
use muen.Mulog.Append.{
  length-parent_prefix, has_prefix, joined, any-append, append-joined, append_missing, any-joined,
}
use muen.Mulog.Extended.{
  is_printed, continued, printed, extended, extended-joined, extended_nil, extended_skip,
  extended-last,
}

step :
    (line : Str) (formatted lines r : List Str) (q : Result (List Str))
    → process_line line formatted ≡ q
    → process_lines (line ∷ lines) formatted ≡ ok r
    → (q >>= process_lines lines) ≡ ok r
unfolding process_lines
step line formatted lines r q e h = sym (ap (λ m. m >>= process_lines lines) e) ∙ h

process_lines_lem :
    (lines formatted r : List Str)
    → process_lines lines formatted ≡ ok r
    → r ≡ extended formatted lines ++ printed lines
unfolding process_lines process_line printed
process_lines_lem [] formatted r h = ground (arith, append-nil formatted, extended_nil formatted)
process_lines_lem (line ∷ lines) formatted r h = elim (Bool-cases (is_match line)) [
  | inl m ↦
      let p = parent_prefix line in
      let x = drop 9 line in
      let appended : (append p x formatted >>= process_lines lines) ≡ ok r =
        step line formatted lines r (append p x formatted) (rw m) h in
      elim (Bool-cases (any (has_prefix p) formatted)) [
        | inl found ↦
            let rest : process_lines lines (joined p x formatted) ≡ ok r =
              sym (ap (λ q. q >>= process_lines lines) (append-joined p x formatted found))
              ∙ appended in
            rw (
              process_lines_lem lines (joined p x formatted) r rest,
              extended-joined line formatted lines m (length-parent_prefix line m),
              m,
            )
        | inr missing ↦
            let (f, e, _) = >>=-eq-ok (append p x formatted) _ appended in
            absurd (append_missing p x formatted f missing e)
      ]
  | inr m ↦ elim (Bool-cases (take 3 line == codes "---")) [
    | inl separator ↦
        let skip = extended_skip line formatted lines m (rw (m, separator)) in
        let rest : process_lines lines formatted ≡ ok r =
          step line formatted lines r (ok formatted) (rw (m, separator)) h in
        rw (process_lines_lem lines formatted r rest, skip, m, separator)
    | inr shown ↦
        let last = extended-last line formatted lines m (rw (m, shown)) in
        let rest : process_lines lines (formatted ++ line ∷ []) ≡ ok r =
          step line formatted lines r (ok (formatted ++ line ∷ [])) (rw (m, shown)) h in
        rw (process_lines_lem lines (formatted ++ line ∷ []) r rest, last, m, shown)
          (append_assoc (extended formatted (line ∷ lines))
            ((line ++ continued (take 9 line) lines) ∷ []) (printed lines))
  ]
]

-- A continuation line whose parent has been read.
pub parents : List Str → List Str → Bool
parents formatted [] = true
parents formatted (line ∷ lines) =
    if is_match line
    then any (has_prefix (parent_prefix line)) formatted && parents formatted lines
    else if is_printed line
    then parents (formatted ++ line ∷ []) lines
    else parents formatted lines

parents-congr :
    (ls ms lines : List Str)
    → ((q : Str) → any (has_prefix q) ls ≡ any (has_prefix q) ms)
    → parents ls lines ≡ parents ms lines
unfolding parents
parents-congr ls ms [] h = refl
parents-congr ls ms (line ∷ lines) h = ground (
  arith,
  h (parent_prefix line),
  parents-congr ls ms lines h,
  parents-congr (ls ++ line ∷ []) (ms ++ line ∷ []) lines (λ q.
      rw (any-append (has_prefix q) ls (line ∷ []), any-append (has_prefix q) ms (line ∷ []), h q)),
)

process_lines_returns :
    (lines formatted : List Str)
    → parents formatted lines ≡ true
    → (r : List Str) × (process_lines lines formatted ≡ ok r)
unfolding process_lines process_line parents
process_lines_returns [] formatted h = (formatted, refl)
process_lines_returns (line ∷ lines) formatted h = elim (Bool-cases (is_match line)) [
  | inl m ↦
      let p = parent_prefix line in
      let x = drop 9 line in
      let found : any (has_prefix p) formatted ≡ true = ground (arith, m) in
      let (r, e) = process_lines_returns lines (joined p x formatted) (
        ground (
          arith,
          parents-congr (joined p x formatted) formatted lines
              (λ q. any-joined p x q formatted (length-parent_prefix line m)),
        )) in
      (r, rw (m, append-joined p x formatted found) e)
  | inr m ↦ elim (Bool-cases (take 3 line == codes "---")) [
    | inl separator ↦
        let (r, e) = process_lines_returns lines formatted (ground (arith, m, separator)) in
        (r, rw (m, separator) e)
    | inr shown ↦
        let (r, e) =
          process_lines_returns lines (formatted ++ line ∷ []) (ground (arith, m, shown)) in
        (r, rw (m, shown) e)
  ]
]

process_lines-parents :
    (lines formatted r : List Str)
    → process_lines lines formatted ≡ ok r
    → parents formatted lines ≡ true
unfolding process_lines process_line parents
process_lines-parents [] formatted r h = refl
process_lines-parents (line ∷ lines) formatted r h = elim (Bool-cases (is_match line)) [
  | inl m ↦
      let p = parent_prefix line in
      let x = drop 9 line in
      let appended : (append p x formatted >>= process_lines lines) ≡ ok r =
        step line formatted lines r (append p x formatted) (rw m) h in
      elim (Bool-cases (any (has_prefix p) formatted)) [
        | inl found ↦
            let rest : process_lines lines (joined p x formatted) ≡ ok r =
              sym (ap (λ q. q >>= process_lines lines) (append-joined p x formatted found))
              ∙ appended in
            let same =
              parents-congr (joined p x formatted) formatted lines
                (λ q. any-joined p x q formatted (length-parent_prefix line m)) in
            rw (m, found) (sym same ∙ process_lines-parents lines (joined p x formatted) r rest)
        | inr missing ↦
            let (f, e, _) = >>=-eq-ok (append p x formatted) _ appended in
            absurd (append_missing p x formatted f missing e)
      ]
  | inr m ↦ elim (Bool-cases (take 3 line == codes "---")) [
    | inl separator ↦
        let rest : process_lines lines formatted ≡ ok r =
          step line formatted lines r (ok formatted) (rw (m, separator)) h in
        rw (m, separator) (process_lines-parents lines formatted r rest)
    | inr shown ↦
        let rest : process_lines lines (formatted ++ line ∷ []) ≡ ok r =
          step line formatted lines r (ok (formatted ++ line ∷ [])) (rw (m, shown)) h in
        rw (m, shown) (process_lines-parents lines (formatted ++ line ∷ []) r rest)
  ]
]

-- mulog.py prints `r` for a log exactly if every continuation line has a printed line with its prefix
-- before it, and `r` is the lines that are neither continuations nor separators, in their order,
-- each followed by the texts of the continuation lines with its prefix that stand between it and
-- the next printed line with that prefix. In all other cases it raises.
pub mulog_lem :
    (file r : List Str)
    → (mulog file ≡ ok r) ↔ (
        (parents [] (map (rstrip (13 ∷ 10 ∷ [])) file) ≡ true)
        × (r ≡ printed (map (rstrip (13 ∷ 10 ∷ [])) file)))
unfolding mulog extended
mulog_lem file r =
    let lines = map (rstrip (13 ∷ 10 ∷ [])) file in
    (
      (λ h. (process_lines-parents lines [] r h, process_lines_lem lines [] r h)),
      λ (found, e).
          let (q, h) = process_lines_returns lines [] found in
          h ∙ ap ok (process_lines_lem lines [] q h ∙ sym e),
    )
