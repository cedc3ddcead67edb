-- ===== src/SubjectList/Padding.antt =====
-- The names in the array have the length of the array's type.
use muen.Base.{ℕ, ◌-◌, ◌≤◌, List, [], ◌∷◌, some, Str, length, ◌≡◌, arith, All, map}
use muen.Base.{
  true, ◌⊎◌, inl, inr, Bool-cases, leb, contains, list_eq, nat_eq, beq_self, eqb, false,
}
use muen.Base.{ok, length-append, length-replicate, replicate, sym, refl}
use muen.Base.{◌+◌, suc, ◌++◌, codes, pos, ap, ◌∙◌}
use mathlib.Core.List.{append-nil}
use muen.Base.Decimal.{int_text}
use muen.Base.Text.{ljust, join}
use muen.SubjectList.{larger, max_from, texts, spec_text, entry, entries, write_spec}

IsAtMost : ℕ → Str → Type 0
IsAtMost m name = length name ≤ m

max_from_le :
    (m : ℕ) (names : List Str) → (m ≤ max_from m names) × All (IsAtMost (max_from m names)) names
unfolding IsAtMost
max_from_le m [] = (omega arith, tt)
max_from_le m (name ∷ names) =
    let (h, a) = max_from_le (larger m (length name)) names in
    (ground (arith, h), (ground (arith, h), a))

-- The start, or the length of one of the names
max_from_attained :
    (m : ℕ) (names : List Str)
    → (max_from m names ≡ m)
      ⊎ ((n : Str) × (contains names n ≡ true) × (length n ≡ max_from m names))
max_from_attained m [] = inl refl
max_from_attained m (name ∷ names) = elim (max_from_attained (larger m (length name)) names) [
  | inl e ↦ elim (Bool-cases (leb m (length name))) [
    | inl b ↦ inr (name, ground (arith, beq_self name), ground (arith, e, b))
    | inr b ↦ inl (ground (arith, e, b))
  ]
  | inr (n, c, e) ↦ inr (n, ground (arith, c), e)
]

-- A name with spaces behind it, of the given length
abbrev pub IsPadded : ℕ → Str → Str → Type 0
IsPadded width name field =
    (length field ≡ width) × ((spaces : ℕ) × (field ≡ name ++ replicate spaces b' '))

-- The fields are the names, padded, in their order.
abbrev pub ArePadded : ℕ → List Str → List Str → Type 0
ArePadded width [] fields = fields ≡ []
ArePadded width (name ∷ names) fields =
    (field : Str) × (rest : List Str) × (fields ≡ field ∷ rest)
    × IsPadded width name field
    × ArePadded width names rest

ljust-IsPadded :
    (width : ℕ) (name : Str) → length name ≤ width → IsPadded width name (ljust width name)
unfolding ljust
ljust-IsPadded width name h = (
  omega (
    arith,
    h,
    length-append name (replicate (width - length name) b' '),
    length-replicate {A = ℕ} (width - length name) b' ',
  ),
  (width - length name, refl),
)

map-ljust-ArePadded :
    (width : ℕ) (names : List Str)
    → All (IsAtMost width) names
    → ArePadded width names (map (ljust width) names)
unfolding IsAtMost
map-ljust-ArePadded width [] h = refl
map-ljust-ArePadded width (name ∷ names) h =
    (_, _, refl, ljust-IsPadded width name h.0, map-ljust-ArePadded width names h.1)

-- The lines of the array, numbered from `i` on: `i => "field"`
abbrev pub lines : ℕ → List Str → List Str
lines i [] = []
lines i (field ∷ fields) =
    (int_text (pos i) ++ (codes " => \"" ++ (field ++ codes "\""))) ∷ lines (suc i) fields

-- The Ada package around the text of the array
abbrev pub ada_package : ℕ → Str → Str → Str
ada_package width package_name array =
    codes "private package "
    ++ (package_name
        ++ (codes "\nis\n\n   subtype Name_Type is String (1 .. "
            ++ (int_text (pos width)
                ++ (codes
                      ");\n\n   type Names_Array is array (Subject_Buffer_Range) of Name_Type;\n\n   Subject_Names : constant Names_Array :=\n"
                    ++ (array ++ (codes ");\n\nend " ++ (package_name ++ codes ";\n")))))))

abbrev pub array_text : List Str → Str
array_text fields = codes "     (" ++ join (codes ",\n      ") (lines 1 fields)

abbrev line : ℕ → ℕ → Str → Str
line width i name = int_text (pos i) ++ (codes " => \"" ++ (ljust width name ++ codes "\""))

entry-suc :
    (width i : ℕ) (name : Str)
    → entry width (suc i) name ≡ codes ",\n      " ++ line width (suc (suc i)) name
entry-suc width i name =
    let later : eqb (suc i) 0 ≡ false = ground arith in
    let next : suc i + 1 ≡ suc (suc i) = omega arith in rw (later, next) refl

entries-join :
    (width i : ℕ) (text : Str) (names : List Str)
    → text ++ entries width (suc i) names
      ≡ join (codes ",\n      ") (text ∷ lines (suc (suc i)) (map (ljust width) names))
entries-join width i text [] = append-nil text
entries-join width i text (name ∷ names) =
    ap (λ (r : Str). text ++ (r ++ entries width (suc (suc i)) names)) (entry-suc width i name)
    ∙ ap (λ (r : Str). text ++ (codes ",\n      " ++ r))
        (entries-join width (suc i) (line width (suc (suc i)) name) names)

spec_text_lem :
    (width : ℕ) (package_name name : Str) (names : List Str)
    → spec_text width package_name (name ∷ names)
      ≡ ada_package width package_name (array_text (map (ljust width) (name ∷ names)))
spec_text_lem width package_name name names =
    ap (λ (r : Str). ada_package width package_name (codes "     (" ++ r))
      (entries-join width 0 (line width 1 name) names)

texts-map : (names : List Str) → texts (map some names) ≡ ok names
texts-map [] = refl
texts-map (name ∷ names) = rw (texts-map names) refl

-- For at least one name the script writes an array whose width is the length of the longest name. The
-- line of each name holds, under its number, a text of exactly this width, the name with spaces behind it,
-- so that the array is legal Ada.
pub write_spec_padded :
    (name : Str) (names : List Str) (package_name : Str)
    → (width : ℕ) × (fields : List Str) × (write_spec (map some (name ∷ names)) package_name
        ≡ ok (ada_package width package_name (array_text fields)))
      × ArePadded width (name ∷ names) fields
      × ((n : Str) × (contains (name ∷ names) n ≡ true) × (length n ≡ width))
unfolding write_spec IsAtMost
write_spec_padded name names package_name =
    let width = max_from (length name) names in
    let (h, a) = max_from_le (length name) names in
    (
      width,
      map (ljust width) (name ∷ names),
      rw (texts-map names) (ap ok (spec_text_lem width package_name name names)),
      map-ljust-ArePadded width (name ∷ names) (h, a),
      elim (max_from_attained (length name) names) [
        | inl e ↦ (name, ground (arith, beq_self name), sym e)
        | inr (n, c, e) ↦ (n, ground (arith, c), e)
      ],
    )
