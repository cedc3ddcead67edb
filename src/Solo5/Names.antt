-- ===== src/Solo5/Names.antt =====
-- The length of the names that tools/scripts/solo5-muen-gencspec.py gives to the regions of a binary.
use muen.Base.{ℕ, ◌+◌, ◌-◌, ◌≤◌, ◌<◌, ◌≡◌, true, false, List, [], ◌∷◌, ◌++◌, Str, codes, arith}
use muen.Base.{some, Bool, ltb, refl, ◌∙◌, sym, ◌⊎◌, All, All-append, Bool-cases, inl, inr, ◌&&◌}
use muen.Base.Pages.{round_up}
use muen.Base.Dict.{Dict, lookup}
use muen.Xml.{Etree, IsLawful}
use mathlib.Core.List.{append_assoc, append-nil}
use muen.Base.{leb, length, take, length-append, zero, suc, ap}
use muen.Base.Text.{join, has_infix}
use muen.Solo5.Memory.{
  Segment, region, region_name, add_file_region, add_fill_region, add_segment, add_elf_memory,
  add_segments,
}

length-take : (n : ℕ) (s : Str) → (length (take n s) ≤ n) × (n ≤ length s → length (take n s) ≡ n)
length-take zero s = (omega arith, λ h. omega arith)
length-take (suc n) [] = (omega arith, λ h. omega arith)
length-take (suc n) (c ∷ s) =
    let (a, b) = length-take n s in (omega arith, λ h. ap suc (b (omega arith)))

-- The name of a region of contents, behind the component's name and a bar
region_name_le :
    (used : ℕ) (sections : List Str)
    → used ≤ 58
    → used + 1 + length (region_name used sections) ≤ 63
unfolding region_name
region_name_le used sections h =
    let n = join (codes "+") sections in
    let cut = take (63 - (used + 1 + 2)) n in
    ground (arith, length-append cut (codes ".."), length-take (63 - (used + 1 + 2)) n)

-- A name that was cut and does not hold `.text` is as long as it may be.
region_name_cut :
    (used : ℕ) (sections : List Str)
    → used ≤ 58
    → 62 - used < length (join (codes "+") sections)
    → has_infix (take (60 - used) (join (codes "+") sections) ++ codes "..") (codes ".text") ≡ false
    → used + 1 + length (region_name used sections) ≡ 63
unfolding region_name
region_name_cut used sections h long other =
    let n = join (codes "+") sections in
    let e : 63 - (used + 1 + 2) ≡ 60 - used = omega arith in
    let cut = take (60 - used) n in
    let long_name : leb (length n + used + 1) 63 ≡ false = ground arith in
    let short_comp : leb (used + 1 + 2) 63 ≡ true = ground arith in
    let total : used + 1 + length (cut ++ codes "..") ≡ 63 =
      omega (arith, length-append cut (codes ".."), (length-take (60 - used) n).1 (omega arith)) in
    rw (long_name, short_comp, e, other) total

some_section :
    (sections : List Str) → 0 < length (join (codes "+") sections) → ltb 0 (length sections) ≡ true
some_section [] h = absurd (omega arith)
some_section (s ∷ sections) h = ground arith

module _ (X : Etree) where
  -- The physical name of a region, the component's name, a bar and the logical name, is not too long.
  abbrev pub IsNamedWithin : Str → ℕ → X.Elem → Type 0
  IsNamedWithin comp_name max m =
      (logical : Str) × (X.get m (codes "logical") ≡ some logical)
      × (length comp_name + 1 + length logical ≤ max)

  abbrev pub IsFilled : X.Elem → Type 0
  IsFilled m = (c : X.Elem) × (X.children m ≡ c ∷ []) × (X.tag c ≡ some (codes "fill"))

  -- At most 63 characters, or 68 for a region that is filled
  abbrev pub IsBounded : Str → X.Elem → Type 0
  IsBounded comp_name m = IsNamedWithin comp_name 63 m ⊎ (IsFilled m × IsNamedWithin comp_name 68 m)

  module _ (L : IsLawful X) where
    logical-region :
        (name : Str) (address size : ℕ) (x w : Bool) (child : X.Elem)
        → X.get (region X name address size x w child) (codes "logical") ≡ some name
    unfolding lookup
    logical-region name address size x w child = L.get-append _ _ _ ∙ L.get-element _ _ _

    children-region :
        (name : Str) (address size : ℕ) (x w : Bool) (child : X.Elem)
        → X.children (region X name address size x w child) ≡ child ∷ []
    children-region name address size x w child =
        L.children-append _ child
        ∙ ap (λ (r : List X.Elem). r ++ child ∷ []) (L.children-element _ _)

    Added : X.Elem → X.Elem → (X.Elem → Type 0) → Type 0
    Added old new P = (es : List X.Elem) × (X.children new ≡ X.children old ++ es) × All P es

    Added-nil : (e : X.Elem) (P : X.Elem → Type 0) → Added e e P
    unfolding Added
    Added-nil e P = ([], sym (append-nil (X.children e)), tt)

    Added-append : (e m : X.Elem) (P : X.Elem → Type 0) → P m → Added e (X.append e m) P
    unfolding Added
    Added-append e m P p = (m ∷ [], L.children-append e m, (p, tt))

    Added_trans : (d e f : X.Elem) (P : X.Elem → Type 0) → Added d e P → Added e f P → Added d f P
    unfolding Added
    Added_trans d e f P (es, h, p) (fs, k, q) = (
      es ++ fs,
      k ∙ ap (λ (r : List X.Elem). r ++ fs) h ∙ append_assoc (X.children d) es fs,
      All-append P es fs p q,
    )

    file_region :
        (comp_name filename : Str) (s : Segment) (provides : X.Elem)
        → length comp_name ≤ 58
        → Added provides
            (add_file_region X (region_name (length comp_name) s.sections) filename s provides)
            (IsBounded comp_name)
    unfolding add_file_region
    file_region comp_name filename s provides h =
        elim (Bool-cases (ltb 0 (round_up s.physical_size))) [
          | inl b ↦ rw b (
              Added-append _ _ (IsBounded comp_name) (
                inl
                  (_, logical-region _ _ _ _ _ _, region_name_le (length comp_name) s.sections h)))
          | inr b ↦ rw b (Added-nil provides (IsBounded comp_name))
        ]

    filled-IsBounded :
        (comp_name name : Str) (address size : ℕ) (x w : Bool) (pattern : Dict Str Str)
        → length comp_name + 1 + length name ≤ 63
        → IsBounded comp_name
            (region X (name ++ codes "|fill") address size x w (X.element (codes "fill") pattern))
    filled-IsBounded comp_name name address size x w pattern h = inr (
      (
        X.element (codes "fill") pattern,
        children-region _ _ _ _ _ _,
        L.tag-element (codes "fill") pattern,
      ),
      (
        name ++ codes "|fill",
        logical-region _ _ _ _ _ _,
        omega (arith, length-append name (codes "|fill"), h),
      ),
    )

    fill_region :
        (comp_name : Str) (s : Segment) (provides : X.Elem)
        → length comp_name ≤ 58
        → Added provides
            (add_fill_region X (region_name (length comp_name) s.sections) s provides)
            (IsBounded comp_name)
    unfolding add_fill_region
    fill_region comp_name s provides h =
        let name = region_name (length comp_name) s.sections in
        elim (Bool-cases (ltb (round_up s.physical_size) (round_up s.virtual_size))) [
          | inl b ↦ rw b (
              Added-append _ _ (IsBounded comp_name) (
                filled-IsBounded comp_name name _ _ _ _ _
                  (region_name_le (length comp_name) s.sections h)))
          | inr b ↦ rw b (Added-nil provides (IsBounded comp_name))
        ]

    segment_regions :
        (comp_name filename : Str) (s : Segment) (provides : X.Elem) (end_addr : ℕ)
        → length comp_name ≤ 58
        → Added provides
            (add_segment X comp_name filename s (provides, end_addr)).0
            (IsBounded comp_name)
    unfolding add_segment
    segment_regions comp_name filename s provides end_addr h =
        elim (Bool-cases (s.is_load && ltb 0 (length s.sections))) [
          | inl b ↦ rw b (
              Added_trans _ _ _ (IsBounded comp_name) (file_region comp_name filename s provides h)
                (fill_region comp_name s _ h))
          | inr b ↦ rw b (Added-nil provides (IsBounded comp_name))
        ]

    segments_regions :
        (comp_name filename : Str) (segments : List Segment) (provides : X.Elem) (end_addr : ℕ)
        → length comp_name ≤ 58
        → Added provides
            (add_segments X comp_name filename segments (provides, end_addr)).0
            (IsBounded comp_name)
    unfolding add_segments
    segments_regions comp_name filename [] provides end_addr h =
        Added-nil provides (IsBounded comp_name)
    segments_regions comp_name filename (s ∷ segments) provides end_addr h =
        let r = add_segment X comp_name filename s (provides, end_addr) in
        Added_trans _ _ _ (IsBounded comp_name)
          (segment_regions comp_name filename s provides end_addr h)
          (segments_regions comp_name filename segments r.0 r.1 h)

    -- For a component whose name has at most 58 characters, the physical name of each region that is
    -- added for a binary, the component's name, a bar and the logical name, has at most 63 characters,
    -- or the region is filled and its name has at most 68.
    pub add_elf_memory_names :
        (comp_name filename : Str) (segments : List Segment) (provides : X.Elem)
        → length comp_name ≤ 58
        → (es : List X.Elem) × (X.children (add_elf_memory X comp_name filename segments provides).0
            ≡ X.children provides ++ es)
          × All (IsBounded comp_name) es
    unfolding add_elf_memory Added
    add_elf_memory_names comp_name filename segments provides h =
        segments_regions comp_name filename segments provides 0 h

    -- The bound of 63 characters is exceeded: where the sections' names are too long, cut in a way that
    -- leaves no `.text`, and the segment is larger in memory, the last region that is added for the
    -- segment has a physical name of 68 characters.
    pub add_segment_exceeds :
        (comp_name filename : Str) (s : Segment) (provides : X.Elem) (end_addr : ℕ)
        → length comp_name ≤ 58
        → s.is_load ≡ true
        → 62 - length comp_name < length (join (codes "+") s.sections)
        → has_infix
            (take (60 - length comp_name) (join (codes "+") s.sections) ++ codes "..")
            (codes ".text")
          ≡ false
        → round_up s.physical_size < round_up s.virtual_size
        → (es : List X.Elem) × (m : X.Elem) × (logical : Str) × (X.children
              (add_segment X comp_name filename s (provides, end_addr)).0
            ≡ es ++ m ∷ [])
          × (X.get m (codes "logical") ≡ some logical)
          × (length comp_name + 1 + length logical ≡ 68)
    unfolding add_segment add_fill_region
    add_segment_exceeds comp_name filename s provides end_addr h load long other larger =
        let name = region_name (length comp_name) s.sections in
        let fill : ltb (round_up s.physical_size) (round_up s.virtual_size) ≡ true = ground arith in
        rw (load, some_section s.sections (omega arith), fill, L.children-append)
          (
            _,
            _,
            _,
            refl,
            logical-region _ _ _ _ _ _,
            omega (
              arith,
              length-append name (codes "|fill"),
              region_name_cut (length comp_name) s.sections h long other,
            ),
          )
