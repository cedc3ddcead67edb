-- ===== src/Solo5/Regions.antt =====
-- The regions that tools/scripts/solo5-muen-gencspec.py makes of a segment, and the memory of the
-- segment.
use mathlib.Core.List.{append_assoc, append-nil}
use muen.Base.{
  ℕ, ◌+◌, ◌-◌, ◌%◌, ◌≤◌, ◌<◌, ◌≡◌, refl, ◌∙◌, ap, sym, Bool, true, List, [], ◌∷◌, ◌++◌, Str, codes,
  arith,
}
use muen.Base.{
  All, ◌&&◌, if◌then◌else◌, ltb, length, pos, Option, some, none, Result, ok, err, key_error,
  Bool-cases, inl, inr,
}
use muen.Base.Pages.{round_up, round_up_lem}
use muen.Base.Dict.{lookup}
use muen.Muutils.{Value, ada_hex_to_int}
use muen.Muutils.RoundTrip.{ada_hex_to_int-format_hex}
use muen.Xml.{Etree, IsLawful}
use muen.Solo5.Memory.{
  Segment, region, region_name, add_file_region, add_fill_region, add_segment, add_segments,
  add_elf_memory,
}

abbrev pub parsed : Option Str → Result Value
parsed none = err key_error
parsed (some v) = ada_hex_to_int v

module _ (X : Etree) where
  -- The number in an attribute.
  abbrev pub number : X.Elem → Str → Result Value
  number e key = parsed (X.get e key)

  -- A region of whole pages, by what its attributes are read as.
  pub IsRegion : X.Elem → ℕ → ℕ → Type 0
  IsRegion e address size =
      (number e (codes "virtualAddress") ≡ ok (Value.int (pos address)))
      × (number e (codes "size") ≡ ok (Value.int (pos size)))
      × (0 < size)
      × (size % 4096 ≡ 0)

  -- Regions that cover the addresses from `start` up to `end`, each from the end of the one before.
  pub Covers : List X.Elem → ℕ → ℕ → Type 0
  Covers [] start end = start ≡ end
  Covers (e ∷ es) start end = (size : ℕ) × IsRegion e start size × Covers es (start + size) end

  module _ (L : IsLawful X) where
    number_lem :
        (e : X.Elem) (key : Str) {v : Str} → X.get e key ≡ some v → number e key ≡ ada_hex_to_int v
    number_lem e key h = ap parsed h

    number-region :
        (name : Str) (address size : ℕ) (x w : Bool) (child : X.Elem)
        → 0 < address
        → 0 < size
        → size % 4096 ≡ 0
        → IsRegion (region X name address size x w child) address size
    unfolding IsRegion lookup
    number-region name address size x w child ha hs hm = (
      number_lem (region X name address size x w child) (codes "virtualAddress")
            (L.get-append _ _ _ ∙ L.get-element _ _ _)
          ∙ ada_hex_to_int-format_hex address ha,
      number_lem (region X name address size x w child) (codes "size")
            (L.get-append _ _ _ ∙ L.get-element _ _ _)
          ∙ ada_hex_to_int-format_hex size hs,
      hs,
      hm,
    )

    IsRegion-at : (e : X.Elem) {a b : ℕ} (n : ℕ) → IsRegion e a n → a ≡ b → IsRegion e b n
    unfolding IsRegion
    IsRegion-at e n (h, k, l, m) same = (h ∙ ap (λ (c : ℕ). ok (Value.int (pos c))) same, k, l, m)

    -- The regions of one segment cover its memory.
    add_segment-Covers :
        (comp_name filename : Str) (s : Segment) (provides : X.Elem) (end_addr : ℕ)
        → s.is_load ≡ true
        → 0 < length (s.sections)
        → 0 < s.virtual_address
        → s.physical_size ≤ s.virtual_size
        → (new : List X.Elem) × (X.children
              (add_segment X comp_name filename s (provides, end_addr)).0
            ≡ X.children provides ++ new)
          × Covers new (s.virtual_address) (s.virtual_address + round_up (s.virtual_size))
    unfolding add_segment add_file_region add_fill_region Covers
    add_segment-Covers comp_name filename s provides end_addr load sections ha hp =
        let p = round_up_lem (s.physical_size) in
        let m = round_up_lem (s.virtual_size) in
        let name = region_name (length comp_name) (s.sections) in
        let some_section : ltb 0 (length (s.sections)) ≡ true = ground arith in
        let phy = round_up (s.physical_size) in
        let mem = round_up (s.virtual_size) in
        elim (Bool-cases (ltb 0 phy)) [
          | inl file ↦ elim (Bool-cases (ltb phy mem)) [
            | inl fill ↦
                rw (load, some_section, file, fill, L.children-append, L.children-append)
                  (
                    _,
                    append_assoc (X.children provides) _ _,
                    (
                      phy,
                      number-region _ _ _ _ _ _ ha (ground arith) p.0,
                      (
                        mem - phy,
                        number-region _ _ _ _ _ _ (omega arith) (ground arith) (ground arith),
                        ground arith,
                      ),
                    ),
                  )
            | inr full ↦
                rw (load, some_section, file, full, L.children-append)
                  (_, refl, (phy, number-region _ _ _ _ _ _ ha (ground arith) p.0, ground arith))
          ]
          | inr empty ↦ elim (Bool-cases (ltb phy mem)) [
            | inl fill ↦
                rw (load, some_section, empty, fill, L.children-append)
                  (
                    _,
                    refl,
                    (
                      mem - phy,
                      IsRegion-at _ _
                          (number-region _ _ _ _ _ _ (omega arith) (ground arith) (ground arith))
                          (ground arith),
                      ground arith,
                    ),
                  )
            | inr full ↦
                rw (load, some_section, empty, full)
                  ([], sym (append-nil (X.children provides)), ground arith)
          ]
        ]

-- A segment that gets regions.
abbrev pub is_loaded : Segment → Bool
is_loaded s = s.is_load && ltb 0 (length (s.sections))

-- What is asked of a segment: an address above nought, and no more contents than memory.
abbrev pub IsPlausible : Segment → Type 0
IsPlausible s = (0 < s.virtual_address) × (s.physical_size ≤ s.virtual_size)

-- The end address that the segments leave.
abbrev pub end_of : List Segment → ℕ → ℕ
end_of [] end_addr = end_addr
end_of (s ∷ ss) end_addr =
    end_of ss (if is_loaded s then s.virtual_address + round_up (s.virtual_size) else end_addr)

module _ (X : Etree) where
  -- Elements that are, in the order of the segments, the regions of those of them that are loaded.
  pub Holds : List X.Elem → List Segment → Type 0
  unfolding Covers
  Holds es [] = es ≡ []
  Holds es (s ∷ ss) =
      (new : List X.Elem) × (rest : List X.Elem) × (es ≡ new ++ rest)
      × (if is_loaded s
          then Covers X new (s.virtual_address) (s.virtual_address + round_up (s.virtual_size))
          else new ≡ [])
      × Holds rest ss

  module _ (L : IsLawful X) where
    add_segment_step :
        (comp_name filename : Str) (s : Segment) (provides : X.Elem) (end_addr : ℕ)
        → IsPlausible s
        → let r = add_segment X comp_name filename s (provides, end_addr) in
          (new : List X.Elem) × (X.children (r.0) ≡ X.children provides ++ new)
          × (if is_loaded s
              then Covers X new (s.virtual_address) (s.virtual_address + round_up (s.virtual_size))
              else new ≡ [])
          × (r.1
              ≡ (if is_loaded s then s.virtual_address + round_up (s.virtual_size) else end_addr))
    unfolding add_segment
    add_segment_step comp_name filename s provides end_addr (ha, hp) =
        elim (Bool-cases (is_loaded s)) [
          | inl loaded ↦
              let (new, e, c) =
                add_segment-Covers X L comp_name filename s provides end_addr (ground arith)
                  (ground arith) ha hp in
              (new, e, rw loaded c, rw loaded)
          | inr other ↦ rw other ([], sym (append-nil (X.children provides)), refl, refl)
        ]

    add_segments-Holds :
        (comp_name filename : Str) (ss : List Segment) (provides : X.Elem) (end_addr : ℕ)
        → All IsPlausible ss
        → let r = add_segments X comp_name filename ss (provides, end_addr) in
          (es : List X.Elem) × (X.children (r.0) ≡ X.children provides ++ es)
          × Holds es ss
          × (r.1 ≡ end_of ss end_addr)
    unfolding add_segments Holds
    add_segments-Holds comp_name filename [] provides end_addr h =
        ([], sym (append-nil (X.children provides)), refl, refl)
    add_segments-Holds comp_name filename (s ∷ ss) provides end_addr (p, h) =
        let s' = add_segment X comp_name filename s (provides, end_addr) in
        let (new, e, c, f) = add_segment_step comp_name filename s provides end_addr p in
        let (es, e', c', f') = add_segments-Holds comp_name filename ss (s'.0) (s'.1) h in
        (
          new ++ es,
          e' ∙ ap (λ (r : List X.Elem). r ++ es) e ∙ append_assoc (X.children provides) new es,
          (new, es, refl, c, c'),
          f' ∙ ap (end_of ss) f,
        )

    -- The elements that the segments of a binary add to the section are, in the order of the segments,
    -- those of each segment of type LOAD with sections: whole pages that cover its memory, each from
    -- the end of the one before. The end address that is returned is that of the last such segment,
    -- and 0 without one. Every segment has an address above nought and no more contents than memory.
    pub add_elf_memory-Holds :
        (comp_name filename : Str) (segments : List Segment) (provides : X.Elem)
        → All IsPlausible segments
        → let r = add_elf_memory X comp_name filename segments provides in
          (es : List X.Elem) × (X.children (r.0) ≡ X.children provides ++ es)
          × Holds es segments
          × (r.1 ≡ end_of segments 0)
    unfolding add_elf_memory
    add_elf_memory-Holds comp_name filename segments provides h =
        add_segments-Holds comp_name filename segments provides 0 h
