-- ===== src/LinuxGencspec/Adjacent.antt =====
-- Where components/linux/misc/linux-muen-gencspec.py puts an additional initramfs.
use muen.Base.{
  ◌≡◌, refl, ap, ◌∙◌, List, [], ◌∷◌, ◌++◌, Str, codes, Option, some, none, ◌⊎◌, inl, inr, All,
}
use muen.Base.{ok, >>=-eq-ok, ok_injective, ◌==◌, list_eq, nat_eq, list_beq_iff}
use muen.Muutils.{Value, ada_hex_to_int, int_to_ada_hex}
use muen.Xml.{Etree}
use muen.LinuxGencspec.{
  attrib, and_then, check_mappings, adjacent, mapped_attrs, attrs_of, get_initramfs_attrs, Attrs,
  default_attrs, no_attrs, sum_of, lower,
}
use muen.LinuxGencspec.Mappings.{attrib-eq-ok, guarded}

module _ (X : Etree) where
  abbrev pub IsAt : Str → X.Elem → Type 0
  IsAt virtual_address m = X.get m (codes "virtualAddress") ≡ some virtual_address

  -- The address `a` is that of the region, at which all its mappings are, plus the size of the region.
  abbrev pub IsBehind : Str → X.Elem → List X.Elem → Type 0
  IsBehind a region mems =
      (virtual_address : Str) × (size_text : Str) × (start : Value) × (size : Value) × (end : Value)
      × All (IsAt virtual_address) mems
      × (X.get region (codes "size") ≡ some size_text)
      × (ada_hex_to_int virtual_address ≡ ok start)
      × (ada_hex_to_int size_text ≡ ok size)
      × (sum_of start size ≡ ok end)
      × (int_to_ada_hex end ≡ ok a)

  -- The mappings of a region in the subjects
  abbrev pub mappings : X.Elem → Str → List X.Elem
  mappings xml_spec name =
      X.xpath xml_spec
        (codes "/system/subjects/subject/memory/memory[@physical='" ++ (lower name ++ codes "']"))

  -- The only region is mapped, and the address is behind it.
  abbrev pub IsAdjacent : X.Elem → Str → Type 0
  IsAdjacent xml_spec a =
      (region : X.Elem) × (name : Str) × (first : X.Elem) × (mems : List X.Elem) × (X.xpath xml_spec
          (codes "/system/memory/memory[@type='subject_initrd']")
        ≡ region ∷ [])
      × (X.get region (codes "name") ≡ some name)
      × (mappings xml_spec name ≡ first ∷ mems)
      × IsBehind a region (first ∷ mems)

  check_mappings-IsAt :
      (virtual_address : Str) (mems : List X.Elem) (flags r : Str × Str)
      → check_mappings X virtual_address mems flags ≡ ok (some r)
      → All (IsAt virtual_address) mems
  unfolding check_mappings
  check_mappings-IsAt va [] flags r h = tt
  check_mappings-IsAt va (m ∷ mems) (ex, wr) r h =
      let (a, ha, h₁) = >>=-eq-ok (attrib (X.get m (codes "virtualAddress"))) _ h in
      let (at_va, h₂) = guarded X (a == va) _ h₁ in
      let (x, _, h₃) = >>=-eq-ok (and_then ex (attrib (X.get m (codes "executable")))) _ h₂ in
      let (y, _, h₄) = >>=-eq-ok (and_then wr (attrib (X.get m (codes "writable")))) _ h₃ in
      (
        attrib-eq-ok X _ ha ∙ ap some ((list_beq_iff a va).0 at_va),
        check_mappings-IsAt va mems (x, y) r h₄,
      )

  adjacent-address :
      (va : Str) (size : Value) (flags : Option (Str × Str)) (attrs : Attrs) (a : Str)
      → adjacent X va size flags ≡ ok (some attrs)
      → attrs.address ≡ some a
      → (r : Str × Str) × (start : Value) × (end : Value) × (flags ≡ some r)
        × (ada_hex_to_int va ≡ ok start)
        × (sum_of start size ≡ ok end)
        × (int_to_ada_hex end ≡ ok a)
  adjacent-address va size none attrs a h e =
      let w : some no_attrs ≡ some attrs = ok_injective _ _ h in
      let q : no_attrs ≡ attrs = cc in
      let n : none ≡ some a = ap (λ (t : Attrs). t.address) q ∙ e in cc
  adjacent-address va size (some (x, y)) attrs a h e =
      let (start, i, h₁) = >>=-eq-ok (ada_hex_to_int va) _ h in
      let (end, j, h₂) = >>=-eq-ok (sum_of start size) _ h₁ in
      let (b, k, h₃) = >>=-eq-ok (int_to_ada_hex end) _ h₂ in
      let w = ok_injective _ (some attrs) h₃ in
      let n : some b ≡ some a =
        ap (λ (t : Option Attrs). elim t [ none ↦ none | some s ↦ s.address ]) w ∙ e in
      let q : b ≡ a = cc in ((x, y), start, end, refl, i, j, k ∙ ap ok q)

  mapped_attrs-address :
      (region : X.Elem) (mems : List X.Elem) (attrs : Attrs) (a : Str)
      → mapped_attrs X region mems ≡ ok (some attrs)
      → attrs.address ≡ some a
      → (default_attrs ≡ attrs)
        ⊎ ((first : X.Elem) × (rest : List X.Elem) × (mems ≡ first ∷ rest)
            × IsBehind a region (first ∷ rest))
  unfolding mapped_attrs
  mapped_attrs-address region [] attrs a h e =
      let w : some default_attrs ≡ some attrs = ok_injective _ _ h in inl cc
  mapped_attrs-address region (first ∷ rest) attrs a h e =
      let (size_text, i, h₁) = >>=-eq-ok (attrib (X.get region (codes "size"))) _ h in
      let (size, j, h₂) = >>=-eq-ok (ada_hex_to_int size_text) _ h₁ in
      let (va, k, h₃) = >>=-eq-ok (attrib (X.get first (codes "virtualAddress"))) _ h₂ in
      let (ex, l, h₄) = >>=-eq-ok (attrib (X.get first (codes "executable"))) _ h₃ in
      let (wr, m, h₅) = >>=-eq-ok (attrib (X.get first (codes "writable"))) _ h₄ in
      let (flags, n, h₆) = >>=-eq-ok (check_mappings X va (first ∷ rest) (ex, wr)) _ h₅ in
      let (r, start, end, f, p, q, u) = adjacent-address va size flags attrs a h₆ e in
      inr (
        first,
        rest,
        refl,
        (
          va,
          size_text,
          start,
          size,
          end,
          check_mappings-IsAt va (first ∷ rest) (ex, wr) r (n ∙ ap ok f),
          attrib-eq-ok X _ i,
          p,
          j,
          q,
          u,
        ),
      )

  attrs_of-address :
      (xml_spec : X.Elem) (regions : List X.Elem) (attrs : Attrs) (a : Str)
      → X.xpath xml_spec (codes "/system/memory/memory[@type='subject_initrd']") ≡ regions
      → attrs_of X xml_spec regions ≡ ok (some attrs)
      → attrs.address ≡ some a
      → (default_attrs ≡ attrs) ⊎ IsAdjacent xml_spec a
  unfolding attrs_of
  attrs_of-address xml_spec [] attrs a c h e =
      let w : some default_attrs ≡ some attrs = ok_injective _ _ h in inl cc
  attrs_of-address xml_spec (region ∷ []) attrs a c h e =
      let (name, i, k) = >>=-eq-ok (attrib (X.get region (codes "name"))) _ h in
      elim (mapped_attrs-address region (mappings xml_spec name) attrs a k e) [
        | inl d ↦ inl d
        | inr (first, rest, m, b) ↦ inr (region, name, first, rest, c, attrib-eq-ok X _ i, m, b)
      ]
  attrs_of-address xml_spec (region ∷ other ∷ regions) attrs a c h e =
      let w : ◌≡◌ {A = Option Attrs} none (some attrs) = ok_injective _ _ h in cc

  -- If the function returns attributes with an address, they are the default ones, or the policy has one
  -- region for an initramfs, all its mappings are at the same address, and the address that is returned is
  -- the end of the region there: the additional initramfs lies directly behind it in every subject.
  pub get_initramfs_attrs-IsAdjacent :
      (xml_spec : X.Elem) (attrs : Attrs) (a : Str)
      → get_initramfs_attrs X xml_spec ≡ ok (some attrs)
      → attrs.address ≡ some a
      → (default_attrs ≡ attrs) ⊎ IsAdjacent xml_spec a
  unfolding get_initramfs_attrs
  get_initramfs_attrs-IsAdjacent xml_spec attrs a h e =
      attrs_of-address xml_spec
        (X.xpath xml_spec (codes "/system/memory/memory[@type='subject_initrd']")) attrs a refl h e
