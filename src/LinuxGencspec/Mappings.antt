-- ===== src/LinuxGencspec/Mappings.antt =====
-- The flags that components/linux/misc/linux-muen-gencspec.py takes from the mappings of an initramfs.
use muen.Base.{
  ◌≡◌, ◌≢◌, refl, ap, ◌∙◌, Bool, true, false, not, List, [], ◌∷◌, ◌++◌, Str, codes, Option, some,
  none,
}
use muen.Base.{Result, ok, >>=-eq-ok, ◌==◌, list_eq, nat_eq, All, list_beq_iff, if◌then◌else◌}
use muen.Xml.{Etree}
use muen.LinuxGencspec.{attrib, and_then, check_mappings}

module _ (X : Etree) where
  -- A mapping whose flags are no empty texts.
  abbrev pub HasFlags : X.Elem → Type 0
  HasFlags m = (X.get m (codes "executable") ≢ some []) × (X.get m (codes "writable") ≢ some [])

  pub attrib-eq-ok : (o : Option Str) {v : Str} → attrib o ≡ ok v → o ≡ some v
  attrib-eq-ok none h = cc
  attrib-eq-ok (some w) h = cc

  and_then-eq-ok :
      (s : Str) (o : Option Str) {v : Str}
      → s ≢ []
      → o ≢ some []
      → and_then s (attrib o) ≡ ok v
      → (o ≡ some v) × (v ≢ [])
  and_then-eq-ok [] o n m h = absurd (n refl)
  and_then-eq-ok (c ∷ s) o n m h = let e = attrib-eq-ok o h in (e, λ z. m (e ∙ ap some z))

  pub guarded :
      (b : Bool) (q : Result (Option (Str × Str))) {r : Str × Str}
      → (if not b then ok none else q) ≡ ok (some r)
      → (b ≡ true) × (q ≡ ok (some r))
  guarded true q h = (refl, h)
  guarded false q h = cc

  -- One round of the loop that is not the last.
  check_mappings_step :
      (virtual_address : Str) (m : X.Elem) (mems : List X.Elem) (executable writable : Str)
      (r : Str × Str)
      → executable ≢ []
      → writable ≢ []
      → HasFlags m
      → check_mappings X virtual_address (m ∷ mems) (executable, writable) ≡ ok (some r)
      → (x : Str) × (y : Str) × (X.get m (codes "executable") ≡ some x)
        × (x ≢ [])
        × (X.get m (codes "writable") ≡ some y)
        × (y ≢ [])
        × (X.get m (codes "virtualAddress") ≡ some virtual_address)
        × (check_mappings X virtual_address mems (x, y) ≡ ok (some r))
  unfolding check_mappings
  check_mappings_step va m mems ex wr r ne nw (me, mw) h =
      let (a, ha, h₁) = >>=-eq-ok (attrib (X.get m (codes "virtualAddress"))) _ h in
      let (at_va, h₂) = guarded (a == va) _ h₁ in
      let (x, hx, h₃) = >>=-eq-ok (and_then ex (attrib (X.get m (codes "executable")))) _ h₂ in
      let (y, hy, h₄) = >>=-eq-ok (and_then wr (attrib (X.get m (codes "writable")))) _ h₃ in
      let (gx, nx) = and_then-eq-ok ex (X.get m (codes "executable")) ne me hx in
      let (gy, ny) = and_then-eq-ok wr (X.get m (codes "writable")) nw mw hy in
      (x, y, gx, nx, gy, ny, attrib-eq-ok _ ha ∙ ap some ((list_beq_iff a va).0 at_va), h₄)

  ok_some : {p q : Str × Str} → ok (some p) ≡ ok (some q) → p ≡ q
  ok_some h = cc

  -- The flags that the loop returns for mappings with flags are those of the last mapping alone, and all
  -- mappings are at the given address.
  pub check_mappings-last :
      (virtual_address : Str) (mems : List X.Elem) (last : X.Elem) (executable writable e w : Str)
      → executable ≢ []
      → writable ≢ []
      → All HasFlags mems
      → HasFlags last
      → check_mappings X virtual_address (mems ++ last ∷ []) (executable, writable)
        ≡ ok (some (e, w))
      → (X.get last (codes "executable") ≡ some e)
        × (X.get last (codes "writable") ≡ some w)
        × (X.get last (codes "virtualAddress") ≡ some virtual_address)
        × All (λ m. X.get m (codes "virtualAddress") ≡ some virtual_address) mems
  unfolding check_mappings
  check_mappings-last va [] last ex wr e w ne nw hs hl h =
      let (x, y, gx, nx, gy, ny, ga, k) = check_mappings_step va last [] ex wr (e, w) ne nw hl h in
      (
        gx ∙ ap (λ (r : Str × Str). some r.0) (ok_some k),
        gy ∙ ap (λ (r : Str × Str). some r.1) (ok_some k),
        ga,
        tt,
      )
  check_mappings-last va (m ∷ mems) last ex wr e w ne nw (hm, hs) hl h =
      let (x, y, gx, nx, gy, ny, ga, k) =
        check_mappings_step va m (mems ++ last ∷ []) ex wr (e, w) ne nw hm h in
      let (le, lw, la, all) = check_mappings-last va mems last x y e w nx ny hs hl k in
      (le, lw, la, (ga, all))
