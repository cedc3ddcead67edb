-- ===== src/Compose/Names.antt =====
-- The channels that policy/xml/mirageos/compose.py adds at the three places.
use mathlib.Core.List.{append_assoc, append-nil}
use muen.Base.{text_of}
use muen.Base.{
  ◌≡◌, refl, sym, ap, ◌∙◌, List, [], ◌∷◌, ◌++◌, Str, codes, map, Option, some, none, ok, >>=-eq-ok,
  ℤ,
}
use muen.Base.Dict.{lookup}
use muen.Xml.{Etree, IsLawful}
use muen.Muutils.{ada_hex_to_int}
use muen.Compose.{called, phys_name, advance, physical_channel, channel_map, linux_channel, flipped}
use muen.Compose.{
  add_physical_channels, add_subject_channel_mappings, add_linux_channels_from, add_linux_channels,
}

module _ (X : Etree) (L : IsLawful X) where
  abbrev pub under : Str → List X.Elem → List (Option Str)
  under key es = map (λ e. X.get e key) es

  -- The physical name of a channel of the component, if the channel has a logical name.
  abbrev pub physical_of : Str → Option Str → Option Str
  physical_of subject_name none = none
  physical_of subject_name (some n) = some (phys_name subject_name n)

  -- The elements `new` are put behind those of `e`, with the physical names under `key`.
  pub Named : Str → Str → List X.Elem → X.Elem → X.Elem → Type 0
  Named key subject_name comp_channels e t =
      (new : List X.Elem) × (X.children t ≡ X.children e ++ new)
      × (under key new
          ≡ map (λ c. physical_of subject_name (X.get c (codes "logical"))) comp_channels)

  Named-nil : (key subject_name : Str) (e t : X.Elem) → e ≡ t → Named key subject_name [] e t
  unfolding Named
  Named-nil key subject_name e t h =
      ([], ap X.children (sym h) ∙ sym (append-nil (X.children e)), refl)

  Named-cons :
      (key subject_name : Str) (c x e t : X.Elem) (cs : List X.Elem)
      → X.get x key ≡ physical_of subject_name (X.get c (codes "logical"))
      → Named key subject_name cs (X.append e x) t
      → Named key subject_name (c ∷ cs) e t
  unfolding Named
  Named-cons key subject_name c x e t cs h (new, k, n) = (
    x ∷ new,
    k
        ∙ ap (λ (l : List X.Elem). l ++ new) (L.children-append e x)
        ∙ append_assoc (X.children e) (x ∷ []) new,
    rw (h, n),
  )

  called-eq-ok : (o : Option Str) {v : Str} → called o ≡ ok v → o ≡ some v
  called-eq-ok none h = cc
  called-eq-ok (some w) h = cc

  physical-Named :
      (subject_name : Str) (cs : List X.Elem) (e t : X.Elem)
      → add_physical_channels X subject_name cs e ≡ ok t
      → Named (codes "name") subject_name cs e t
  unfolding add_physical_channels lookup
  physical-Named subject_name [] e t h = Named-nil _ subject_name e t (cc)
  physical-Named subject_name (c ∷ cs) e t h =
      let (n, hn, h₁) = >>=-eq-ok (called (X.get c (codes "logical"))) _ h in
      let (s, hs, h₂) = >>=-eq-ok (text_of (X.get c (codes "size"))) _ h₁ in
      Named-cons (codes "name") subject_name c (physical_channel X (phys_name subject_name n) s) e t
        cs (L.get-element _ _ _ ∙ sym (ap (physical_of subject_name) (called-eq-ok _ hn)))
        (physical-Named subject_name cs _ t h₂)

  mappings-Named :
      (subject_name : Str) (cs : List X.Elem) (e t : X.Elem)
      → add_subject_channel_mappings X subject_name cs e ≡ ok t
      → Named (codes "physical") subject_name cs e t
  unfolding add_subject_channel_mappings lookup
  mappings-Named subject_name [] e t h = Named-nil _ subject_name e t (cc)
  mappings-Named subject_name (c ∷ cs) e t h =
      let (n, hn, h₁) = >>=-eq-ok (called (X.get c (codes "logical"))) _ h in
      Named-cons (codes "physical") subject_name c (channel_map X n (phys_name subject_name n)) e t
        cs (L.get-element _ _ _ ∙ sym (ap (physical_of subject_name) (called-eq-ok _ hn)))
        (mappings-Named subject_name cs _ t h₁)

  linux-Named :
      (address : ℤ) (subject_name : Str) (cs : List X.Elem) (e t : X.Elem)
      → add_linux_channels_from X address subject_name cs e ≡ ok t
      → Named (codes "physical") subject_name cs e t
  unfolding add_linux_channels_from lookup
  linux-Named address subject_name [] e t h = Named-nil _ subject_name e t (cc)
  linux-Named address subject_name (c ∷ cs) e t h =
      let (s, hs, h₁) = >>=-eq-ok (called (X.get c (codes "size"))) _ h in
      let (v, hv, h₂) = >>=-eq-ok (ada_hex_to_int s) _ h₁ in
      let (n, hn, h₃) = >>=-eq-ok (called (X.get c (codes "logical"))) _ h₂ in
      let (a, ha, h₄) = >>=-eq-ok (advance address v) _ h₃ in
      Named-cons (codes "physical") subject_name c
        (linux_channel X (flipped X (X.tag c)) n (phys_name subject_name n) address) e t cs
        (L.get-element _ _ _ ∙ sym (ap (physical_of subject_name) (called-eq-ok _ hn)))
        (linux-Named a subject_name cs _ t h₄)

  -- For every channel of the component, in their order, one physical channel is added to the policy, one
  -- mapping to the subject and one channel to the NIC Linux, all behind what was there, and the
  -- mapping and the channel of Linux refer to the physical channel by its name.
  pub add_linux_channels-add_physical_channels :
      (subject_name : Str) (comp_channels : List X.Elem)
      (channels comp linux channels' comp' linux' : X.Elem)
      → add_physical_channels X subject_name comp_channels channels ≡ ok channels'
      → add_subject_channel_mappings X subject_name comp_channels comp ≡ ok comp'
      → add_linux_channels X subject_name comp_channels linux ≡ ok linux'
      → (phys : List X.Elem) × (maps : List X.Elem) × (own : List X.Elem) × (X.children channels'
          ≡ X.children channels ++ phys)
        × (X.children comp' ≡ X.children comp ++ maps)
        × (X.children linux' ≡ X.children linux ++ own)
        × (under (codes "name") phys
            ≡ map (λ c. physical_of subject_name (X.get c (codes "logical"))) comp_channels)
        × (under (codes "physical") maps ≡ under (codes "name") phys)
        × (under (codes "physical") own ≡ under (codes "name") phys)
  unfolding add_linux_channels Named
  add_linux_channels-add_physical_channels subject_name cs channels comp linux channels' comp'
        linux' h k l =
      let (phys, a, p) = physical-Named subject_name cs channels channels' h in
      let (maps, b, q) = mappings-Named subject_name cs comp comp' k in
      let (own, c, r) = linux-Named _ subject_name cs linux linux' l in
      (phys, maps, own, a, b, c, p, q ∙ sym p, r ∙ sym p)
