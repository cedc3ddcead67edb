-- ===== src/Solo5/Channels/Layout.antt =====
-- What the loop over the devices of tools/scripts/solo5-muen-gencspec.py leaves in the specification.
use mathlib.Core.List.{append_assoc, append-nil}
use muen.Base.{
  ℕ, suc, ◌+◌, ◌<◌, ◌≡◌, refl, sym, ap, ◌∙◌, arith, true, false, List, [], ◌∷◌, ◌++◌, codes,
}
use muen.Base.{any, length, eqb, select, Bool-cases, inl, inr, some, length-append}
use muen.Xml.{Etree, IsLawful, has_tag}
use muen.Solo5.Channels.{
  Device, is_net, chan_size, Channels, nodes, section_with, Loop, reader_of, writer_of,
}
use muen.Solo5.Channels.{
  append_to, add_channel, closed, add_section, add_device, add_devices, without_first, first_of,
}

module _ (X : Etree) where
  -- The channels of devices, side by side from an address on.
  pub channels_from : List Device → ℕ → List X.Elem
  channels_from [] address = []
  channels_from (dev ∷ devs) address =
      reader_of X (dev.name) address
      ∷ writer_of X (dev.name) (address + chan_size)
      ∷ channels_from devs (address + chan_size + chan_size)

  abbrev loop : X.Elem → Channels X.Elem → ℕ → Loop X.Elem
  loop r c a = record { requires = r; channels = c; chan_addr = a }

  -- If the specification has a section for channels before the loop, then the loop does not change the
  -- specification: the channels are appended to the list that the path has found, not to the section.
  pub add_devices-nodes :
      (devs : List Device) (requires e : X.Elem) (es : List X.Elem) (a : ℕ)
      → closed X (
          add_devices X devs
            (record { requires = requires; channels = nodes (e ∷ es); chan_addr = a }))
        ≡ requires
  unfolding add_devices add_device closed add_channel append_to
  add_devices-nodes [] requires e es a = refl
  add_devices-nodes (dev ∷ devs) requires e es a = elim (Bool-cases (is_net dev)) [
    | inl net ↦
        let none_new : eqb (suc (length es)) 0 ≡ false = ground arith in
        rw (net, none_new)
          (add_devices-nodes devs requires e
            (es ++ reader_of X (dev.name) a ∷ [] ++ writer_of X (dev.name) (a + chan_size) ∷ [])
            (a + chan_size + chan_size))
    | inr other ↦ rw other (add_devices-nodes devs requires e es a)
  ]

  module _ (L : IsLawful X) where
    -- With a section that the script has made, the channels of the devices go to its end.
    add_devices-section :
        (devs : List Device) (requires e : X.Elem) (behind : List X.Elem) (a : ℕ)
        → 0 < length (X.children e)
        → (e' : X.Elem) × (closed X (add_devices X devs (loop requires (section_with e behind) a))
            ≡ X.set_children requires (X.children requires ++ e' ∷ behind))
          × (X.children e' ≡ X.children e ++ channels_from (select is_net devs) a)
          × (X.tag e' ≡ X.tag e)
    unfolding add_devices add_device add_channel append_to channels_from closed
    add_devices-section [] requires e behind a n = (e, refl, sym (append-nil (X.children e)), refl)
    add_devices-section (dev ∷ devs) requires e behind a n = elim (Bool-cases (is_net dev)) [
      | inl net ↦
          let r = reader_of X (dev.name) a in
          let w = writer_of X (dev.name) (a + chan_size) in
          let e₂ = X.append (X.append e r) w in
          let two : X.children e₂ ≡ X.children e ++ r ∷ [] ++ w ∷ [] =
            rw (L.children-append, L.children-append) in
          let none_new : eqb (length (X.children e)) 0 ≡ false = ground arith in
          let (e', c, d, t) =
            add_devices-section devs requires e₂ behind (a + chan_size + chan_size) (
              rw two (
                omega (
                  arith,
                  length-append (X.children e ++ r ∷ []) (w ∷ []),
                  length-append (X.children e) (r ∷ []),
                ))) in
          rw (net, none_new)
            (
              e',
              c,
              d
                  ∙ ap
                      (λ (l : List X.Elem).
                        l ++ channels_from (select is_net devs) (a + chan_size + chan_size))
                      two
                  ∙ append_assoc (X.children e ++ r ∷ []) (w ∷ []) _
                  ∙ append_assoc (X.children e) (r ∷ []) _,
              t ∙ L.tag-append _ _ ∙ L.tag-append _ _,
            )
      | inr other ↦ rw other (add_devices-section devs requires e behind a n)
    ]

    -- If the specification has no section for channels and some device is a network device, then the
    -- loop puts one section behind the other elements of `<requires>`, or in front of `<devices>`
    -- alone: it holds a reader and a writer for every network device, in their order, the addresses
    -- side by side from the given one.
    pub add_devices-channels_from :
        (devs : List Device) (requires : X.Elem) (a : ℕ)
        → any is_net devs ≡ true
        → let moved = first_of (X.find requires (codes "devices")) in
          (e : X.Elem) × (X.children (
              closed X (
                add_devices X devs
                  (record { requires = requires; channels = nodes []; chan_addr = a })))
            ≡ without_first (has_tag X (codes "devices")) (X.children requires) ++ e ∷ moved)
          × (X.children e ≡ channels_from (select is_net devs) a)
          × (X.tag e ≡ some (codes "channels"))
    unfolding add_devices add_device add_channel append_to channels_from closed add_section
    add_devices-channels_from [] requires a h = cc
    add_devices-channels_from (dev ∷ devs) requires a h = elim (Bool-cases (is_net dev)) [
      | inl net ↦
          let new = X.element (codes "channels") [] in
          let r = reader_of X (dev.name) a in
          let w = writer_of X (dev.name) (a + chan_size) in
          let e₂ = X.append (X.append new r) w in
          let req =
            X.set_children requires
              (without_first (has_tag X (codes "devices")) (X.children requires)) in
          let two : X.children e₂ ≡ r ∷ w ∷ [] =
            rw (L.children-append, L.children-append, L.children-element) in
          let (e', c, d, t) =
            add_devices-section devs req e₂ (first_of (X.find requires (codes "devices")))
              (a + chan_size + chan_size) (rw two (omega arith)) in
          rw net (
            e',
            ap X.children c
                ∙ L.children-set_children _ _
                ∙ ap (λ (l : List X.Elem). l ++ e' ∷ first_of (X.find requires (codes "devices")))
                    (L.children-set_children _ _),
            d
                ∙ ap
                    (λ (l : List X.Elem).
                      l ++ channels_from (select is_net devs) (a + chan_size + chan_size))
                    two,
            t ∙ L.tag-append _ _ ∙ L.tag-append _ _ ∙ L.tag-element _ _,
          )
      | inr other ↦ rw other (add_devices-channels_from devs requires a (ground (arith, other)))
    ]
