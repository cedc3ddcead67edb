-- ===== src/DocTransfer/Expansion/View.antt =====
-- The structure as a map from paths to lists of nodes, and one level of an insertion.
use mathlib.Core.List.{append-nil}
use muen.Base.{ℕ, ◌+◌, List, [], ◌∷◌, ◌++◌, Option, none, some, Str}
use muen.Base.{
  ◌≡◌, refl, ◌∙◌, arith, list_eq, nat_eq, ◌==◌, list_beq_iff, if◌then◌else◌, Bool-cases,
}
use muen.Base.{inl, inr, replicate, Result, ok, sym}
use muen.DocTransfer.Expansion.{
  Expansion, expansion, Children, no_children, child, blank, include_new_child, update_child,
  insert_under,
}

module _ {E : Type 0} where
  unfoldable pub get_child : Str → Children E → Option (Expansion E)
  get_child s no_children = none
  get_child s (child k e cs) = if k == s then some e else get_child s cs

  abbrev or_blank : Option (Expansion E) → Expansion E
  or_blank none = blank
  or_blank (some e) = e

  -- The new leaves at a path of keys.
  unfoldable pub leaves_at : List Str → Expansion E → List E
  unfolding get_child
  leaves_at [] (expansion leaves cs) = leaves
  leaves_at (s ∷ p) (expansion leaves cs) = leaves_at p (or_blank (get_child s cs))

  pub leaves_at-blank : (p : List Str) → leaves_at p (blank {E = E}) ≡ []
  unfolding leaves_at
  leaves_at-blank [] = refl
  leaves_at-blank (s ∷ p) = leaves_at-blank p

  get_child-include :
      (s j : Str) (cs : Children E)
      → get_child j (include_new_child s cs)
        ≡ (if s == j then some (or_blank (get_child s cs)) else get_child j cs)
  unfolding get_child include_new_child
  get_child-include s j no_children = refl
  get_child-include s j (child k e cs) =
      ground (arith, list_beq_iff k s, list_beq_iff k j, list_beq_iff s j, get_child-include s j cs)

  update_child-returns :
      (s : Str) (f : Expansion E → Result (Expansion E)) (cs : Children E) {e e' : Expansion E}
      → get_child s cs ≡ some e
      → f e ≡ ok e'
      → (cs' : Children E) × (update_child s f cs ≡ ok cs')
        × ((j : Str) → get_child j cs' ≡ (if s == j then some e' else get_child j cs))
  unfolding get_child update_child
  update_child-returns s f no_children found run = cc
  update_child-returns s f (child k e cs) {e' = e'} found run = elim (Bool-cases (k == s)) [
    | inl same ↦ (
      child k e' cs,
      ground arith,
      λ j. ground (arith, list_beq_iff k s, list_beq_iff k j, list_beq_iff s j),
    )
    | inr other ↦
        let (cs', r, view) = update_child-returns s f cs (ground arith) run in
        (
          child k e cs',
          ground arith,
          λ j. ground (arith, view j, list_beq_iff k s, list_beq_iff k j, list_beq_iff s j),
        )
  ]

-- `f` puts `node` at each path as often as `k` says, and changes nothing else.
abbrev pub Puts : {E : Type 0} → E → (Expansion E → Result (Expansion E)) → (List Str → ℕ) → Type 0
Puts {E} node f k =
    (e : Expansion E)
    → (t : Expansion E) × (f e ≡ ok t)
      × ((p : List Str) → leaves_at p t ≡ leaves_at p e ++ replicate (k p) node)

-- The paths that go on under the key `s`.
abbrev pub below : Str → (List Str → ℕ) → List Str → ℕ
below s k [] = 0
below s k (j ∷ p) = if s == j then k p else 0

-- The paths that go on under one of several keys.
abbrev pub below_all : List Str → (List Str → ℕ) → List Str → ℕ
below_all [] k p = 0
below_all (s ∷ ss) k p = below s k p + below_all ss k p

module _ {E : Type 0} (node : E) where
  pub insert_under-Puts :
      (s : Str) (f : Expansion E → Result (Expansion E)) (k : List Str → ℕ)
      → Puts node f k
      → Puts node (insert_under s f) (below s k)
  unfolding insert_under leaves_at
  insert_under-Puts s f k h (expansion leaves cs) =
      let old = or_blank (get_child s cs) in
      let (e', run, view) = h old in
      let (cs', r, seen) =
        update_child-returns s f (include_new_child s cs) {e = old}
          (get_child-include s s cs ∙ ground (arith, list_beq_iff s s)) run in
      (
        expansion leaves cs',
        rw r,
        elim [
          | [] ↦ sym (append-nil leaves)
          | j ∷ p ↦ ground (
            arith,
            seen j,
            view p,
            list_beq_iff s j,
            get_child-include s j cs,
            append-nil (leaves_at p (or_blank (get_child j cs))),
          )
        ],
      )
