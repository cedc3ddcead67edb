-- ===== src/Smpify/Devices.antt =====
-- policy/xml/smp/smpify.py, `spread_devices`: the devices of the Linux subject, handed out in turn to
-- the Linux subjects. A subject is its first section `<devices>`, or `none` without one; the devices
-- have been taken out of the first subject's section before.
use mathlib.Core.List.{append_assoc, append-nil}
use native.Mathlib.Nat.{mod-lt, suc-mod, mod_self, zero-mod, mod-eq_of_lt}
use muen.Base.{ℕ, zero, suc, ◌+◌, ◌%◌, ◌<◌, ◌≡◌, refl, sym, ap, ◌∙◌, arith, List, [], ◌∷◌, ◌++◌}
use muen.Base.{
  Option, some, none, if◌then◌else◌, eqb, length, get_elem?, map, Result, ok, err, ◌>>=◌,
  index_error, Bool-cases, inl, inr, length-map,
}
use muen.Xml.{Etree, IsLawful}

-- The index of the next turn.
abbrev next_turn : ℕ → ℕ → ℕ
next_turn cur_subj subj_max = if eqb (cur_subj + 1) subj_max then 0 else cur_subj + 1

next_turn-mod : (k m : ℕ) → 0 < m → next_turn (k % m) m ≡ suc k % m
next_turn-mod k m p = elim (Bool-cases (eqb (k % m + 1) m)) [
  | inl e ↦
      let last : suc (k % m) ≡ m = ground arith in
      rw e (sym (suc-mod k m ∙ ap (λ n. n % m) last ∙ mod_self m))
  | inr e ↦
      let below : suc (k % m) < m = ground (arith, mod-lt k p) in
      rw e (omega (arith, suc-mod k m, mod-eq_of_lt below))
]

module _ (X : Etree) where
  abbrev append_device : X.Elem → Option X.Elem → Result (Option X.Elem)
  append_device d none = err index_error
  append_device d (some section) = ok (some (X.append section d))

  -- `subjs[i].xpath("devices")[0].append(d)`
  abbrev append_at : ℕ → X.Elem → List (Option X.Elem) → Result (List (Option X.Elem))
  append_at i d [] = err index_error
  append_at zero d (s ∷ subjs) = do s' ← append_device d s; ok (s' ∷ subjs)
  append_at (suc i) d (s ∷ subjs) = do subjs' ← append_at i d subjs; ok (s ∷ subjs')

  -- The loop, with the index of the subject whose turn it is.
  unfoldable pub spread_from :
      ℕ → List X.Elem → List (Option X.Elem) → Result (List (Option X.Elem))
  spread_from cur_subj [] subjs = ok subjs
  spread_from cur_subj (d ∷ devs) subjs =
      let next = next_turn cur_subj (length subjs) in
      do subjs' ← append_at cur_subj d subjs; spread_from next devs subjs'

  unfoldable pub spread_devices : List X.Elem → List (Option X.Elem) → Result (List (Option X.Elem))
  spread_devices devs subjs = spread_from 0 devs subjs

  -- The items of a list whose place, counted from `k`, leaves the rest `j` when divided by `m`.
  pub every : ℕ → ℕ → ℕ → List X.Elem → List X.Elem
  every m j k [] = []
  every m j k (x ∷ xs) = if eqb (k % m) j then x ∷ every m j (suc k) xs else every m j (suc k) xs

  get_elem-length :
      (ss : List X.Elem) (j : ℕ) (s : X.Elem) → get_elem? ss j ≡ some s → 0 < length ss
  get_elem-length [] j s h = cc
  get_elem-length (t ∷ ss) j s h = omega arith

  abbrev pub sections : List X.Elem → List (Option X.Elem)
  sections ss = map some ss

  set_at : ℕ → X.Elem → List X.Elem → List X.Elem
  set_at i d [] = []
  set_at zero d (s ∷ ss) = X.append s d ∷ ss
  set_at (suc i) d (s ∷ ss) = s ∷ set_at i d ss

  append_at-set_at :
      (i : ℕ) (d : X.Elem) (ss : List X.Elem)
      → i < length ss
      → append_at i d (sections ss) ≡ ok (sections (set_at i d ss))
  unfolding set_at
  append_at-set_at i d [] h = absurd (omega arith)
  append_at-set_at zero d (s ∷ ss) h = refl
  append_at-set_at (suc i) d (s ∷ ss) h = rw (append_at-set_at i d ss (omega arith))

  length-set_at : (i : ℕ) (d : X.Elem) (ss : List X.Elem) → length (set_at i d ss) ≡ length ss
  unfolding set_at
  length-set_at i d [] = refl
  length-set_at zero d (s ∷ ss) = refl
  length-set_at (suc i) d (s ∷ ss) = ap suc (length-set_at i d ss)

  get-set_at :
      (i j : ℕ) (d : X.Elem) (ss : List X.Elem) (s : X.Elem)
      → get_elem? ss j ≡ some s
      → get_elem? (set_at i d ss) j ≡ some (if eqb i j then X.append s d else s)
  unfolding set_at
  get-set_at i j d [] s h = cc
  get-set_at zero zero d (s ∷ ss) t h = ground arith
  get-set_at zero (suc j) d (s ∷ ss) t h = ground arith
  get-set_at (suc i) zero d (s ∷ ss) t h = ground arith
  get-set_at (suc i) (suc j) d (s ∷ ss) t h = ground (arith, get-set_at i j d ss t)

  module _ (L : IsLawful X) where
    turn_lem :
        (s d : X.Elem) (j k cur m : ℕ) (devs : List X.Elem)
        → cur ≡ k % m
        → X.children (if eqb cur j then X.append s d else s) ++ every m j (suc k) devs
          ≡ X.children s ++ every m j k (d ∷ devs)
    unfolding every
    turn_lem s d j k cur m devs c = elim (Bool-cases (eqb (k % m) j)) [
      | inl y ↦
          rw (c, y)
            (ap (λ (l : List X.Elem). l ++ every m j (suc k) devs) (L.children-append s d)
              ∙ append_assoc (X.children s) (d ∷ []) (every m j (suc k) devs))
      | inr n ↦ rw (c, n)
    ]

    spread_from_lem :
        (k cur m : ℕ) (devs ss : List X.Elem)
        → length ss ≡ m
        → cur ≡ k % m
        → 0 < m
        → (ss' : List X.Elem) × (spread_from cur devs (sections ss) ≡ ok (sections ss'))
          × (length ss' ≡ m)
          × ((j : ℕ) (s : X.Elem)
              → get_elem? ss j ≡ some s
              → (s' : X.Elem) × (get_elem? ss' j ≡ some s')
                × (X.children s' ≡ X.children s ++ every m j k devs))
    unfolding spread_from every
    spread_from_lem k cur m [] ss l c p =
        (ss, refl, l, λ j s g. (s, g, sym (append-nil (X.children s))))
    spread_from_lem k cur m (d ∷ devs) ss l c p =
        let ss₁ = set_at cur d ss in
        let next = next_turn cur m in
        let turn : cur < length ss = omega (arith, mod-lt k p) in
        let next_lem : next ≡ suc k % m = ap (λ i. next_turn i m) c ∙ next_turn-mod k m p in
        let (ss', e, l', g) =
          spread_from_lem (suc k) next m devs ss₁ (length-set_at cur d ss ∙ l) next_lem p in
        (
          ss',
          rw (append_at-set_at cur d ss turn, length-map (λ (x : X.Elem). some x) ss ∙ l) e,
          l',
          λ j s h.
              let (s', g', c') =
                g j (if eqb cur j then X.append s d else s) (get-set_at cur j d ss s h) in
              (s', g', c' ∙ turn_lem s d j k cur m devs c),
        )

    -- With a section for devices in every subject, `spread_devices` puts the device at place `i` into the
    -- section of the subject at place `i % m`, where `m` is the number of subjects, behind what was
    -- there and in the devices' order: said of the subject at place `j`.
    pub spread_devices-every :
        (devs ss : List X.Elem) (j : ℕ) (s : X.Elem)
        → get_elem? ss j ≡ some s
        → (ss' : List X.Elem) × (s' : X.Elem) × (spread_devices devs (sections ss)
            ≡ ok (sections ss'))
          × (length ss' ≡ length ss)
          × (get_elem? ss' j ≡ some s')
          × (X.children s' ≡ X.children s ++ every (length ss) j 0 devs)
    unfolding spread_devices
    spread_devices-every devs ss j s h =
        let p = get_elem-length ss j s h in
        let (ss', e, l, g) =
          spread_from_lem 0 0 (length ss) devs ss refl (sym (zero-mod (length ss))) p in
        let (s', h', c) = g j s h in (ss', s', e, l, h', c)
