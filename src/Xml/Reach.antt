-- ===== src/Xml/Reach.antt =====
-- When a path of `Steps` selects something, and what it selects after an update behind it.
use mathlib.Core.List.{flat_map}
use muen.Base.{Bool, true, false, ◌&&◌, ◌||◌, List, [], ◌∷◌, ◌++◌, Option, none, some}
use muen.Base.{select, any, ◌≡◌, refl, ap, ◌∙◌, arith, length, leb, option_eq, list_eq}
use muen.Base.{if◌then◌else◌, inl, inr, nat_eq, codes}
use muen.Xml.{Etree, IsLawful}
use muen.Xml.Paths.{keep, replace_or, update_first, set_in}
use muen.Xml.Chosen.{set_in-some, chosen}
use muen.Xml.Steps.{Step, step_test, walk, reaches, update_walk, is_local, is_named}

abbrev pub is_some {ℓ} : {A : Type ℓ} → Option A → Bool
is_some o = elim o [ none ↦ false | some a ↦ true ]

pub any-append {ℓ} :
    {A : Type ℓ} (p : A → Bool) (xs ys : List A) → any p (xs ++ ys) ≡ (any p xs || any p ys)
any-append p [] ys = refl
any-append p (x ∷ xs) ys = ground (arith, any-append p xs ys)

any-select {ℓ} :
    {A : Type ℓ} (p q : A → Bool) (xs : List A) → any p (select q xs) ≡ any (λ c. q c && p c) xs
any-select p q [] = refl
any-select p q (x ∷ xs) = ground (arith, any-select p q xs)

any-flat_map {ℓ} :
    {A : Type ℓ} (p q : A → Bool) (f : A → List A) (xs : List A)
    → ((a : A) → any p (f a) ≡ q a)
    → any p (flat_map f xs) ≡ any q xs
unfolding flat_map
any-flat_map p q f [] h = refl
any-flat_map p q f (x ∷ xs) h =
    ground (arith, h x, any-append p (f x) (flat_map f xs), any-flat_map p q f xs h)

module _ (X : Etree) where
  walk-reaches :
      (ss : List Step) (es : List X.Elem) → leb 1 (length (walk X ss es)) ≡ any (reaches X ss) es
  unfolding reaches
  walk-reaches [] [] = refl
  walk-reaches [] (e ∷ es) = ground arith
  walk-reaches (s ∷ ss) es =
      walk-reaches ss (flat_map (λ e. select (step_test X s) (X.children e)) es)
      ∙ any-flat_map (reaches X ss) (reaches X (s ∷ ss)) _ es
          (λ a. any-select (reaches X ss) (step_test X s) (X.children a))

  -- `len(root.xpath(path)) >= 1`
  pub walk_one :
      (ss : List Step) (e : X.Elem) → leb 1 (length (walk X ss (e ∷ []))) ≡ reaches X ss e
  walk_one ss e = ground (arith, walk-reaches ss (e ∷ []))

  module _ (L : IsLawful X) where
    pub step_test-set_children :
        (s : Step) (e : X.Elem) (cs : List X.Elem)
        → step_test X s (X.set_children e cs) ≡ step_test X s e
    step_test-set_children s e cs =
        ap (λ t. is_local s.local t && is_named s.name (X.get (X.set_children e cs) (codes "name")))
          (L.tag-set_children e cs)
        ∙ ap (λ v. is_local s.local (X.tag e) && is_named s.name v)
            (L.get-set_children e cs (codes "name"))

    pub reaches-set_children :
        (s : Step) (ss : List Step) (e : X.Elem) (cs : List X.Elem)
        → reaches X (s ∷ ss) (X.set_children e cs) ≡ any (λ c. step_test X s c && reaches X ss c) cs
    unfolding reaches
    reaches-set_children s ss e cs =
        ap (any (λ c. step_test X s c && reaches X ss c)) (L.children-set_children e cs)

    -- The update of a part of an element that no test looks at
    module _ (f : X.Elem → X.Elem)
        (keeps : (s : Step) (c : X.Elem) → step_test X s (f c) ≡ step_test X s c) where
      pub step_test-update :
          (s : Step) (ss : List Step) (e e' : X.Elem)
          → update_walk X ss f e ≡ some (tt, e')
          → step_test X s e' ≡ step_test X s e
      unfolding update_walk
      step_test-update s [] e e' h = let q : f e ≡ e' = cc in rw (← q) (keeps s e)
      step_test-update s (r ∷ ss) e e' h =
          let (cs, m, q) =
            set_in-some X e e' (update_first X (update_walk X ss f) (step_test X r) (X.children e))
              h in
          rw (← q) (step_test-set_children s e cs)

      update_first-any :
          (p : X.Elem → Bool) (s : Step) (ss : List Step) (cs ds : List X.Elem)
          → ((c c' : X.Elem) → update_walk X ss f c ≡ some (tt, c') → p c' ≡ true)
          → update_first X (update_walk X ss f) (step_test X s) cs ≡ some (tt, ds)
          → any (λ c. step_test X s c && p c) ds ≡ true
      update_first-any p s ss [] ds h e = cc
      update_first-any p s ss (c ∷ cs) ds h e =
          elim (chosen X (step_test X s c) c cs ds (update_walk X ss f c) _ e) [
            | inl (c', b, o, q) ↦ rw q (ground (arith, b, h c c' o, step_test-update s ss c c' o))
            | inr (es, r, q) ↦ rw q (ground (arith, update_first-any p s ss cs es h r))
          ]

      -- A path selects something behind what was updated, if it does so in every updated element.
      pub reaches-update :
          (ss rest : List Step) (e e' : X.Elem)
          → ((c : X.Elem) → reaches X rest (f c) ≡ true)
          → update_walk X ss f e ≡ some (tt, e')
          → reaches X (ss ++ rest) e' ≡ true
      unfolding update_walk reaches
      reaches-update [] rest e e' h u = let q : f e ≡ e' = cc in rw (← q) (h e)
      reaches-update (s ∷ ss) rest e e' h u =
          let (cs, m, q) =
            set_in-some X e e' (update_first X (update_walk X ss f) (step_test X s) (X.children e))
              u in
          rw (← q) (
            reaches-set_children s (ss ++ rest) e cs
            ∙ update_first-any (reaches X (ss ++ rest)) s ss (X.children e) cs
                (λ c c'. reaches-update ss rest c c' h) m)

      update_first-tests :
          (r s : Step) (ss : List Step) (cs ds : List X.Elem)
          → update_first X (update_walk X ss f) (step_test X s) cs ≡ some (tt, ds)
          → any (λ c. step_test X r c && true) ds ≡ any (λ c. step_test X r c && true) cs
      update_first-tests r s ss [] ds e = cc
      update_first-tests r s ss (c ∷ cs) ds e =
          elim (chosen X (step_test X s c) c cs ds (update_walk X ss f c) _ e) [
            | inl (c', b, o, q) ↦ rw q (ground (arith, step_test-update r ss c c' o))
            | inr (es, m, q) ↦ rw q (ground (arith, update_first-tests r s ss cs es m))
          ]

      -- Which steps the children of an element pass is what it was.
      pub reaches_one-update :
          (r s : Step) (ss : List Step) (e e' : X.Elem)
          → update_walk X (s ∷ ss) f e ≡ some (tt, e')
          → reaches X (r ∷ []) e' ≡ reaches X (r ∷ []) e
      unfolding update_walk reaches
      reaches_one-update r s ss e e' u =
          let (cs, m, q) =
            set_in-some X e e' (update_first X (update_walk X ss f) (step_test X s) (X.children e))
              u in
          rw (← q) (reaches-set_children r [] e cs ∙ update_first-tests r s ss (X.children e) cs m)

  is_some-set_in :
      (e : X.Elem) (o : Option (Unit {0} × List X.Elem)) → is_some (set_in X e o) ≡ is_some o
  is_some-set_in e none = refl
  is_some-set_in e (some (tt, cs)) = refl

  is_some-chosen :
      (b : Bool) (c : X.Elem) (cs : List X.Elem) (o : Option (Unit {0} × X.Elem))
      (rest : Option (Unit {0} × List X.Elem))
      → is_some (if b then replace_or X cs o (keep X c rest) else keep X c rest)
        ≡ ((b && is_some o) || is_some rest)
  is_some-chosen false c cs o none = refl
  is_some-chosen false c cs o (some (tt, ds)) = refl
  is_some-chosen true c cs none none = refl
  is_some-chosen true c cs none (some (tt, ds)) = refl
  is_some-chosen true c cs (some (tt, d)) rest = refl

  is_some-update_first :
      (g : X.Elem → Option (Unit {0} × X.Elem)) (p test : X.Elem → Bool) (cs : List X.Elem)
      → ((c : X.Elem) → is_some (g c) ≡ p c)
      → is_some (update_first X g test cs) ≡ any (λ c. test c && p c) cs
  is_some-update_first g p test [] h = refl
  is_some-update_first g p test (c ∷ cs) h =
      is_some-chosen (test c) c cs (g c) (update_first X g test cs)
      ∙ ground (arith, h c, is_some-update_first g p test cs h)

  -- The update succeeds where the path selects something, and only there.
  pub is_some-update_walk :
      (f : X.Elem → X.Elem) (ss : List Step) (e : X.Elem)
      → is_some (update_walk X ss f e) ≡ reaches X ss e
  unfolding update_walk reaches
  is_some-update_walk f [] e = refl
  is_some-update_walk f (s ∷ ss) e =
      is_some-set_in e (update_first X (update_walk X ss f) (step_test X s) (X.children e))
      ∙ is_some-update_first (update_walk X ss f) (reaches X ss) (step_test X s) (X.children e)
          (is_some-update_walk f ss)
