-- ===== src/Smpify/References.antt =====
-- The names that policy/xml/smp/smpify.py gives and the names that it refers to.
use mathlib.Core.List.{append_assoc, append-nil}
use muen.Base.{
  ℕ, zero, suc, ◌≡◌, refl, sym, ap, ◌∙◌, arith, List, [], ◌∷◌, ◌++◌, codes, map, length, take, drop,
}
use muen.Base.{length-map, length-append}
use muen.Base.Dict.{lookup}
use muen.Xml.{Etree, IsLawful}
use muen.Smpify.{
  range, loop, phys_channel, create_phys_channels, log_channel, create_dbg_resources, partition,
  create_scheduling_partitions,
}

module _ (X : Etree) (L : IsLawful X) where
  loop-append :
      (f : ℕ → X.Elem) (is : List ℕ) (e : X.Elem)
      → X.children (loop (λ i d. X.append d (f i)) is e) ≡ X.children e ++ map f is
  loop-append f [] e = sym (append-nil (X.children e))
  loop-append f (i ∷ is) e =
      loop-append f is (X.append e (f i))
      ∙ ap (λ (l : List X.Elem). l ++ map f is) (L.children-append e (f i))
      ∙ append_assoc (X.children e) (f i ∷ []) (map f is)

  same_names :
      (is : List ℕ)
      → map (λ e. X.get e (codes "name")) (map (phys_channel X) is)
        ≡ map (λ e. X.get e (codes "physical")) (map (log_channel X) is)
  unfolding lookup
  same_names [] = refl
  same_names (i ∷ is) = rw (L.get-element, L.get-element, same_names is)

  length-range : (start n : ℕ) → length (range start n) ≡ n
  length-range start zero = refl
  length-range start (suc n) = ap suc (length-range (suc start) n)

  -- The script adds one physical channel and one mapping of the debug server for every additional core,
  -- each list behind what was there, and the mappings refer to the channels by their names, in order.
  pub create_dbg_resources-create_phys_channels :
      (cores : ℕ) (channels comp : X.Elem)
      → (new : List X.Elem) × (maps : List X.Elem) × (X.children
            (create_phys_channels X cores channels)
          ≡ X.children channels ++ new)
        × (X.children (create_dbg_resources X cores comp) ≡ X.children comp ++ maps)
        × (map (λ e. X.get e (codes "name")) new ≡ map (λ e. X.get e (codes "physical")) maps)
        × (length new ≡ cores)
  unfolding create_phys_channels create_dbg_resources
  create_dbg_resources-create_phys_channels cores channels comp = (
    map (phys_channel X) (range 1 cores),
    map (log_channel X) (range 1 cores),
    loop-append (phys_channel X) (range 1 cores) channels,
    loop-append (log_channel X) (range 1 cores) comp,
    same_names (range 1 cores),
    length-map (phys_channel X) (range 1 cores) ∙ length-range 1 cores,
  )

  take-drop_at :
      (xs ys : List X.Elem) (i : ℕ)
      → length xs ≡ i
      → (take i (xs ++ ys) ≡ xs) × (drop i (xs ++ ys) ≡ ys)
  take-drop_at [] ys zero h = (refl, refl)
  take-drop_at [] ys (suc i) h = absurd (omega arith)
  take-drop_at (x ∷ xs) ys zero h = absurd (omega arith)
  take-drop_at (x ∷ xs) ys (suc i) h =
      let (t, d) = take-drop_at xs ys i (omega arith) in (ap (λ (l : List X.Elem). x ∷ l) t, d)

  partitions_from :
      (n start : ℕ) (e : X.Elem) (xs ys : List X.Elem)
      → X.children e ≡ xs ++ ys
      → length xs ≡ start
      → X.children (loop (λ i d. X.insert d i (partition X i)) (range start n) e)
        ≡ (xs ++ map (partition X) (range start n)) ++ ys
  partitions_from zero start e xs ys h l =
      h ∙ ap (λ (r : List X.Elem). r ++ ys) (sym (append-nil xs))
  partitions_from (suc n) start e xs ys h l =
      let (t, d) = take-drop_at xs ys start l in
      let p = partition X start in
      let inserted : X.children (X.insert e start p) ≡ (xs ++ p ∷ []) ++ ys =
        rw (L.children-insert, h, t, d) (sym (append_assoc xs (p ∷ []) ys)) in
      partitions_from n (suc start) (X.insert e start p) (xs ++ p ∷ []) ys inserted
        (omega (arith, length-append xs (p ∷ [])))
      ∙ ap (λ (r : List X.Elem). r ++ ys)
          (append_assoc xs (p ∷ []) (map (partition X) (range (suc start) n)))

  -- The partitions of the additional cores are put behind the first partition, in order, and the other
  -- partitions follow them, if there is a first one.
  pub create_scheduling_partitions_lem :
      (cores : ℕ) (partitions first : X.Elem) (others : List X.Elem)
      → X.children partitions ≡ first ∷ others
      → X.children (create_scheduling_partitions X cores partitions)
        ≡ first ∷ (map (partition X) (range 1 cores) ++ others)
  unfolding create_scheduling_partitions
  create_scheduling_partitions_lem cores partitions first others h =
      partitions_from cores 1 partitions (first ∷ []) others h refl
