-- ===== src/Smpify/Schedule.antt =====
-- policy/xml/smp/smpify.py: the minor frames of the cores in the schedule. A frame's ticks are decimal
-- digits.
use muen.Base.{
  ℕ, zero, suc, ◌+◌, ◌*◌, ◌-◌, ◌≡◌, ap, arith, Bool, true, false, List, [], ◌∷◌, ◌++◌, Str, codes,
}
use muen.Base.{
  Option, some, none, if◌then◌else◌, ◌==◌, list_eq, option_eq, nat_eq, Result, ok, err, ◌>>=◌,
  index_error,
}
use muen.Base.Dict.{lookup}
use muen.Base.{◌&&◌}
use muen.Xml.{Etree, IsLawful, has_tag}
use muen.Smpify.Numbers.{digits_value}
use muen.Base.Decimal.{decimal}
use muen.Smpify.{range, loop}

module _ (X : Etree) where
  abbrev pub frame : Str → Str → X.Elem
  frame partition ticks =
      X.element (codes "minorFrame") ((codes "partition", partition) ∷ (codes "ticks", ticks) ∷ [])

  abbrev pub is_frame_of : Str → X.Elem → Bool
  is_frame_of partition e =
      has_tag X (codes "minorFrame") e && (X.get e (codes "partition") == some partition)

  -- `c.xpath("minorFrame[@partition=...]")[0].set("ticks", ticks)` on the frames of a core
  abbrev pub set_ticks : Str → Str → List X.Elem → Result (List X.Elem)
  set_ticks partition ticks [] = err index_error
  set_ticks partition ticks (f ∷ fs) =
      let rest = set_ticks partition ticks fs in
      if is_frame_of partition f
      then ok (X.set f (codes "ticks") ticks ∷ fs)
      else do fs' ← rest; ok (f ∷ fs')

  -- The frames of the first core
  unfoldable pub adjust_core_one : X.Elem → Result X.Elem
  adjust_core_one c = do
    fs ← set_ticks (codes "debugserver") (codes "1") (X.children c)
    fs' ← set_ticks (codes "time") (codes "1") fs
    let linux = codes "linux_core1" in
        let c₁ =
          loop (λ i d. X.insert d 0 (frame linux (codes "10"))) (range 0 4)
            (X.set_children c fs') in
        let c₂ = loop (λ i d. X.append d (frame linux (codes "10"))) (range 0 5) c₁ in
        ok (X.append c₂ (frame linux (codes "8")))

  -- The frames of an additional core.
  abbrev pub new_core : ℕ → X.Elem
  new_core i =
      loop (λ j d. X.append d (frame (codes "linux_core" ++ decimal i) (codes "10"))) (range 0 10)
        (X.element (codes "cpu") ((codes "id", decimal i) ∷ []))

  -- One major frame; the script updates the major frames core by core, which gives the same elements.
  unfoldable pub create_additional_cores : ℕ → X.Elem → X.Elem
  create_additional_cores cores m = loop (λ i d. X.append d (new_core i)) (range 2 (cores - 1)) m

  abbrev ticks_value : Option Str → ℕ
  ticks_value none = 0
  ticks_value (some s) = digits_value s 0

  -- The ticks of frames together.
  pub total : List X.Elem → ℕ
  total [] = 0
  total (f ∷ fs) = ticks_value (X.get f (codes "ticks")) + total fs

  module _ (L : IsLawful X) where
    total-append : (fs gs : List X.Elem) → total (fs ++ gs) ≡ total fs + total gs
    unfolding total
    total-append [] gs = omega arith
    total-append (f ∷ fs) gs = omega (arith, total-append fs gs)

    ticks_of_frame :
        (partition ticks : Str)
        → ticks_value (X.get (frame partition ticks) (codes "ticks")) ≡ digits_value ticks 0
    unfolding lookup
    ticks_of_frame partition ticks = ap ticks_value (L.get-element _ _ _)

    total_add :
        (e : X.Elem) (partition ticks : Str)
        → total (X.children (X.append e (frame partition ticks)))
          ≡ total (X.children e) + digits_value ticks 0
    unfolding total
    total_add e partition ticks = rw L.children-append (
        omega (
          arith,
          total-append (X.children e) (frame partition ticks ∷ []),
          ticks_of_frame partition ticks,
        ))

    total_appended :
        (partition : Str) (start n : ℕ) (e : X.Elem)
        → total
            (X.children (loop (λ i d. X.append d (frame partition (codes "10"))) (range start n) e))
          ≡ total (X.children e) + n * 10
    total_appended partition start zero e = omega arith
    total_appended partition start (suc n) e = omega (
      arith,
      total_appended partition (suc start) n (X.append e (frame partition (codes "10"))),
      total_add e partition (codes "10"),
    )

    total_inserted :
        (partition : Str) (start n : ℕ) (e : X.Elem)
        → total (
            X.children
              (loop (λ i d. X.insert d 0 (frame partition (codes "10"))) (range start n) e))
          ≡ total (X.children e) + n * 10
    unfolding total
    total_inserted partition start zero e = omega arith
    total_inserted partition start (suc n) e =
        let f = frame partition (codes "10") in
        omega (
          arith,
          total_inserted partition (suc start) n (X.insert e 0 f),
          ap total (L.children-insert e f 0),
          ticks_of_frame partition (codes "10"),
        )

    total-new_core : (i : ℕ) → total (X.children (new_core i)) ≡ 100
    unfolding total
    total-new_core i =
        let cpu = X.element (codes "cpu") ((codes "id", decimal i) ∷ []) in
        omega (
          arith,
          total_appended (codes "linux_core" ++ decimal i) 0 10 cpu,
          ap total (L.children-element (codes "cpu") ((codes "id", decimal i) ∷ [])),
        )

    -- A core whose frames are one of the time subject and one of the debug server, as in the policy that
    -- the script reads, has 100 ticks behind the adjustment, as many as every additional core.
    pub adjust_core_one-new_core :
        (c debug time : X.Elem) (i : ℕ)
        → X.children c ≡ time ∷ debug ∷ []
        → is_frame_of (codes "debugserver") debug ≡ true
        → is_frame_of (codes "debugserver") time ≡ false
        → is_frame_of (codes "time") time ≡ true
        → (c' : X.Elem) × (adjust_core_one c ≡ ok c')
          × (total (X.children c') ≡ 100)
          × (total (X.children (new_core i)) ≡ 100)
    unfolding adjust_core_one total
    adjust_core_one-new_core c debug time i h d nt t =
        let linux = codes "linux_core1" in
        let time' = X.set time (codes "ticks") (codes "1") in
        let debug' = X.set debug (codes "ticks") (codes "1") in
        let c₀ = X.set_children c (time' ∷ debug' ∷ []) in
        let c₁ = loop (λ i d. X.insert d 0 (frame linux (codes "10"))) (range 0 4) c₀ in
        let c₂ = loop (λ i d. X.append d (frame linux (codes "10"))) (range 0 5) c₁ in
        (
          X.append c₂ (frame linux (codes "8")),
          rw (h, nt, d, t),
          omega (
            arith,
            total_add c₂ linux (codes "8"),
            total_appended linux 0 5 c₁,
            total_inserted linux 0 4 c₀,
            ap total (L.children-set_children c (time' ∷ debug' ∷ [])),
            ap ticks_value (L.get-set time (codes "ticks") (codes "ticks") (codes "1")),
            ap ticks_value (L.get-set debug (codes "ticks") (codes "ticks") (codes "1")),
          ),
          total-new_core i,
        )
