-- ===== src/Xml/Chosen.antt =====
-- What an update of the first item that passes a test may have done to the children of an element.
use muen.Base.{Bool, true, false, List, ◌∷◌, Option, none, some, if◌then◌else◌}
use muen.Base.{◌≡◌, refl, ap, ◌⊎◌, inl, inr}
use muen.Xml.{Etree}
use muen.Xml.Paths.{keep, replace_or, set_in}

module _ {ℓ} (X : Etree) {A : Type ℓ} where
  pub set_in-some :
      (e e' : X.Elem) (o : Option (A × List X.Elem)) {a : A}
      → set_in X e o ≡ some (a, e')
      → (cs : List X.Elem) × (o ≡ some (a, cs)) × (X.set_children e cs ≡ e')
  set_in-some e e' none h = cc
  set_in-some e e' (some (b, cs)) {a} h = let p : b ≡ a = cc in (cs, ap (λ x. some (x, cs)) p, cc)

  pub keep-some :
      (c : X.Elem) (ds : List X.Elem) (rest : Option (A × List X.Elem)) {a : A}
      → keep X c rest ≡ some (a, ds)
      → (es : List X.Elem) × (rest ≡ some (a, es)) × (ds ≡ c ∷ es)
  keep-some c ds none h = cc
  keep-some c ds (some (b, es)) {a} h = let p : b ≡ a = cc in (es, ap (λ x. some (x, es)) p, cc)

  pub chosen :
      (b : Bool) (c : X.Elem) (cs ds : List X.Elem) (o : Option (A × X.Elem))
      (rest : Option (A × List X.Elem)) {a : A}
      → (if b then replace_or X cs o (keep X c rest) else keep X c rest) ≡ some (a, ds)
      → ((c' : X.Elem) × (b ≡ true) × (o ≡ some (a, c')) × (ds ≡ c' ∷ cs))
        ⊎ ((es : List X.Elem) × (rest ≡ some (a, es)) × (ds ≡ c ∷ es))
  chosen false c cs ds o rest h = inr (keep-some c ds rest h)
  chosen true c cs ds none rest h = inr (keep-some c ds rest h)
  chosen true c cs ds (some (d, c')) rest {a} h =
      let p : d ≡ a = cc in inl (c', refl, ap (λ x. some (x, c')) p, cc)
