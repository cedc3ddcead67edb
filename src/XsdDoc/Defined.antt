-- ===== src/XsdDoc/Defined.antt =====
-- What the tests of the plugin say of the children of the root.
use muen.Base.{false, ◌&&◌, List, [], ◌∷◌, some, Str, codes, All, any}
use muen.Base.{ok, ◌≡◌, refl, ap, ◌∙◌, leb, length}
use muen.Base.Text.{is_in}
use muen.Base.Text.Laws.{Avoids-of_test}
use muen.Xml.{Etree, IsLawful}
use muen.Xml.Names.{Names, IsNamed}
use muen.Xml.Steps.{Step, IsStep, path_text, reaches}
use muen.Xml.Reach.{walk_one}
use muen.Xsd.Groups.{universal_starting_group_defined}
use muen.Xsd.Elements.{ns_info-IsPrefix}
use muen.XsdDoc.{
  group_step, sequence_step, doc_step, type_step, doc_type_step, documentation_type_defined,
  doc_in_universal_starting_group, doc_type_type_path,
}

step_IsStep :
    (s : Step) (l n : Str)
    → s ≡ record { local = l; name = some n }
    → any (is_in (codes "/'")) l ≡ false
    → any (is_in (codes "/'")) n ≡ false
    → IsStep s
step_IsStep s l n e a b = rw e (Avoids-of_test (codes "/'") l a, Avoids-of_test (codes "/'") n b)

module _ (X : Etree) (N : Names X) (L : IsLawful X) (M : IsNamed X N) where
  one_of :
      (e : X.Elem) (ss : List Step)
      → All IsStep ss
      → leb 1 (length (X.xpath e (path_text ss))) ≡ reaches X ss e
  one_of e ss h = ap (λ es. leb 1 (length es)) (M.xpath_steps e ss h) ∙ walk_one X ss e

  pub group_defined :
      (e : X.Elem) → universal_starting_group_defined X N e ≡ ok (reaches X (group_step ∷ []) e)
  unfolding universal_starting_group_defined
  group_defined e =
      let (ns, i, _) = ns_info-IsPrefix X N L M e in
      rw i (ap ok (one_of e (group_step ∷ []) (step_IsStep group_step _ _ refl refl refl, tt)))

  pub type_defined :
      (e : X.Elem)
      → documentation_type_defined X N e
        ≡ ok (reaches X (type_step ∷ []) e && reaches X (doc_type_step ∷ []) e)
  unfolding documentation_type_defined
  type_defined e =
      let (ns, i, _) = ns_info-IsPrefix X N L M e in
      let p = one_of e (type_step ∷ []) (step_IsStep type_step _ _ refl refl refl, tt) in
      let q = one_of e (doc_type_step ∷ []) (step_IsStep doc_type_step _ _ refl refl refl, tt) in
      rw i (
        ap (λ b. ok (b && leb 1 (length (X.xpath e doc_type_type_path)))) p
        ∙ ap (λ b. ok (reaches X (type_step ∷ []) e && b)) q)

  pub doc_defined :
      (e : X.Elem)
      → doc_in_universal_starting_group X N e
        ≡ ok (reaches X (group_step ∷ sequence_step ∷ doc_step ∷ []) e)
  unfolding doc_in_universal_starting_group
  doc_defined e =
      let (ns, i, _) = ns_info-IsPrefix X N L M e in
      rw i (
        ap ok (
          one_of e (group_step ∷ sequence_step ∷ doc_step ∷ []) (
            step_IsStep group_step _ _ refl refl refl,
            (
              (Avoids-of_test (codes "/'") (codes "sequence") refl, tt),
              (step_IsStep doc_step _ _ refl refl refl, tt),
            ),
          )))
