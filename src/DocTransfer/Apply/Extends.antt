-- ===== src/DocTransfer/Apply/Extends.antt =====
-- `apply_target_expansion` of tools/plugins/documentation/doc_transfer.py, and the trees that have
-- elements added to another tree.
use mathlib.Core.List.{reverse, reverse-reverse, reverse-cons, append_assoc}
use mathlib.Core.Path.{subst}
use muen.Base.{Bool, true, false, List, [], ◌∷◌, ◌++◌, Str, if◌then◌else◌}
use muen.Base.{Result, ok, ◌>>=◌, >>=-eq-ok, ◌≡◌, refl, ◌∙◌, sym, ap}
use muen.Xml.{Etree, IsLawful}
use muen.DocTransfer.Rules.{simple_xpath_match}
use muen.DocTransfer.Expansion.{Expansion, expansion, Children, no_children, child}
use muen.DocTransfer.Apply.{map_result, insert_leaves, apply_target_expansion, apply_children}

mutual
  -- `t` is `e` with elements added, at any depth.
  pub data Extends (X : Etree) : X.Elem → X.Elem → Type 0 where
    same : {e t : X.Elem} → e ≡ t → Extends X e t
    extends :
        {e t : X.Elem} (new kids : List X.Elem)
        → X.tag t ≡ X.tag e
        → ((k : Str) → X.get t k ≡ X.get e k)
        → X.children t ≡ new ++ kids
        → AllExtend X (X.children e) kids
        → Extends X e t

  pub data AllExtend (X : Etree) : List X.Elem → List X.Elem → Type 0 where
    nil : AllExtend X [] []
    cons :
        {e t : X.Elem} {es ts : List X.Elem}
        → Extends X e t
        → AllExtend X es ts
        → AllExtend X (e ∷ es) (t ∷ ts)

module _ (X : Etree) where
  -- The part of an extended list that comes from the end of the list.
  AllExtend-append :
      (xs ys ts : List X.Elem)
      → AllExtend X (xs ++ ys) ts
      → (a b : List X.Elem) × (ts ≡ a ++ b) × AllExtend X ys b
  AllExtend-append [] ys ts h = ([], ts, refl, h)
  AllExtend-append (x ∷ xs) ys ts (cons {t = t} p h) =
      let (a, b, e, k) = AllExtend-append xs ys _ h in
      (t ∷ a, b, ap (λ (r : List X.Elem). t ∷ r) e, k)

  mutual
    Extends-trans : (e t u : X.Elem) → Extends X e t → Extends X t u → Extends X e u
    Extends-trans e t u (same p) k = subst (λ r. Extends X r u) (sym p) k
    Extends-trans e t u (extends new kids g a c h) (same p) =
        subst (λ r. Extends X e r) p (extends new kids g a c h)
    Extends-trans e t u (extends new kids g a c h) (extends new' kids' g' a' c' h') =
        let (x, y, q, k) =
          AllExtend-append new kids kids' (subst (λ r. AllExtend X r kids') c h') in
        extends (new' ++ x) y (g' ∙ g) (λ n. a' n ∙ a n)
          (c' ∙ (ap (λ r. new' ++ r) q ∙ sym (append_assoc new' x y)))
          (AllExtend-trans (X.children e) kids y h k)

    AllExtend-trans :
        (es ts us : List X.Elem) → AllExtend X es ts → AllExtend X ts us → AllExtend X es us
    AllExtend-trans es ts us nil nil = nil
    AllExtend-trans es ts us (cons p h) (cons q k) =
        cons (Extends-trans _ _ _ p q) (AllExtend-trans _ _ _ h k)

module _ (X : Etree) (L : IsLawful X) where
  -- The new elements stand in front, and the element is otherwise as it was.
  record Inserted (leaves : List X.Elem) (root t : X.Elem) : Type 0 where
    tag : X.tag t ≡ X.tag root
    get : (k : Str) → X.get t k ≡ X.get root k
    children : X.children t ≡ reverse leaves ++ X.children root

  insert_leaves-Inserted :
      (leaves : List X.Elem) (root : X.Elem) → Inserted leaves root (insert_leaves X leaves root)
  unfolding insert_leaves
  insert_leaves-Inserted [] root = record { tag = refl; get = λ k. refl; children = refl }
  insert_leaves-Inserted (x ∷ leaves) root =
      let h = insert_leaves-Inserted leaves (X.insert root 0 x) in
      record {
        tag = h.tag ∙ L.tag-insert root x 0;
        get = λ k. h.get k ∙ L.get-insert root x 0 k;
        children =
            h.children ∙ (rw (L.children-insert, reverse-cons) (sym (append_assoc _ (x ∷ []) _)));
      }

  pub apply_target_expansion-children :
      (leaves : List X.Elem) (cs : Children X.Elem) (root t : X.Elem)
      → apply_target_expansion X (expansion leaves cs) root ≡ ok t
      → (kids : List X.Elem) × (map_result (apply_children X cs) (X.children root) ≡ ok kids)
        × (X.children t ≡ leaves ++ kids)
        × (X.tag t ≡ X.tag root)
        × ((k : Str) → X.get t k ≡ X.get root k)
  unfolding apply_target_expansion
  apply_target_expansion-children leaves cs root t h =
      let (kids, run, e) = >>=-eq-ok (map_result (apply_children X cs) (X.children root)) _ h in
      let r = X.set_children root kids in
      let done : insert_leaves X (reverse leaves) r ≡ t = cc in
      let i = insert_leaves-Inserted (reverse leaves) r in
      (
        kids,
        run,
        rw (← done, i.children, reverse-reverse, L.children-set_children),
        rw (← done, i.tag, L.tag-set_children),
        λ k. rw (← done, i.get, L.get-set_children),
      )

  AllExtend-map_result :
      (f : X.Elem → Result X.Elem)
      → ((c d : X.Elem) → f c ≡ ok d → Extends X c d)
      → (cs ds : List X.Elem) → map_result f cs ≡ ok ds
      → AllExtend X cs ds
  unfolding map_result
  AllExtend-map_result f p [] [] h = nil
  AllExtend-map_result f p [] (d ∷ ds) h = cc
  AllExtend-map_result f p (c ∷ cs) ds h =
      let (y, e₁, r) = >>=-eq-ok (f c) _ h in
      let (ys, e₂, q) = >>=-eq-ok (map_result f cs) _ r in
      let both : y ∷ ys ≡ ds = cc in
      subst (λ s. AllExtend X (c ∷ cs) s) both (cons (p c y e₁) (AllExtend-map_result f p cs ys e₂))

  -- A path that does not match leaves the child as it is.
  branch-Extends :
      (m : Bool) (f : X.Elem → Result X.Elem) (c d : X.Elem)
      → (if m then f c else ok c) ≡ ok d
      → (f c ≡ ok d → Extends X c d)
      → Extends X c d
  branch-Extends true f c d h p = p h
  branch-Extends false f c d h p = same (cc)

  Extends-kids :
      (leaves : List X.Elem) (cs : Children X.Elem) (root t : X.Elem)
      → apply_target_expansion X (expansion leaves cs) root ≡ ok t
      → ((c d : X.Elem) → apply_children X cs c ≡ ok d → Extends X c d)
      → Extends X root t
  Extends-kids leaves cs root t h p =
      let (kids, run, new, tag, get) = apply_target_expansion-children leaves cs root t h in
      extends leaves kids tag get new
        (AllExtend-map_result (apply_children X cs) p (X.children root) kids run)

  apply_children_step :
      (path : Str) (sub : Expansion X.Elem) (cs : Children X.Elem) (c : X.Elem)
      → apply_children X (child path sub cs) c ≡ (do
        m ← simple_xpath_match X c path
        c' ← (if m then apply_target_expansion X sub c else ok c)
        apply_children X cs c')
  unfolding apply_target_expansion
  apply_children_step path sub cs c = refl

  apply_children-nil : (c d : X.Elem) → apply_children X no_children c ≡ ok d → c ≡ d
  unfolding apply_target_expansion
  apply_children-nil c d h = cc

  mutual
    apply_target_expansion-extends_lem :
        (exp : Expansion X.Elem) (root t : X.Elem)
        → apply_target_expansion X exp root ≡ ok t
        → Extends X root t
    apply_target_expansion-extends_lem (expansion leaves cs) root t h =
        Extends-kids leaves cs root t h (apply_children-Extends cs)

    apply_children-Extends :
        (cs : Children X.Elem) (c d : X.Elem) → apply_children X cs c ≡ ok d → Extends X c d
    apply_children-Extends no_children c d h = same (apply_children-nil c d h)
    apply_children-Extends (child path sub cs) c d h =
        let (m, e₁, r) =
          >>=-eq-ok (simple_xpath_match X c path) _ (rw (apply_children_step path sub cs c) at h) in
        let (c', e₂, q) = >>=-eq-ok (if m then apply_target_expansion X sub c else ok c) _ r in
        Extends-trans X c c' d
          (branch-Extends m (apply_target_expansion X sub) c c' e₂
            (apply_target_expansion-extends_lem sub c c'))
          (apply_children-Extends cs c' d q)

  -- What `apply_target_expansion` returns is the tree with elements added: every element of the tree
  -- is kept, in its order and with its tag and attributes.
  pub apply_target_expansion-Extends :
      (exp : Expansion X.Elem) (root t : X.Elem)
      → apply_target_expansion X exp root ≡ ok t
      → Extends X root t
  apply_target_expansion-Extends exp root t h = apply_target_expansion-extends_lem exp root t h
