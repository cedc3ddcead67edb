-- ===== src/Xml/Paths.antt =====
-- The scripts' idiom `xpath("/root/a/b")[0]` followed by an update of the element in place: the tree with
-- the first element, in the order of the document, that the path reaches rebuilt.
use muen.Base.{
  Bool, true, false, List, [], ◌∷◌, Option, none, some, Str, if◌then◌else◌, Result, ok, err,
  index_error,
}
use muen.Base.{◌≡◌, refl, ap, ◌∙◌, any, ◌++◌, arith}
use muen.Xml.{Etree, has_tag}

module _ {ℓ} (X : Etree) {A : Type ℓ} where
  abbrev pub keep : X.Elem → Option (A × List X.Elem) → Option (A × List X.Elem)
  keep c none = none
  keep c (some (a, cs)) = some (a, c ∷ cs)

  abbrev pub replace_or :
      List X.Elem → Option (A × X.Elem) → Option (A × List X.Elem) → Option (A × List X.Elem)
  replace_or cs none rest = rest
  replace_or cs (some (a, c)) rest = some (a, c ∷ cs)

  -- The update `f` of the first item that passes the test and for which `f` succeeds
  abbrev pub update_first :
      (X.Elem → Option (A × X.Elem)) → (X.Elem → Bool) → List X.Elem → Option (A × List X.Elem)
  update_first f test [] = none
  update_first f test (c ∷ cs) =
      let rest = keep c (update_first f test cs) in
      if test c then replace_or cs (f c) rest else rest

  abbrev pub set_in : X.Elem → Option (A × List X.Elem) → Option (A × X.Elem)
  set_in e none = none
  set_in e (some (a, cs)) = some (a, X.set_children e cs)

  -- The update `f` at the first element behind the path, with the value that `f` returns.
  unfoldable pub update_path : List Str → (X.Elem → A × X.Elem) → X.Elem → Option (A × X.Elem)
  update_path [] f e = some (f e)
  update_path (t ∷ ts) f e = set_in e (update_first (update_path ts f) (has_tag X t) (X.children e))

  abbrev found : Option (A × X.Elem) → Result (A × X.Elem)
  found none = err index_error
  found (some r) = ok r

  -- The same where a path that reaches nothing raises.
  abbrev pub at_path : List Str → (X.Elem → A × X.Elem) → X.Elem → Result (A × X.Elem)
  at_path path f e = found (update_path path f e)

  update_first_found :
      (f : X.Elem → Option (A × X.Elem)) (test : X.Elem → Bool) (pre post : List X.Elem)
      (c c' : X.Elem) (a : A)
      → any test pre ≡ false
      → test c ≡ true
      → f c ≡ some (a, c')
      → update_first f test (pre ++ c ∷ post) ≡ some (a, pre ++ c' ∷ post)
  update_first_found f test [] post c c' a h k e = ground (arith)
  update_first_found f test (p ∷ pre) post c c' a h k e =
      ground (arith, update_first_found f test pre post c c' a)

  update_first-none :
      (f : X.Elem → Option (A × X.Elem)) (test : X.Elem → Bool) (cs : List X.Elem)
      → any test cs ≡ false
      → update_first f test cs ≡ none
  update_first-none f test [] h = refl
  update_first-none f test (c ∷ cs) h = ground (arith, update_first-none f test cs)

  -- A path of one step updates the first child with the tag.
  pub update_path_found :
      (f : X.Elem → A × X.Elem) (t : Str) (e c : X.Elem) (pre post : List X.Elem)
      → X.children e ≡ pre ++ c ∷ post
      → any (has_tag X t) pre ≡ false
      → has_tag X t c ≡ true
      → update_path (t ∷ []) f e ≡ some ((f c).0, X.set_children e (pre ++ (f c).1 ∷ post))
  unfolding update_path
  update_path_found f t e c pre post h p k =
      ap (λ (cs : List X.Elem). set_in e (update_first (update_path [] f) (has_tag X t) cs)) h
      ∙ ap (set_in e)
          (update_first_found (update_path [] f) (has_tag X t) pre post c (f c).1 (f c).0 p k refl)

  pub update_path-none :
      (f : X.Elem → A × X.Elem) (t : Str) (e : X.Elem)
      → any (has_tag X t) (X.children e) ≡ false
      → update_path (t ∷ []) f e ≡ none
  unfolding update_path
  update_path-none f t e h =
      ap (set_in e) (update_first-none (update_path [] f) (has_tag X t) (X.children e) h)
