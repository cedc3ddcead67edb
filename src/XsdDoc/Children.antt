-- ===== src/XsdDoc/Children.antt =====
-- The children that `insert_children_from_string` adds, and the paths that reach them.
use mathlib.Core.List.{append_assoc, append-nil}
use muen.Base.{suc, ◌&&◌, ◌||◌, List, [], ◌∷◌, ◌++◌, Option, none, some, Str, codes, any, arith}
use muen.Base.{
  Result, ok, err, ◌>>=◌, value_error, if◌then◌else◌, ◌==◌, list_eq, nat_eq, Bool-cases, inl, inr,
  ◌≡◌, refl, ap, ◌∙◌, sym, length, take, drop, take-append, drop-append, length-append,
}
use muen.Xml.{Etree, IsLawful}
use muen.Xml.Names.{Names}
use muen.Xml.Steps.{Step, step_test, reaches}
use muen.Xml.Reach.{any-append}
use muen.Xsd.Groups.{index_of, insert_all, insert_children_from_string}
use muen.Base.{ok_injective}

-- The children of a root after an insertion at a position
abbrev pub placed {ℓ} : {A : Type ℓ} → Option Str → List A → List A → Result (List A)
placed none new old = ok (new ++ old)
placed (some position) new old =
    if position == codes "top"
    then ok (new ++ old)
    else if position == codes "bottom"
    then ok (old ++ new)
    else err (value_error (codes "Unknown value for parameter 'position': " ++ position))

bind_ok :
    {A B C : Type 0} (r : Result A) (f : A → B) (g : B → C)
    → ((r >>= (λ a. ok (f a))) >>= (λ b. ok (g b))) ≡ (r >>= (λ a. ok (g (f a))))
bind_ok (ok a) f g = refl
bind_ok (err e) f g = refl

module _ (X : Etree) (N : Names X) (L : IsLawful X) where
  insert_at_length :
      (e x : X.Elem) (pre post : List X.Elem)
      → X.children e ≡ pre ++ post
      → X.children (X.insert e (length pre) x) ≡ pre ++ x ∷ post
  insert_at_length e x pre post h =
      L.children-insert e x (length pre)
      ∙ ap (λ cs. take (length pre) cs ++ x ∷ drop (length pre) cs) h
      ∙ rw (take-append pre post, drop-append pre post) refl

  children-insert_all :
      (cs : List X.Elem) (e : X.Elem) (pre post : List X.Elem)
      → X.children e ≡ pre ++ post
      → X.children (insert_all X N cs (length pre) e) ≡ pre ++ (cs ++ post)
  children-insert_all [] e pre post h = h
  children-insert_all (c ∷ cs) e pre post h =
      let n : suc (length pre) ≡ length (pre ++ c ∷ []) =
        omega (arith, length-append pre (c ∷ [])) in
      let k : X.children (X.insert e (length pre) c) ≡ (pre ++ c ∷ []) ++ post =
        insert_at_length e c pre post h ∙ sym (append_assoc pre (c ∷ []) post) in
      ap (λ i. X.children (insert_all X N cs i (X.insert e (length pre) c))) n
      ∙ children-insert_all cs (X.insert e (length pre) c) (pre ++ c ∷ []) post k
      ∙ append_assoc pre (c ∷ []) (cs ++ post)

  children_top :
      (cs : List X.Elem) (e : X.Elem) → X.children (insert_all X N cs 0 e) ≡ cs ++ X.children e
  children_top cs e = children-insert_all cs e [] (X.children e) refl

  children_bottom :
      (cs : List X.Elem) (e : X.Elem)
      → X.children (insert_all X N cs (length (X.children e)) e) ≡ X.children e ++ cs
  children_bottom cs e =
      children-insert_all cs e (X.children e) [] (sym (append-nil (X.children e)))
      ∙ ap (λ ds. X.children e ++ ds) (append-nil cs)

  placed_at :
      (position : Option Str) (cs : List X.Elem) (root : X.Elem)
      → (index_of X N root position >>= (λ i. ok (X.children (insert_all X N cs i root))))
        ≡ placed position cs (X.children root)
  placed_at none cs root = ap ok (children_top cs root)
  placed_at (some position) cs root = elim (Bool-cases (position == codes "top")) [
    | inl t ↦ rw t (ap ok (children_top cs root))
    | inr t ↦ elim (Bool-cases (position == codes "bottom")) [
      | inl b ↦ rw (t, b) (ap ok (children_bottom cs root))
      | inr b ↦ rw (t, b) refl
    ]
  ]

  -- The children of the parsed text are placed, in their order, in front of the old children for the
  -- position "top", which is the default, and behind them for "bottom"; any other position raises a
  -- ValueError.
  pub children-insert_children_from_string :
      (fromstring : Str → Result X.Elem) (root new_doc : X.Elem) (xml_string : Str)
      (position : Option Str)
      → fromstring xml_string ≡ ok new_doc
      → (insert_children_from_string X N fromstring root xml_string position
          >>= (λ root'. ok (X.children root')))
        ≡ placed position (X.children new_doc) (X.children root)
  unfolding insert_children_from_string
  children-insert_children_from_string fromstring root new_doc xml_string position f = rw f (
      bind_ok (index_of X N root position) _ X.children
      ∙ placed_at position (X.children new_doc) root)

  -- A path of at least one step reaches something in the result if it does in one of the two.
  pub reaches-insert_children :
      (fromstring : Str → Result X.Elem) (root new_doc root' : X.Elem) (xml_string : Str) (s : Step)
      (ss : List Step)
      → fromstring xml_string ≡ ok new_doc
      → insert_children_from_string X N fromstring root xml_string none ≡ ok root'
      → reaches X (s ∷ ss) root' ≡ (reaches X (s ∷ ss) new_doc || reaches X (s ∷ ss) root)
  unfolding reaches insert_children_from_string
  reaches-insert_children fromstring root new_doc root' xml_string s ss f h =
      let e : insert_all X N (X.children new_doc) 0 root ≡ root' =
        ok_injective _ root'
          (sym (ap (λ r. r >>= (λ d. ok (insert_all X N (X.children d) 0 root))) f) ∙ h) in
      ap (λ r. any (λ c. step_test X s c && reaches X ss c) (X.children r)) (sym e)
      ∙ ap (any (λ c. step_test X s c && reaches X ss c)) (children_top (X.children new_doc) root)
      ∙ any-append (λ c. step_test X s c && reaches X ss c) (X.children new_doc) (X.children root)
