-- ===== src/DocTransfer/Traverse/Fuel.antt =====
-- The fuel of `add_path` and the calls that do not run out of it, of
-- tools/plugins/documentation/doc_transfer.py.
use muen.Base.{
  ℕ, zero, suc, ◌+◌, ◌≤◌, ◌<◌, ◌≡◌, ◌≢◌, refl, sym, ap, ◌∙◌, arith, List, [], ◌∷◌, ◌++◌, Str, codes,
}
use muen.Base.{
  length, Option, some, none, Result, ok, err, out_of_fuel, exit, ◌>>=◌, not, Bool-cases, inl, inr,
  length-append, ◌==◌, list_eq, option_eq, nat_eq,
}
use mathlib.Core.List.{cons-ne-nil}
use muen.Base.Text.{split, join, has_infix, starts_with}
use muen.Base.Text.Laws.{join-split}
use muen.Base.Dict.{lookup}
use muen.DocTransfer.Subjects.{SubjectMap}
use muen.DocTransfer.Rules.{Bindings, remaining_part, tail, at}
use muen.DocTransfer.Expansion.{
  Expansion, expansion, Children, no_children, child, add_to_output_func, add_path, add_level,
  insert_all, insert_under, update_child, include_new_child, substitute, get_list_of_substitutions,
  parameter_name,
}

-- A call that does not end for the lack of fuel.
abbrev pub Ends {ℓ} : {A : Type ℓ} → Result A → Type ℓ
Ends r = r ≢ err out_of_fuel

pub Ends-bind {ℓ κ} :
    {A : Type ℓ} {B : Type κ} (m : Result A) (f : A → Result B)
    → Ends m
    → ((a : A) → m ≡ ok a → Ends (f a))
    → Ends (m >>= f)
Ends-bind (ok a) f h k e = k a refl e
Ends-bind (err x) f h k e = h (cc)

pub at-Ends : (xs : List Str) (i : ℕ) → Ends (at xs i)
at-Ends [] i e = cc
at-Ends (x ∷ xs) zero e = cc
at-Ends (x ∷ xs) (suc i) e = at-Ends xs i e

parameter_name-Ends : (s : Str) → Ends (parameter_name s)
unfolding parameter_name
parameter_name-Ends s = elim (Bool-cases (starts_with s (codes "$Component_To_Subjects"))) [
  | inl y ↦ rw y (
      Ends-bind (at (split (codes "$Component_To_Subjects($") s) 1)
        (λ r. at (split (codes ")") r) 0) (at-Ends (split (codes "$Component_To_Subjects($") s) 1)
        (λ r _. at-Ends (split (codes ")") r) 0))
  | inr n ↦ rw n (at-Ends (split (codes "$") s) 1)
]

found-Ends {ℓ} :
    {A : Type ℓ} (o : Option A) (s : Str) → Ends (elim o [ none ↦ err (exit s) | some v ↦ ok v ])
found-Ends none s e = cc
found-Ends (some v) s e = cc

get_list_of_substitutions-Ends :
    (s : Str) (b : Bindings) (m : SubjectMap) → Ends (get_list_of_substitutions s b m)
unfolding get_list_of_substitutions
get_list_of_substitutions-Ends s b m = Ends-bind _ _ (parameter_name-Ends s) λ name _.
    Ends-bind _ _ (found-Ends (lookup name b) _) λ value _.
      elim (Bool-cases (starts_with s (codes "$Component_To_Subjects"))) [
        | inl y ↦ rw y (found-Ends (lookup (some value) m) _)
        | inr n ↦ rw n (λ e. cc)
      ]

substitute-Ends : (s t : Str) (o : Option Str) → Ends (substitute s t o)
unfolding substitute
substitute-Ends s t none e = cc
substitute-Ends s t (some u) e = cc

module _ {E : Type 0} where
  update_child-Ends :
      (s : Str) (f : Expansion E → Result (Expansion E)) (cs : Children E)
      → ((e : Expansion E) → Ends (f e))
      → Ends (update_child s f cs)
  unfolding update_child
  update_child-Ends s f no_children h = λ e. cc
  update_child-Ends s f (child k x cs) h = elim (Bool-cases (k == s)) [
    | inl y ↦ rw y (Ends-bind (f x) _ (h x) (λ a _ e. cc))
    | inr n ↦ rw n (Ends-bind (update_child s f cs) _ (update_child-Ends s f cs h) (λ a _ e. cc))
  ]

  insert_under-Ends :
      (s : Str) (f : Expansion E → Result (Expansion E)) (x : Expansion E)
      → ((e : Expansion E) → Ends (f e))
      → Ends (insert_under s f x)
  unfolding insert_under
  insert_under-Ends s f (expansion leaves cs) h =
      Ends-bind (update_child s f (include_new_child s cs)) _ (update_child-Ends s f _ h)
        (λ a _ e. cc)

module _ {E : Type 0} (node : E) (b : Bindings) (m : SubjectMap) where
  insert_all-Ends :
      (l old : Str) (f : Expansion E → Result (Expansion E)) (subs : List (Option Str))
      (x : Expansion E)
      → ((e : Expansion E) → Ends (f e))
      → Ends (insert_all node b m l old f subs x)
  unfolding insert_all
  insert_all-Ends l old f [] x h = λ e. cc
  insert_all-Ends l old f (sub ∷ subs) x h =
      Ends-bind _ _ (substitute-Ends l old sub)
        λ s _. Ends-bind _ _ (insert_under-Ends s f x h) λ y _. insert_all-Ends l old f subs y h

  add_level-Ends :
      (l : Str) (f : Expansion E → Result (Expansion E)) (x : Expansion E)
      → ((e : Expansion E) → Ends (f e))
      → Ends (add_level node b m l f x)
  unfolding add_level
  add_level-Ends l f x h = elim (Bool-cases (not (has_infix l (codes "$")))) [
    | inl y ↦ rw y (insert_under-Ends l f x h)
    | inr n ↦ rw n (
        Ends-bind (at (split (codes "\"") l) 1) _ (at-Ends (split (codes "\"") l) 1) λ p _.
          Ends-bind _ _ (get_list_of_substitutions-Ends p b m)
            λ subs _. insert_all-Ends l p f subs x h)
  ]

  length-join-tail :
      (qs : List Str) → length (join (codes "/") (tail qs)) ≤ length (join (codes "/") qs)
  length-join-tail [] = omega arith
  length-join-tail (q ∷ []) = omega arith
  length-join-tail (q ∷ r ∷ rs) = omega (
    arith,
    length-append q (codes "/" ++ join (codes "/") (r ∷ rs)),
    length-append (codes "/") (join (codes "/") (r ∷ rs)),
  )

  length-tail :
      (qs : List Str)
      → join (codes "/") qs ≢ []
      → length (join (codes "/") (tail qs)) < length (join (codes "/") qs)
  length-tail [] h = absurd (h refl)
  length-tail ([] ∷ []) h = absurd (h refl)
  length-tail ((c ∷ q) ∷ []) h = omega arith
  length-tail (q ∷ r ∷ rs) h = omega (
    arith,
    length-append q (codes "/" ++ join (codes "/") (r ∷ rs)),
    length-append (codes "/") (join (codes "/") (r ∷ rs)),
  )

  length_remaining : (c : ℕ) (p : Str) → length (remaining_part (c ∷ p)) < length (c ∷ p)
  unfolding remaining_part
  length_remaining c p =
      let same = join-split b'/' (c ∷ p) in
      let shorter = length-tail (split (codes "/") (c ∷ p)) (λ e. cons-ne-nil c p (sym same ∙ e)) in
      omega (arith, shorter, ap (λ (s : Str). length s) same)

  add_path-Ends :
      (fuel : ℕ) (path : Str) (x : Expansion E)
      → length path < fuel
      → Ends (add_path node b m fuel path x)
  unfolding add_path
  add_path-Ends zero path x h = absurd (omega arith)
  add_path-Ends (suc fuel) [] x h = λ e. cc
  add_path-Ends (suc fuel) (c ∷ path) x h =
      add_level-Ends _ _ x λ y.
        add_path-Ends fuel (remaining_part (c ∷ path)) y (omega (arith, length_remaining c path))

  pub add_to_output_func-Ends :
      (path : Str) (x : Expansion E) → Ends (add_to_output_func node b m path x)
  unfolding add_to_output_func
  add_to_output_func-Ends path x = add_path-Ends (length path + 1) path x (omega arith)
