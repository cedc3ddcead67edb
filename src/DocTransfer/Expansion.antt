-- ===== src/DocTransfer/Expansion.antt =====
-- tools/plugins/documentation/doc_transfer.py: the structure that says what to insert where in the
-- policy B, and how `add_to_output_func` fills it.
pub mod View
pub mod Insert
use muen.Base.{ℕ, zero, suc, ◌+◌, Bool, true, false, not, List, [], ◌∷◌, ◌++◌, Option, none, some}
use muen.Base.{
  ◌==◌, Eq, list_eq, option_eq, nat_eq, eqb, if◌then◌else◌, get_elem?, length, Str, codes,
}
use muen.Base.{Result, ok, err, exit, index_error, key_error, type_error, out_of_fuel, ◌>>=◌}
use muen.Base.Dict.{Dict, lookup}
use muen.Base.Text.{split, join, has_infix, starts_with, replace}
use muen.DocTransfer.Subjects.{SubjectMap}
use muen.DocTransfer.Rules.{Bindings, at, local_part, remaining_part}

-- A node of the structure: the list `__new_leaves` and the dictionary `__children`. Either is made
-- when its first item comes, so an absent one and an empty one are the same here.
mutual
  pub data Expansion (E : Type 0) : Type 0 where
    expansion : List E → Children E → Expansion E

  pub data Children (E : Type 0) : Type 0 where
    no_children : Children E
    child : Str → Expansion E → Children E → Children E

module _ {E : Type 0} where
  abbrev pub blank : Expansion E
  blank = expansion [] no_children

  -- `add_new_leaf`
  unfoldable pub add_new_leaf : Expansion E → E → Expansion E
  add_new_leaf (expansion leaves cs) node = expansion (leaves ++ node ∷ []) cs

  -- `include_new_child`, on the dictionary of the children.
  unfoldable pub include_new_child : Str → Children E → Children E
  include_new_child s no_children = child s blank no_children
  include_new_child s (child k e cs) =
      if k == s then child k e cs else child k e (include_new_child s cs)

  -- A change of `children[s]` in place.
  unfoldable pub update_child :
      Str → (Expansion E → Result (Expansion E)) → Children E → Result (Children E)
  update_child s f no_children = err key_error
  update_child s f (child k e cs) =
      if k == s
      then (do e' ← f e; ok (child k e' cs))
      else (do cs' ← update_child s f cs; ok (child k e cs'))

  -- A call of `include_new_child`, and a call on the child.
  unfoldable pub insert_under :
      Str → (Expansion E → Result (Expansion E)) → Expansion E → Result (Expansion E)
  insert_under s f (expansion leaves cs) = do
    cs' ← update_child s f (include_new_child s cs)
    ok (expansion leaves cs')

-- The two forms of a parameter: `$Component_To_Subjects($name)` and `$name`.
unfoldable pub parameter_name : Str → Result Str
parameter_name s =
    if starts_with s (codes "$Component_To_Subjects")
    then (do
      rest ← at (split (codes "$Component_To_Subjects($") s) 1
      at (split (codes ")") rest) 0)
    else at (split (codes "$") s) 1

unfoldable pub get_list_of_substitutions : Str → Bindings → SubjectMap → Result (List (Option Str))
get_list_of_substitutions parametrized_substring param_bind c2s_map = do
  param_name ← parameter_name parametrized_substring
  param_value ← (elim (lookup param_name param_bind) [
    | none ↦ err (exit (codes "ERROR: Could not resolve parameter " ++ param_name))
    | some v ↦ ok v
  ])
  if starts_with parametrized_substring (codes "$Component_To_Subjects")
      then elim (lookup (some param_value) c2s_map) [
        | none ↦ err (exit (codes "ERROR: Could not find mapping for component " ++ param_value))
        | some subjects ↦ ok subjects
      ]
      else ok (some param_value ∷ [])

-- `local_path.replace(parametrized_substring, sub)`
unfoldable pub substitute : Str → Str → Option Str → Result Str
substitute local_path old none = err type_error
substitute local_path old (some new) = ok (replace old new local_path)

module _ {E : Type 0} (node : E) (param_bind : Bindings) (c2s_map : SubjectMap) where
  -- The loop over the substitutions.
  unfoldable pub insert_all :
      Str
      → Str
      → (Expansion E → Result (Expansion E))
      → List (Option Str)
      → Expansion E
      → Result (Expansion E)
  insert_all local_path old f [] e = ok e
  insert_all local_path old f (sub ∷ subs) e = do
    local_path_subst ← substitute local_path old sub
    e' ← insert_under local_path_subst f e
    insert_all local_path old f subs e'

  -- The first level of a target path that is not empty, with the call for the other levels.
  unfoldable pub add_level :
      Str → (Expansion E → Result (Expansion E)) → Expansion E → Result (Expansion E)
  add_level local_path inner e =
      if not (has_infix local_path (codes "$")) then insert_under local_path inner e else (do
        parametrized_substring ← at (split (codes "\"") local_path) 1
        subs ← get_list_of_substitutions parametrized_substring param_bind c2s_map
        insert_all local_path parametrized_substring inner subs e)

  -- `add_to_output_func`; every call is on a shorter path.
  unfoldable pub add_path : ℕ → Str → Expansion E → Result (Expansion E)
  add_path zero path e = err out_of_fuel
  add_path (suc fuel) [] e = ok (add_new_leaf e node)
  add_path (suc fuel) (c ∷ path) e =
      add_level (local_part (c ∷ path)) (add_path fuel (remaining_part (c ∷ path))) e

  unfoldable pub add_to_output_func : Str → Expansion E → Result (Expansion E)
  unfolding add_path
  add_to_output_func target_path e = add_path (length target_path + 1) target_path e
