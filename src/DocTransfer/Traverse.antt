-- ===== src/DocTransfer/Traverse.antt =====
-- tools/plugins/documentation/doc_transfer.py: `do_traversal_func`, the run of the rules over the
-- joined policy.
pub mod Steps
pub mod Outputs
pub mod Fuel
pub mod Ends
use Prim.Native.Nat.{max}
use muen.Base.{ℕ, zero, suc, ◌+◌, ◌-◌, List, [], ◌∷◌, Str, codes, length, Eq, list_eq, nat_eq}
use muen.Base.{Result, ok, err, out_of_fuel, ◌>>=◌}
use muen.Base.Dict.{insert}
use muen.Base.Text.{split}
use muen.Xml.{Etree}
use muen.DocTransfer.Subjects.{SubjectMap}
use muen.DocTransfer.Rules.{
  Action, output, traverse, Rules, no_rules, rule, Bindings, Match, mismatch, matches, apply_rule,
}
use muen.DocTransfer.Expansion.{Expansion, add_to_output_func}

-- `param_bind | fresh_param_bindings`
unfoldable pub merge : Bindings → Bindings → Bindings
merge param_bind [] = param_bind
merge param_bind ((k, v) ∷ fresh) = merge (insert k v param_bind) fresh

-- How deep the calls of an action go: a rule takes a level for each part of its key.
unfoldable mutual
  pub depth : Action → ℕ
  depth (output path) = 1
  depth (traverse rules) = suc (depth_rules rules)

  pub depth_rules : Rules → ℕ
  depth_rules no_rules = 0
  depth_rules (rule key value rules) =
      max (length (split (codes "/") key) - 1 + depth value) (depth_rules rules)

module _ (X : Etree) (c2s_map : SubjectMap) where
  -- A call of an action: on a node, with bindings, it changes the expansion.
  abbrev pub Call : Type 0
  Call = Action → X.Elem → Bindings → Expansion X.Elem → Result (Expansion X.Elem)

  -- The action of a rule, if the rule matches.
  unfoldable pub run_match :
      Call → Match → Action → X.Elem → Bindings → Expansion X.Elem → Result (Expansion X.Elem)
  run_match call mismatch action child param_bind e = ok e
  run_match call (matches fresh) action child param_bind e =
      call action child (merge param_bind fresh) e

  -- The loop over the rules, for one child.
  unfoldable pub run_rules :
      Call → Rules → X.Elem → Bindings → Expansion X.Elem → Result (Expansion X.Elem)
  run_rules call no_rules child param_bind e = ok e
  run_rules call (rule key value rules) child param_bind e = do
    (m, action) ← apply_rule X child key value
    e' ← run_match call m action child param_bind e
    run_rules call rules child param_bind e'

  -- The loop over the children.
  unfoldable pub run_children :
      Call → Rules → List X.Elem → Bindings → Expansion X.Elem → Result (Expansion X.Elem)
  run_children call rules [] param_bind e = ok e
  run_children call rules (child ∷ children) param_bind e = do
    e' ← run_rules call rules child param_bind e
    run_children call rules children param_bind e'

  -- An action on a node, with fuel for the calls inside one another.
  unfoldable pub run : ℕ → Call
  run zero action node param_bind e = err out_of_fuel
  run (suc fuel) (output path) node param_bind e = add_to_output_func node param_bind c2s_map path e
  run (suc fuel) (traverse rules) node param_bind e =
      run_children (run fuel) rules (X.findall node (codes "*")) param_bind e

  -- `do_traversal_func` and the lambda of `add_to_output`.
  unfoldable pub execute : Call
  unfolding run
  execute action = run (depth action) action
