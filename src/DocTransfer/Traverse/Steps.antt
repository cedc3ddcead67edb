-- ===== src/DocTransfer/Traverse/Steps.antt =====
-- The fuel of `execute` and the equations of `do_traversal_func` in
-- tools/plugins/documentation/doc_transfer.py, in which an action calls the actions of the rules that
-- match.
use mathlib.Core.List.{cons-ne-nil}
use muen.Base.{
  ℕ, zero, suc, ◌+◌, ◌-◌, ◌≤◌, ◌<◌, ◌≡◌, ◌≢◌, refl, sym, arith, List, [], ◌∷◌, Str, codes,
}
use muen.Base.{length, list_eq, nat_eq, ok, >>=-eq-ok, >>=-congr, ◌==◌, Bool-cases, inl, inr}
use muen.Base.{list_beq_iff, All}
use muen.Base.Text.{split, join}
use muen.Base.Text.Laws.{Avoids, split-Avoids, split-join, split-ne-nil}
use muen.Xml.{Etree}
use muen.DocTransfer.Subjects.{SubjectMap}
use muen.DocTransfer.Rules.{
  Action, output, traverse, Rules, no_rules, rule, Bindings, Match, mismatch, matches, apply_rule,
  match_local, local_part, new_action, remaining_part, tail,
}
use muen.DocTransfer.Expansion.{Expansion, add_to_output_func}
use muen.DocTransfer.Traverse.{
  depth, depth_rules, run_match, run_rules, run_children, run, execute, merge, Call,
}

-- The parts behind the first one.
length-split-join :
    (ps : List Str)
    → All (Avoids (codes "/")) ps
    → join (codes "/") (tail ps) ≢ []
    → suc (length (split (codes "/") (join (codes "/") (tail ps)))) ≡ length ps
length-split-join [] h n = absurd (n refl)
length-split-join (p ∷ []) h n = absurd (n refl)
length-split-join (p ∷ q ∷ ps) h n = rw (split-join b'/' (q ∷ ps) (cons-ne-nil q ps) h.1)

length-remaining_part :
    (key : Str)
    → remaining_part key ≢ []
    → suc (length (split (codes "/") (remaining_part key))) ≡ length (split (codes "/") key)
unfolding remaining_part
length-remaining_part key n = length-split-join (split (codes "/") key) (split-Avoids b'/' key) n

length-split-pos : (s : Str) → 0 < length (split (codes "/") s)
length-split-pos s = ground (arith, split-ne-nil (codes "/") s)

-- The next action of a rule is within the depth of the rule.
pub depth-new_action :
    (key : Str) (value : Action)
    → depth (new_action key value) ≤ length (split (codes "/") key) - 1 + depth value
unfolding new_action depth
depth-new_action key value = elim (Bool-cases (remaining_part key == [])) [
  | inl e ↦ rw (e, new_action) (omega arith)
  | inr e ↦
      rw (e, new_action)
        (omega (
          arith,
          length-remaining_part key (λ n. ground (arith, list_beq_iff (remaining_part key) [])),
          length-split-pos (remaining_part key),
        ))
]

-- The actions that a call of one of the rules takes.
abbrev Within : ℕ → Action → Type 0
Within d action = depth action ≤ d

module _ (X : Etree) (c2s_map : SubjectMap) (call call' : Call X c2s_map) (d : ℕ) where
  -- The calls agree on actions that are not deeper than `d`.
  abbrev Agree : Type 0
  Agree =
      (action : Action) (node : X.Elem) (b : Bindings) (e : Expansion X.Elem)
      → Within d action
      → call action node b e ≡ call' action node b e

  run_match-congr :
      (m : Match) (action : Action) (node : X.Elem) (b : Bindings) (e : Expansion X.Elem)
      → Agree
      → Within d action
      → run_match X c2s_map call m action node b e ≡ run_match X c2s_map call' m action node b e
  unfolding run_match
  run_match-congr mismatch action node b e h w = refl
  run_match-congr (matches fresh) action node b e h w = h action node (merge b fresh) e w

  pub apply_rule-action :
      (node : X.Elem) (key : Str) (value : Action) (m : Match) (action : Action)
      → apply_rule X node key value ≡ ok (m, action)
      → new_action key value ≡ action
  unfolding apply_rule
  apply_rule-action node key value m action h =
      let (m', e, r) = >>=-eq-ok (match_local X node (local_part key)) _ h in cc

  run_rules-congr :
      (rules : Rules) (node : X.Elem) (b : Bindings) (e : Expansion X.Elem)
      → Agree
      → depth_rules rules ≤ d
      → run_rules X c2s_map call rules node b e ≡ run_rules X c2s_map call' rules node b e
  unfolding run_rules depth
  run_rules-congr no_rules node b e h w = refl
  run_rules-congr (rule key value rules) node b e h w =
      >>=-congr (apply_rule X node key value) _ _ λ (m, action) r.
        let a : new_action key value ≡ action = apply_rule-action node key value m action r in
        let within : depth action ≤ d = rw (← a) (omega (arith, depth-new_action key value)) in
        rw (run_match-congr m action node b e h within) (
          >>=-congr (run_match X c2s_map call' m action node b e) _ _
            λ e' _. run_rules-congr rules node b e' h (omega arith))

  run_children-congr :
      (rules : Rules) (nodes : List X.Elem) (b : Bindings) (e : Expansion X.Elem)
      → Agree
      → depth_rules rules ≤ d
      → run_children X c2s_map call rules nodes b e ≡ run_children X c2s_map call' rules nodes b e
  unfolding run_children
  run_children-congr rules [] b e h w = refl
  run_children-congr rules (node ∷ nodes) b e h w = rw (run_rules-congr rules node b e h w) (
      >>=-congr (run_rules X c2s_map call' rules node b e) _ _
        λ e' _. run_children-congr rules nodes b e' h w)

module _ (X : Etree) (c2s_map : SubjectMap) where
  -- More fuel than the depth of the action changes nothing.
  run_enough :
      (f g : ℕ) (action : Action) (node : X.Elem) (b : Bindings) (e : Expansion X.Elem)
      → depth action ≤ f
      → f ≤ g
      → run X c2s_map f action node b e ≡ run X c2s_map g action node b e
  unfolding run depth
  run_enough zero g (output path) node b e h w = absurd (omega arith)
  run_enough zero g (traverse rules) node b e h w = absurd (omega arith)
  run_enough (suc f) zero action node b e h w = absurd (omega arith)
  run_enough (suc f) (suc g) (output path) node b e h w = refl
  run_enough (suc f) (suc g) (traverse rules) node b e h w =
      run_children-congr X c2s_map (run X c2s_map f) (run X c2s_map g) f rules
        (X.findall node (codes "*")) b e
        (λ action node' b' e' k. run_enough f g action node' b' e' k (omega arith)) (omega arith)

  -- An action of `add_to_output` calls `add_to_output_func`, and one of `do_traversal` applies all
  -- rules to each child element in turn, with the same meaning of the actions that it calls.
  pub execute_step :
      (node : X.Elem) (b : Bindings) (e : Expansion X.Elem)
      → ((path : Str)
          → execute X c2s_map (output path) node b e ≡ add_to_output_func node b c2s_map path e)
        × ((rules : Rules)
            → execute X c2s_map (traverse rules) node b e
              ≡ run_children X c2s_map (execute X c2s_map) rules (X.findall node (codes "*")) b e)
  unfolding execute depth
  execute_step node b e = (
    λ path. refl,
    λ rules.
        run_children-congr X c2s_map (run X c2s_map (depth_rules rules)) (execute X c2s_map)
          (depth_rules rules) rules (X.findall node (codes "*")) b e
          (λ action node' b' e' k.
            sym (run_enough (depth action) (depth_rules rules) action node' b' e' (omega arith) k))
          (omega arith),
  )
