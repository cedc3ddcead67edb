-- ===== src/DocTransfer/Traverse/Ends.antt =====
-- The calls of `do_traversal_func` and `add_to_output_func` in
-- tools/plugins/documentation/doc_transfer.py, and the fuel of the model.
use muen.Base.{ℕ, zero, suc, ◌≤◌, ◌≡◌, arith, List, [], ◌∷◌, Str, codes}
use muen.Base.{
  Option, some, none, ok, ◌>>=◌, true, false, Bool-cases, inl, inr, ◌==◌, list_eq, option_eq,
  nat_eq, eqb, init,
}
use muen.Base.Text.{split, has_infix}
use muen.Xml.{Etree}
use muen.DocTransfer.Subjects.{SubjectMap}
use muen.DocTransfer.Rules.{
  Action, output, traverse, Rules, no_rules, rule, Bindings, Match, mismatch, matches, apply_rule,
  match_local, match_attribute, match_value, local_part, new_action, at, simple_xpath_match,
}
use muen.DocTransfer.Expansion.{Expansion}
use muen.DocTransfer.Traverse.{
  depth, depth_rules, run_match, run_rules, run_children, run, execute, merge, Call,
}
use muen.DocTransfer.Traverse.Steps.{depth-new_action, apply_rule-action}
use muen.DocTransfer.Traverse.Fuel.{Ends, Ends-bind, at-Ends, add_to_output_func-Ends}

module _ (X : Etree) where
  match_value-Ends : (actual v : Str) → Ends (match_value actual v)
  unfolding match_value
  match_value-Ends actual [] = λ e. cc
  match_value-Ends actual (c ∷ v) = elim (Bool-cases (eqb c b'$')) [
    | inl y ↦ rw y (λ e. cc)
    | inr n ↦ elim (Bool-cases (actual == c ∷ v)) [
      | inl y ↦ rw (n, y) (λ e. cc)
      | inr k ↦ rw (n, k) (λ e. cc)
    ]
  ]

  match_attribute-Ends : (node : X.Elem) (l : Str) → Ends (match_attribute X node l)
  unfolding match_attribute
  match_attribute-Ends node l =
      Ends-bind (at (split (codes "[@") l) 1) _ (at-Ends (split (codes "[@") l) 1) λ rest _.
        let attribs = init rest in
        Ends-bind (at (split (codes "=") attribs) 0) _ (at-Ends (split (codes "=") attribs) 0)
          λ attr _. go attribs (X.get node attr)
    where
      go :
          (attribs : Str) (o : Option Str)
          → Ends (elim o [
            | none ↦ ok mismatch
            | some actual ↦ do
              quoted ← at (split (codes "=\"") attribs) 1
              match_value actual (init quoted)
          ])
      go attribs none = λ e. cc
      go attribs (some actual) =
          Ends-bind (at (split (codes "=\"") attribs) 1) _ (at-Ends (split (codes "=\"") attribs) 1)
            λ quoted _. match_value-Ends actual (init quoted)

  match_local-Ends : (node : X.Elem) (l : Str) → Ends (match_local X node l)
  unfolding match_local
  match_local-Ends node l =
      Ends-bind (at (split (codes "[") l) 0) _ (at-Ends (split (codes "[") l) 0) λ name _.
        elim (Bool-cases (X.tag node == some name)) [
          | inl y ↦ elim (Bool-cases (has_infix l (codes "["))) [
            | inl z ↦ rw (y, z) (match_attribute-Ends node l)
            | inr k ↦ rw (y, k) (λ e. cc)
          ]
          | inr n ↦ rw n (λ e. cc)
        ]

  apply_rule-Ends :
      (node : X.Elem) (key : Str) (value : Action) → Ends (apply_rule X node key value)
  unfolding apply_rule
  apply_rule-Ends node key value =
      Ends-bind (match_local X node (local_part key)) _ (match_local-Ends node (local_part key))
        (λ m _ e. cc)

  module _ (m : SubjectMap) (call : Call X m) (d : ℕ) where
    run_match-Ends :
        (k : Match) (action : Action) (node : X.Elem) (b : Bindings) (x : Expansion X.Elem)
        → depth action ≤ d
        → ((a : Action) (n : X.Elem) (c : Bindings) (y : Expansion X.Elem)
            → depth a ≤ d
            → Ends (call a n c y))
        → Ends (run_match X m call k action node b x)
    unfolding run_match
    run_match-Ends mismatch action node b x w h = λ e. cc
    run_match-Ends (matches fresh) action node b x w h = h action node (merge b fresh) x w

    run_rules-Ends :
        (rules : Rules) (node : X.Elem) (b : Bindings) (x : Expansion X.Elem)
        → ((a : Action) (n : X.Elem) (c : Bindings) (y : Expansion X.Elem)
            → depth a ≤ d
            → Ends (call a n c y))
        → depth_rules rules ≤ d
        → Ends (run_rules X m call rules node b x)
    unfolding run_rules depth run_match
    run_rules-Ends no_rules node b x h w = λ e. cc
    run_rules-Ends (rule key value rules) node b x h w =
        Ends-bind (apply_rule X node key value) _ (apply_rule-Ends node key value) λ (k, action) r.
          let a : new_action key value ≡ action =
            apply_rule-action X m call call d node key value k action r in
          let within : depth action ≤ d = rw (← a) (omega (arith, depth-new_action key value)) in
          Ends-bind (run_match X m call k action node b x) _
            (run_match-Ends k action node b x within h)
            λ y _. run_rules-Ends rules node b y h (omega arith)

    run_children-Ends :
        (rules : Rules) (nodes : List X.Elem) (b : Bindings) (x : Expansion X.Elem)
        → ((a : Action) (n : X.Elem) (c : Bindings) (y : Expansion X.Elem)
            → depth a ≤ d
            → Ends (call a n c y))
        → depth_rules rules ≤ d
        → Ends (run_children X m call rules nodes b x)
    unfolding run_children
    run_children-Ends rules [] b x h w = λ e. cc
    run_children-Ends rules (node ∷ nodes) b x h w =
        Ends-bind (run_rules X m call rules node b x) _ (run_rules-Ends rules node b x h w)
          λ y _. run_children-Ends rules nodes b y h w

  run-Ends :
      (m : SubjectMap) (fuel : ℕ) (a : Action) (node : X.Elem) (b : Bindings) (x : Expansion X.Elem)
      → depth a ≤ fuel
      → Ends (run X m fuel a node b x)
  unfolding run depth
  run-Ends m zero (output path) node b x h = absurd (omega arith)
  run-Ends m zero (traverse rules) node b x h = absurd (omega arith)
  run-Ends m (suc fuel) (output path) node b x h = add_to_output_func-Ends node b m path x
  run-Ends m (suc fuel) (traverse rules) node b x h =
      run_children-Ends m (run X m fuel) fuel rules (X.findall node (codes "*")) b x
        (λ a n c y k. run-Ends m fuel a n c y k) (omega arith)

  pub execute-Ends :
      (m : SubjectMap) (a : Action) (node : X.Elem) (b : Bindings) (x : Expansion X.Elem)
      → Ends (execute X m a node b x)
  unfolding execute
  execute-Ends m a node b x = run-Ends m (depth a) a node b x (omega arith)

  pub simple_xpath_match-Ends : (node : X.Elem) (path : Str) → Ends (simple_xpath_match X node path)
  unfolding simple_xpath_match
  simple_xpath_match-Ends node path =
      Ends-bind (match_local X node (local_part path)) _ (match_local-Ends node (local_part path))
        (λ m _. go m)
    where
      go : (m : Match) → Ends (elim m [ mismatch ↦ ok false | matches b ↦ ok true ])
      go mismatch = λ e. cc
      go (matches b) = λ e. cc
