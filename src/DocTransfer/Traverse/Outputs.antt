-- ===== src/DocTransfer/Traverse/Outputs.antt =====
-- What a dictionary of rules of tools/plugins/documentation/doc_transfer.py puts out: a description of the
-- nodes that it reaches, with their bindings and target paths, which has no dictionaries, no texts of
-- rules and no fuel.
use mathlib.Core.List.{flat_map}
use muen.Base.{List, [], ◌∷◌, ◌++◌, Option, none, some, Str, ◌≡◌, refl, ap, ◌∙◌, sym, All, select}
use muen.Base.{
  for_each-one, for_each-congr, for_each-append, for_each-flat_map, >>=-congr, >>=-ok, Bool-cases,
  Option-cases, inl, inr,
}
use muen.Base.{Result, ok, ◌>>=◌, for_each, ◌==◌, list_eq, nat_eq, option_eq, if◌then◌else◌}
use muen.Base.Dict.{insert}
use muen.Xml.{Etree, IsLawful, is_element}
use muen.DocTransfer.Subjects.{SubjectMap}
use muen.DocTransfer.Rules.{Action, output, traverse, Rules, no_rules, rule, Bindings}
use muen.DocTransfer.Rules.Notation.{Local, plain, equals, binds, IsLocal}
use muen.DocTransfer.Rules.Syntax.{meaning, rule_text, rest_action, apply_rule-rule_text}
use muen.DocTransfer.Expansion.{Expansion, add_to_output_func}
use muen.DocTransfer.Traverse.{Call, run_match, run_rules, run_children, execute, merge}
use muen.DocTransfer.Traverse.Steps.{execute_step}

-- A dictionary: each rule has one or more levels, and a target path, without its first slash, or another
-- dictionary.
mutual
  pub data Plan : Type 0 where
    to : Str → Plan
    by : Steps → Plan

  pub data Steps : Type 0 where
    done : Steps
    step : Local → List Local → Plan → Steps → Steps

abbrev mutual
  pub action_of : Plan → Action
  action_of (to path) = output path
  action_of (by steps) = traverse (rules_of steps)

  pub rules_of : Steps → Rules
  rules_of done = no_rules
  rules_of (step l ls plan steps) = rule (rule_text (l ∷ ls)) (action_of plan) (rules_of steps)

abbrev mutual
  pub IsPlan : Plan → Type 0
  IsPlan (to path) = Unit
  IsPlan (by steps) = AreSteps steps

  pub AreSteps : Steps → Type 0
  AreSteps done = Unit
  AreSteps (step l ls plan steps) = IsLocal l × All IsLocal ls × IsPlan plan × AreSteps steps

module _ (X : Etree) where
  -- The bindings with which a node matches a level, if it does
  abbrev pub bound : X.Elem → Local → Bindings → Option Bindings
  bound node (plain tag) b = if X.tag node == some tag then some b else none
  bound node (equals tag attr value) b =
      if X.tag node == some tag
      then (if X.get node attr == some value then some b else none)
      else none
  bound node (binds tag attr variable) b =
      if X.tag node == some tag
      then elim (X.get node attr) [ none ↦ none | some v ↦ some (insert variable v b) ]
      else none

  abbrev pub if_bound {ℓ} : {A : Type ℓ} → (Bindings → List A) → Option Bindings → List A
  if_bound f none = []
  if_bound f (some b) = f b

  abbrev pub elements : X.Elem → List X.Elem
  elements node = select (is_element X) (X.children node)

  -- The descendants that match the levels, in the order of the document, with their bindings
  abbrev pub selected : List Local → X.Elem → Bindings → List (X.Elem × Bindings)
  selected [] node b = (node, b) ∷ []
  selected (l ∷ ls) node b =
      flat_map (λ child. if_bound (selected ls child) (bound child l b)) (elements node)

  abbrev pub Output : Type 0
  Output = X.Elem × (Bindings × Str)

  abbrev mutual
    pub outputs : Plan → X.Elem → Bindings → List Output
    outputs (to path) node b = (node, (b, path)) ∷ []
    outputs (by steps) node b = flat_map (λ child. outputs_of steps child b) (elements node)

    pub outputs_of : Steps → X.Elem → Bindings → List Output
    outputs_of done child b = []
    outputs_of (step l ls plan steps) child b =
        flat_map (λ x. outputs plan x.0 x.1) (if_bound (selected ls child) (bound child l b))
        ++ outputs_of steps child b

module _ (X : Etree) (c2s_map : SubjectMap) where
  -- What is done with a node that the levels of a rule reach
  abbrev reach : Action → X.Elem × Bindings → Expansion X.Elem → Result (Expansion X.Elem)
  reach value x = execute X c2s_map value x.0 x.1

  abbrev pub put_out : Output X → Expansion X.Elem → Result (Expansion X.Elem)
  put_out (node, (b, path)) = add_to_output_func node b c2s_map path

  call_if :
      (Bindings → Expansion X.Elem → Result (Expansion X.Elem))
      → Option Bindings
      → Expansion X.Elem
      → Result (Expansion X.Elem)
  call_if f none e = ok e
  call_if f (some b) e = f b e

  call_if_lem :
      (call : Bindings → Expansion X.Elem → Result (Expansion X.Elem))
      (f : X.Elem × Bindings → Expansion X.Elem → Result (Expansion X.Elem))
      (g : Bindings → List (X.Elem × Bindings)) (o : Option Bindings) (e : Expansion X.Elem)
      → ((b : Bindings) → call b e ≡ for_each f (g b) e)
      → call_if call o e ≡ for_each f (if_bound X g o) e
  unfolding call_if for_each
  call_if_lem call f g none e h = refl
  call_if_lem call f g (some b) e h = h b

  run_rules-no_rules :
      (r : Result (Expansion X.Elem)) (child : X.Elem) (b : Bindings)
      → (r >>= run_rules X c2s_map (execute X c2s_map) no_rules child b) ≡ r
  unfolding run_rules
  run_rules-no_rules r child b = >>=-ok r

  run_rules-done :
      (child : X.Elem) (b : Bindings) (e : Expansion X.Elem)
      → run_rules X c2s_map (execute X c2s_map) no_rules child b e ≡ for_each put_out [] e
  unfolding run_rules for_each
  run_rules-done child b e = refl

  run_match-meaning :
      (call : Call X c2s_map) (l : Local) (action : Action) (child : X.Elem) (b : Bindings)
      (e : Expansion X.Elem)
      → run_match X c2s_map call (meaning X child l) action child b e
        ≡ call_if (call action child) (bound X child l b) e
  unfolding run_match merge call_if
  run_match-meaning call (plain tag) action child b e =
      elim (Bool-cases (X.tag child == some tag)) [ inl t ↦ rw t refl | inr t ↦ rw t refl ]
  run_match-meaning call (equals tag attr value) action child b e =
      elim (Bool-cases (X.tag child == some tag)) [
        | inl t ↦ elim (Bool-cases (X.get child attr == some value)) [
          | inl u ↦ rw (t, u) refl
          | inr u ↦ rw (t, u) refl
        ]
        | inr t ↦ rw t refl
      ]
  run_match-meaning call (binds tag attr variable) action child b e =
      elim (Bool-cases (X.tag child == some tag)) [
        | inl t ↦ elim (Option-cases (X.get child attr)) [
          | inl u ↦ rw (t, u) refl
          | inr (v, u) ↦ rw (t, u) refl
        ]
        | inr t ↦ rw t refl
      ]

  run_children_lem :
      (call : Call X c2s_map) (rules : Rules) (cs : List X.Elem) (b : Bindings)
      (e : Expansion X.Elem)
      → run_children X c2s_map call rules cs b e
        ≡ for_each (λ c. run_rules X c2s_map call rules c b) cs e
  unfolding run_children for_each
  run_children_lem call rules [] b e = refl
  run_children_lem call rules (c ∷ cs) b e =
      >>=-congr (run_rules X c2s_map call rules c b e) _ _
        (λ t _. run_children_lem call rules cs b t)

  -- One rule of a dictionary, where what its other levels do is known
  run_rules-rule :
      (l : Local) (ls : List Local) (value : Action) (rules : Rules) (child : X.Elem) (b : Bindings)
      (e : Expansion X.Elem)
      → IsLocal l
      → All IsLocal ls
      → ((b' : Bindings) (t : Expansion X.Elem)
          → execute X c2s_map (rest_action ls value) child b' t
            ≡ for_each (reach value) (selected X ls child b') t)
      → run_rules X c2s_map (execute X c2s_map) (rule (rule_text (l ∷ ls)) value rules) child b e
        ≡ (for_each (reach value) (if_bound X (selected X ls child) (bound X child l b)) e
            >>= run_rules X c2s_map (execute X c2s_map) rules child b)
  unfolding run_rules for_each call_if
  run_rules-rule l ls value rules child b e h hs k =
      rw (apply_rule-rule_text X child l ls value h hs) (
        ap (λ r. r >>= run_rules X c2s_map (execute X c2s_map) rules child b)
          (run_match-meaning (execute X c2s_map) l (rest_action ls value) child b e
            ∙ call_if_lem (execute X c2s_map (rest_action ls value) child) (reach value)
                (selected X ls child) (bound X child l b) e (λ b'. k b' e)))

  module _ (L : IsLawful X) where
    traverse_lem :
        (rules : Rules) (node : X.Elem) (b : Bindings) (e : Expansion X.Elem)
        → execute X c2s_map (traverse rules) node b e
          ≡ for_each (λ c. run_rules X c2s_map (execute X c2s_map) rules c b) (elements X node) e
    traverse_lem rules node b e =
        (execute_step X c2s_map node b e).1 rules
        ∙ ap (λ cs. run_children X c2s_map (execute X c2s_map) rules cs b e) (L.findall_star node)
        ∙ run_children_lem (execute X c2s_map) rules (elements X node) b e

    -- The levels of a rule lead to the nodes that they select.
    execute-levels :
        (ls : List Local) (value : Action) (node : X.Elem) (b : Bindings) (e : Expansion X.Elem)
        → All IsLocal ls
        → execute X c2s_map (rest_action ls value) node b e
          ≡ for_each (reach value) (selected X ls node b) e
    execute-levels [] value node b e h = sym (for_each-one (reach value) (node, b) e)
    execute-levels (l ∷ ls) value node b e (h, hs) =
        traverse_lem (rule (rule_text (l ∷ ls)) value no_rules) node b e
        ∙ for_each-congr _ _ (elements X node) e (λ child t.
          run_rules-rule l ls value no_rules child b t h hs
            (λ b' u. execute-levels ls value child b' u hs)
          ∙ run_rules-no_rules _ child b)
        ∙ sym (
            for_each-flat_map (reach value)
              (λ child. if_bound X (selected X ls child) (bound X child l b)) (elements X node) e)

    mutual
      run_plan-outputs :
          (plan : Plan) (node : X.Elem) (b : Bindings) (e : Expansion X.Elem)
          → IsPlan plan
          → execute X c2s_map (action_of plan) node b e ≡ for_each put_out (outputs X plan node b) e
      run_plan-outputs (to path) node b e h =
          (execute_step X c2s_map node b e).0 path ∙ sym (for_each-one put_out (node, (b, path)) e)
      run_plan-outputs (by steps) node b e h =
          traverse_lem (rules_of steps) node b e
          ∙ for_each-congr _ _ (elements X node) e (λ child t. run_rules-outputs steps child b t h)
          ∙ sym
              (for_each-flat_map put_out (λ child. outputs_of X steps child b) (elements X node) e)

      run_rules-outputs :
          (steps : Steps) (child : X.Elem) (b : Bindings) (e : Expansion X.Elem)
          → AreSteps steps
          → run_rules X c2s_map (execute X c2s_map) (rules_of steps) child b e
            ≡ for_each put_out (outputs_of X steps child b) e
      run_rules-outputs done child b e h = run_rules-done child b e
      run_rules-outputs (step l ls plan steps) child b e (h, hs, p, k) =
          let xs = if_bound X (selected X ls child) (bound X child l b) in
          run_rules-rule l ls (action_of plan) (rules_of steps) child b e h hs
            (λ b' t. execute-levels ls (action_of plan) child b' t hs)
          ∙ ap (λ r. r >>= run_rules X c2s_map (execute X c2s_map) (rules_of steps) child b)
              (for_each-congr _ _ xs e (λ x t. run_plan-outputs plan x.0 x.1 t p)
                ∙ sym (for_each-flat_map put_out (λ x. outputs X plan x.0 x.1) xs e))
          ∙ >>=-congr (for_each put_out (flat_map (λ x. outputs X plan x.0 x.1) xs) e) _ _
              (λ t _. run_rules-outputs steps child b t k)
          ∙ sym (
              for_each-append put_out (flat_map (λ x. outputs X plan x.0 x.1) xs)
                (outputs_of X steps child b) e)

    -- A dictionary of rules that is written in the notation, on any node: each target path is put out for
    -- the nodes that the levels of its rule lead to, in the order of the document and then of the rules,
    -- with the bindings of all levels, and nothing else is put out.
    pub execute-outputs :
        (plan : Plan) (node : X.Elem) (b : Bindings) (e : Expansion X.Elem)
        → IsPlan plan
        → execute X c2s_map (action_of plan) node b e ≡ for_each put_out (outputs X plan node b) e
    execute-outputs plan node b e h = run_plan-outputs plan node b e h
