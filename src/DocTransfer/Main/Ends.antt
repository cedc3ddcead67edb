-- ===== src/DocTransfer/Main/Ends.antt =====
-- The transfer of tools/plugins/documentation/doc_transfer.py as a whole, and the fuel of the model.
use muen.Base.{ok, Result, List, [], ◌∷◌, Option, some, none, Bool, true, false, if◌then◌else◌}
use muen.Xml.{Etree}
use muen.DocTransfer.Rules.{add_to_output, traverse, simple_xpath_match}
use muen.DocTransfer.Maps.{system_map}
use muen.DocTransfer.Subjects.{compile_component_to_subjects_map}
use muen.DocTransfer.Subjects.Build.{compile_component_to_subjects_map_lem}
use muen.DocTransfer.Expansion.{Expansion, expansion, Children, no_children, child, blank}
use muen.DocTransfer.Apply.{apply_target_expansion, apply_children, map_result}
use muen.DocTransfer.Traverse.Ends.{execute-Ends, simple_xpath_match-Ends}
use muen.DocTransfer.Traverse.Fuel.{Ends, Ends-bind}
use muen.DocTransfer.Main.{compile_target_expansion, system_of, transfer}

module _ (X : Etree) where
  map_result-Ends :
      (f : X.Elem → Result X.Elem) (cs : List X.Elem)
      → ((c : X.Elem) → Ends (f c))
      → Ends (map_result f cs)
  unfolding map_result
  map_result-Ends f [] h = λ e. cc
  map_result-Ends f (c ∷ cs) h =
      Ends-bind (f c) _ (h c)
        λ d _. Ends-bind (map_result f cs) _ (map_result-Ends f cs h) (λ ds _ e. cc)

  branch-Ends : (b : Bool) (r : Result X.Elem) (c : X.Elem) → Ends r → Ends (if b then r else ok c)
  branch-Ends true r c h = h
  branch-Ends false r c h = λ e. cc

  mutual
    unfolding apply_target_expansion

    apply_target_expansion-Ends :
        (x : Expansion X.Elem) (root : X.Elem) → Ends (apply_target_expansion X x root)
    apply_target_expansion-Ends (expansion leaves cs) root =
        Ends-bind (map_result (λ c. apply_children X cs c) (X.children root)) _
          (map_result-Ends (λ c. apply_children X cs c) (X.children root) (apply_children-Ends cs))
          (λ kids _ e. cc)

    apply_children-Ends : (cs : Children X.Elem) (c : X.Elem) → Ends (apply_children X cs c)
    apply_children-Ends no_children c = λ e. cc
    apply_children-Ends (child path sub cs) c =
        Ends-bind (simple_xpath_match X c path) _ (simple_xpath_match-Ends X c path) λ b _.
          Ends-bind (if b then apply_target_expansion X sub c else ok c) _
            (branch-Ends b _ c (apply_target_expansion-Ends sub c)) λ d _. apply_children-Ends cs d

  maps-Ends : Ends system_map
  unfolding add_to_output
  maps-Ends e = cc

  subjects-Ends : (root : X.Elem) → Ends (compile_component_to_subjects_map X root)
  subjects-Ends root e = let (m, h, _) = compile_component_to_subjects_map_lem X root in cc

  -- The transfer does not end for the lack of fuel: it returns a policy, or raises an exception of the
  -- program.
  pub transfer-Ends : (pj_root pb_root : X.Elem) → Ends (transfer X pj_root pb_root)
  unfolding transfer compile_target_expansion
  transfer-Ends pj_root pb_root =
      Ends-bind (compile_target_expansion X pj_root) _
        (Ends-bind system_map _ maps-Ends λ rules _.
          Ends-bind (compile_component_to_subjects_map X pj_root) _ (subjects-Ends pj_root)
            λ m _. execute-Ends X m (traverse rules) pj_root [] blank)
        λ x _. go (system_of X x)
    where
      go :
          (o : Option (Expansion X.Elem))
          → Ends (elim o [ none ↦ ok pb_root | some sub ↦ apply_target_expansion X sub pb_root ])
      go none = λ e. cc
      go (some sub) = apply_target_expansion-Ends sub pb_root
