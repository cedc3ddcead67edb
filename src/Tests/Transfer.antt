-- ===== src/Tests/Transfer.antt =====
-- A policy with a library that a component depends on, and the transfer of its documentation.
use muen.Base.{
  ℕ, Bool, true, false, List, [], ◌∷◌, Option, none, some, Str, codes, Result, ok, err, refl, ◌≡◌,
}
use muen.Xml.Tree.{Tree, elem, tree, tree-IsLawful}
use muen.Base.{◌↔◌, contains, ◌++◌, replicate, All}
use muen.Base.{Eq, any, list_eq, option_eq, pair_eq, nat_eq}
use muen.Base.Text.{join, is_in}
use muen.Base.Text.Laws.{Avoids, Avoids-of_test}
use muen.DocTransfer.Main.{transfer}
use muen.DocTransfer.Main.Keeps.{transfer-Extends}
use muen.DocTransfer.Apply.{apply_target_expansion, apply_children, map_result}
use muen.DocTransfer.Apply.Extends.{Extends}
use muen.DocTransfer.Graph.{Node, Graph, subject, component, library, get_reachable_nodes}
use muen.DocTransfer.Graph.Reach.{Walk, get_reachable_nodes_lem}
use muen.DocTransfer.Subjects.{
  SubjectMap, compile_component_to_subjects_map, dependencies, subject_nodes,
}
use muen.DocTransfer.Subjects.Resolve.{Reaches, listed}
use muen.DocTransfer.Subjects.Build.{compile_component_to_subjects_map_lem}
use muen.DocTransfer.Rules.{
  Bindings, Action, output, traverse, Rules, rule, no_rules, tail, Match, apply_rule, match_local,
}
use muen.DocTransfer.Rules.Notation.{notation, IsPlain}
use muen.DocTransfer.Expansion.{
  Expansion, expansion, Children, no_children, child, blank, add_to_output_func,
  get_list_of_substitutions,
}
use muen.DocTransfer.Expansion.View.{leaves_at}
use muen.DocTransfer.Traverse.{execute, run_children}

abbrev attr : Str → Str → List (Str × Str)
attr k v = (k, v) ∷ []

abbrev pub named : Str → List (Str × Str)
named n = attr (codes "name") n

abbrev doc : Str → Tree
doc n = elem (codes "doc") (named n) []

-- A library that a component depends on, and a subject that instantiates the component.
abbrev pub joined : Tree
joined = elem (codes "system") [] (
    doc (codes "d0")
    ∷ elem (codes "components") [] (
        elem (codes "library") (named (codes "lib")) (
          elem (codes "requires") [] (
            elem (codes "memory") [] (
              elem (codes "memory") (attr (codes "logical") (codes "buf")) (doc (codes "d1") ∷ [])
              ∷ [])
            ∷ [])
          ∷ [])
        ∷ elem (codes "component") (named (codes "comp")) (
            doc (codes "d2")
            ∷ elem (codes "depends") []
                (elem (codes "library") (attr (codes "ref") (codes "lib")) [] ∷ [])
            ∷ [])
        ∷ [])
    ∷ elem (codes "subjects") [] (
        elem (codes "subject") (named (codes "s"))
          (doc (codes "d3") ∷ elem (codes "component") (attr (codes "ref") (codes "comp")) [] ∷ [])
        ∷ [])
    ∷ [])

abbrev pub policy_b : Tree
policy_b = elem (codes "system") [] (
    elem (codes "subjects") [] (
      elem (codes "subject") (named (codes "s")) (
        elem (codes "memory") []
          (elem (codes "memory") (attr (codes "logical") (codes "buf")) [] ∷ [])
        ∷ [])
      ∷ [])
    ∷ [])

pub slash : (s : Str) → any (is_in (codes "/")) s ≡ false → Avoids (codes "/") s
slash s h = Avoids-of_test (codes "/") s h

pub word : (s : Str) → any (is_in notation) s ≡ false → IsPlain s
word s h = Avoids-of_test notation s h

abbrev pub result_or : Tree → Result Tree → Tree
result_or t (ok r) = r
result_or t (err e) = t

abbrev map_or : Result SubjectMap → SubjectMap
map_or (ok m) = m
map_or (err e) = []

abbrev reached_or : Result (List Node) → List Node
reached_or (ok ns) = ns
reached_or (err e) = []

abbrev a_node : Node
a_node = (some (codes "a"), subject)

abbrev b_node : Node
b_node = (some (codes "b"), component)

abbrev c_node : Node
c_node = (some (codes "c"), library)

-- A graph with a cycle.
abbrev cycle : Graph
cycle = record {
  nodes = a_node ∷ b_node ∷ c_node ∷ [];
  edges = (a_node, b_node) ∷ (b_node, c_node) ∷ (c_node, b_node) ∷ [];
}

compile_component_to_subjects_map_example :
    (m : SubjectMap) × (compile_component_to_subjects_map tree joined ≡ ok m)
    × ((n s : Option Str)
        → (listed m n s ≡ true)
          ↔ ∥ Reaches
              (dependencies tree joined).graph
              (subject_nodes (dependencies tree joined).graph)
              n
              s ∥₁)
compile_component_to_subjects_map_example = compile_component_to_subjects_map_lem tree joined

get_reachable_nodes_example :
    (t : List Node) × (get_reachable_nodes cycle a_node ≡ ok t)
    × ((y : Node) → (contains t y ≡ true) ↔ ∥ Walk cycle a_node y ∥₁)
get_reachable_nodes_example = get_reachable_nodes_lem cycle a_node

abbrev written : Tree
written = result_or policy_b (transfer tree joined policy_b)

transfer-Extends_example : Extends tree policy_b written
unfolding transfer muen.DocTransfer.Main.compile_target_expansion
    muen.DocTransfer.Rules.add_to_output compile_component_to_subjects_map
    muen.DocTransfer.Subjects.resolve dependencies muen.Base.Text.split mathlib.Core.List.flat_map
    muen.Base.Dict.lookup muen.Base.add get_reachable_nodes muen.DocTransfer.Graph.get_peers
    muen.Base.is_subset muen.DocTransfer.Graph.peers_of muen.Base.union muen.Base.Dict.insert
    execute muen.DocTransfer.Traverse.depth muen.Base.Text.replace apply_target_expansion
    muen.DocTransfer.Apply.insert_leaves map_result muen.DocTransfer.Expansion.View.get_child
    muen.DocTransfer.Expansion.add_level muen.DocTransfer.Expansion.add_new_leaf
    muen.DocTransfer.Expansion.add_path add_to_output_func get_list_of_substitutions
    muen.DocTransfer.Expansion.include_new_child muen.DocTransfer.Expansion.insert_all
    muen.DocTransfer.Expansion.insert_under muen.DocTransfer.Expansion.parameter_name
    muen.DocTransfer.Expansion.substitute muen.DocTransfer.Expansion.update_child
    muen.DocTransfer.Graph.reach_loop muen.DocTransfer.Main.system_of apply_rule
    muen.DocTransfer.Rules.local_part muen.DocTransfer.Rules.match_attribute match_local
    muen.DocTransfer.Rules.match_value muen.DocTransfer.Rules.new_action
    muen.DocTransfer.Rules.remaining_part muen.DocTransfer.Rules.simple_xpath_match
    muen.DocTransfer.Subjects.add_comp muen.DocTransfer.Subjects.add_comps
    muen.DocTransfer.Subjects.add_depends muen.DocTransfer.Subjects.add_edge
    muen.DocTransfer.Subjects.add_node muen.DocTransfer.Subjects.add_subj
    muen.DocTransfer.Subjects.add_subject muen.DocTransfer.Subjects.add_subjs
    muen.DocTransfer.Subjects.add_to_all muen.DocTransfer.Subjects.component_ref
    muen.DocTransfer.Subjects.dependencies_of subject_nodes muen.DocTransfer.Traverse.merge
    muen.DocTransfer.Traverse.run run_children muen.DocTransfer.Traverse.run_match
    muen.DocTransfer.Traverse.run_rules
transfer-Extends_example = transfer-Extends tree tree-IsLawful joined policy_b written refl
