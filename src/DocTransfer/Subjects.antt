-- ===== src/DocTransfer/Subjects.antt =====
-- tools/plugins/documentation/doc_transfer.py, `compile_component_to_subjects_map`: for each
-- component and library the subjects that instantiate it or depend on it.
pub mod Resolve
pub mod Build
use muen.Base.{ℕ, Bool, true, false, not, List, [], ◌∷◌, Option, none, some, Str, codes}
use muen.Base.{◌==◌, Eq, list_eq, nat_eq, option_eq, pair_eq, eqb, select, add, if◌then◌else◌}
use muen.Base.{Result, ok, err, key_error, ◌>>=◌, for_each}
use muen.Base.Dict.{Dict, lookup, insert}
use muen.Xml.{Etree}
use muen.DocTransfer.Graph.{Node, Graph, empty, library, component, subject, get_reachable_nodes}

-- From the name of a component or library to a set of names of subjects.
abbrev pub SubjectMap : Type 0
SubjectMap = Dict (Option Str) (List (Option Str))

-- The variables of the function: `c2s_map` and `dep_graph`.
pub record State : Type 0 where
  pub c2s_map : SubjectMap
  pub graph : Graph

unfoldable pub add_node : Node → Graph → Graph
add_node n g = record g { nodes = add g.nodes n }

unfoldable pub add_edge : Node → Node → Graph → Graph
add_edge a b g = record g { edges = add g.edges (a, b) }

-- `c2s_map[name].add(value)`
unfoldable pub add_subject : Option Str → Option Str → SubjectMap → Result SubjectMap
add_subject name value m = elim (lookup name m) [
  | none ↦ err key_error
  | some s ↦ ok (insert name (add s value) m)
]

module _ (X : Etree) where
  abbrev pub name : X.Elem → Option Str
  name e = X.get e (codes "name")

  abbrev pub ref : X.Elem → Option Str
  ref e = X.get e (codes "ref")

  -- `for dep in depends.findall("library")`
  unfoldable pub add_depends : Node → List X.Elem → Graph → Graph
  unfolding add_edge
  add_depends from [] g = g
  add_depends from (dep ∷ deps) g = add_depends from deps (add_edge from (ref dep, library) g)

  -- The elements that `for dep in depends.findall("library")` goes through, none if there is no
  -- `depends`.
  unfoldable pub dependencies_of : X.Elem → List X.Elem
  dependencies_of comp = elim (X.find comp (codes "depends")) [
    | none ↦ []
    | some depends ↦ X.findall depends (codes "library")
  ]

  -- The body of the loops over libraries and over components.
  unfoldable pub add_comp : ℕ → X.Elem → State → State
  unfolding add_node add_depends dependencies_of
  add_comp kind comp s = record {
    c2s_map = insert (name comp) [] s.c2s_map;
    graph =
        add_depends (name comp, kind) (dependencies_of comp) (add_node (name comp, kind) s.graph);
  }

  unfoldable pub add_comps : ℕ → List X.Elem → State → State
  unfolding add_comp
  add_comps kind [] s = s
  add_comps kind (comp ∷ comps) s = add_comps kind comps (add_comp kind comp s)

  -- `comp is not None and comp.get("ref")`: the reference, if it is a text that is not empty
  unfoldable pub component_ref : X.Elem → Option Str
  component_ref subj = elim (X.find subj (codes "component")) [
    | none ↦ none
    | some comp ↦ elim (ref comp) [ none ↦ none | some r ↦ if r == [] then none else some r ]
  ]

  -- The body of the loop over subjects.
  unfoldable pub add_subj : X.Elem → Graph → Graph
  unfolding add_node add_edge component_ref
  add_subj subj g =
      let g' = add_node (name subj, subject) g in
      elim (component_ref subj) [
        | none ↦ g'
        | some r ↦ add_edge (name subj, subject) (some r, component) g'
      ]

  unfoldable pub add_subjs : List X.Elem → Graph → Graph
  unfolding add_subj
  add_subjs [] g = g
  add_subjs (subj ∷ subjs) g = add_subjs subjs (add_subj subj g)

  -- What the three loops over the policy leave.
  unfoldable pub dependencies : X.Elem → State
  unfolding add_comps add_subjs
  dependencies root =
      let s =
        add_comps library (X.xpath root (codes "components/library"))
          (record { c2s_map = []; graph = empty }) in
      let s' = add_comps component (X.xpath root (codes "components/component")) s in
      record s' { graph = add_subjs (X.xpath root (codes "subjects/subject")) s'.graph }

-- The loop over the nodes that a subject reaches.
unfoldable pub add_to_all : Option Str → List Node → SubjectMap → Result SubjectMap
unfolding add_subject
add_to_all value [] m = ok m
add_to_all value (n ∷ ns) m = do m' ← add_subject n.0 value m; add_to_all value ns m'

-- The loop over the nodes of the subjects.
unfoldable pub resolve : Graph → List Node → SubjectMap → Result SubjectMap
unfolding add_to_all
resolve g [] m = ok m
resolve g (n ∷ ns) m = do
  reached ← get_reachable_nodes g n
  m' ← add_to_all n.0 reached m
  resolve g ns m'

unfoldable pub subject_nodes : Graph → List Node
subject_nodes g = select (λ n. eqb n.1 subject) g.nodes

unfoldable pub compile_component_to_subjects_map : (X : Etree) → X.Elem → Result SubjectMap
unfolding subject_nodes
compile_component_to_subjects_map X root =
    let s = dependencies X root in resolve s.graph (subject_nodes s.graph) s.c2s_map
