-- ===== src/DocTransfer/Graph.antt =====
-- tools/plugins/documentation/doc_transfer.py, class `Graph`: the dependency graph between
-- libraries, components and subjects, and the nodes that can be reached from one of them.
pub mod Reach
use muen.Base.{ℕ, zero, suc, ◌+◌, Bool, true, false, Option, List, [], ◌∷◌, Str, if◌then◌else◌}
use muen.Base.{
  Eq, ◌==◌, list_eq, option_eq, pair_eq, nat_eq, contains, select, length, add, union, is_subset,
}
use muen.Base.{Result, ok, err, out_of_fuel}

-- A name with its kind: `'l'` is a library, `'c'` a component, `'s'` a subject.
-- The name is an attribute's value, or `None` where the attribute is missing.
abbrev pub Node : Type 0
Node = Option Str × ℕ

abbrev pub library : ℕ
library = b'l'

abbrev pub component : ℕ
component = b'c'

abbrev pub subject : ℕ
subject = b's'

pub record Graph : Type 0 where
  pub nodes : List Node
  pub edges : List (Node × Node)

abbrev pub empty : Graph
empty = record { nodes = []; edges = [] }

-- The nodes that one edge leads to.
unfoldable pub get_peers : Graph → Node → List Node
get_peers g node = select (λ x. contains g.edges (node, x)) g.nodes

-- The union of the peers of each node of a set.
unfoldable pub peers_of : Graph → List Node → List Node
peers_of g [] = []
peers_of g (x ∷ xs) = union (get_peers g x) (peers_of g xs)

-- The `while` loop, over its variables `reachable` and `reachable_new`.
unfoldable pub reach_loop : Graph → ℕ → List Node → List Node → Result (List Node)
reach_loop g zero reachable [] = ok reachable
reach_loop g zero reachable (_ ∷ _) = err out_of_fuel
reach_loop g (suc fuel) reachable [] = ok reachable
reach_loop g (suc fuel) reachable (x ∷ xs) =
    let working_list = peers_of g (x ∷ xs) in
    let rest = reach_loop g fuel (union reachable working_list) working_list in
    if is_subset working_list reachable then ok reachable else rest

-- Every round but the last finds a node of the graph that was not reached before.
unfoldable pub get_reachable_nodes : Graph → Node → Result (List Node)
unfolding reach_loop
get_reachable_nodes g node =
    let peers = get_peers g node in reach_loop g (length g.nodes + 1) peers peers
