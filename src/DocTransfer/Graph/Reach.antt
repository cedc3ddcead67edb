-- ===== src/DocTransfer/Graph/Reach.antt =====
-- The search of `Graph.get_reachable_nodes` in tools/plugins/documentation/doc_transfer.py and the walks
-- of the graph.
use muen.Base.{
  ℕ, zero, suc, ◌+◌, ◌<◌, ◌≡◌, ◌↔◌, ◌⊎◌, inl, inr, refl, arith, true, false, Bool-cases,
}
use muen.Base.{
  List, [], ◌∷◌, list_eq, option_eq, pair_eq, nat_eq, contains, length, union, is_subset, ok,
}
use muen.Base.{contains-select, contains-union, is_subset_sound, is_subset_complete}
use muen.Base.{missing, missing_lt, missing-le-length, pair_beq_iff}
use mathlib.Core.Bool.{So-prop}
use mathlib.Core.Logic.{⊎_elim, ∥∥₁_elim}
use muen.DocTransfer.Graph.{Node, Graph, get_peers, peers_of, reach_loop, get_reachable_nodes}

-- An edge to a node of the graph.
abbrev pub Edge : Graph → Node → Node → Type 0
Edge g x y = (contains g.nodes y ≡ true) × (contains g.edges (x, y) ≡ true)

-- The walks of one or more edges.
pub data Walk (g : Graph) (start : Node) : Node → Type 0 where
  one : {x : Node} → Edge g start x → Walk g start x
  more : {x y : Node} → Walk g start x → Edge g x y → Walk g start y

module _ (g : Graph) where
  contains-get_peers : (x y : Node) → (contains (get_peers g x) y ≡ true) ↔ Edge g x y
  unfolding get_peers
  contains-get_peers x y = contains-select (λ z. contains g.edges (x, z)) g.nodes y

  -- A node is in the union if some node of the set has an edge to it.
  peers_of_sound :
      (xs : List Node) (y : Node)
      → contains (peers_of g xs) y ≡ true
      → (x : Node) × (contains xs x ≡ true) × Edge g x y
  unfolding peers_of
  peers_of_sound [] y h = cc
  peers_of_sound (x ∷ xs) y h =
      ⊎_elim (λ p. (x, ground (arith, pair_beq_iff x x), (contains-get_peers x y).0 p))
        (λ p. let (z, m, edge) = peers_of_sound xs y p in (z, ground arith, edge))
        ((contains-union (get_peers g x) (peers_of g xs) y).0 h)

  peers_of_complete :
      (xs : List Node) (x y : Node)
      → contains xs x ≡ true
      → Edge g x y
      → contains (peers_of g xs) y ≡ true
  unfolding peers_of
  peers_of_complete [] x y m edge = cc
  peers_of_complete (z ∷ xs) x y m edge = ground (
    arith,
    pair_beq_iff z x,
    contains-get_peers x y,
    contains-get_peers z y,
    contains-union (get_peers g z) (peers_of g xs) y,
    peers_of_complete xs x y,
  )

module _ (g : Graph) (start : Node) where
  -- What holds of `reachable` and `reachable_new` at the head of the loop.
  record Inv (reachable new : List Node) : Type 0 where
    sound : (y : Node) → contains reachable y ≡ true → Walk g start y
    kept : (y : Node) → contains new y ≡ true → contains reachable y ≡ true
    base : (y : Node) → Edge g start y → contains reachable y ≡ true
    closed :
        (x y : Node)
        → contains reachable x ≡ true
        → Edge g x y
        → (contains new x ≡ true) ⊎ (contains reachable y ≡ true)

  -- What holds of the result.
  record IsClosure (reachable : List Node) : Type 0 where
    sound : (y : Node) → contains reachable y ≡ true → Walk g start y
    base : (y : Node) → Edge g start y → contains reachable y ≡ true
    closed : (x y : Node) → contains reachable x ≡ true → Edge g x y → contains reachable y ≡ true

  Inv-start : Inv (get_peers g start) (get_peers g start)
  Inv-start = record {
    sound = λ y m. one ((contains-get_peers g start y).0 m);
    kept = λ y m. m;
    base = λ y edge. (contains-get_peers g start y).1 edge;
    closed = λ x y m edge. inl m;
  }

  -- The loop ends by its test for the empty set, or by `break`.
  IsClosure-of_empty : {reachable : List Node} → Inv reachable [] → IsClosure reachable
  IsClosure-of_empty h = record {
    sound = h.sound;
    base = h.base;
    closed = λ x y m edge. ⊎_elim (λ p. cc) (λ p. p) (h.closed x y m edge);
  }

  IsClosure-of_subset :
      (reachable new : List Node)
      → Inv reachable new
      → is_subset (peers_of g new) reachable ≡ true
      → IsClosure reachable
  IsClosure-of_subset reachable new h s = record {
    sound = h.sound;
    base = h.base;
    closed = λ x y m edge.
        ⊎_elim
          (λ p. is_subset_sound (peers_of g new) reachable y s (peers_of_complete g new x y p edge))
          (λ p. p) (h.closed x y m edge);
  }

  Inv-union :
      (reachable new : List Node)
      → Inv reachable new
      → Inv (union reachable (peers_of g new)) (peers_of g new)
  Inv-union reachable new h = record {
    sound = λ y m.
        ⊎_elim (h.sound y)
          (λ p. let (x, q, edge) = peers_of_sound g new y p in more (h.sound x (h.kept x q)) edge)
          ((contains-union reachable (peers_of g new) y).0 m);
    kept = λ y m. (contains-union reachable (peers_of g new) y).1 (inr m);
    base = λ y edge. (contains-union reachable (peers_of g new) y).1 (inl (h.base y edge));
    closed = λ x y m edge. ground (
      arith,
      contains-union reachable (peers_of g new) x,
      contains-union reachable (peers_of g new) y,
      h.closed x y,
      peers_of_complete g new x y,
    );
  }

  -- A round that does not break finds a new node of the graph.
  missing-union :
      (reachable new : List Node)
      → is_subset (peers_of g new) reachable ≡ false
      → missing g.nodes (union reachable (peers_of g new)) < missing g.nodes reachable
  missing-union reachable new s =
      let (y, m, n) = is_subset_complete (peers_of g new) reachable s in
      let (x, _, edge) = peers_of_sound g new y m in
      missing_lt g.nodes reachable (union reachable (peers_of g new)) y
        (λ a p. (contains-union reachable (peers_of g new) a).1 (inl p)) edge.0 n
        ((contains-union reachable (peers_of g new) y).1 (inr m))

  reach_loop_ends :
      (fuel : ℕ) (reachable new : List Node)
      → missing g.nodes reachable < fuel
      → Inv reachable new
      → (t : List Node) × (reach_loop g fuel reachable new ≡ ok t) × IsClosure t
  unfolding reach_loop
  reach_loop_ends zero reachable new f h = absurd (omega arith)
  reach_loop_ends (suc fuel) reachable [] f h = (reachable, refl, IsClosure-of_empty h)
  reach_loop_ends (suc fuel) reachable (x ∷ xs) f h =
      elim (Bool-cases (is_subset (peers_of g (x ∷ xs)) reachable)) [
        | inl s ↦ (reachable, rw s refl, IsClosure-of_subset reachable (x ∷ xs) h s)
        | inr s ↦ rw s (
            reach_loop_ends fuel (union reachable (peers_of g (x ∷ xs))) (peers_of g (x ∷ xs))
              (omega (arith, missing-union reachable (x ∷ xs) s)) (Inv-union reachable (x ∷ xs) h))
      ]

  complete : {t : List Node} {y : Node} → IsClosure t → Walk g start y → contains t y ≡ true
  complete c (one edge) = c.base _ edge
  complete c (more {x} {y} w edge) = c.closed x y (complete c w) edge

-- The search ends from every node, and its result holds the ends of the walks.
pub get_reachable_nodes_returns :
    (g : Graph) (start : Node)
    → (t : List Node) × (get_reachable_nodes g start ≡ ok t)
      × ((y : Node) → contains t y ≡ true → Walk g start y)
      × ((y : Node) → Walk g start y → contains t y ≡ true)
unfolding get_reachable_nodes
get_reachable_nodes_returns g start =
    let (t, e, c) =
      reach_loop_ends g start (length g.nodes + 1) (get_peers g start) (get_peers g start)
        (omega (arith, missing-le-length g.nodes (get_peers g start))) (Inv-start g start) in
    (t, e, c.sound, λ y. complete g start c)

-- From every node the search ends, and its result holds exactly the nodes that a walk of one or
-- more edges leads to, each edge to a node of the graph.
pub get_reachable_nodes_lem :
    (g : Graph) (start : Node)
    → (t : List Node) × (get_reachable_nodes g start ≡ ok t)
      × ((y : Node) → (contains t y ≡ true) ↔ ∥ Walk g start y ∥₁)
get_reachable_nodes_lem g start =
    let (t, e, sound, full) = get_reachable_nodes_returns g start in
    (t, e, λ y. (λ m. ∣ sound y m ∣₁, λ w. ∥∥₁_elim w (So-prop _) (full y)))
