-- ===== src/DocTransfer/Subjects/Build.antt =====
-- The three loops of `compile_component_to_subjects_map` over the policy, and the whole function.
use mathlib.Core.Bool.{So-prop, false≢true}
use mathlib.Core.Logic.{⊎_elim, ∥∥₁_elim}
use muen.Base.{ℕ, ◌≡◌, ◌≢◌, ◌↔◌, refl, arith, true, false, Option, none, some, ap, ◌∙◌}
use muen.Base.{List, [], ◌∷◌, Str, list_eq, option_eq, pair_eq, nat_eq, contains, contains-add}
use muen.Base.{ok, option_beq_iff}
use muen.Base.{codes}
use muen.Base.Dict.{lookup, insert, lookup-insert}
use muen.Xml.{Etree}
use muen.DocTransfer.Graph.{Node, Graph, empty, library, component, subject}
use muen.DocTransfer.Graph.Reach.{Walk, one, more}
use muen.DocTransfer.Subjects.{
  SubjectMap, State, add_node, add_edge, add_depends, add_comp, add_comps, add_subj, add_subjs,
  component_ref, dependencies, dependencies_of, subject_nodes, compile_component_to_subjects_map,
  name, ref,
}
use muen.DocTransfer.Subjects.Resolve.{has_key, listed, Reaches, resolve-Adds}

-- No edge leads to a subject.
record Targets (g : Graph) : Type 0 where
  targets : (x y : Node) → contains g.edges (x, y) ≡ true → y.1 ≢ subject

-- Every library and component of the graph has a key.
record Keys (g : Graph) (m : SubjectMap) : Type 0 where
  keys : (y : Node) → contains g.nodes y ≡ true → y.1 ≢ subject → has_key m y.0 ≡ true

-- Every set is empty.
record Blank (m : SubjectMap) : Type 0 where
  blank : (n s : Option Str) → listed m n s ≡ false

add_edge-Targets : (a b : Node) (g : Graph) → b.1 ≢ subject → Targets g → Targets (add_edge a b g)
unfolding add_edge
add_edge-Targets a b g h t = record {
  targets = λ x y m.
      ⊎_elim (t.targets x y) (λ e. λ k. h (ap (λ (z : Node × Node). z.1.1) e ∙ k))
        ((contains-add g.edges (a, b) (x, y)).0 m);
}

add_node-Keys :
    (n : Node) (g : Graph) (m : SubjectMap)
    → (n.1 ≢ subject → has_key m n.0 ≡ true)
    → Keys g m
    → Keys (add_node n g) m
unfolding add_node
add_node-Keys n g m h t = record {
  keys = λ y p q.
      ⊎_elim (λ p'. t.keys y p' q) (λ (e : n ≡ y). rw (← e) (h (rw e q)))
        ((contains-add g.nodes n y).0 p);
}

insert-Keys :
    (n : Option Str) (t : List (Option Str)) (g : Graph) (m : SubjectMap)
    → Keys g m
    → Keys g (insert n t m)
insert-Keys n t g m h = record {
  keys = λ y p q. ground (arith, option_beq_iff n y.0, lookup-insert n y.0 t m, h.keys y p q);
}

insert-Blank : (n : Option Str) (m : SubjectMap) → Blank m → Blank (insert n [] m)
insert-Blank n m h = record { blank = λ k s. ground (arith, lookup-insert n k [] m, h.blank k s) }

insert_key :
    (n : Option Str) (t : List (Option Str)) (m : SubjectMap) → has_key (insert n t m) n ≡ true
insert_key n t m = ground (arith, option_beq_iff n n, lookup-insert n n t m)

module _ (X : Etree) where
  add_depends-nodes :
      (from : Node) (deps : List X.Elem) (g : Graph) → (add_depends X from deps g).nodes ≡ g.nodes
  unfolding add_depends
  add_depends-nodes from [] g = refl
  add_depends-nodes from (dep ∷ deps) g = add_depends-nodes from deps _

  add_depends-Targets :
      (from : Node) (deps : List X.Elem) (g : Graph)
      → Targets g
      → Targets (add_depends X from deps g)
  unfolding add_depends
  add_depends-Targets from [] g t = t
  add_depends-Targets from (dep ∷ deps) g t =
      add_depends-Targets from deps (add_edge from (ref X dep, library) g)
        (add_edge-Targets from (ref X dep, library) g (λ e. ground arith) t)

  -- What holds of the variables between the loops.
  record IsGood (s : State) : Type 0 where
    targets : Targets s.graph
    keys : Keys s.graph s.c2s_map
    blank : Blank s.c2s_map

  add_comp-IsGood :
      (kind : ℕ) (comp : X.Elem) (s : State)
      → kind ≢ subject
      → IsGood s
      → IsGood (add_comp X kind comp s)
  unfolding add_comp
  add_comp-IsGood kind comp s k h =
      let n : Node = (name X comp, kind) in
      let deps = dependencies_of X comp in
      let m = insert (name X comp) [] s.c2s_map in
      record {
        targets =
            add_depends-Targets n deps (add_node n s.graph)
              (record { targets = h.targets.targets });
        keys = record {
          keys = λ y p q.
              (add_node-Keys n s.graph m (λ _. insert_key (name X comp) [] s.c2s_map)
                  (insert-Keys (name X comp) [] s.graph s.c2s_map h.keys)).keys
                y (rw (add_depends-nodes n deps (add_node n s.graph)) at p) q;
        };
        blank = insert-Blank (name X comp) s.c2s_map h.blank;
      }

  add_comps-IsGood :
      (kind : ℕ) (comps : List X.Elem) (s : State)
      → kind ≢ subject
      → IsGood s
      → IsGood (add_comps X kind comps s)
  unfolding add_comps
  add_comps-IsGood kind [] s k h = h
  add_comps-IsGood kind (comp ∷ comps) s k h =
      add_comps-IsGood kind comps (add_comp X kind comp s) k (add_comp-IsGood kind comp s k h)

  -- The loop over subjects changes the graph alone.
  record Fits (m : SubjectMap) (g : Graph) : Type 0 where
    targets : Targets g
    keys : Keys g m

  add_subj-Fits :
      (subj : X.Elem) (m : SubjectMap) (g : Graph) → Fits m g → Fits m (add_subj X subj g)
  unfolding add_subj
  add_subj-Fits subj m g h = go (component_ref X subj)
    where
      n : Node
      n = (name X subj, subject)

      node : Fits m (add_node n g)
      node = record {
        targets = record { targets = h.targets.targets };
        keys = add_node-Keys n g m (λ q. absurd (q refl)) h.keys;
      }

      go :
          (r : Option Str)
          → Fits m (elim r [
            | none ↦ add_node n g
            | some s ↦ add_edge n (some s, component) (add_node n g)
          ])
      go none = node
      go (some s) = record {
        targets =
            add_edge-Targets n (some s, component) (add_node n g) (λ e. ground arith) node.targets;
        keys = record { keys = node.keys.keys };
      }

  add_subjs-Fits :
      (subjs : List X.Elem) (m : SubjectMap) (g : Graph) → Fits m g → Fits m (add_subjs X subjs g)
  unfolding add_subjs
  add_subjs-Fits [] m g h = h
  add_subjs-Fits (subj ∷ subjs) m g h =
      add_subjs-Fits subjs m (add_subj X subj g) (add_subj-Fits subj m g h)

  start : State
  start = record { c2s_map = []; graph = empty }

  empty-Targets : (x y : Node) → contains start.graph.edges (x, y) ≡ true → y.1 ≢ subject
  unfolding start
  empty-Targets x y p = absurd (false≢true p)

  empty-Keys :
      (y : Node)
      → contains start.graph.nodes y ≡ true
      → y.1 ≢ subject
      → has_key start.c2s_map y.0 ≡ true
  unfolding start
  empty-Keys y p q = cc

  empty-IsGood : IsGood start
  unfolding start lookup
  empty-IsGood = record {
    targets = record { targets = empty-Targets };
    keys = record { keys = empty-Keys };
    blank = record { blank = λ n t. refl };
  }

  dependencies-IsGood : (root : X.Elem) → IsGood (dependencies X root)
  unfolding dependencies start
  dependencies-IsGood root =
      let libraries = X.xpath root (codes "components/library") in
      let components = X.xpath root (codes "components/component") in
      let s = add_comps X library libraries start in
      let s' = add_comps X component components s in
      let h : IsGood s' =
        add_comps-IsGood component components s (λ e. ground arith)
          (add_comps-IsGood library libraries start (λ e. ground arith) empty-IsGood) in
      let f =
        add_subjs-Fits (X.xpath root (codes "subjects/subject")) s'.c2s_map s'.graph
          (record { targets = h.targets; keys = h.keys }) in
      record { targets = f.targets; keys = f.keys; blank = h.blank }

  Walk-key : (s : State) → IsGood s → (x y : Node) → Walk s.graph x y → has_key s.c2s_map y.0 ≡ true
  Walk-key s h x y (one edge) = h.keys.keys y edge.0 (h.targets.targets x y edge.1)
  Walk-key s h x y (more {x = z} w edge) = h.keys.keys y edge.0 (h.targets.targets z y edge.1)

  -- The construction of the map raises no `KeyError` and ends. In its result a name has exactly the
  -- subjects from which a walk in the dependency graph leads to a node of that name.
  pub compile_component_to_subjects_map_lem :
      (root : X.Elem)
      → let g = (dependencies X root).graph in
        (m : SubjectMap) × (compile_component_to_subjects_map X root ≡ ok m)
        × ((n s : Option Str) → (listed m n s ≡ true) ↔ ∥ Reaches g (subject_nodes g) n s ∥₁)
  unfolding compile_component_to_subjects_map
  compile_component_to_subjects_map_lem root =
      let d = dependencies X root in
      let h = dependencies-IsGood root in
      let (m, e, a) = resolve-Adds d.graph (subject_nodes d.graph) d.c2s_map (Walk-key d h) in
      (
        m,
        e,
        λ n s. (
          λ p. ∣ ⊎_elim (λ q. ground (arith, h.blank.blank n s)) (λ r. r) (a.sound n s p) ∣₁,
          λ r. ∥∥₁_elim r (So-prop _) (a.new n s),
        ),
      )
