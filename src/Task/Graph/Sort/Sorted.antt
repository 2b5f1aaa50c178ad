-- ===== src/Task/Graph/Sort/Sorted.antt =====
-- What the sort answers: an order of all tasks, or that there is a cycle.
use agent_teams_mcp.Base.{
  keys, contains-keys, Text, text, text_le, ==_iff, ◌≡◌, refl, sym, ap, subst, ◌∙◌, ◌⊎◌, ℕ, zero,
  suc, ◌<◌, nat_eq, true, false, ◌&&◌, some, List, [], ◌∷◌, ◌++◌, arith, contains, contains-snoc,
  lookup, length, NoRepeat, sort_by, Bool-cases, inl, inr,
}
use agent_teams_mcp.Error.{cycle_detected, ok, err}
use agent_teams_mcp.Task.Graph.{DependencyGraph, set_of}
use agent_teams_mcp.Task.Graph.Edges.{Edge, Reach, here, step, IsAcyclic, ranked-IsAcyclic}
use agent_teams_mcp.Task.Graph.Scan.{unseen}
use agent_teams_mcp.Task.Graph.Sort.{
  Kahn, degrees, roots, first_left, finish_sort, topological_sort_fuel, topological_sort,
}
use agent_teams_mcp.Task.Graph.Sort.Counts.{
  unseen-nil, unseen-zero, unseen-pos, unseen-snoc_present, contains-sort_by, sort_by-NoRepeat,
}
use agent_teams_mcp.Task.Graph.Sort.Degrees.{
  is_node, lookup-degrees, degrees-NoRepeat, contains-roots, roots-NoRepeat,
}
use agent_teams_mcp.Task.Graph.Sort.Positions.{position}
use agent_teams_mcp.Task.Graph.Sort.Step.{IsGraph, key-set_of, left, Inv}
use agent_teams_mcp.Task.Graph.Sort.Loop.{kahn_loop-Inv}

-- Every task once, each behind all that it waits for.
pub record IsOrder (g : DependencyGraph) (order : List Text) : Type 0 where
  pub all_nodes : (v : Text) → contains v order ≡ is_node g v
  pub once : NoRepeat order
  pub ordered : (u v : Text) → Edge g u v → position v order < position u order

-- An edge with a walk back.
pub record Cycle (g : DependencyGraph) : Type 0 where
  pub from : Text
  pub to : Text
  pub edge : Edge g from to
  pub back : Reach g to from

length-keys : (m : List (Text × ℕ)) → length (keys m) ≡ length m
length-keys [] = refl
length-keys (e ∷ m) = ap suc (length-keys m)

module _ (g : DependencyGraph) (ok_graph : IsGraph g) where
  abbrev start : Kahn
  start = record { in_degree = degrees g; queue = sort_by text_le (roots (degrees g)); result = [] }

  degrees-nodes : (v : Text) → contains v (keys (degrees g)) ≡ is_node g v
  degrees-nodes v =
      contains-keys v (degrees g) ∙ ground (arith, lookup-degrees g v ok_graph.deps_once)

  start-degree :
      (v : Text) → is_node g v ≡ true → lookup v (degrees g) ≡ some (left g ok_graph [] v)
  start-degree v h =
      lookup-degrees g v ok_graph.deps_once ∙ rw h (ap some (sym (unseen-nil (set_of v g.deps))))

  start-queue :
      (v : Text) → contains v start.queue ≡ (is_node g v && nat_eq (length (set_of v g.deps)) 0)
  start-queue v =
      contains-sort_by v (roots (degrees g))
      ∙ contains-roots v (degrees g) (degrees-NoRepeat g)
      ∙ ground (arith, lookup-degrees g v ok_graph.deps_once)

  Inv-start : Inv g ok_graph start
  unfolding contains
  Inv-start = record {
    keys_once = degrees-NoRepeat g;
    nodes = degrees-nodes;
    degree = start-degree;
    placed_node = λ v h. ground (arith, start-queue v);
    placed_zero = λ v h. ground (arith, start-queue v, unseen-nil (set_of v g.deps));
    zero_placed = λ v node h. ground (arith, start-queue v, unseen-nil (set_of v g.deps));
    result_once = tt;
    queue_once =
        sort_by-NoRepeat (roots (degrees g)) (roots-NoRepeat (degrees g) (degrees-NoRepeat g));
    apart = λ v h. refl;
    ordered = λ u v h edge. cc;
    count = omega (arith, unseen-nil (keys (degrees g)));
  }

  module _ (s : Kahn) (inv : Inv g ok_graph s) (empty : s.queue ≡ []) where
    nothing_queued : (v : Text) → contains v s.queue ≡ false
    unfolding contains
    nothing_queued v = ap (contains v) empty

    -- A task that was not reached waits for another such task.
    waits_on :
        (v : Text)
        → is_node g v ≡ true
        → contains v s.result ≡ false
        → (d : Text) × Edge g v d × (contains d s.result ≡ false)
    waits_on v node h =
        unseen-pos s.result (set_of v g.deps)
          (ground (arith, inv.zero_placed v node, nothing_queued v))

    -- Going on along such dependencies meets a task again.
    descend :
        (fuel : ℕ) (path : List Text) (v : Text)
        → ((x : Text) → contains x path ≡ true → Reach g x v)
        → is_node g v ≡ true
        → contains v s.result ≡ false
        → unseen path (keys s.in_degree) < fuel
        → Cycle g
    descend zero path v reaches node h below = absurd (omega arith)
    descend (suc fuel) path v reaches node h below =
        let (d, edge, h') = waits_on v node h in
        elim (Bool-cases (contains d path)) [
          | inl again ↦ record { from = v; to = d; edge = edge; back = reaches d again }
          | inr new ↦
              let node' : is_node g d ≡ true =
                ground (arith, key-set_of d v g.rdeps, ok_graph.consistent v d, edge) in
              descend fuel (path ++ d ∷ []) d
                (λ x m. elim (Bool-cases (contains x path)) [
                  | inl old ↦ step (reaches x old) edge
                  | inr last ↦
                      subst (λ y. Reach g y d)
                        ((==_iff d x).0 (ground (arith, contains-snoc x d path))) here
                ])
                node' h'
                (omega (
                  arith,
                  unseen-snoc_present d path (keys s.in_degree) inv.keys_once new
                      (inv.nodes d ∙ node'),
                ))
        ]

    stuck-Cycle : nat_eq (length s.result) (length s.in_degree) ≡ false → Cycle g
    unfolding contains
    stuck-Cycle h =
        let (v, there, new) =
          unseen-pos s.result (keys s.in_degree)
            (ground (arith, inv.count, length-keys s.in_degree)) in
        descend (suc (unseen (v ∷ []) (keys s.in_degree))) (v ∷ []) v
          (λ x m. subst (λ y. Reach g y v) ((==_iff v x).0 (ground arith)) here)
          (sym (inv.nodes v) ∙ there) new (omega arith)

    done-IsOrder : nat_eq (length s.result) (length s.in_degree) ≡ true → IsOrder g s.result
    done-IsOrder h =
        let none_left : unseen s.result (keys s.in_degree) ≡ 0 =
          ground (arith, inv.count, length-keys s.in_degree) in
        let reached = λ (v : Text). λ (node : is_node g v ≡ true).
          unseen-zero v s.result (keys s.in_degree) none_left (inv.nodes v ∙ node) in
        record {
          all_nodes = λ v. elim (Bool-cases (is_node g v)) [
            | inl node ↦ reached v node ∙ sym node
            | inr other ↦ ground (arith, inv.placed_node v)
          ];
          once = inv.result_once;
          ordered = λ u v edge.
              inv.ordered u v (reached u (ground (arith, key-set_of u v g.deps edge))) edge;
        }

-- The sort ends. It gives an order in which every task of the graph stands once, behind all that
-- it waits for, and then the graph has no cycle; or it gives the error for a cycle, and then there is
-- one. It never panics.
pub topological_sort-IsOrder :
    (g : DependencyGraph)
    → IsGraph g
    → ((order : List Text) × (topological_sort g ≡ some (ok order)) × IsOrder g order × IsAcyclic g)
      ⊎ ((from : Text) × (topological_sort g ≡ some (err (cycle_detected from (text "..."))))
          × Cycle g)
unfolding topological_sort topological_sort_fuel finish_sort contains
topological_sort-IsOrder g ok_graph =
    let (s, ran, inv, empty) =
      kahn_loop-Inv g ok_graph (suc (length (degrees g))) (start g ok_graph) (Inv-start g ok_graph)
        (omega (arith, unseen-nil (keys (degrees g)), length-keys (degrees g))) in
    elim (Bool-cases (nat_eq (length s.result) (length s.in_degree))) [
      | inl done ↦
          let order = done-IsOrder g ok_graph s inv empty done in
          inl (
            s.result,
            ground (arith, ran, done),
            order,
            ranked-IsAcyclic g (λ v. position v s.result) order.ordered,
          )
      | inr stuck ↦ inr (
        first_left s.in_degree,
        ground (arith, ran, stuck),
        stuck-Cycle g ok_graph s inv empty stuck,
      )
    ]
