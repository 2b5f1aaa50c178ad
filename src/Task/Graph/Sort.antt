-- ===== src/Task/Graph/Sort.antt =====
-- task/graph.rs: `topological_sort`, by Kahn's algorithm, and the levels that follow it.
pub mod Counts
pub mod Degrees
pub mod Positions
pub mod Step
pub mod Loop
pub mod Sorted
pub mod Built
pub mod Lowering
use agent_teams_mcp.Base.{
  Text, text, text_le, nat_eq, ℕ, zero, suc, ◌-◌, Bool, true, false, Option, none, some, List, [],
  ◌∷◌, ◌++◌, lookup, insert, length, map, retain, sort_by, if◌then◌else◌,
}
use agent_teams_mcp.Error.{cycle_detected, Result, ok, err, panic, ◌>>=◌}
use agent_teams_mcp.Task.Graph.{DependencyGraph, set_of}

-- `in_degree.entry(node).or_insert(0)` for each of the nodes.
unfoldable pub or_zero : Text → List (Text × ℕ) → List (Text × ℕ)
or_zero node m = elim (lookup node m) [ some _ ↦ m | none ↦ insert node 0 m ]

unfoldable pub add_nodes : List (Text × List Text) → List (Text × ℕ) → List (Text × ℕ)
unfolding or_zero
add_nodes [] m = m
add_nodes ((node, _) ∷ index) m = add_nodes index (or_zero node m)

-- `*in_degree.entry(node).or_insert(0) = node_deps.len()`
unfoldable pub set_degrees : List (Text × List Text) → List (Text × ℕ) → List (Text × ℕ)
set_degrees [] m = m
set_degrees ((node, deps) ∷ index) m = set_degrees index (insert node (length deps) m)

unfoldable pub degrees : DependencyGraph → List (Text × ℕ)
unfolding add_nodes set_degrees
degrees g = set_degrees g.deps (add_nodes g.rdeps (add_nodes g.deps []))

-- The ids with the degree 0.
unfoldable pub roots : List (Text × ℕ) → List Text
roots m = map (λ e. e.0) (retain (λ e. nat_eq e.1 0) m)

-- The state of the `while` loop.
pub record Kahn : Type 0 where
  pub in_degree : List (Text × ℕ)
  pub queue : List Text
  pub result : List Text

-- `*deg -= 1` for one dependent, which would panic at 0.
unfoldable pub lower : Text → Kahn → Result Kahn
lower node s = elim (lookup node s.in_degree) [
  | none ↦ ok s
  | some zero ↦ panic
  | some (suc k) ↦ ok (record s {
    in_degree = insert node k s.in_degree;
    queue = if nat_eq k 0 then s.queue ++ node ∷ [] else s.queue;
  })
]

-- The `for` loop over the dependents.
unfoldable pub lower_all : List Text → Kahn → Result Kahn
unfolding lower
lower_all [] s = ok s
lower_all (node ∷ nodes) s = lower node s >>= lower_all nodes

-- The `while` loop. `none` means that the fuel ran out.
unfoldable pub kahn_loop : DependencyGraph → ℕ → Kahn → Option (Result Kahn)
unfolding lower_all
kahn_loop g zero s = none
kahn_loop g (suc fuel) s = elim s.queue [
  | [] ↦ some (ok s)
  | node ∷ rest ↦
      elim (lower_all (sort_by text_le (set_of node g.rdeps))
        (record { in_degree = s.in_degree; queue = rest; result = s.result ++ node ∷ [] })) [
          | ok s' ↦ kahn_loop g fuel s'
          | err e ↦ some (err e)
          | panic ↦ some panic
        ]
]

-- `in_cycle.first().cloned().unwrap_or_default()`: of the tasks that are left, the map's first.
unfoldable pub first_left : List (Text × ℕ) → Text
first_left [] = []
first_left ((node, zero) ∷ m) = first_left m
first_left ((node, suc _) ∷ m) = node

unfoldable pub finish_sort : Result Kahn → Result (List Text)
unfolding first_left
finish_sort (ok s) =
    if nat_eq (length s.result) (length s.in_degree)
    then ok s.result
    else err (cycle_detected (first_left s.in_degree) (text "..."))
finish_sort (err e) = err e
finish_sort panic = panic

unfoldable pub topological_sort_fuel : DependencyGraph → ℕ → Option (Result (List Text))
unfolding degrees roots kahn_loop finish_sort
topological_sort_fuel g fuel =
    let start : Kahn = record {
      in_degree = degrees g;
      queue = sort_by text_le (roots (degrees g));
      result = [];
    } in
    elim (kahn_loop g fuel start) [ none ↦ none | some r ↦ some (finish_sort r) ]

-- More fuel than there are nodes.
unfoldable pub topological_sort : DependencyGraph → Option (Result (List Text))
unfolding topological_sort_fuel
topological_sort g = topological_sort_fuel g (suc (length (degrees g)))
