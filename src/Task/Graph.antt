-- ===== src/Task/Graph.antt =====
-- task/graph.rs: the dependency graph, its two indices, and the search for a cycle.
pub mod Edges
pub mod Scan
pub mod Cycle
pub mod Build
pub mod Ready
pub mod Sort
pub mod Levels
use agent_teams_mcp.Base.{
  Text, ◌==◌, ℕ, zero, suc, Bool, true, false, Option, none, some, List, [], ◌∷◌, ◌++◌, contains,
  insert_set, lookup, insert, length, foldl, all, if◌then◌else◌,
}
use agent_teams_mcp.Error.{cycle_detected, Result, ok, err}
use agent_teams_mcp.Task.Model.{TaskStatus, completed, deleted, TaskFile}

-- `deps` leads from a task to the tasks that it waits for, `rdeps` the other way.
pub record DependencyGraph : Type 0 where
  pub deps : List (Text × List Text)
  pub rdeps : List (Text × List Text)

-- `deps.get(id)` with its default, the empty set.
unfoldable pub set_of : Text → List (Text × List Text) → List Text
set_of k m = elim (lookup k m) [ none ↦ [] | some s ↦ s ]

-- `entry(key).or_default()`, and `entry(key).or_default().insert(value)`.
unfoldable pub touch : Text → List (Text × List Text) → List (Text × List Text)
unfolding set_of
touch k m = insert k (set_of k m) m

unfoldable pub add_to : Text → Text → List (Text × List Text) → List (Text × List Text)
unfolding set_of
add_to k v m = insert k (insert_set v (set_of k m)) m

-- The two insertions for one pair of a task and a task that it waits for.
unfoldable pub add_edge : Text → Text → DependencyGraph → DependencyGraph
unfolding add_to
add_edge id dep g = record { deps = add_to id dep g.deps; rdeps = add_to dep id g.rdeps }

unfoldable pub add_edges : Text → List Text → DependencyGraph → DependencyGraph
add_edges id [] g = g
add_edges id (dep ∷ deps) g = add_edges id deps (add_edge id dep g)

unfoldable pub touch_task : Text → DependencyGraph → DependencyGraph
touch_task id g = record { deps = touch id g.deps; rdeps = touch id g.rdeps }

unfoldable pub load_tasks : List TaskFile → DependencyGraph → DependencyGraph
load_tasks [] g = g
load_tasks (t ∷ ts) g = load_tasks ts (add_edges t.id t.blocked_by (touch_task t.id g))

unfoldable pub from_tasks : List TaskFile → DependencyGraph
unfolding load_tasks
from_tasks tasks = load_tasks tasks (record { deps = []; rdeps = [] })

unfoldable pub get_blocked_by : DependencyGraph → Text → List Text
get_blocked_by g id = set_of id g.deps

unfoldable pub get_blocks : DependencyGraph → Text → List Text
get_blocks g id = set_of id g.rdeps

-- The state of the breadth-first search: the set `visited` and the queue.
pub record Search : Type 0 where
  pub visited : List Text
  pub queue : List Text

-- `if visited.insert(dep) { queue.push_back(dep) }`
unfoldable pub visit : Text → Search → Search
visit d s =
    if contains d s.visited
    then s
    else record { visited = d ∷ s.visited; queue = s.queue ++ d ∷ [] }

-- The `for` loop over the dependencies of one task: `none` is the early return of `true`.
unfoldable pub scan : Text → List Text → Search → Option Search
scan target [] s = some s
scan target (d ∷ ds) s = let rest = scan target ds (visit d s) in if d == target then none else rest

-- The outcome of the `while` loop, which the program runs with no bound: `out_of_fuel` is shown
-- never to be the outcome.
pub data Outcome : Type 0 where
  found absent out_of_fuel : Outcome

unfoldable pub search_loop : DependencyGraph → Text → ℕ → Search → Outcome
search_loop g target zero s = out_of_fuel
search_loop g target (suc fuel) s = elim s.queue [
  | [] ↦ absent
  | u ∷ rest ↦ elim (scan target (set_of u g.deps) (record { visited = s.visited; queue = rest })) [
    | none ↦ found
    | some s' ↦ search_loop g target fuel s'
  ]
]

-- All targets of edges, with repetitions: no other task enters the queue, but for the first.
unfoldable pub targets : List (Text × List Text) → List Text
targets [] = []
targets ((k, s) ∷ m) = s ++ targets m

unfoldable pub report : Outcome → Bool
report found = true
report absent = false
report out_of_fuel = true

unfoldable pub would_create_cycle : DependencyGraph → Text → Text → Bool
unfolding report
would_create_cycle g task_id depends_on =
    let start : Search = record { visited = depends_on ∷ []; queue = depends_on ∷ [] } in
    let fuel = suc (suc (length (targets g.deps))) in
    let searched = report (search_loop g task_id fuel start) in
    if task_id == depends_on then true else searched

unfoldable pub add_dependency : DependencyGraph → Text → Text → Result DependencyGraph
add_dependency g task_id depends_on =
    if would_create_cycle g task_id depends_on
    then err (cycle_detected task_id depends_on)
    else ok (add_edge task_id depends_on g)

-- `status_map`, by `collect`: of two tasks with one id the later counts.
unfoldable pub status_map : List TaskFile → List (Text × TaskStatus)
status_map tasks = foldl (λ m t. insert t.id t.status m) [] tasks

-- `matches!(status, Some(Completed) | Some(Deleted))`
unfoldable pub is_settled : Option TaskStatus → Bool
is_settled (some completed) = true
is_settled (some deleted) = true
is_settled _ = false

unfoldable pub is_ready : DependencyGraph → Text → List TaskFile → Bool
is_ready g task_id tasks =
    all (λ dep_id. is_settled (lookup dep_id (status_map tasks))) (set_of task_id g.deps)
