-- ===== src/Tests/Graphs.antt =====
-- Dependency graphs: c waits for b and b for a.
use agent_teams_mcp.Base.{
  Text, text, ◌==◌, ==_iff, ◌≡◌, refl, ◌↔◌, ◌⊎◌, ℕ, ◌<◌, true, false, ◌&&◌, ◌||◌, List, [], ◌∷◌,
  arith, contains, insert_set, lookup, insert,
}
use agent_teams_mcp.Error.{cycle_detected, ok, err}
use agent_teams_mcp.Task.Model.{pending, completed, TaskFile}
use agent_teams_mcp.Task.Graph.{
  DependencyGraph, set_of, add_edge, touch_task, touch, add_edges, from_tasks, visit, scan,
  search_loop, targets, would_create_cycle, add_dependency, status_map, is_settled, is_ready,
  get_blocks,
}
use agent_teams_mcp.Task.Graph.Edges.{Edge, Reach, IsAcyclic, IsConsistent, ranked-IsAcyclic}
use agent_teams_mcp.Task.Graph.Cycle.{would_create_cycle-iff-Reach, add_dependency-IsAcyclic}
use agent_teams_mcp.Task.Graph.Build.{lists, from_tasks-edges}
use agent_teams_mcp.Task.Graph.Ready.{IsSettled, is_ready_iff}
use agent_teams_mcp.Tests.Samples.{task}

runs : Unit {0}
unfolding ◌==◌ contains insert_set lookup insert set_of add_edge touch_task touch add_edges
    from_tasks visit scan search_loop targets would_create_cycle add_dependency status_map
    is_settled is_ready get_blocks
runs = tt

abbrev a : Text
a = text "a"

abbrev b : Text
b = text "b"

abbrev c : Text
c = text "c"

abbrev tasks : List TaskFile
tasks = task a completed [] ∷ task b pending (a ∷ []) ∷ task c pending (b ∷ []) ∷ []

abbrev graph : DependencyGraph
graph = from_tasks tasks

-- Closing the circle is refused, and so is a task that waits for itself.
cycle_runs :
    (would_create_cycle graph a c ≡ true)
    × (would_create_cycle graph c a ≡ false)
    × (would_create_cycle graph b b ≡ true)
    × (add_dependency graph a c ≡ err (cycle_detected a c))
    × (get_blocks graph a ≡ b ∷ [])
unfolding runs
cycle_runs = (refl, refl, refl, refl, refl)

ready_runs : (is_ready graph b tasks ≡ true) × (is_ready graph c tasks ≡ false)
unfolding runs
ready_runs = (refl, refl)

would_create_cycle-iff-Reach_example : (would_create_cycle graph a c ≡ true) ↔ Reach graph c a
would_create_cycle-iff-Reach_example = would_create_cycle-iff-Reach graph a c

from_tasks-edges_example :
    ((u v : Text) → contains v (set_of u (from_tasks tasks).deps) ≡ lists u v tasks)
    × IsConsistent (from_tasks tasks)
from_tasks-edges_example = from_tasks-edges tasks

first : Text → ℕ
first [] = 0
first (x ∷ _) = x

graph_below : (u v : Text) → Edge graph u v → first v < first u
unfolding first contains
graph_below u v edge = ground (
  arith,
  (from_tasks-edges tasks).0 u v,
  ==_iff a u,
  ==_iff b u,
  ==_iff c u,
  ==_iff a v,
  ==_iff b v,
)

graph-IsAcyclic : IsAcyclic graph
graph-IsAcyclic = ranked-IsAcyclic graph first graph_below

add_dependency-IsAcyclic_example :
    ((g' : DependencyGraph) × (add_dependency graph c a ≡ ok g')
      × IsAcyclic g'
      × IsConsistent g'
      × ((u v : Text)
          → contains v (set_of u g'.deps) ≡ (contains v (set_of u graph.deps) || c == u && a == v)))
    ⊎ (add_dependency graph c a ≡ err (cycle_detected c a)) × Reach graph a c
add_dependency-IsAcyclic_example =
    add_dependency-IsAcyclic graph c a graph-IsAcyclic from_tasks-edges_example.1

is_ready_iff_example :
    (is_ready graph b tasks ≡ true) ↔ ((dep : Text) → Edge graph b dep → IsSettled dep tasks)
is_ready_iff_example = is_ready_iff graph b tasks
