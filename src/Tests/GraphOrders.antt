-- ===== src/Tests/GraphOrders.antt =====
-- The sort of a graph and its levels: d waits for b and c, and both wait for a.
use agent_teams_mcp.Base.{
  Text, text, text_le, ◌==◌, ◌≡◌, refl, ◌⊎◌, inl, inr, ℕ, true, some, List, [], ◌∷◌, contains,
  insert_set, lookup, insert, insert_sorted, sort_by,
}
use agent_teams_mcp.Error.{cycle_detected, ok, err}
use agent_teams_mcp.Task.Model.{pending, TaskFile}
use agent_teams_mcp.Task.Graph.{
  DependencyGraph, set_of, add_edge, add_to, touch, touch_task, add_edges, load_tasks, from_tasks,
}
use agent_teams_mcp.Task.Graph.Edges.{IsAcyclic}
use agent_teams_mcp.Task.Graph.Sort.{
  or_zero, add_nodes, set_degrees, degrees, roots, lower, lower_all, kahn_loop, first_left,
  finish_sort, topological_sort_fuel, topological_sort,
}
use agent_teams_mcp.Task.Graph.Sort.Degrees.{is_node}
use agent_teams_mcp.Task.Graph.Sort.Sorted.{IsOrder, Cycle, topological_sort-IsOrder}
use agent_teams_mcp.Task.Graph.Sort.Built.{from_tasks-IsGraph}
use agent_teams_mcp.Task.Graph.Levels.{max_option, max_level, level_of, level_loop, compute_levels}
use agent_teams_mcp.Task.Graph.Levels.Chains.{IsLevel}
use agent_teams_mcp.Task.Graph.Levels.Computed.{compute_levels-IsLevel}
use agent_teams_mcp.Tests.Samples.{task}

abbrev a : Text
a = text "a"

abbrev b : Text
b = text "b"

abbrev c : Text
c = text "c"

abbrev d : Text
d = text "d"

abbrev tasks : List TaskFile
tasks =
    task d pending (c ∷ b ∷ [])
    ∷ task c pending (a ∷ [])
    ∷ task b pending (a ∷ [])
    ∷ task a pending []
    ∷ []

abbrev diamond : DependencyGraph
diamond = from_tasks tasks

abbrev circle : DependencyGraph
circle = from_tasks (task a pending (b ∷ []) ∷ task b pending (a ∷ []) ∷ [])

sort_runs :
    (topological_sort diamond ≡ some (ok (a ∷ b ∷ c ∷ d ∷ [])))
    × (topological_sort circle ≡ some (err (cycle_detected a (text "..."))))
    × (lookup d (compute_levels diamond) ≡ some 2)
unfolding from_tasks load_tasks add_edges touch_task touch add_edge add_to set_of insert_set
    contains lookup insert ◌==◌ or_zero add_nodes set_degrees degrees roots lower lower_all
    kahn_loop first_left finish_sort topological_sort_fuel topological_sort insert_sorted sort_by
    text_le max_option max_level level_of level_loop compute_levels
sort_runs = (refl, refl, refl)

topological_sort-IsOrder_example :
    ((order : List Text) × (topological_sort diamond ≡ some (ok order))
      × IsOrder diamond order
      × IsAcyclic diamond)
    ⊎ ((from : Text) × (topological_sort diamond ≡ some (err (cycle_detected from (text "..."))))
        × Cycle diamond)
topological_sort-IsOrder_example = topological_sort-IsOrder diamond (from_tasks-IsGraph tasks)

no_cycle : IsAcyclic diamond
no_cycle = elim (topological_sort-IsOrder diamond (from_tasks-IsGraph tasks)) [
  | inl (_, _, _, acyclic) ↦ acyclic
  | inr (from, failed, _) ↦ let e = sort_runs.0 in cc (e, failed)
]

d_node : is_node diamond d ≡ true
unfolding from_tasks load_tasks add_edges touch_task touch add_edge add_to set_of insert_set
    contains lookup insert ◌==◌
d_node = refl

compute_levels-IsLevel_example :
    (n : ℕ) × (lookup d (compute_levels diamond) ≡ some n)
    × IsLevel (compute_levels diamond) (set_of d diamond.deps) n
compute_levels-IsLevel_example =
    compute_levels-IsLevel diamond (from_tasks-IsGraph tasks) no_cycle d d_node
