-- ===== src/Task/Graph/Levels.antt =====
-- task/graph.rs: `compute_levels`, the level of each task in the graph.
pub mod Chains
pub mod Computed
use agent_teams_mcp.Base.{
  Text, ltb, ℕ, suc, Option, none, some, List, [], ◌∷◌, lookup, insert, if◌then◌else◌,
}
use agent_teams_mcp.Error.{Result, ok, err, panic}
use agent_teams_mcp.Task.Graph.{DependencyGraph, set_of}
use agent_teams_mcp.Task.Graph.Sort.{topological_sort}

-- `filter_map(...).max()`
unfoldable pub max_option : Option ℕ → Option ℕ → Option ℕ
max_option none b = b
max_option (some a) none = some a
max_option (some a) (some b) = some (if ltb b a then a else b)

unfoldable pub max_level : List Text → List (Text × ℕ) → Option ℕ
unfolding max_option
max_level [] levels = none
max_level (d ∷ ds) levels = max_option (lookup d levels) (max_level ds levels)

unfoldable pub level_of : DependencyGraph → Text → List (Text × ℕ) → ℕ
unfolding max_level
level_of g id levels = elim (max_level (set_of id g.deps) levels) [ none ↦ 0 | some n ↦ suc n ]

-- The loop over the sorted tasks.
unfoldable pub level_loop : DependencyGraph → List Text → List (Text × ℕ) → List (Text × ℕ)
unfolding level_of
level_loop g [] levels = levels
level_loop g (id ∷ ids) levels = level_loop g ids (insert id (level_of g id levels) levels)

-- No levels where the sort fails.
unfoldable pub compute_levels : DependencyGraph → List (Text × ℕ)
unfolding level_loop
compute_levels g = elim (topological_sort g) [ some (ok order) ↦ level_loop g order [] | _ ↦ [] ]
