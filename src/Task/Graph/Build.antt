-- ===== src/Task/Graph/Build.antt =====
-- The graph that `from_tasks` builds holds the edges of the tasks and no other.
use agent_teams_mcp.Base.{
  Text, ◌==◌, ◌≡◌, refl, ap, Bool, ◌&&◌, ◌||◌, List, [], ◌∷◌, arith, any, contains, lookup,
}
use agent_teams_mcp.Task.Model.{TaskFile}
use agent_teams_mcp.Task.Graph.{
  DependencyGraph, set_of, add_edge, add_edges, touch_task, load_tasks, from_tasks,
}
use agent_teams_mcp.Task.Graph.Edges.{
  IsConsistent, set_of-touch, Edge-add_edge, add_edge-IsConsistent,
}

-- Some task of the list has the id `u` and lists `v` in its `blocked_by`.
abbrev pub lists : Text → Text → List TaskFile → Bool
lists u v tasks = any (λ t. t.id == u && contains v t.blocked_by) tasks

Edge-add_edges :
    (id u v : Text) (ds : List Text) (g : DependencyGraph)
    → contains v (set_of u (add_edges id ds g).deps)
      ≡ (contains v (set_of u g.deps) || id == u && contains v ds)
unfolding add_edges contains
Edge-add_edges id u v [] g = ground arith
Edge-add_edges id u v (d ∷ ds) g =
    ground (arith, Edge-add_edges id u v ds (add_edge id d g), Edge-add_edge id d u v g)

add_edges-IsConsistent :
    (id : Text) (ds : List Text) (g : DependencyGraph)
    → IsConsistent g
    → IsConsistent (add_edges id ds g)
unfolding add_edges
add_edges-IsConsistent id [] g h = h
add_edges-IsConsistent id (d ∷ ds) g h =
    add_edges-IsConsistent id ds (add_edge id d g) (add_edge-IsConsistent id d g h)

touch_task-IsConsistent :
    (id : Text) (g : DependencyGraph) → IsConsistent g → IsConsistent (touch_task id g)
unfolding touch_task
touch_task-IsConsistent id g h u v =
    cc (
      ap (contains u) (set_of-touch id v g.rdeps),
      ap (contains v) (set_of-touch id u g.deps),
      h u v,
    )

Edge-load_tasks :
    (u v : Text) (tasks : List TaskFile) (g : DependencyGraph)
    → contains v (set_of u (load_tasks tasks g).deps)
      ≡ (contains v (set_of u g.deps) || lists u v tasks)
unfolding load_tasks touch_task
Edge-load_tasks u v [] g = ground arith
Edge-load_tasks u v (t ∷ ts) g = ground (
  arith,
  Edge-load_tasks u v ts (add_edges t.id t.blocked_by (touch_task t.id g)),
  Edge-add_edges t.id u v t.blocked_by (touch_task t.id g),
  set_of-touch t.id u g.deps,
)

load_tasks-IsConsistent :
    (tasks : List TaskFile) (g : DependencyGraph)
    → IsConsistent g
    → IsConsistent (load_tasks tasks g)
unfolding load_tasks
load_tasks-IsConsistent [] g h = h
load_tasks-IsConsistent (t ∷ ts) g h =
    load_tasks-IsConsistent ts _
      (add_edges-IsConsistent t.id t.blocked_by _ (touch_task-IsConsistent t.id g h))

-- The graph of a list of tasks has the edge from `u` to `v` exactly if some task with the id `u`
-- lists `v` in its `blocked_by`, and the index of the tasks that a task blocks is its inverse.
pub from_tasks-edges :
    (tasks : List TaskFile)
    → ((u v : Text) → contains v (set_of u (from_tasks tasks).deps) ≡ lists u v tasks)
      × IsConsistent (from_tasks tasks)
unfolding from_tasks set_of contains lookup
from_tasks-edges tasks =
    let empty : DependencyGraph = record { deps = []; rdeps = [] } in
    (
      λ u v. ground (arith, Edge-load_tasks u v tasks empty),
      load_tasks-IsConsistent tasks empty (λ u v. refl),
    )
