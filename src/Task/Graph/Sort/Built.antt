-- ===== src/Task/Graph/Sort/Built.antt =====
-- The graphs that the program builds have indices of sets, as the sort needs.
use agent_teams_mcp.Base.{
  keys, insert-NoRepeat, Text, ◌==◌, subst, sym, List, [], ◌∷◌, insert, insert_set,
  insert_set-NoRepeat, NoRepeat, lookup, Bool-cases, inl, inr,
}
use agent_teams_mcp.Task.Model.{TaskFile}
use agent_teams_mcp.Task.Graph.{
  DependencyGraph, set_of, touch, add_to, add_edge, add_edges, touch_task, load_tasks, from_tasks,
}
use agent_teams_mcp.Task.Graph.Edges.{set_of-insert}
use agent_teams_mcp.Task.Graph.Build.{from_tasks-edges}
use agent_teams_mcp.Task.Graph.Sort.Step.{IsGraph}

record IsIndex (m : List (Text × List Text)) : Type 0 where
  once : NoRepeat (keys m)
  sets : (v : Text) → NoRepeat (set_of v m)

insert-IsIndex :
    (k : Text) (s : List Text) (m : List (Text × List Text))
    → IsIndex m
    → NoRepeat s
    → IsIndex (insert k s m)
insert-IsIndex k s m h new = record {
  once = insert-NoRepeat k s m h.once;
  sets = λ v.
      subst NoRepeat (sym (set_of-insert k v s m))
        (elim (Bool-cases (k == v)) [ inl same ↦ rw same new | inr other ↦ rw other (h.sets v) ]);
}

record AreIndices (g : DependencyGraph) : Type 0 where
  deps : IsIndex g.deps
  rdeps : IsIndex g.rdeps

add_edge-AreIndices :
    (id dep : Text) (g : DependencyGraph) → AreIndices g → AreIndices (add_edge id dep g)
unfolding add_edge add_to
add_edge-AreIndices id dep g h = record {
  deps =
      insert-IsIndex id (insert_set dep (set_of id g.deps)) g.deps h.deps
        (insert_set-NoRepeat dep (set_of id g.deps) (h.deps.sets id));
  rdeps =
      insert-IsIndex dep (insert_set id (set_of dep g.rdeps)) g.rdeps h.rdeps
        (insert_set-NoRepeat id (set_of dep g.rdeps) (h.rdeps.sets dep));
}

add_edges-AreIndices :
    (id : Text) (ds : List Text) (g : DependencyGraph)
    → AreIndices g
    → AreIndices (add_edges id ds g)
unfolding add_edges
add_edges-AreIndices id [] g h = h
add_edges-AreIndices id (d ∷ ds) g h =
    add_edges-AreIndices id ds (add_edge id d g) (add_edge-AreIndices id d g h)

touch_task-AreIndices :
    (id : Text) (g : DependencyGraph) → AreIndices g → AreIndices (touch_task id g)
unfolding touch_task touch
touch_task-AreIndices id g h = record {
  deps = insert-IsIndex id (set_of id g.deps) g.deps h.deps (h.deps.sets id);
  rdeps = insert-IsIndex id (set_of id g.rdeps) g.rdeps h.rdeps (h.rdeps.sets id);
}

load_tasks-AreIndices :
    (tasks : List TaskFile) (g : DependencyGraph) → AreIndices g → AreIndices (load_tasks tasks g)
unfolding load_tasks
load_tasks-AreIndices [] g h = h
load_tasks-AreIndices (t ∷ ts) g h =
    load_tasks-AreIndices ts (add_edges t.id t.blocked_by (touch_task t.id g))
      (add_edges-AreIndices t.id t.blocked_by (touch_task t.id g) (touch_task-AreIndices t.id g h))

pub from_tasks-IsGraph : (tasks : List TaskFile) → IsGraph (from_tasks tasks)
unfolding from_tasks set_of lookup
from_tasks-IsGraph tasks =
    let empty : DependencyGraph = record { deps = []; rdeps = [] } in
    let built = load_tasks-AreIndices tasks empty (record {
      deps = record { once = tt; sets = λ v. tt };
      rdeps = record { once = tt; sets = λ v. tt };
    }) in
    record {
      consistent = (from_tasks-edges tasks).1;
      deps_once = built.deps.once;
      deps_sets = built.deps.sets;
      rdeps_sets = built.rdeps.sets;
    }
