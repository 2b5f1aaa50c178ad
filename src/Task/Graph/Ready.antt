-- ===== src/Task/Graph/Ready.antt =====
-- When a task may run.
use agent_teams_mcp.Base.{
  Text, ◌==◌, ==_iff, ==_refl, ◌≡◌, refl, subst, ◌↔◌, ◌⊎◌, Bool, true, Option, none, some, List, [],
  ◌∷◌, foldl, arith, all, contains, lookup, insert, lookup-insert, if◌then◌else◌,
}
use agent_teams_mcp.Task.Model.{TaskStatus, completed, deleted, TaskFile}
use agent_teams_mcp.Task.Graph.{DependencyGraph, set_of, status_map, is_settled, is_ready}
use agent_teams_mcp.Task.Graph.Edges.{Edge}

-- The last task of the list with the id.
abbrev pub latest : Text → List TaskFile → Option TaskFile
latest id [] = none
latest id (t ∷ ts) = elim (latest id ts) [
  | some later ↦ some later
  | none ↦ if t.id == id then some t else none
]

abbrev pub status_of : Option TaskFile → Option TaskStatus → Option TaskStatus
status_of (some t) other = some t.status
status_of none other = other

lookup-foldl :
    (id : Text) (tasks : List TaskFile) (m : List (Text × TaskStatus))
    → lookup id (foldl (λ m t. insert t.id t.status m) m tasks)
      ≡ status_of (latest id tasks) (lookup id m)
lookup-foldl id [] m = refl
lookup-foldl id (t ∷ ts) m =
    ground (arith, lookup-foldl id ts (insert t.id t.status m), lookup-insert t.id id t.status m)

lookup-status_map :
    (id : Text) (tasks : List TaskFile)
    → lookup id (status_map tasks) ≡ status_of (latest id tasks) none
unfolding status_map lookup
lookup-status_map id tasks = lookup-foldl id tasks []

all_iff :
    (p : Text → Bool) (xs : List Text)
    → (all p xs ≡ true) ↔ ((x : Text) → contains x xs ≡ true → p x ≡ true)
unfolding contains
all_iff p [] = (λ _ x m. cc, λ _. refl)
all_iff p (y ∷ ys) =
    let (to_all, of_all) = all_iff p ys in
    (
      λ h x m. ground (arith, to_all (ground arith) x, ==_iff y x),
      λ h.
          let first = h y (ground (arith, ==_refl y)) in
          let rest = of_all (λ x m. h x (ground arith)) in ground (arith, first, rest),
    )

-- The task is known and will run no more.
abbrev pub IsSettled : Text → List TaskFile → Type 0
IsSettled id tasks =
    (t : TaskFile) × (latest id tasks ≡ some t) × ((t.status ≡ completed) ⊎ (t.status ≡ deleted))

settled_iff :
    (o : Option TaskFile)
    → (is_settled (status_of o none) ≡ true)
      ↔ ((t : TaskFile) × (o ≡ some t) × ((t.status ≡ completed) ⊎ (t.status ≡ deleted)))
unfolding is_settled
settled_iff none = (λ e. cc, λ h. cc (h.1))
settled_iff (some t) = (λ e. (t, refl, ground arith), λ h. ground (arith, h.1, h.2))

-- A task is ready exactly if each task that it waits for is among the given ones and the last one
-- given with that id is completed or deleted. A task that waits for none is ready.
pub is_ready_iff :
    (g : DependencyGraph) (task_id : Text) (tasks : List TaskFile)
    → (is_ready g task_id tasks ≡ true) ↔ ((dep : Text) → Edge g task_id dep → IsSettled dep tasks)
unfolding is_ready
is_ready_iff g task_id tasks =
    let (to_all, of_all) =
      all_iff (λ d. is_settled (lookup d (status_map tasks))) (set_of task_id g.deps) in
    (
      λ h dep edge.
          (settled_iff (latest dep tasks)).0
            (subst (λ o. is_settled o ≡ true) (lookup-status_map dep tasks) (to_all h dep edge)),
      λ h.
          of_all λ dep edge. rw lookup-status_map ((settled_iff (latest dep tasks)).1 (h dep edge)),
    )
