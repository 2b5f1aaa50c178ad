-- ===== src/Task/Graph/Edges.antt =====
-- The edges of a dependency graph, the walks along them, and what an insertion does to both indices.
use agent_teams_mcp.Base.{
  Text, ℕ, ◌≤◌, ◌<◌, ◌==◌, ==_iff, ◌≡◌, true, ◌&&◌, ◌||◌, List, [], ◌∷◌, arith, contains,
  contains-append, contains-insert_set, insert_set, lookup, insert, lookup-insert, if◌then◌else◌,
}
use agent_teams_mcp.Task.Graph.{DependencyGraph, set_of, touch, add_to, add_edge, targets}

-- `id` waits for `dep`.
abbrev pub Edge : DependencyGraph → Text → Text → Type 0
Edge g id dep = contains dep (set_of id g.deps) ≡ true

-- The walks from `start` along edges, the empty one too.
pub data Reach (g : DependencyGraph) (start : Text) : Text → Type 0 where
  here : Reach g start start
  step : {u v : Text} → Reach g start u → Edge g u v → Reach g start v

-- No walk leads from an edge's end back to its start.
abbrev pub IsAcyclic : DependencyGraph → Type 0
IsAcyclic g = (u v : Text) → Edge g u v → ¬ Reach g v u

-- The two indices hold the same edges.
abbrev pub IsConsistent : DependencyGraph → Type 0
IsConsistent g = (u v : Text) → contains u (set_of v g.rdeps) ≡ contains v (set_of u g.deps)

pub set_of-insert :
    (k j : Text) (s : List Text) (m : List (Text × List Text))
    → set_of j (insert k s m) ≡ (if k == j then s else set_of j m)
unfolding set_of
set_of-insert k j s m = ground (arith, lookup-insert k j s m)

pub set_of-touch : (k j : Text) (m : List (Text × List Text)) → set_of j (touch k m) ≡ set_of j m
unfolding touch
set_of-touch k j m = ground (arith, set_of-insert k j (set_of k m) m, ==_iff k j)

pub contains-add_to :
    (k v j w : Text) (m : List (Text × List Text))
    → contains w (set_of j (add_to k v m)) ≡ (contains w (set_of j m) || k == j && v == w)
unfolding add_to
contains-add_to k v j w m = ground (
  arith,
  set_of-insert k j (insert_set v (set_of k m)) m,
  contains-insert_set w v (set_of k m),
  ==_iff k j,
)

-- The edge is there, and no other edge is new.
pub Edge-add_edge :
    (id dep u v : Text) (g : DependencyGraph)
    → contains v (set_of u (add_edge id dep g).deps)
      ≡ (contains v (set_of u g.deps) || id == u && dep == v)
unfolding add_edge
Edge-add_edge id dep u v g = contains-add_to id dep u v g.deps

pub add_edge-IsConsistent :
    (id dep : Text) (g : DependencyGraph) → IsConsistent g → IsConsistent (add_edge id dep g)
unfolding add_edge
add_edge-IsConsistent id dep g h u v =
    ground (arith, h u v, contains-add_to id dep u v g.deps, contains-add_to dep id v u g.rdeps)

pub contains-targets :
    (u v : Text) (m : List (Text × List Text))
    → contains v (set_of u m) ≡ true
    → contains v (targets m) ≡ true
unfolding set_of targets lookup
contains-targets u v [] h = h
contains-targets u v ((k, s) ∷ m) h =
    ground (arith, contains-append v s (targets m), contains-targets u v m)

Reach-le :
    (g : DependencyGraph) (rank : Text → ℕ) {a b : Text}
    → ((u v : Text) → Edge g u v → rank v < rank u)
    → Reach g a b
    → rank b ≤ rank a
Reach-le g rank below here = omega arith
Reach-le g rank below (step {u} {v} p edge) = omega (arith, Reach-le g rank below p, below u v edge)

-- Where every edge goes down in some rank there is no cycle.
pub ranked-IsAcyclic :
    (g : DependencyGraph) (rank : Text → ℕ)
    → ((u v : Text) → Edge g u v → rank v < rank u)
    → IsAcyclic g
ranked-IsAcyclic g rank below u v edge p = omega (arith, Reach-le g rank below p, below u v edge)
