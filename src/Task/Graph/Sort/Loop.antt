-- ===== src/Task/Graph/Sort/Loop.antt =====
-- The loop of the sort runs to an empty queue.
use agent_teams_mcp.Base.{
  keys, Text, text_le, ◌≡◌, ap, ◌∙◌, ℕ, zero, suc, ◌+◌, ◌<◌, some, List, [], ◌∷◌, ◌++◌, arith,
  length, length-append, sort_by, List-cases, inl, inr,
}
use agent_teams_mcp.Error.{ok}
use agent_teams_mcp.Task.Graph.{DependencyGraph, set_of}
use agent_teams_mcp.Task.Graph.Scan.{unseen}
use agent_teams_mcp.Task.Graph.Sort.{Kahn, lower_all, kahn_loop}
use agent_teams_mcp.Task.Graph.Sort.Step.{IsGraph, Inv, lowering-IsLowered, Inv-after}

module _ (g : DependencyGraph) where
  kahn_loop-empty : (fuel : ℕ) (s : Kahn) → s.queue ≡ [] → kahn_loop g (suc fuel) s ≡ some (ok s)
  unfolding kahn_loop
  kahn_loop-empty fuel s h = ground (arith, h)

  kahn_loop-next :
      (fuel : ℕ) (s s' : Kahn) (u : Text) (rest : List Text)
      → s.queue ≡ u ∷ rest
      → lower_all
          (sort_by text_le (set_of u g.rdeps))
          (record { in_degree = s.in_degree; queue = rest; result = s.result ++ u ∷ [] })
        ≡ ok s'
      → kahn_loop g (suc fuel) s ≡ kahn_loop g fuel s'
  unfolding kahn_loop
  kahn_loop-next fuel s s' u rest h k = ground (arith, h, k)

  -- With more fuel than there are tasks left the loop ends.
  pub kahn_loop-Inv :
      (ok_graph : IsGraph g) (fuel : ℕ) (s : Kahn)
      → Inv g ok_graph s
      → unseen s.result (keys s.in_degree) < fuel
      → (s' : Kahn) × (kahn_loop g fuel s ≡ some (ok s')) × Inv g ok_graph s' × (s'.queue ≡ [])
  kahn_loop-Inv ok_graph zero s inv below = absurd (omega arith)
  kahn_loop-Inv ok_graph (suc fuel) s inv below = elim (List-cases s.queue) [
    | inl empty ↦ (s, kahn_loop-empty fuel s empty, inv, empty)
    | inr (u, rest, head) ↦
        let (s1, ran, low) = lowering-IsLowered g ok_graph s inv u rest head in
        let inv1 = Inv-after g ok_graph s inv u rest head s1 low in
        let longer : length s1.result ≡ length s.result + 1 =
          ap length low.same_result ∙ length-append s.result (u ∷ []) in
        let (s', looped, inv', done) =
          kahn_loop-Inv ok_graph fuel s1 inv1
            (omega (arith, inv.count, inv1.count, ap length low.same_keys, longer)) in
        (s', kahn_loop-next fuel s s1 u rest head ran ∙ looped, inv', done)
  ]
