-- ===== src/Task/Graph/Levels/Computed.antt =====
-- The loop of `compute_levels` gives each task its level.
use agent_teams_mcp.Base.{
  has_key, Text, ◌==◌, ==_iff, ◌≡◌, refl, sym, ap, subst, ◌∙◌, inl, inr, ℕ, true, false, none, some,
  List, [], ◌∷◌, ◌++◌, append_assoc, append-nil, arith, contains, contains-snoc, lookup, insert,
  lookup-insert, NoRepeat, Bool-cases, Option-cases,
}
use agent_teams_mcp.Error.{ok}
use agent_teams_mcp.Task.Graph.{DependencyGraph, set_of}
use agent_teams_mcp.Task.Graph.Edges.{Edge, IsAcyclic}
use agent_teams_mcp.Task.Graph.Sort.{topological_sort}
use agent_teams_mcp.Task.Graph.Sort.Degrees.{is_node}
use agent_teams_mcp.Task.Graph.Sort.Positions.{
  position, position-middle, position-before, NoRepeat-middle,
}
use agent_teams_mcp.Task.Graph.Sort.Step.{IsGraph}
use agent_teams_mcp.Task.Graph.Sort.Sorted.{IsOrder, topological_sort-IsOrder}
use agent_teams_mcp.Task.Graph.Levels.{level_of, level_loop, compute_levels}
use agent_teams_mcp.Task.Graph.Levels.Chains.{IsLevel, max_level-IsLevel}

lookup-insert_new :
    (id d : Text) (n k : ℕ) (levels : List (Text × ℕ))
    → lookup id levels ≡ none
    → lookup d levels ≡ some k
    → lookup d (insert id n levels) ≡ some k
lookup-insert_new id d n k levels new there = elim (Bool-cases (id == d)) [
  | inl same ↦ let e = subst (λ x. lookup x levels ≡ none) ((==_iff id d).0 same) new in cc
  | inr other ↦ lookup-insert id d n levels ∙ rw other there
]

IsLevel-insert :
    (id : Text) (n m : ℕ) (ds : List Text) (levels : List (Text × ℕ))
    → lookup id levels ≡ none
    → IsLevel levels ds m
    → IsLevel (insert id n levels) ds m
IsLevel-insert id n m ds levels new h = record {
  above = λ d c.
      let (k, there, below) = h.above d c in
      (k, lookup-insert_new id d n k levels new there, below);
  reached = elim h.reached [
    | inl start ↦ inl start
    | inr (d, c, k, there, e) ↦ inr (d, c, k, lookup-insert_new id d n k levels new there, e)
  ];
}

module _ (g : DependencyGraph) (order : List Text) (sorted : IsOrder g order) where
  -- The tasks placed are the keys, each with its level.
  record Leveled (done : List Text) (levels : List (Text × ℕ)) : Type 0 where
    same_keys : (v : Text) → has_key v levels ≡ contains v done
    at_level : (v : Text) (n : ℕ) → lookup v levels ≡ some n → IsLevel levels (set_of v g.deps) n

  module _ (done rest : List Text) (id : Text) (split : order ≡ done ++ id ∷ rest) where
    id_new : contains id done ≡ false
    id_new = NoRepeat-middle id done rest (subst NoRepeat split sorted.once)

    waits_for_done : (v : Text) → Edge g id v → contains v done ≡ true
    waits_for_done v edge = position-before v done (id ∷ rest) (
        omega (
          arith,
          sorted.ordered id v edge,
          ap (position v) split,
          ap (position id) split,
          position-middle id done rest id_new,
        ))

    Leveled-insert :
        (levels : List (Text × ℕ))
        → Leveled done levels
        → Leveled (done ++ id ∷ []) (insert id (level_of g id levels) levels)
    unfolding level_of
    Leveled-insert levels h =
        let n = level_of g id levels in
        let ds = set_of id g.deps in
        let new : lookup id levels ≡ none = elim (Option-cases (lookup id levels)) [
          | inl absent ↦ absent
          | inr (k, there) ↦ absurd (ground (arith, h.same_keys id, id_new))
        ] in
        let own : IsLevel levels ds n =
          max_level-IsLevel ds levels (λ d m. h.same_keys d ∙ waits_for_done d m) in
        record {
          same_keys = λ v.
              ground (arith, lookup-insert id v n levels, contains-snoc v id done, h.same_keys v);
          at_level = λ v k there. elim (Bool-cases (id == v)) [
            | inl same ↦
                let here : k ≡ n = ground (arith, lookup-insert id v n levels) in
                subst (λ x. IsLevel (insert id n levels) (set_of x g.deps) k) ((==_iff id v).0 same)
                  (subst (IsLevel (insert id n levels) ds) (sym here)
                    (IsLevel-insert id n n ds levels new own))
            | inr other ↦
                IsLevel-insert id n k (set_of v g.deps) levels new
                  (h.at_level v k (ground (arith, lookup-insert id v n levels)))
          ];
        }

  level_loop-Leveled :
      (rest done : List Text) (levels : List (Text × ℕ))
      → order ≡ done ++ rest
      → Leveled done levels
      → Leveled order (level_loop g rest levels)
  unfolding level_loop
  level_loop-Leveled [] done levels split h =
      subst (λ o. Leveled o levels) (sym (append-nil done) ∙ sym split) h
  level_loop-Leveled (id ∷ rest) done levels split h =
      level_loop-Leveled rest (done ++ id ∷ []) (insert id (level_of g id levels) levels)
        (split ∙ sym (append_assoc done (id ∷ []) rest))
        (Leveled-insert done rest id split levels h)

compute_levels-sorted :
    (g : DependencyGraph) (order : List Text)
    → topological_sort g ≡ some (ok order)
    → compute_levels g ≡ level_loop g order []
unfolding compute_levels
compute_levels-sorted g order ran = ground (arith, ran)

-- Every task of a graph without cycles has a level, which is above the levels of all tasks that it
-- waits for, and is 0 when it waits for none and else just above one of theirs. So the level is the
-- length of the longest chain of dependencies below the task.
pub compute_levels-IsLevel :
    (g : DependencyGraph)
    → IsGraph g
    → IsAcyclic g
    → (v : Text) → is_node g v ≡ true
    → (n : ℕ) × (lookup v (compute_levels g) ≡ some n)
      × IsLevel (compute_levels g) (set_of v g.deps) n
unfolding lookup contains
compute_levels-IsLevel g ok_graph acyclic v node = elim (topological_sort-IsOrder g ok_graph) [
  | inl (order, ran, sorted, _) ↦
      let all =
        level_loop-Leveled g order sorted order [] [] refl
          (record { same_keys = λ x. refl; at_level = λ x n h. cc }) in
      let same : compute_levels g ≡ level_loop g order [] = compute_levels-sorted g order ran in
      elim (Option-cases (lookup v (level_loop g order []))) [
        | inl absent ↦ absurd (ground (arith, all.same_keys v, sorted.all_nodes v))
        | inr (n, there) ↦ (
          n,
          ap (lookup v) same ∙ there,
          subst (λ m. IsLevel m (set_of v g.deps) n) (sym same) (all.at_level v n there),
        )
      ]
  | inr (from, ran, cycle) ↦ absurd (acyclic cycle.from cycle.to cycle.edge cycle.back)
]
