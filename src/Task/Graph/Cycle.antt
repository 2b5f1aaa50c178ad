-- ===== src/Task/Graph/Cycle.antt =====
-- The search for a cycle: it ends, it answers by reachability, and so a graph stays acyclic.
use agent_teams_mcp.Base.{
  Text, ◌==◌, ==_iff, ==_refl, ◌≡◌, refl, sym, subst, subst₂, ap, ◌↔◌, ◌⊎◌, inl, inr, ℕ, zero, suc,
  ◌≤◌, ◌<◌, true, false, ◌&&◌, ◌||◌, List, [], ◌∷◌, arith, contains, contains-cons, length,
  Option-cases, Bool-cases, List-cases,
}
use agent_teams_mcp.Error.{cycle_detected, ok, err}
use agent_teams_mcp.Task.Graph.{
  DependencyGraph, set_of, add_edge, Search, scan, Outcome, found, absent, out_of_fuel, search_loop,
  targets, report, would_create_cycle, add_dependency,
}
use agent_teams_mcp.Task.Graph.Edges.{
  Edge, Reach, here, step, IsAcyclic, IsConsistent, Edge-add_edge, add_edge-IsConsistent,
  contains-targets,
}
use agent_teams_mcp.Task.Graph.Scan.{unseen, work, scan-work, Scanned, scan-Scanned, scan-none}

module _ (g : DependencyGraph) (target source : Text) where
  -- What holds whenever the `while` loop tests its queue.
  record Inv (s : Search) : Type 0 where
    origin : contains source s.visited ≡ true
    missed : contains target s.visited ≡ false
    queued : (v : Text) → contains v s.queue ≡ true → contains v s.visited ≡ true
    sound : (v : Text) → contains v s.visited ≡ true → Reach g source v
    closed :
        (u v : Text)
        → contains u s.visited ≡ true
        → Edge g u v
        → (contains u s.queue ≡ true) ⊎ (contains v s.visited ≡ true)

  -- What the outcome of the loop says.
  abbrev Answers : Outcome → Type 0
  Answers found = Reach g source target
  Answers absent = ¬ Reach g source target
  Answers out_of_fuel = ⊥

  complete :
      (s : Search)
      → Inv s
      → s.queue ≡ []
      → {v : Text} → Reach g source v
      → contains v s.visited ≡ true
  complete s h e here = h.origin
  complete s h e (step {u} {v} p edge) = elim (h.closed u v (complete s h e p) edge) [
    | inl waits ↦ absurd (unfold contains in cc (ap (contains u) e))
    | inr m ↦ m
  ]

  Inv-scan :
      (s s' : Search) (u : Text) (rest : List Text)
      → s.queue ≡ u ∷ rest
      → Inv s
      → Scanned target (set_of u g.deps) (record { visited = s.visited; queue = rest }) s'
      → Inv s'
  Inv-scan s s' u rest e h r =
      let head = λ (v : Text).
        (subst (λ q. contains v q ≡ (u == v || contains v rest)) (sym e)
          (contains-cons v u rest)) in
      record {
        origin = ground (arith, r.marks source, h.origin);
        missed = ground (arith, r.marks target, h.missed, r.misses);
        queued = λ v q. ground (arith, r.marks v, r.queues v, h.queued v, head v);
        sound = λ v m. elim (Bool-cases (contains v s.visited)) [
          | inl old ↦ h.sound v old
          | inr new ↦
              step (h.sound u (h.queued u (ground (arith, head u, ==_refl u))))
                (ground (arith, r.marks v))
        ];
        closed = λ x v m edge.
            ground (arith, r.marks v, r.marks x, r.queues x, h.closed x v, head x, ==_iff u x);
      }

  -- With the fuel above its measure the loop ends and answers.
  loop-Answers :
      (fuel : ℕ) (s : Search)
      → Inv s
      → work (targets g.deps) s < fuel
      → Answers (search_loop g target fuel s)
  unfolding search_loop
  loop-Answers zero s h w = absurd (omega arith)
  loop-Answers (suc fuel) s h w = elim (List-cases s.queue) [
    | inl e ↦ rw (e, search_loop) (λ p. cc (complete s h e p, h.missed))
    | inr (u, rest, e) ↦
        let s₁ : Search = record { visited = s.visited; queue = rest } in
        elim (Option-cases (scan target (set_of u g.deps) s₁)) [
          | inl hit ↦
              let is_queued : contains u s.queue ≡ true =
                rw e (unfold contains in ground (arith, ==_refl u)) in
              rw (e, search_loop, hit)
                (step (h.sound u (h.queued u is_queued))
                  (scan-none target (set_of u g.deps) s₁ hit))
          | inr (s', more) ↦
              rw (e, search_loop, more)
                (loop-Answers fuel s'
                  (Inv-scan s s' u rest e h (scan-Scanned target (set_of u g.deps) s₁ s' more))
                  (omega (
                    arith,
                    ap length e,
                    scan-work target (set_of u g.deps) s₁ s' (targets g.deps)
                        (λ v m. contains-targets u v g.deps m) more,
                  )))
        ]
  ]

  Inv-start :
      contains target (source ∷ []) ≡ false
      → Inv (record { visited = source ∷ []; queue = source ∷ [] })
  unfolding contains
  Inv-start apart = record {
    origin = ground (arith, ==_refl source);
    missed = apart;
    queued = λ v q. q;
    sound = λ v m. subst (Reach g source) ((==_iff source v).0 (ground arith)) here;
    closed = λ u v m edge. inl m;
  }

  report_iff : (o : Outcome) → Answers o → (report o ≡ true) ↔ Reach g source target
  unfolding report
  report_iff found p = (λ _. p, λ _. refl)
  report_iff absent p = (λ e. cc, λ w. absurd (p w))
  report_iff out_of_fuel p = absurd p

unseen-le-length : (visited pool : List Text) → unseen visited pool ≤ length pool
unseen-le-length visited [] = omega arith
unseen-le-length visited (x ∷ pool) = ground (arith, unseen-le-length visited pool)

-- Adding the edge from `task_id` to `depends_on` is refused exactly if `task_id` is already
-- reached from `depends_on` along dependencies; the empty walk counts, so a task never depends on
-- itself. The search ends on every graph, cyclic or not.
pub would_create_cycle-iff-Reach :
    (g : DependencyGraph) (task_id depends_on : Text)
    → (would_create_cycle g task_id depends_on ≡ true) ↔ Reach g depends_on task_id
unfolding would_create_cycle
would_create_cycle-iff-Reach g t d = elim (Bool-cases (t == d)) [
  | inl same ↦ rw same (λ _. subst (Reach g d) (sym ((==_iff t d).0 same)) here, λ _. refl)
  | inr other ↦
      let apart : contains t (d ∷ []) ≡ false =
        unfold contains in ground (arith, ==_iff t d, ==_iff d t) in
      rw other (
        report_iff g t d _ (
          loop-Answers g t d _ _ (Inv-start g t d apart)
            (omega (arith, unseen-le-length (d ∷ []) (targets g.deps)))))
]

Reach-append : {g : DependencyGraph} {a b c : Text} → Reach g a b → Reach g b c → Reach g a c
Reach-append p here = p
Reach-append p (step q edge) = step (Reach-append p q) edge

module _ (g : DependencyGraph) (t d : Text) where
  -- A walk in the larger graph uses the new edge or does not.
  Reach-add_edge :
      {a b : Text} → Reach (add_edge t d g) a b → Reach g a b ⊎ Reach g a t × Reach g d b
  Reach-add_edge here = inl here
  Reach-add_edge {a} (step {u} {v} p edge) =
      let split : (contains v (set_of u g.deps) || t == u && d == v) ≡ true =
        rw Edge-add_edge at edge in
      elim (Bool-cases (contains v (set_of u g.deps))) [
        | inl old ↦ elim (Reach-add_edge p) [
          | inl q ↦ inl (step q old)
          | inr (q, r) ↦ inr (q, step r old)
        ]
        | inr new ↦
            let to_t = (==_iff t u).0 (ground arith) in
            let to_d = (==_iff d v).0 (ground arith) in
            let start : Reach g a t = elim (Reach-add_edge p) [
              | inl q ↦ subst (Reach g a) (sym to_t) q
              | inr (q, _) ↦ q
            ] in
            inr (start, subst (Reach g d) to_d here)
      ]

  add_edge-IsAcyclic : IsAcyclic g → ¬ Reach g d t → IsAcyclic (add_edge t d g)
  add_edge-IsAcyclic acyclic apart u v edge back =
      let split : (contains v (set_of u g.deps) || t == u && d == v) ≡ true =
        rw Edge-add_edge at edge in
      elim (Bool-cases (contains v (set_of u g.deps))) [
        | inl old ↦ elim (Reach-add_edge back) [
          | inl p ↦ acyclic u v old p
          | inr (p, q) ↦ apart (Reach-append (step q old) p)
        ]
        | inr new ↦
            let to_t = (==_iff t u).0 (ground arith) in
            let to_d = (==_iff d v).0 (ground arith) in
            elim (Reach-add_edge back) [
              | inl p ↦ apart (subst₂ (Reach g) (sym to_d) (sym to_t) p)
              | inr (p, q) ↦ apart (subst (λ w. Reach g w t) (sym to_d) p)
            ]
      ]

-- Without a cycle before, there is none after: whatever `add_dependency` accepts leaves the graph
-- acyclic, adds the one edge and keeps the others, and keeps the two indices equal. What it refuses
-- is an edge that would close a cycle, and the error names that edge.
pub add_dependency-IsAcyclic :
    (g : DependencyGraph) (task_id depends_on : Text)
    → IsAcyclic g
    → IsConsistent g
    → ((g' : DependencyGraph) × (add_dependency g task_id depends_on ≡ ok g')
        × IsAcyclic g'
        × IsConsistent g'
        × ((u v : Text)
            → contains v (set_of u g'.deps)
              ≡ (contains v (set_of u g.deps) || task_id == u && depends_on == v)))
      ⊎ (add_dependency g task_id depends_on ≡ err (cycle_detected task_id depends_on))
        × Reach g depends_on task_id
unfolding add_dependency
add_dependency-IsAcyclic g t d acyclic same =
    let (to_reach, of_reach) = would_create_cycle-iff-Reach g t d in
    elim (Bool-cases (would_create_cycle g t d)) [
      | inl yes_cycle ↦ inr (rw yes_cycle, to_reach yes_cycle)
      | inr no_cycle ↦ inl (
        add_edge t d g,
        rw no_cycle,
        add_edge-IsAcyclic g t d acyclic (λ p. cc (of_reach p)),
        add_edge-IsConsistent t d g same,
        λ u v. Edge-add_edge t d u v g,
      )
    ]
