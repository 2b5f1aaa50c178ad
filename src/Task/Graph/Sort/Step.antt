-- ===== src/Task/Graph/Sort/Step.antt =====
-- One round of the loop of the sort keeps its invariant.
use agent_teams_mcp.Base.{
  has_key, keys, Text, text_le, ◌==◌, ==_iff, ==_refl, ◌≡◌, ◌≢◌, sym, ap, subst, ◌∙◌, ℕ, suc, ◌+◌,
  ◌<◌, Bool, true, false, ◌&&◌, ◌||◌, some, List, [], ◌∷◌, ◌++◌, arith, contains, contains-snoc,
  contains-cons, lookup, length, length-append, NoRepeat, NoRepeat-snoc, sort_by, if◌then◌else◌,
  Bool-cases, inl, inr,
}
use agent_teams_mcp.Error.{ok}
use agent_teams_mcp.Task.Graph.{DependencyGraph, set_of}
use agent_teams_mcp.Task.Graph.Edges.{Edge, IsConsistent}
use agent_teams_mcp.Task.Graph.Scan.{unseen}
use agent_teams_mcp.Task.Graph.Sort.{Kahn, lower_all}
use agent_teams_mcp.Task.Graph.Sort.Counts.{
  unseen-snoc_absent, unseen-snoc_present, unseen-zero, contains-sort_by, sort_by-NoRepeat,
}
use agent_teams_mcp.Task.Graph.Sort.Degrees.{is_node}
use agent_teams_mcp.Task.Graph.Sort.Lowering.{is_one, IsLowered, lower_all-IsLowered}
use agent_teams_mcp.Task.Graph.Sort.Positions.{
  position, position-lt, contains-position, position-snoc_old, position-snoc_new,
}

-- The indices agree, and neither they nor the sets in them repeat anything.
pub record IsGraph (g : DependencyGraph) : Type 0 where
  pub consistent : IsConsistent g
  pub deps_once : NoRepeat (keys g.deps)
  pub deps_sets : (v : Text) → NoRepeat (set_of v g.deps)
  pub rdeps_sets : (v : Text) → NoRepeat (set_of v g.rdeps)

pub key-set_of :
    (u v : Text) (m : List (Text × List Text)) → contains v (set_of u m) ≡ true → has_key u m ≡ true
unfolding set_of contains
key-set_of u v m h = ground arith

module _ (g : DependencyGraph) (ok_graph : IsGraph g) where
  -- The tasks that `v` waits for and that are not in the result.
  abbrev pub left : List Text → Text → ℕ
  left done v = unseen done (set_of v g.deps)

  abbrev pub placed : Kahn → Text → Bool
  placed s v = contains v s.result || contains v s.queue

  pub record Inv (s : Kahn) : Type 0 where
    pub keys_once : NoRepeat (keys s.in_degree)
    pub nodes : (v : Text) → contains v (keys s.in_degree) ≡ is_node g v
    pub degree : (v : Text) → is_node g v ≡ true → lookup v s.in_degree ≡ some (left s.result v)
    pub placed_node : (v : Text) → placed s v ≡ true → is_node g v ≡ true
    pub placed_zero : (v : Text) → placed s v ≡ true → left s.result v ≡ 0
    pub zero_placed : (v : Text) → is_node g v ≡ true → left s.result v ≡ 0 → placed s v ≡ true
    pub result_once : NoRepeat s.result
    pub queue_once : NoRepeat s.queue
    pub apart : (v : Text) → contains v s.queue ≡ true → contains v s.result ≡ false
    pub ordered :
        (u v : Text)
        → contains u s.result ≡ true
        → Edge g u v
        → position v s.result < position u s.result
    pub count : length s.result + unseen s.result (keys s.in_degree) ≡ length (keys s.in_degree)

  module _ (s : Kahn) (inv : Inv s) (u : Text) (rest : List Text) (head : s.queue ≡ u ∷ rest) where
    abbrev pub popped : Kahn
    popped = record { in_degree = s.in_degree; queue = rest; result = s.result ++ u ∷ [] }

    abbrev pub dependents : List Text
    dependents = sort_by text_le (set_of u g.rdeps)

    in_queue : (v : Text) → contains v s.queue ≡ (u == v || contains v rest)
    in_queue v = ap (contains v) head ∙ contains-cons v u rest

    u_queued : contains u s.queue ≡ true
    u_queued = in_queue u ∙ ground (arith, ==_refl u)

    u_new : contains u s.result ≡ false
    u_new = inv.apart u u_queued

    in_dependents : (v : Text) → contains v dependents ≡ contains u (set_of v g.deps)
    in_dependents v = contains-sort_by v (set_of u g.rdeps) ∙ ok_graph.consistent v u

    dependent-node : (v : Text) → contains v dependents ≡ true → is_node g v ≡ true
    dependent-node v h = ground (arith, key-set_of v u g.deps (sym (in_dependents v) ∙ h))

    left_dependent :
        (v : Text)
        → contains v dependents ≡ true
        → left s.result v ≡ suc (left (s.result ++ u ∷ []) v)
    left_dependent v h =
        unseen-snoc_present u s.result (set_of v g.deps) (ok_graph.deps_sets v) u_new
          (sym (in_dependents v) ∙ h)

    left_other :
        (v : Text) → contains v dependents ≡ false → left s.result v ≡ left (s.result ++ u ∷ []) v
    left_other v h =
        sym (unseen-snoc_absent u s.result (set_of v g.deps) (sym (in_dependents v) ∙ h))

    rest_once : (contains u rest ≡ false) × NoRepeat rest
    rest_once = subst NoRepeat head inv.queue_once

    -- The inner loop runs through, and lowers what waits for `u`.
    pub lowering-IsLowered :
        (s' : Kahn) × (lower_all dependents popped ≡ ok s') × IsLowered dependents popped s'
    lowering-IsLowered =
        lower_all-IsLowered dependents popped
          (sort_by-NoRepeat (set_of u g.rdeps) (ok_graph.rdeps_sets u)) rest_once.1
          (λ v h.
            subst (λ o. o ≢ some 0)
              (sym (inv.degree v (dependent-node v h) ∙ ap some (left_dependent v h))) (λ e. cc))
          (λ v h. elim (Bool-cases (contains v rest)) [
            | inl waits ↦
                let zero_left = inv.placed_zero v (ground (arith, in_queue v)) in
                absurd (omega (arith, left_dependent v h))
            | inr free ↦ free
          ])

    module _ (s' : Kahn) (low : IsLowered dependents popped s') where
      in_result : (v : Text) → contains v s'.result ≡ (contains v s.result || u == v)
      in_result v = ap (contains v) low.same_result ∙ contains-snoc v u s.result

      left_after : (v : Text) → left s'.result v ≡ left (s.result ++ u ∷ []) v
      left_after v = ap (λ r. left r v) low.same_result

      -- How the number of open dependencies falls.
      left_step :
          (v : Text)
          → left s.result v
            ≡ (if contains v dependents then suc (left s'.result v) else left s'.result v)
      left_step v = elim (Bool-cases (contains v dependents)) [
        | inl waits ↦ rw waits (left_dependent v waits ∙ ap suc (sym (left_after v)))
        | inr other ↦ rw other (left_other v other ∙ sym (left_after v))
      ]

      degree_after :
          (v : Text) → is_node g v ≡ true → lookup v s'.in_degree ≡ some (left s'.result v)
      degree_after v node = low.degree v ∙ ground (arith, inv.degree v node, left_step v)

      placed_after :
          (v : Text)
          → placed s' v ≡ (placed s v || contains v dependents && is_one (lookup v s.in_degree))
      placed_after v = ground (arith, in_result v, low.pushed v, in_queue v)

      free_after :
          (v : Text)
          → (contains v dependents && is_one (lookup v s.in_degree)) ≡ true
          → (is_node g v ≡ true) × (left s'.result v ≡ 0)
      free_after v h =
          let node = dependent-node v (ground arith) in
          (node, ground (arith, inv.degree v node, left_step v))

      ordered_after :
          (a b : Text)
          → contains a s'.result ≡ true
          → Edge g a b
          → position b s'.result < position a s'.result
      ordered_after a b h edge =
          let after = λ (x : Text). ap (position x) low.same_result in
          elim (Bool-cases (contains a s.result)) [
            | inl old ↦
                let below = inv.ordered a b old edge in
                let b_in =
                  contains-position b s.result (omega (arith, below, position-lt a s.result old)) in
                omega (
                  arith,
                  below,
                  after a,
                  after b,
                  position-snoc_old a u s.result old,
                  position-snoc_old b u s.result b_in,
                )
            | inr new ↦
                let same : u ≡ a = ground (arith, in_result a, ==_iff u a) in
                let closed = inv.placed_zero a (ground (arith, in_queue a, ==_iff u a)) in
                let b_in = unseen-zero b s.result (set_of a g.deps) closed edge in
                let a_last : position a (s.result ++ u ∷ []) ≡ length s.result =
                  ap (λ x. position a (s.result ++ x ∷ [])) same
                  ∙ position-snoc_new a s.result new in
                omega (
                  arith,
                  after a,
                  after b,
                  a_last,
                  position-snoc_old b u s.result b_in,
                  position-lt b s.result b_in,
                )
          ]

      count_after :
          length s'.result + unseen s'.result (keys s'.in_degree) ≡ length (keys s'.in_degree)
      count_after =
          let there : contains u (keys s.in_degree) ≡ true =
            inv.nodes u ∙ inv.placed_node u (ground (arith, u_queued)) in
          let longer : length s'.result ≡ suc (length s.result) =
            ap length low.same_result ∙ omega (arith, length-append s.result (u ∷ [])) in
          let fewer : unseen s'.result (keys s'.in_degree)
              ≡ unseen (s.result ++ u ∷ []) (keys s.in_degree) =
            ap (λ r. unseen r (keys s'.in_degree)) low.same_result
            ∙ ap (unseen (s.result ++ u ∷ [])) low.same_keys in
          omega (
            arith,
            longer,
            fewer,
            ap length low.same_keys,
            inv.count,
            unseen-snoc_present u s.result (keys s.in_degree) inv.keys_once u_new there,
          )

      placed_before :
          (v : Text) → placed s' v ≡ true → (is_node g v ≡ true) × (left s'.result v ≡ 0)
      placed_before v h = elim (Bool-cases (placed s v)) [
        | inl old ↦ (inv.placed_node v old, ground (arith, left_step v, inv.placed_zero v old))
        | inr new ↦ free_after v (ground (arith, placed_after v))
      ]

      zero_after : (v : Text) → is_node g v ≡ true → left s'.result v ≡ 0 → placed s' v ≡ true
      zero_after v node h = elim (Bool-cases (contains v dependents)) [
        | inl waits ↦ ground (arith, placed_after v, inv.degree v node, left_step v)
        | inr other ↦ ground (arith, placed_after v, left_step v, inv.zero_placed v node)
      ]

      apart_after : (v : Text) → contains v s'.queue ≡ true → contains v s'.result ≡ false
      apart_after v h = elim (Bool-cases (contains v rest)) [
        | inl waits ↦ ground (
          arith,
          in_result v,
          inv.apart v,
          in_queue v,
          rest_once.0,
          ==_iff u v,
          λ (e : u ≡ v). ap (λ x. contains x rest) e,
        )
        | inr new ↦
            let waits : contains v dependents ≡ true = ground (arith, low.pushed v) in
            elim (Bool-cases (placed s v)) [
              | inl old ↦ absurd (omega (arith, inv.placed_zero v old, left_dependent v waits))
              | inr free ↦ ground (arith, in_result v, in_queue v)
            ]
      ]

      pub Inv-after : Inv s'
      Inv-after = record {
        keys_once = subst NoRepeat (sym low.same_keys) inv.keys_once;
        nodes = λ v. ap (contains v) low.same_keys ∙ inv.nodes v;
        degree = degree_after;
        placed_node = λ v h. (placed_before v h).0;
        placed_zero = λ v h. (placed_before v h).1;
        zero_placed = λ v node h. zero_after v node h;
        result_once =
            subst NoRepeat (sym low.same_result) (NoRepeat-snoc s.result u inv.result_once u_new);
        queue_once = low.once;
        apart = λ v h. apart_after v h;
        ordered = ordered_after;
        count = count_after;
      }
