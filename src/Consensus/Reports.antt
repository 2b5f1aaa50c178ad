-- ===== src/Consensus/Reports.antt =====
-- What the result of each strategy says of the vote.
use agent_teams_mcp.Base.{
  Text, ==_refl, ◌≡◌, ◌≢◌, refl, ap, subst, inl, inr, ℕ, true, some, List, [], ◌∷◌, length, lookup,
  NoRepeat, keys, has_key, is_some, arith, Option-cases, List-cases,
}
use agent_teams_mcp.Error.{ok}
use agent_teams_mcp.Consensus.{
  ConsensusStrategy, majority, weighted, unanimous, human_in_the_loop, AgentResponse,
  ConsensusResult, Weights, or_else, max_count, max_weight, count_contents, active_of, no_decision,
  count_result, resolve_majority, resolve_weighted, resolve_unanimous, resolve_human_in_the_loop,
  resolve, sum_weights,
}
use agent_teams_mcp.Consensus.Votes.{Entry, IsIteration, votes}
use agent_teams_mcp.Base.{insert, lookup-insert, insert-NoRepeat}
use agent_teams_mcp.Consensus.Decisions.{resolve_majority-nobody, resolve_majority-counted, voted}

-- The result repeats the responses, names its strategy and says whether there is a decision.
pub record IsReport {F32 : Type 0} (strategy : ConsensusStrategy)
    (responses : List (AgentResponse F32)) (result : ConsensusResult F32) : Type 0 where
  pub same_responses : result.responses ≡ responses
  pub same_strategy : result.strategy_used ≡ strategy
  pub reached : result.consensus_reached ≡ is_some result.decision

module _ (w : Weights) (fair : IsIteration w) where
  open w use {F32, iter, plus, zero_weight}

  count_result-IsReport :
      (winner : Text × ℕ) (n : ℕ) (responses : List (AgentResponse F32))
      → IsReport majority responses (count_result w winner n responses)
  unfolding count_result
  count_result-IsReport winner n responses = record {
    same_responses = refl;
    same_strategy = refl;
    reached = ground arith;
  }

  no_decision-IsReport :
      (strategy : ConsensusStrategy) (responses : List (AgentResponse F32))
      → IsReport strategy responses (no_decision w strategy responses)
  unfolding no_decision
  no_decision-IsReport strategy responses = record {
    same_responses = refl;
    same_strategy = refl;
    reached = refl;
  }

  sum_weights-keeps :
      (c : Text) (rs : List (AgentResponse F32)) (sums : List (Text × F32))
      → has_key c sums ≡ true
      → has_key c (sum_weights w rs sums) ≡ true
  unfolding sum_weights
  sum_weights-keeps c [] sums h = h
  sum_weights-keeps c (r ∷ rs) sums h =
      let new = plus (or_else (lookup r.content sums) zero_weight) r.weight in
      sum_weights-keeps c rs (insert r.content new sums)
        (ground (arith, lookup-insert r.content c new sums))

  sum_weights-NoRepeat :
      (rs : List (AgentResponse F32)) (sums : List (Text × F32))
      → NoRepeat (keys sums)
      → NoRepeat (keys (sum_weights w rs sums))
  unfolding sum_weights
  sum_weights-NoRepeat [] sums once = once
  sum_weights-NoRepeat (r ∷ rs) sums once =
      let new = plus (or_else (lookup r.content sums) zero_weight) r.weight in
      sum_weights-NoRepeat rs (insert r.content new sums) (insert-NoRepeat r.content new sums once)

  weighed :
      (first : AgentResponse F32) (rest : List (AgentResponse F32))
      → iter (sum_weights w (first ∷ rest) []) ≢ []
  unfolding sum_weights insert lookup
  weighed first rest empty =
      let sums = sum_weights w (first ∷ rest) [] in
      let key : has_key first.content sums ≡ true =
        let new = plus zero_weight first.weight in
        sum_weights-keeps first.content rest ((first.content, new) ∷ [])
          (ground (arith, ==_refl first.content)) in
      elim (Option-cases (lookup first.content sums)) [
        | inl absent ↦ cc (ap is_some absent, key)
        | inr (x, there) ↦
            subst (Entry (first.content, x)) empty
              ((fair F32 sums (sum_weights-NoRepeat (first ∷ rest) [] tt) first.content x).1 there)
      ]

  resolve_weighted-nobody :
      (responses : List (AgentResponse F32))
      → active_of w responses ≡ []
      → resolve_weighted w responses ≡ ok (no_decision w weighted responses)
  unfolding resolve_weighted
  resolve_weighted-nobody responses h = ground (arith, h)

  abbrev won : Text → List (AgentResponse F32) → ConsensusResult F32
  won content responses = record {
    decision = some content;
    responses = responses;
    strategy_used = weighted;
    consensus_reached = true;
  }

  resolve_weighted-summed :
      (responses rest : List (AgentResponse F32)) (first : AgentResponse F32) (e : Text × F32)
      (es : List (Text × F32))
      → active_of w responses ≡ first ∷ rest
      → iter (sum_weights w (first ∷ rest) []) ≡ e ∷ es
      → resolve_weighted w responses ≡ ok (won (max_weight w.greater e es).0 responses)
  unfolding resolve_weighted
  resolve_weighted-summed responses rest first e es h k = ground (arith, h, k)

  resolve_weighted-IsReport :
      (responses : List (AgentResponse F32))
      → (result : ConsensusResult F32) × (resolve_weighted w responses ≡ ok result)
        × IsReport weighted responses result
  resolve_weighted-IsReport responses = elim (List-cases (active_of w responses)) [
    | inl nobody ↦ (
      no_decision w weighted responses,
      resolve_weighted-nobody responses nobody,
      no_decision-IsReport weighted responses,
    )
    | inr (first, rest, there) ↦ elim (List-cases (iter (sum_weights w (first ∷ rest) []))) [
      | inl empty ↦ absurd (weighed first rest empty)
      | inr (e, es, shown) ↦ (
        won (max_weight w.greater e es).0 responses,
        resolve_weighted-summed responses rest first e es there shown,
        record { same_responses = refl; same_strategy = refl; reached = refl },
      )
    ]
  ]

  resolve_majority-IsReport :
      (responses : List (AgentResponse F32))
      → (result : ConsensusResult F32) × (resolve_majority w responses ≡ ok result)
        × IsReport majority responses result
  resolve_majority-IsReport responses = elim (List-cases (active_of w responses)) [
    | inl nobody ↦ (
      no_decision w majority responses,
      resolve_majority-nobody w fair responses nobody,
      no_decision-IsReport majority responses,
    )
    | inr (first, rest, there) ↦ elim (List-cases (iter (count_contents w (first ∷ rest) []))) [
      | inl empty ↦ absurd (
          subst (Entry (first.content, votes first.content (first ∷ rest))) empty
            (voted w fair (first ∷ rest) first.content (ground (arith, ==_refl first.content))))
      | inr (e, es, shown) ↦ (
        count_result w (max_count e es) (length (first ∷ rest)) responses,
        resolve_majority-counted w fair responses rest first e es there shown,
        count_result-IsReport (max_count e es) (length (first ∷ rest)) responses,
      )
    ]
  ]

  unanimous-IsReport :
      (responses : List (AgentResponse F32))
      → IsReport unanimous responses (resolve_unanimous w responses)
  unfolding resolve_unanimous no_decision
  unanimous-IsReport responses = elim (List-cases (active_of w responses)) [
    | inl nobody ↦ record {
      same_responses = ground (arith, nobody);
      same_strategy = ground (arith, nobody);
      reached = ground (arith, nobody);
    }
    | inr (first, rest, there) ↦ record {
      same_responses = ground (arith, there);
      same_strategy = ground (arith, there);
      reached = ground (arith, there);
    }
  ]

  -- Whatever the strategy, a vote never panics, and its result repeats the responses, names the
  -- strategy, and reports a consensus just when it has a decision.
  pub resolve-IsReport :
      (strategy : ConsensusStrategy) (responses : List (AgentResponse F32))
      → (result : ConsensusResult F32) × (resolve w strategy responses ≡ ok result)
        × IsReport strategy responses result
  unfolding resolve resolve_human_in_the_loop
  resolve-IsReport majority responses = resolve_majority-IsReport responses
  resolve-IsReport weighted responses = resolve_weighted-IsReport responses
  resolve-IsReport unanimous responses =
      (resolve_unanimous w responses, refl, unanimous-IsReport responses)
  resolve-IsReport human_in_the_loop responses = (
    no_decision w human_in_the_loop responses,
    refl,
    no_decision-IsReport human_in_the_loop responses,
  )
