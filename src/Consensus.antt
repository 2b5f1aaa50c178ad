-- ===== src/Consensus.antt =====
-- consensus/mod.rs: one decision from the answers of several agents. A weight is an `f32`, whose
-- arithmetic is a parameter, and so is the order in which a `HashMap` gives its entries.
pub mod Votes
pub mod Decisions
pub mod Unanimity
pub mod Reports
use agent_teams_mcp.Error.{Result, ok, err, panic}
use agent_teams_mcp.Base.{
  Text, ◌==◌, ℕ, suc, ◌+◌, ◌/◌, ltb, leb, Bool, true, false, not, Option, none, some, List, [], ◌∷◌,
  retain, all, length, lookup, insert, if◌then◌else◌,
}

pub data ConsensusStrategy : Type 0 where
  majority weighted unanimous human_in_the_loop : ConsensusStrategy

pub record AgentResponse (F32 : Type 0) : Type 0 where
  pub agent : Text
  pub content : Text
  pub weight : F32
  pub timed_out : Bool

pub record ConsensusResult (F32 : Type 0) : Type 0 where
  pub decision : Option Text
  pub responses : List (AgentResponse F32)
  pub strategy_used : ConsensusStrategy
  pub consensus_reached : Bool

-- What the code asks of `f32` and of `HashMap`; `greater` is `partial_cmp` with the answer `Greater`.
pub record Weights : Type 1 where
  pub F32 : Type 0
  pub zero_weight : F32
  pub plus : F32 → F32 → F32
  pub greater : F32 → F32 → Bool
  pub iter : {V : Type 0} → List (Text × V) → List (Text × V)

abbrev pub or_else {ℓ} : {A : Type ℓ} → Option A → A → A
or_else none d = d
or_else (some a) d = a

-- `max_by_key`: the last of the greatest.
unfoldable pub max_count : (Text × ℕ) → List (Text × ℕ) → Text × ℕ
max_count best [] = best
max_count best (e ∷ es) = max_count (if ltb e.1 best.1 then best else e) es

unfoldable pub max_weight :
    {F32 : Type 0} → (F32 → F32 → Bool) → (Text × F32) → List (Text × F32) → Text × F32
max_weight greater best [] = best
max_weight greater best (e ∷ es) = max_weight greater (if greater best.1 e.1 then best else e) es

module _ (w : Weights) where
  open w use {F32, zero_weight, plus, greater, iter}

  unfoldable pub active_of : List (AgentResponse F32) → List (AgentResponse F32)
  active_of responses = retain (λ r. not r.timed_out) responses

  -- `*counts.entry(content).or_insert(0) += 1` for each.
  unfoldable pub count_contents : List (AgentResponse F32) → List (Text × ℕ) → List (Text × ℕ)
  count_contents [] counts = counts
  count_contents (r ∷ rs) counts =
      count_contents rs (insert r.content (or_else (lookup r.content counts) 0 + 1) counts)

  unfoldable pub sum_weights : List (AgentResponse F32) → List (Text × F32) → List (Text × F32)
  sum_weights [] sums = sums
  sum_weights (r ∷ rs) sums =
      sum_weights rs
        (insert r.content (plus (or_else (lookup r.content sums) zero_weight) r.weight) sums)

  unfoldable pub no_decision : ConsensusStrategy → List (AgentResponse F32) → ConsensusResult F32
  no_decision strategy responses = record {
    decision = none;
    responses = responses;
    strategy_used = strategy;
    consensus_reached = false;
  }

  -- The result for the winner and its count among so many active responses.
  unfoldable pub count_result : Text × ℕ → ℕ → List (AgentResponse F32) → ConsensusResult F32
  count_result winner actives responses =
      let reached = leb (actives / 2 + 1) winner.1 in
      record {
        decision = if reached then some winner.0 else none;
        responses = responses;
        strategy_used = majority;
        consensus_reached = reached;
      }

  -- `max_by_key(...).unwrap()`
  unfoldable pub resolve_majority : List (AgentResponse F32) → Result (ConsensusResult F32)
  unfolding active_of count_contents max_count no_decision count_result
  resolve_majority responses = elim (active_of responses) [
    | [] ↦ ok (no_decision majority responses)
    | first ∷ rest ↦ elim (iter (count_contents (first ∷ rest) [])) [
      | [] ↦ panic
      | e ∷ es ↦ ok (count_result (max_count e es) (length (first ∷ rest)) responses)
    ]
  ]

  unfoldable pub resolve_weighted : List (AgentResponse F32) → Result (ConsensusResult F32)
  unfolding active_of sum_weights max_weight no_decision
  resolve_weighted responses = elim (active_of responses) [
    | [] ↦ ok (no_decision weighted responses)
    | first ∷ rest ↦ elim (iter (sum_weights (first ∷ rest) [])) [
      | [] ↦ panic
      | e ∷ es ↦ ok (record {
        decision = some (max_weight greater e es).0;
        responses = responses;
        strategy_used = weighted;
        consensus_reached = true;
      })
    ]
  ]

  unfoldable pub resolve_unanimous : List (AgentResponse F32) → ConsensusResult F32
  unfolding active_of no_decision
  resolve_unanimous responses = elim (active_of responses) [
    | [] ↦ no_decision unanimous responses
    | first ∷ rest ↦
        let agree = all (λ r. r.content == first.content) (first ∷ rest) in
        record {
          decision = if agree then some first.content else none;
          responses = responses;
          strategy_used = unanimous;
          consensus_reached = agree;
        }
  ]

  unfoldable pub resolve_human_in_the_loop : List (AgentResponse F32) → ConsensusResult F32
  unfolding no_decision
  resolve_human_in_the_loop responses = no_decision human_in_the_loop responses

  unfoldable pub resolve :
      ConsensusStrategy → List (AgentResponse F32) → Result (ConsensusResult F32)
  unfolding resolve_majority resolve_weighted resolve_unanimous resolve_human_in_the_loop
  resolve majority responses = resolve_majority responses
  resolve weighted responses = resolve_weighted responses
  resolve unanimous responses = ok (resolve_unanimous responses)
  resolve human_in_the_loop responses = ok (resolve_human_in_the_loop responses)
