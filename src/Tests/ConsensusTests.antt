-- ===== src/Tests/ConsensusTests.antt =====
-- Votes of three agents, and one that is timed out. A weight is a natural number here.
use agent_teams_mcp.Base.{
  Text, text, ◌==◌, ==_iff, ◌≡◌, refl, ap, subst, ◌∙◌, ◌↔◌, inl, inr, ℕ, ◌+◌, ◌<◌, ltb, Bool, true,
  false, none, some, List, [], ◌∷◌, contains, length, lookup, insert, keys, is_some, contains-keys,
  arith, if◌then◌else◌, Bool-cases,
}
use agent_teams_mcp.Error.{ok}
use agent_teams_mcp.Consensus.{
  weighted, AgentResponse, ConsensusResult, Weights, or_else, max_weight, active_of, sum_weights,
  no_decision, resolve_majority, resolve_weighted, resolve_unanimous, resolve,
}
use agent_teams_mcp.Consensus.Votes.{IsIteration, votes}
use agent_teams_mcp.Consensus.Decisions.{resolve_majority_iff}
use agent_teams_mcp.Consensus.Unanimity.{resolve_unanimous_iff}
use agent_teams_mcp.Consensus.Reports.{IsReport, resolve-IsReport}

abbrev weights : Weights
weights = record {
  F32 = ℕ;
  zero_weight = 0;
  plus = λ x y. x + y;
  greater = λ x y. ltb y x;
  iter = λ m. m;
}

abbrev response : Text → Bool → AgentResponse ℕ
response content timed_out = record {
  agent = text "x";
  content = content;
  weight = 1;
  timed_out = timed_out;
}

abbrev yes : Text
yes = text "yes"

abbrev no : Text
no = text "no"

abbrev responses : List (AgentResponse ℕ)
responses = response yes false ∷ response no false ∷ response yes false ∷ response no true ∷ []

in_order : IsIteration weights
unfolding lookup contains
in_order V [] once k v = (λ h. absurd h, λ h. cc)
in_order V ((j, x) ∷ m) once k v =
    let ih = in_order V m once.1 k v in
    (
      λ there. elim there [
        | inl here ↦
            let same : j ≡ k = ap (λ e. e.0) here in
            ground (arith, same, (==_iff j k).1 same, ap (λ e. some e.1) here)
        | inr later ↦
            let found = ih.0 later in
            elim (Bool-cases (j == k)) [
              | inl same ↦
                  let known : contains j (keys m) ≡ true =
                    contains-keys j m
                    ∙ ap (λ y. is_some (lookup y m)) ((==_iff j k).0 same)
                    ∙ ap is_some found in
                  absurd (cc (known, once.0))
              | inr apart ↦ rw apart found
            ]
      ],
      λ found. elim (Bool-cases (j == k)) [
        | inl same ↦
            let e : some x ≡ some v =
              subst (λ t. (if t then some x else lookup k m) ≡ some v) same found in
            inl (ap (λ y. (y, x)) ((==_iff j k).0 same) ∙ ap (λ o. (k, or_else o x)) e)
        | inr apart ↦
            inr (ih.1 (subst (λ t. (if t then some x else lookup k m) ≡ some v) apart found))
      ],
    )

vote_runs :
    ((resolve_unanimous weights responses).decision ≡ none)
    × (resolve_weighted weights responses
        ≡ ok (record {
          decision = some yes;
          responses = responses;
          strategy_used = weighted;
          consensus_reached = true;
        }))
unfolding resolve_unanimous resolve_weighted active_of sum_weights max_weight no_decision insert
    lookup ◌==◌
vote_runs = (refl, refl)

resolve_majority_iff_example :
    (result : ConsensusResult ℕ) × (resolve_majority weights responses ≡ ok result)
    × ((c : Text)
        → (result.decision ≡ some c) ↔ (
            length (active_of weights responses)
            < votes c (active_of weights responses) + votes c (active_of weights responses)))
resolve_majority_iff_example = resolve_majority_iff weights in_order responses

resolve_unanimous_iff_example : ((resolve_unanimous weights responses).decision ≡ some yes) ↔ (
    (0 < length (active_of weights responses))
    × (votes yes (active_of weights responses) ≡ length (active_of weights responses)))
resolve_unanimous_iff_example = resolve_unanimous_iff weights responses yes

resolve-IsReport_example :
    (result : ConsensusResult ℕ) × (resolve weights weighted responses ≡ ok result)
    × IsReport weighted responses result
resolve-IsReport_example = resolve-IsReport weights in_order weighted responses
