-- ===== src/Consensus/Decisions.antt =====
-- When a majority decides, and what for.
use agent_teams_mcp.Base.{
  Text, ◌==◌, ==_iff, ==_refl, ◌≡◌, refl, sym, ap, subst, ◌∙◌, ◌↔◌, inl, inr, ℕ, ◌+◌, ◌/◌, ◌<◌, ◌≤◌,
  leb, Bool, true, none, some, List, [], ◌∷◌, length, lookup, is_some, arith, if◌then◌else◌,
  Bool-cases, Option-cases, List-cases,
}
use agent_teams_mcp.Error.{ok}
use agent_teams_mcp.Consensus.{
  majority, AgentResponse, ConsensusResult, Weights, or_else, max_count, count_contents, active_of,
  no_decision, count_result, resolve_majority,
}
use agent_teams_mcp.Consensus.Votes.{
  Entry, IsIteration, votes, votes-two, lookup-count_contents, has_key-count_contents,
  count_contents-NoRepeat, max_count-Entry, max_count-greatest,
}

module _ (w : Weights) (fair : IsIteration w) where
  open w use {F32, iter}

  module _ (rs : List (AgentResponse F32)) where
    count-votes : (e : Text × ℕ) → Entry e (iter (count_contents w rs [])) → e.1 ≡ votes e.0 rs
    unfolding lookup
    count-votes e there =
        let found =
          (fair ℕ (count_contents w rs []) (count_contents-NoRepeat w rs [] tt) e.0 e.1).0 there in
        omega (arith, ap (λ o. or_else o 0) found, lookup-count_contents w e.0 rs [])

    pub voted : (c : Text) → 0 < votes c rs → Entry (c, votes c rs) (iter (count_contents w rs []))
    unfolding lookup
    voted c h = elim (Option-cases (lookup c (count_contents w rs []))) [
      | inl absent ↦ absurd (cc (ap is_some absent, has_key-count_contents w c rs [] h))
      | inr (n, there) ↦
          let same : n ≡ votes c rs =
            omega (arith, ap (λ o. or_else o 0) there, lookup-count_contents w c rs []) in
          subst (λ k. Entry (c, k) (iter (count_contents w rs []))) same
            ((fair ℕ (count_contents w rs []) (count_contents-NoRepeat w rs [] tt) c n).1 there)
    ]

    module _ (e : Text × ℕ) (es : List (Text × ℕ))
        (shown : iter (count_contents w rs []) ≡ e ∷ es) where
      abbrev winner : Text × ℕ
      winner = max_count e es

      winner-votes : winner.1 ≡ votes winner.0 rs
      winner-votes = count-votes winner (subst (Entry winner) (sym shown) (max_count-Entry e es))

      winner-most : (c : Text) → votes c rs ≤ winner.1
      winner-most c = elim (Bool-cases (leb (votes c rs) 0)) [
        | inl zero_votes ↦ ground (arith, zero_votes)
        | inr some_votes ↦
            max_count-greatest e (c, votes c rs) es
              (subst (Entry (c, votes c rs)) shown (voted c (ground (arith, some_votes))))
      ]

      abbrev reached : Bool
      reached = leb (length rs / 2 + 1) winner.1

      count_result-reached :
          (responses : List (AgentResponse F32))
          → (count_result w winner (length rs) responses).decision
            ≡ (if reached then some winner.0 else none)
      unfolding count_result
      count_result-reached responses = refl

      winner-only : (c : Text) → length rs < votes c rs + votes c rs → winner.0 ≡ c
      winner-only c most = elim (Bool-cases (winner.0 == c)) [
        | inl same ↦ (==_iff winner.0 c).0 same
        | inr apart ↦
            let two = votes-two winner.0 c rs (λ e. cc (apart, (==_iff winner.0 c).1 e)) in
            absurd (omega (arith, two, winner-votes, winner-most c))
      ]

      count_result-majority :
          (responses : List (AgentResponse F32)) (c : Text)
          → ((count_result w winner (length rs) responses).decision ≡ some c)
            ↔ (length rs < votes c rs + votes c rs)
      count_result-majority responses c = (
        λ decided.
            let chosen = sym (count_result-reached responses) ∙ decided in
            elim (Bool-cases reached) [
              | inl enough ↦
                  let e : some winner.0 ≡ some c =
                    subst (λ b. (if b then some winner.0 else none) ≡ some c) enough chosen in
                  let same : winner.0 ≡ c = ap (λ o. or_else o c) e in
                  let count = ap (λ x. votes x rs) same in
                  ground (arith, winner-votes, count, enough)
              | inr few ↦
                  let e : none ≡ some c =
                    subst (λ b. (if b then some winner.0 else none) ≡ some c) few chosen in
                  cc
            ],
        λ most.
            let enough : reached ≡ true = let high = winner-most c in ground (arith, high, most) in
            count_result-reached responses
            ∙ ap (λ b. if b then some winner.0 else none) enough
            ∙ ap some (winner-only c most),
      )

  pub resolve_majority-nobody :
      (responses : List (AgentResponse F32))
      → active_of w responses ≡ []
      → resolve_majority w responses ≡ ok (no_decision w majority responses)
  unfolding resolve_majority
  resolve_majority-nobody responses h = ground (arith, h)

  pub resolve_majority-counted :
      (responses rest : List (AgentResponse F32)) (first : AgentResponse F32) (e : Text × ℕ)
      (es : List (Text × ℕ))
      → active_of w responses ≡ first ∷ rest
      → iter (count_contents w (first ∷ rest) []) ≡ e ∷ es
      → resolve_majority w responses
        ≡ ok (count_result w (max_count e es) (length (first ∷ rest)) responses)
  unfolding resolve_majority
  resolve_majority-counted responses rest first e es h k = ground (arith, h, k)

  -- A majority vote never panics, and decides for a content just when more than half of the
  -- responses that are not timed out have it, in whatever order the map gives its entries.
  pub resolve_majority_iff :
      (responses : List (AgentResponse F32))
      → (result : ConsensusResult F32) × (resolve_majority w responses ≡ ok result)
        × ((c : Text)
            → (result.decision ≡ some c) ↔ (
                length (active_of w responses)
                < votes c (active_of w responses) + votes c (active_of w responses)))
  unfolding no_decision
  resolve_majority_iff responses = elim (List-cases (active_of w responses)) [
    | inl nobody ↦ (
      no_decision w majority responses,
      resolve_majority-nobody responses nobody,
      (λ c. (λ decided. cc, λ most. absurd (omega (arith, ap length nobody, ap (votes c) nobody)))),
    )
    | inr (first, rest, some_active) ↦
        let a = first ∷ rest in
        elim (List-cases (iter (count_contents w a []))) [
          | inl empty ↦ absurd (
              subst (Entry (first.content, votes first.content a)) empty
                (voted a first.content (ground (arith, ==_refl first.content))))
          | inr (e, es, shown) ↦ (
            count_result w (max_count e es) (length a) responses,
            resolve_majority-counted responses rest first e es some_active shown,
            λ c.
                subst
                  (λ x.
                    ((count_result w (max_count e es) (length a) responses).decision ≡ some c)
                    ↔ (length x < votes c x + votes c x))
                  (sym some_active) (count_result-majority a e es shown responses c),
          )
        ]
  ]
