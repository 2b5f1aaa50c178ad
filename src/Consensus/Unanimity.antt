-- ===== src/Consensus/Unanimity.antt =====
-- When a unanimous vote decides, and what for.
use agent_teams_mcp.Base.{
  Text, ◌==◌, ==_iff, ◌≡◌, refl, sym, ap, subst, ◌∙◌, ◌↔◌, inl, inr, ◌<◌, true, Option, none, some,
  List, [], ◌∷◌, length, all, arith, if◌then◌else◌, Bool-cases, List-cases,
}
use agent_teams_mcp.Consensus.{
  AgentResponse, Weights, or_else, active_of, no_decision, resolve_unanimous,
}
use agent_teams_mcp.Consensus.Votes.{votes-le, votes}

module _ (w : Weights) where
  open w use {F32}

  all-votes :
      (c : Text) (rs : List (AgentResponse F32))
      → (all (λ r. r.content == c) rs ≡ true) ↔ (votes c rs ≡ length rs)
  all-votes c [] = (λ h. refl, λ h. refl)
  all-votes c (r ∷ rs) =
      let few = votes-le c rs in
      (λ h. ground (arith, (all-votes c rs).0), λ h. ground (arith, few, (all-votes c rs).1))

  abbrev common : List (AgentResponse F32) → Option Text
  common [] = none
  common (first ∷ rest) =
      if all (λ r. r.content == first.content) (first ∷ rest) then some first.content else none

  common_iff :
      (a : List (AgentResponse F32)) (c : Text)
      → (common a ≡ some c) ↔ ((0 < length a) × (votes c a ≡ length a))
  common_iff [] c = (λ h. cc, λ h. absurd (omega (arith, h.0)))
  common_iff (first ∷ rest) c = (
    λ h. elim (Bool-cases (all (λ r. r.content == first.content) (first ∷ rest))) [
      | inl agree ↦
          let e : some first.content ≡ some c =
            subst (λ b. (if b then some first.content else none) ≡ some c) agree h in
          let same : first.content ≡ c = ap (λ o. or_else o c) e in
          (
            omega arith,
            (all-votes c (first ∷ rest)).0
                (subst (λ x. all (λ r. r.content == x) (first ∷ rest) ≡ true) same agree),
          )
      | inr differ ↦
          let e : none ≡ some c =
            subst (λ b. (if b then some first.content else none) ≡ some c) differ h in
          cc
    ],
    λ h.
        let agree = (all-votes c (first ∷ rest)).1 h.1 in
        let same : first.content ≡ c = (==_iff first.content c).0 (ground (arith, agree)) in
        let own = subst (λ x. all (λ r. r.content == x) (first ∷ rest) ≡ true) (sym same) agree in
        ap (λ b. if b then some first.content else none) own ∙ ap some same,
  )

  resolve_unanimous-common :
      (responses : List (AgentResponse F32))
      → (resolve_unanimous w responses).decision ≡ common (active_of w responses)
  unfolding resolve_unanimous no_decision
  resolve_unanimous-common responses = elim (List-cases (active_of w responses)) [
    | inl nobody ↦ ground (arith, nobody)
    | inr (first, rest, there) ↦ ground (arith, there)
  ]

  -- A unanimous vote decides for a content just when some response is not timed out and all that
  -- are not timed out have that content.
  pub resolve_unanimous_iff :
      (responses : List (AgentResponse F32)) (c : Text)
      → ((resolve_unanimous w responses).decision ≡ some c) ↔ (
          (0 < length (active_of w responses))
          × (votes c (active_of w responses) ≡ length (active_of w responses)))
  resolve_unanimous_iff responses c =
      subst
        (λ o. (o ≡ some c) ↔ (
          (0 < length (active_of w responses))
          × (votes c (active_of w responses) ≡ length (active_of w responses))))
        (sym (resolve_unanimous-common responses)) (common_iff (active_of w responses) c)
