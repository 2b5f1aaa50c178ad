-- ===== src/TeamMode/Routing/Delivery.antt =====
-- That a member who is mentioned receives the message.
use agent_teams_mcp.Base.{
  Text, ◌==◌, ==_iff, ==_refl, ◌≡◌, ap, ◌∙◌, inl, inr, true, false, Option, none, some, List, [],
  ◌∷◌, arith, contains, lookup, Bool-cases,
}
use agent_teams_mcp.TeamMode.Lines.{is_blank}
use agent_teams_mcp.TeamMode.Mentions.{MentionCandidate, has_handle}
use agent_teams_mcp.TeamMode.Member.{MemberStatus, active, invited, suspended, removed}
use agent_teams_mcp.TeamMode.Routing.{Route, route_one, lc_active, route}
use agent_teams_mcp.TeamMode.Routing.Recipients.{contains-push_unique}

route_one-keeps :
    (o : Option (Text × MemberStatus)) (c : MentionCandidate) (r : Route) (a : Text)
    → contains a r.recipients ≡ true
    → contains a (route_one o c r).recipients ≡ true
unfolding route_one
route_one-keeps none c r a k = k
route_one-keeps (some (n, invited)) c r a k = k
route_one-keeps (some (n, suspended)) c r a k = k
route_one-keeps (some (n, removed)) c r a k = k
route_one-keeps (some (n, active)) c r a k = ground (arith, contains-push_unique a r.recipients n)

route_one-adds :
    (o : Option (Text × MemberStatus)) (c : MentionCandidate) (r : Route) (n : Text)
    → o ≡ some (n, active)
    → is_blank n ≡ false
    → contains n (route_one o c r).recipients ≡ true
unfolding route_one
route_one-adds o c r n e full =
    ap (λ x. contains n (route_one x c r).recipients) e
    ∙ ground (arith, contains-push_unique n r.recipients n, ==_refl n)

module _ (lowercase : Text → Text) (members : List (Text × MemberStatus)) where
  route-keeps :
      (cs : List MentionCandidate) (r : Route) (a : Text)
      → contains a r.recipients ≡ true
      → contains a (route lowercase members cs r).recipients ≡ true
  unfolding route
  route-keeps [] r a k = k
  route-keeps (c ∷ cs) r a k =
      let o = lookup (lowercase c.handle) (lc_active lowercase members) in
      route-keeps cs (route_one o c r) a (route_one-keeps o c r a k)

  pub route-reaches :
      (cs : List MentionCandidate) (r : Route) (h n : Text)
      → has_handle h cs ≡ true
      → lookup (lowercase h) (lc_active lowercase members) ≡ some (n, active)
      → is_blank n ≡ false
      → contains n (route lowercase members cs r).recipients ≡ true
  unfolding route has_handle
  route-reaches [] r h n k there full = cc
  route-reaches (c ∷ cs) r h n k there full =
      let o = lookup (lowercase c.handle) (lc_active lowercase members) in
      elim (Bool-cases (c.handle == h)) [
        | inl here ↦
            let same : c.handle ≡ h = ground (arith, ==_iff c.handle h) in
            let found : o ≡ some (n, active) =
              ap (λ x. lookup (lowercase x) (lc_active lowercase members)) same ∙ there in
            route-keeps cs (route_one o c r) n (route_one-adds o c r n found full)
        | inr away ↦ route-reaches cs (route_one o c r) h n (ground arith) there full
      ]
