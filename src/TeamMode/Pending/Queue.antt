-- ===== src/TeamMode/Pending/Queue.antt =====
-- When a message goes into the queue of a lead, and what is then read from the queues.
use agent_teams_mcp.Base.{
  Text, ◌==◌, ==_iff, ==_refl, ◌≡◌, ◌≢◌, refl, sym, ap, subst, ◌∙◌, ◌⊎◌, Bool, true, false, none,
  some, List, [], ◌∷◌, ◌++◌, any, map, lookup, lookup-insert, arith, if◌then◌else◌, Bool-cases,
  Option-cases, inl, inr,
}
use agent_teams_mcp.Error.{ok, proceed}
use agent_teams_mcp.TeamMode.Message.{Message}
use agent_teams_mcp.TeamMode.Lines.{
  LineSerde, content_lines, render, render-append, content_lines-render,
}
use agent_teams_mcp.TeamMode.Transcript.{text_of}
use agent_teams_mcp.TeamMode.Pending.{
  LeadPendingEntry, Queues, truncation_marker, truncate_body_for_pending, entry_of, append_line,
  addressed_team, append_pending, maybe_write,
}
use agent_teams_mcp.TeamMode.Pending.Truncation.{truncate_body_for_pending-bounds}

module _ (serde : LineSerde LeadPendingEntry) where
  abbrev pub queue_lines : Text → Queues → List Text
  queue_lines team queues = content_lines (text_of (lookup team queues))

  -- The queue of a team holds these entries and nothing else.
  abbrev pub Holds : Text → List LeadPendingEntry → Queues → Type 0
  Holds team es queues = text_of (lookup team queues) ≡ render serde es

  abbrev pub is_for : Text → Message → Bool
  is_for lead_id m = any (λ r. r == lead_id) m.effective_recipients

  truncated : (body : Text) → (shown : Text) × (truncate_body_for_pending body ≡ ok shown)
  truncated body = elim (truncate_body_for_pending-bounds body) [
    | inl (_, e) ↦ (body, e)
    | inr (kept, rest, e, _, _, _) ↦ (kept ++ truncation_marker, e)
  ]

  append_pending-ok :
      (team name shown : Text) (m : Message) (queues : Queues)
      → truncate_body_for_pending m.body ≡ ok shown
      → append_pending serde team name m queues
        ≡ (ok true, append_line serde team (serde.encode (entry_of team name m shown)) queues)
  unfolding append_pending
  append_pending-ok team name shown m queues h =
      ap
        (λ r.
          proceed {A = Text} (r, queues)
            (λ t s. (ok true, append_line serde team (serde.encode (entry_of team name m t)) s)))
        h

  append_line-Holds :
      (team : Text) (e : LeadPendingEntry) (es : List LeadPendingEntry) (queues : Queues)
      → Holds team es queues
      → Holds team (es ++ e ∷ []) (append_line serde team (serde.encode e) queues)
  unfolding append_line
  append_line-Holds team e es queues h =
      let line = serde.encode e ++ 10 ∷ [] in
      let there : lookup team (append_line serde team (serde.encode e) queues)
          ≡ some (text_of (lookup team queues) ++ line) =
        lookup-insert team team (text_of (lookup team queues) ++ line) queues
        ∙ rw (==_refl team) refl in
      ap text_of there ∙ ap (λ t. t ++ line) h ∙ sym (render-append serde es (e ∷ []))

  append_line-others :
      (team other line : Text) (queues : Queues)
      → team ≢ other
      → lookup other (append_line serde team line queues) ≡ lookup other queues
  unfolding append_line
  append_line-others team other line queues h = ground (
    arith,
    lookup-insert team other (text_of (lookup team queues) ++ (line ++ 10 ∷ [])) queues,
    ==_iff team other,
    h,
  )

  append_line-all :
      (team : Text) (e : LeadPendingEntry) (queues : Queues) (held : Text → List LeadPendingEntry)
      → ((t : Text) → Holds t (held t) queues)
      → (other : Text)
      → Holds other
          (if team == other then held other ++ e ∷ [] else held other)
          (append_line serde team (serde.encode e) queues)
  append_line-all team e queues held all_held other = elim (Bool-cases (team == other)) [
    | inl same ↦ rw same (
        subst (λ t. Holds t (held t ++ e ∷ []) (append_line serde team (serde.encode e) queues))
          ((==_iff team other).0 same)
          (append_line-Holds team e (held team) queues (all_held team)))
    | inr apart ↦ rw apart (
        ap text_of (
          append_line-others team other (serde.encode e) queues
            (λ e. cc (apart, (==_iff team other).1 e)))
        ∙ all_held other)
  ]

  -- A message that is addressed to a team and has its lead among the recipients adds one line to the
  -- queue of that team, behind those that are there, and to no other queue; any other message adds
  -- nothing. The queues held written entries before, and are then read line by line as such.
  pub maybe_write-appends :
      (m : Message) (lead_id name : Text) (queues : Queues) (held : Text → List LeadPendingEntry)
      → ((team : Text) → Holds team (held team) queues)
      → ((is_for lead_id m ≡ false) ⊎ (addressed_team m ≡ none))
          × (maybe_write serde m lead_id name queues ≡ (ok false, queues))
        ⊎ (team shown : Text) × (queues' : Queues) × (is_for lead_id m ≡ true)
          × (addressed_team m ≡ some team)
          × (truncate_body_for_pending m.body ≡ ok shown)
          × (maybe_write serde m lead_id name queues ≡ (ok true, queues'))
          × ((other : Text)
              → Holds other
                  (if team == other
                    then held other ++ entry_of team name m shown ∷ []
                    else held other)
                  queues')
          × (queue_lines team queues'
              ≡ map serde.encode (held team ++ entry_of team name m shown ∷ []))
  unfolding maybe_write
  maybe_write-appends m lead_id name queues held all_held = elim (Bool-cases (is_for lead_id m)) [
    | inr away ↦ inl (inl away, ground arith)
    | inl here ↦ elim (Option-cases (addressed_team m)) [
      | inl nowhere ↦ inl (inr nowhere, ground (arith, nowhere))
      | inr (team, there) ↦
          let (shown, cut) = truncated m.body in
          let entry = entry_of team name m shown in
          let queues' = append_line serde team (serde.encode entry) queues in
          let own = append_line-Holds team entry (held team) queues (all_held team) in
          inr (
            team,
            shown,
            queues',
            here,
            there,
            cut,
            ground (arith, there, append_pending-ok team name shown m queues cut),
            λ other. append_line-all team entry queues held all_held other,
            ap content_lines own ∙ content_lines-render serde (held team ++ entry ∷ []),
          )
    ]
  ]
