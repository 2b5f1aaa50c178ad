-- ===== src/TeamMode/Pending/Distributed.antt =====
-- What the loop of the migration over the teams leaves in the queues.
use agent_teams_mcp.Base.{
  Text, ◌==◌, ==_iff, ◌≡◌, refl, ap, subst, ◌∙◌, inl, inr, false, Option, none, some, List, [], ◌∷◌,
  contains, lookup, insert, lookup-insert, NoRepeat, keys, contains-keys, arith, Bool-cases,
  Option-cases,
}
use agent_teams_mcp.TeamMode.Lines.{LineSerde}
use agent_teams_mcp.TeamMode.Transcript.{text_of}
use agent_teams_mcp.TeamMode.Pending.{LeadPendingEntry, Queues}
use agent_teams_mcp.TeamMode.Pending.Migration.{
  pending_msg_ids, append_all, append_team, distribute,
}

no_key :
    {V : Type 0} (k : Text) (m : List (Text × V)) → contains k (keys m) ≡ false → lookup k m ≡ none
no_key k m h = elim (Option-cases (lookup k m)) [
  | inl absent ↦ absent
  | inr (v, there) ↦ absurd (ground (arith, h, contains-keys k m, there))
]

module _ (serde : LineSerde LeadPendingEntry) where
  -- What the loop over the teams leaves in each queue.
  abbrev pub after : Option (List Text) → Text → Queues → Text
  after none team queues = text_of (lookup team queues)
  after (some lines) team queues = (append_team serde team lines queues).text

  append_team-same :
      (team : Text) (lines : List Text) (queues queues' : Queues)
      → lookup team queues ≡ lookup team queues'
      → append_team serde team lines queues ≡ append_team serde team lines queues'
  unfolding append_team
  append_team-same team lines queues queues' h =
      ap
        (λ f.
          append_all serde lines
            (record { existing_msg_ids = pending_msg_ids serde f; text = text_of f; appended = 0 }))
        h

  after-same :
      (found : Option (List Text)) (team : Text) (queues queues' : Queues)
      → lookup team queues ≡ lookup team queues'
      → after found team queues ≡ after found team queues'
  after-same none team queues queues' h = ap text_of h
  after-same (some lines) team queues queues' h =
      ap (λ s. s.text) (append_team-same team lines queues queues' h)

  pub lookup-distribute :
      (by_team : List (Text × List Text)) (queues : Queues) (team : Text)
      → NoRepeat (keys by_team)
      → text_of (lookup team (distribute serde by_team queues).1)
        ≡ after (lookup team by_team) team queues
  unfolding distribute lookup
  lookup-distribute [] queues team once = refl
  lookup-distribute ((t, lines) ∷ by_team) queues team once =
      let next = insert t (append_team serde t lines queues).text queues in
      let ih = lookup-distribute by_team next team once.1 in
      ih ∙ elim (Bool-cases (t == team)) [
        | inl same ↦
            let e = (==_iff t team).0 same in
            let gone = subst (λ x. lookup x by_team ≡ none) e (no_key t by_team once.0) in
            let text = (append_team serde t lines queues).text in
            let here : lookup team next ≡ some text =
              lookup-insert t team text queues ∙ rw same refl in
            ap (λ o. after o team next) gone
            ∙ ap text_of here
            ∙ ap (λ x. (append_team serde x lines queues).text) e
            ∙ rw same refl
        | inr apart ↦ rw apart (
            after-same (lookup team by_team) team next queues
              (lookup-insert t team (append_team serde t lines queues).text queues ∙ rw apart refl))
      ]
