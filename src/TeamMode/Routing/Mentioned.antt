-- ===== src/TeamMode/Routing/Mentioned.antt =====
-- That a member who is mentioned in the body receives the message.
use agent_teams_mcp.Base.{
  Text, ==_iff, ==_refl, ◌≡◌, ◌≢◌, ◌⊎◌, inl, inr, insert, lookup-insert, foldl, sym, ap, ◌∙◌, subst,
  true, false, some, List, [], ◌∷◌, ◌++◌, arith, all, contains, lookup,
}
use agent_teams_mcp.Error.{Result, ok, err, panic}
use agent_teams_mcp.TeamMode.Message.{Message}
use agent_teams_mcp.TeamMode.Lines.{LineSerde, is_blank}
use agent_teams_mcp.TeamMode.Transcript.{TranscriptEntry, File}
use agent_teams_mcp.TeamMode.Mentions.{
  MentionCandidate, is_handle_char, has_handle, normalize_mention, push_unique_candidate,
  parse_mentions_from_body,
}
use agent_teams_mcp.TeamMode.Mentions.Found.{
  starts_handle, ends_handle, has_handle-push_unique_candidate, parse_mentions_from_body-finds,
}
use agent_teams_mcp.TeamMode.Member.{MemberStatus, active}
use agent_teams_mcp.TeamMode.Routing.{
  SendMessageRequest, full_body, Stores, lc_active, add_mentions, candidates, Stamp, send,
}
use agent_teams_mcp.TeamMode.Routing.Sending.{send_inner-IsRouted}

add_mentions-keeps :
    (h : Text) (ms : List Text) (found : List MentionCandidate)
    → has_handle h found ≡ true
    → has_handle h (add_mentions ms found) ≡ true
unfolding add_mentions
add_mentions-keeps h [] found k = k
add_mentions-keeps h (mention ∷ ms) found k =
    let c : MentionCandidate = record { raw = mention; handle = normalize_mention mention } in
    add_mentions-keeps h ms (push_unique_candidate found c)
      (ground (arith, has_handle-push_unique_candidate h found c))

abbrev listed_or : {A : Type 0} → A → Result A → A
listed_or a (ok x) = x
listed_or a (err _) = a
listed_or a panic = a

-- The member is one of the list.
abbrev pub IsMember : Text → MemberStatus → List (Text × MemberStatus) → Type 0
IsMember name status [] = ⊥
IsMember name status (e ∷ members) = (e ≡ (name, status)) ⊎ IsMember name status members

-- Every member of the list is this one, or has a name that differs from its name in more than case.
abbrev pub IsOnlyOne : (Text → Text) → Text → MemberStatus → List (Text × MemberStatus) → Type 0
IsOnlyOne lowercase name status [] = Unit
IsOnlyOne lowercase name status (e ∷ members) =
    ((e ≡ (name, status)) ⊎ (lowercase e.0 ≢ lowercase name))
    × IsOnlyOne lowercase name status members

module _ (lowercase : Text → Text) (name : Text) (status : MemberStatus) where
  abbrev indexed :
      List (Text × (Text × MemberStatus))
      → List (Text × MemberStatus)
      → List (Text × (Text × MemberStatus))
  indexed acc members = foldl (λ m e. insert (lowercase e.0) e m) acc members

  indexed-keeps :
      (members : List (Text × MemberStatus)) (acc : List (Text × (Text × MemberStatus)))
      → IsOnlyOne lowercase name status members
      → lookup (lowercase name) acc ≡ some (name, status)
      → lookup (lowercase name) (indexed acc members) ≡ some (name, status)
  indexed-keeps [] acc only there = there
  indexed-keeps (e ∷ members) acc (one, only) there =
      indexed-keeps members (insert (lowercase e.0) e acc) only (
        lookup-insert (lowercase e.0) (lowercase name) e acc ∙ elim one [
          | inl same ↦ ground (arith, ap (λ x. lowercase x.0) same, ==_refl (lowercase name))
          | inr apart ↦ ground (arith, ==_iff (lowercase e.0) (lowercase name))
        ])

  indexed-finds :
      (members : List (Text × MemberStatus)) (acc : List (Text × (Text × MemberStatus)))
      → IsOnlyOne lowercase name status members
      → IsMember name status members
      → lookup (lowercase name) (indexed acc members) ≡ some (name, status)
  indexed-finds [] acc only h = absurd h
  indexed-finds (e ∷ members) acc (one, only) (inl same) =
      indexed-keeps members (insert (lowercase e.0) e acc) only (
        lookup-insert (lowercase e.0) (lowercase name) e acc
        ∙ ground (arith, ap (λ x. lowercase x.0) same, ==_refl (lowercase name)))
  indexed-finds (e ∷ members) acc (one, only) (inr later) =
      indexed-finds members (insert (lowercase e.0) e acc) only later

  lookup-lc_active :
      (members : List (Text × MemberStatus))
      → IsOnlyOne lowercase name status members
      → IsMember name status members
      → lookup (lowercase name) (lc_active lowercase members) ≡ some (name, status)
  unfolding lc_active
  lookup-lc_active members only h = indexed-finds members [] only h

-- A message that is sent with `@handle` on its own in the body (made of handle characters, with none
-- before the `@` and none after the handle) reaches the active member of the team whose name is the
-- handle up to case, if no other member's name is: in whichever order the members are gone through.
pub send-reaches :
    (lowercase : Text → Text) (serde : LineSerde TranscriptEntry) (stores : Stores)
    {Outside : Type 0} (notify : Outside → Outside)
    (maybe_write : Message → Text → Text → Outside → Outside) (request : SendMessageRequest)
    (stamp : Stamp) (file file' : File) (o o' : Outside) (m : Message)
    (members : List (Text × MemberStatus)) (before handle rest name : Text)
    → send lowercase serde stores notify maybe_write request stamp (file, o) ≡ (ok m, (file', o'))
    → request.body ≡ before ++ b'@' ∷ handle ++ rest
    → all is_handle_char handle ≡ true
    → is_blank handle ≡ false
    → ends_handle false before ≡ false
    → starts_handle rest ≡ false
    → stores.members request.team_id ≡ ok members
    → IsMember name active members
    → IsOnlyOne lowercase name active members
    → lowercase handle ≡ lowercase name
    → is_blank name ≡ false
    → contains name m.effective_recipients ≡ true
unfolding send candidates
send-reaches lowercase serde stores notify maybe_write request stamp file file' o o' m members
      before handle rest name sent body chars full away ends listed there only same_name named =
    let (members', listed', routed, _, _, _, _) =
      send_inner-IsRouted lowercase serde stores notify maybe_write full_body request stamp file
        file' o o' m sent in
    let same : members ≡ members' = ap (listed_or members) (sym listed ∙ listed') in
    let found : has_handle handle (parse_mentions_from_body request.body) ≡ true =
      ap (λ b. has_handle handle (parse_mentions_from_body b)) body
      ∙ parse_mentions_from_body-finds before handle rest chars full away ends in
    let indexed =
      ap (λ k. lookup k (lc_active lowercase members)) same_name
      ∙ lookup-lc_active lowercase name active members only there in
    routed.reached handle name
      (add_mentions-keeps handle request.mentions (parse_mentions_from_body request.body) found)
      (subst (λ ms. lookup (lowercase handle) (lc_active lowercase ms) ≡ some (name, active)) same
        indexed)
      named
