-- ===== src/TeamMode/Routing/Sending.antt =====
-- What sending a message does.
use agent_teams_mcp.Base.{
  NoRepeat, Text, ◌==◌, ==_refl, ◌≡◌, refl, sym, ap, ◌∙◌, inl, inr, true, false, ◌||◌, some, List,
  [], arith, contains, Bool-cases, subst,
}
use agent_teams_mcp.Base.{lookup}
use agent_teams_mcp.TeamMode.Mentions.{has_handle}
use agent_teams_mcp.TeamMode.Member.{active}
use agent_teams_mcp.TeamMode.Routing.{lc_active}
use agent_teams_mcp.TeamMode.Routing.Delivery.{route-reaches}
use agent_teams_mcp.Error.{Result, ok, err, panic, ran_both, checked}
use agent_teams_mcp.TeamMode.Message.{Message}
use agent_teams_mcp.TeamMode.Lines.{LineSerde, is_blank}
use agent_teams_mcp.TeamMode.Transcript.{TranscriptEntry, message, File, append_entry, save}
use agent_teams_mcp.TeamMode.Mentions.{MentionCandidate}
use agent_teams_mcp.TeamMode.Routing.{
  MemberStatus, SendMessageRequest, BodyMentionMode, Stores, Route, route, candidates, mentioned,
  refuse_self, all_recipients, check_request, check_recipients, prepare, new_message, Stamp, finish,
  send_inner,
}
use agent_teams_mcp.TeamMode.Threading.{resolve_thread_id}
use agent_teams_mcp.TeamMode.Routing.Recipients.{
  is_active_member, is_lead, route-active, route-NoRepeat, add_lead-contains, add_lead-NoRepeat,
}

save-appends :
    (serde : LineSerde TranscriptEntry) (m : Message) (file : File)
    → (save serde m file).0 ≡ ok tt
    → (save serde m file).1 ≡ append_entry serde (message m) file
unfolding save
save-appends serde m file h = ground arith

abbrev route_of : Route → Result (List MentionCandidate × Route) → Route
route_of r (ok (_, x)) = x
route_of r (err _) = r
route_of r panic = r

abbrev message_of : Message → Result Message → Message
message_of m (ok x) = x
message_of m (err _) = m
message_of m panic = m

module _ (lowercase : Text → Text) (serde : LineSerde TranscriptEntry) (stores : Stores) where
  -- A message as `send_inner` makes it, for a team with these members.
  pub record IsRouted (mode : BodyMentionMode) (request : SendMessageRequest)
      (members : List (Text × MemberStatus)) (m : Message) : Type 0 where
    pub not_self : contains request.sender m.effective_recipients ≡ false
    pub once : NoRepeat m.effective_recipients
    pub known :
        (a : Text)
        → contains a m.effective_recipients ≡ true
        → (is_lead (stores.team request.team_id) a || is_active_member a members) ≡ true
    pub lead_sees :
        (a : Text)
        → is_lead (stores.team request.team_id) a ≡ true
        → request.sender == a ≡ false
        → is_blank a ≡ false
        → contains a m.effective_recipients ≡ true
    pub reached :
        (handle name : Text)
        → has_handle handle (candidates mode request.body request.mentions) ≡ true
        → lookup (lowercase handle) (lc_active lowercase members) ≡ some (name, active)
        → is_blank name ≡ false
        → contains name m.effective_recipients ≡ true
    pub same_sender : m.sender ≡ request.sender

  refuse_self-parts :
      (request : SendMessageRequest) (found found' : List MentionCandidate) (r r' : Route)
      → refuse_self lowercase serde stores request found r ≡ ok (found', r')
      → (contains request.sender r'.recipients ≡ false) × (r' ≡ r)
  unfolding refuse_self
  refuse_self-parts request found found' r r' h =
      elim (Bool-cases (contains request.sender r.recipients)) [
        | inl own ↦ cc
        | inr other ↦
            let e : ok (found, r) ≡ ok (found', r') = ground arith in
            let same : r ≡ r' = ap (route_of r) e in
            (subst (λ x. contains request.sender x.recipients ≡ false) same other, sym same)
      ]

  mentioned-parts :
      (mode : BodyMentionMode) (request : SendMessageRequest) (found : List MentionCandidate)
      (r : Route)
      → mentioned lowercase serde stores mode request ≡ ok (found, r)
      → (members : List (Text × MemberStatus)) × (stores.members request.team_id ≡ ok members)
        × (contains request.sender r.recipients ≡ false)
        × (r
            ≡ route lowercase members
                (candidates mode request.body request.mentions)
                (record { recipients = []; drops = [] }))
  unfolding mentioned refuse_self
  mentioned-parts mode request found r h =
      let (members, listed, next) = ran_both (stores.members request.team_id) h in
      let (other, routed) =
        refuse_self-parts request (candidates mode request.body request.mentions) found
          (route lowercase members (candidates mode request.body request.mentions)
            (record { recipients = []; drops = [] }))
          r next in
      (members, listed, other, routed)

  built-IsRouted :
      (mode : BodyMentionMode) (request : SendMessageRequest) (stamp : Stamp)
      (found : List MentionCandidate) (r : Route) (members : List (Text × MemberStatus))
      (thread : Text)
      → contains request.sender r.recipients ≡ false
      → r
        ≡ route lowercase members
            (candidates mode request.body request.mentions)
            (record { recipients = []; drops = [] })
      → IsRouted mode request members (
          new_message request stamp found
            (all_recipients lowercase serde stores request r)
            r.drops
            thread)
  unfolding new_message all_recipients contains
  built-IsRouted mode request stamp found r members thread other routed =
      let team = stores.team request.team_id in
      let cs = candidates mode request.body request.mentions in
      let start : Route = record { recipients = []; drops = [] } in
      record {
        not_self = ground (
          arith,
          add_lead-contains team request.sender r.recipients request.sender,
          ==_refl request.sender,
        );
        once = add_lead-NoRepeat team request.sender r.recipients (
            subst (λ x. NoRepeat x.recipients) (sym routed)
              (route-NoRepeat lowercase members cs start tt));
        known = λ a h. elim (Bool-cases (is_lead team a)) [
          | inl leads ↦ ground arith
          | inr not_lead ↦
              let listed : contains a r.recipients ≡ true =
                ground (arith, add_lead-contains team request.sender r.recipients a, h) in
              let named = subst (λ x. contains a x.recipients ≡ true) routed listed in
              elim (route-active lowercase members cs start a named) [
                | inl member ↦ ground arith
                | inr absent ↦ cc
              ]
        ];
        lead_sees = λ a leads away named.
            ground (arith, add_lead-contains team request.sender r.recipients a);
        reached = λ handle name mentioned' there full.
            let named =
              subst (λ x. contains name x.recipients ≡ true) (sym routed)
                (route-reaches lowercase members cs start handle name mentioned' there full) in
            ground (arith, add_lead-contains team request.sender r.recipients name);
        same_sender = refl;
      }

  prepare-IsRouted :
      (mode : BodyMentionMode) (request : SendMessageRequest) (stamp : Stamp) (file : File)
      (m : Message)
      → prepare lowercase serde stores mode request stamp file ≡ ok m
      → (members : List (Text × MemberStatus)) × (stores.members request.team_id ≡ ok members)
        × IsRouted mode request members m
        × (thread : Text) × (resolve_thread_id serde file request.team_id request.room_id
              request.thread_id request.reply_to stamp.thread_id
            ≡ ok thread)
        × (m.thread_id ≡ some thread)
  unfolding prepare all_recipients new_message contains
  prepare-IsRouted mode request stamp file m h =
      let (_, _, h1) = ran_both (check_request stores request) h in
      let ((found, r), h2, h3) = ran_both (mentioned lowercase serde stores mode request) h1 in
      let (members, listed, other, routed) = mentioned-parts mode request found r h2 in
      let (_, _, h4) =
        ran_both
          (check_recipients lowercase serde stores request
            (all_recipients lowercase serde stores request r))
          h3 in
      let (thread, bound, made) =
        ran_both
          (resolve_thread_id serde file request.team_id request.room_id request.thread_id
            request.reply_to stamp.thread_id)
          h4 in
      let built =
        new_message request stamp found (all_recipients lowercase serde stores request r) r.drops
          thread in
      let same : built ≡ m = ap (message_of built) made in
      (
        members,
        listed,
        subst (IsRouted mode request members) same
            (built-IsRouted mode request stamp found r members thread other routed),
        thread,
        bound,
        ap (λ x. x.thread_id) (sym same),
      )

  module _ {Outside : Type 0} (notify : Outside → Outside)
      (maybe_write : Message → Text → Text → Outside → Outside) where
    finish-parts :
        (request : SendMessageRequest) (m m' : Message) (r : Result (Unit {0}) × File)
        (file' : File) (o o' : Outside)
        → finish lowercase serde stores notify maybe_write request m r o ≡ (ok m', (file', o'))
        → (m ≡ m') × (r.0 ≡ ok tt) × (r.1 ≡ file')
    unfolding finish
    finish-parts request m m' (ok _, f) file' o o' h =
        (ap (λ x. message_of m x.0) h, refl, ap (λ x. x.1.0) h)
    finish-parts request m m' (err e, f) file' o o' h = cc
    finish-parts request m m' (panic, f) file' o o' h = cc

    -- A message that is sent is appended to the transcript, and nothing else is. Its recipients are
    -- without repetition; each is an active member or the team's lead; the sender is never one; and the
    -- lead is always one, unless the lead has sent it (or has the empty name). An active member whose
    -- name a mention has, up to case, is one (of names that differ in case only, `lc_active` keeps one). It stands in the
    -- thread that `resolve_thread_id` gives.
    pub send_inner-IsRouted :
        (mode : BodyMentionMode) (request : SendMessageRequest) (stamp : Stamp) (file file' : File)
        (o o' : Outside) (m : Message)
        → send_inner lowercase serde stores notify maybe_write mode request stamp (file, o)
          ≡ (ok m, (file', o'))
        → (members : List (Text × MemberStatus)) × (stores.members request.team_id ≡ ok members)
          × IsRouted mode request members m
          × (file' ≡ append_entry serde (message m) file)
          × (thread : Text) × (resolve_thread_id serde file request.team_id request.room_id
                request.thread_id request.reply_to stamp.thread_id
              ≡ ok thread)
          × (m.thread_id ≡ some thread)
    unfolding send_inner
    send_inner-IsRouted mode request stamp file file' o o' m h =
        let (m0, made, h1) =
          checked (prepare lowercase serde stores mode request stamp file) (file, o) _ h in
        let (same, stored, left) = finish-parts request m0 m (save serde m0 file) file' o o' h1 in
        let (members, listed, routed, thread, bound, stands) =
          prepare-IsRouted mode request stamp file m (made ∙ ap ok same) in
        (
          members,
          listed,
          routed,
          sym left
              ∙ save-appends serde m0 file stored
              ∙ ap (λ x. append_entry serde (message x) file) same,
          thread,
          bound,
          stands,
        )
