-- ===== src/TeamMode/Routing.antt =====
-- team_mode/service/message_service.rs: who receives a message, in which thread, and sending it.
pub mod Recipients
pub mod Delivery
pub mod Sending
pub mod Mentioned
use agent_teams_mcp.Base.{
  Text, ◌==◌, ℕ, Bool, true, false, not, ◌&&◌, ◌||◌, Option, none, some, List, [], ◌∷◌, ◌++◌,
  contains, lookup, insert, retain, foldl, map, if◌then◌else◌,
}
use agent_teams_mcp.Error.{
  Error, other, team_not_found, member_not_found, Result, ok, err, panic, ◌>>=◌, ◌>>◌, ok_or,
  proceed, room_not_found, send_to_self, dispatch_without_recipient, reply_to_not_found,
  reply_outside_room, no_thread_to_inherit, thread_mismatch, thread_bound_elsewhere,
}
use agent_teams_mcp.Names.{validate_name}
use agent_teams_mcp.TeamMode.Message.{
  MessageKind, dispatch, VisibilityRule, AudiencePolicy, mentions, VisibilityReason,
  explicit_mention, VisibilityResolution, DropReason, removed_member, unknown_recipient,
  DeliveryDrop, DeliveryStatus, failed, pending, delivered, partial, Message,
}
use agent_teams_mcp.TeamMode.Member.{MemberStatus, active, invited, suspended, removed}
use agent_teams_mcp.TeamMode.Lines.{LineSerde, is_blank}
use agent_teams_mcp.TeamMode.Transcript.{TranscriptEntry, File, get, list_by_thread, save}
use agent_teams_mcp.TeamMode.Mentions.{
  MentionCandidate, normalize_mention, push_unique, push_unique_candidate, parse_mentions_from_body,
}
use agent_teams_mcp.TeamMode.Threading.{resolve_thread_id}

pub record SendMessageRequest : Type 0 where
  pub team_id : Text
  pub room_id : Text
  pub sender : Text
  pub kind : MessageKind
  pub subject : Option Text
  pub body : Text
  pub mentions : List Text
  pub visibility : List VisibilityRule
  pub audience_policy : Option AudiencePolicy
  pub reply_to : Option Text
  pub thread_id : Option Text
  pub expires_at : Option ℕ

pub data BodyMentionMode : Type 0 where
  full_body explicit_only : BodyMentionMode

-- What the service asks of the other stores: the `lead_member_id` of a team that is there, whether
-- its room is there, the status of one member, and the names and statuses of all, which are the
-- entries of the map `active_members_by_name` in the order in which it iterates, whichever that is.
pub record Stores : Type 0 where
  pub team : Text → Result (Option (Option Text))
  pub room : Text → Result (Option (Unit {0}))
  pub member : Text → Text → Result (Option MemberStatus)
  pub members : Text → Result (List (Text × MemberStatus))

unfoldable pub ensure_team_exists : Stores → Text → Result (Unit {0})
ensure_team_exists stores team_id = do
  found ← stores.team team_id
  _ ← ok_or found (team_not_found team_id)
  ok tt

unfoldable pub ensure_room_exists : Stores → Text → Result (Unit {0})
ensure_room_exists stores team_id = do
  found ← stores.room team_id
  ok_or found (other (room_not_found team_id))

unfoldable pub refuse_removed : Text → Text → MemberStatus → Result (Unit {0})
refuse_removed team_id sender removed = err (member_not_found team_id sender)
refuse_removed team_id sender _ = ok tt

unfoldable pub ensure_sender_exists : Stores → Text → Text → Result (Unit {0})
unfolding refuse_removed
ensure_sender_exists stores team_id sender = do
  found ← stores.member team_id sender
  status ← ok_or found (member_not_found team_id sender)
  refuse_removed team_id sender status

-- The loop over `request.mentions`.
unfoldable pub add_mentions : List Text → List MentionCandidate → List MentionCandidate
add_mentions [] found = found
add_mentions (mention ∷ ms) found =
    add_mentions ms
      (push_unique_candidate found (record { raw = mention; handle = normalize_mention mention }))

unfoldable pub candidates : BodyMentionMode → Text → List Text → List MentionCandidate
unfolding add_mentions
candidates full_body body ms = add_mentions ms (parse_mentions_from_body body)
candidates explicit_only body ms = add_mentions ms []

-- `effective_recipients` and `dropped_for`.
pub record Route : Type 0 where
  pub recipients : List Text
  pub drops : List DeliveryDrop

abbrev pub drop : MentionCandidate → DropReason → Route → Route
drop c reason r = record {
  recipients = r.recipients;
  drops = r.drops ++ (record { recipient = c.raw; reason = reason }) ∷ [];
}

unfoldable pub route_one : Option (Text × MemberStatus) → MentionCandidate → Route → Route
route_one (some (canonical, active)) c r = record {
  recipients = push_unique r.recipients canonical;
  drops = r.drops;
}
route_one (some (_, _)) c r = drop c removed_member r
route_one none c r = drop c unknown_recipient r

unfoldable pub derive_delivery_status : List Text → List DeliveryDrop → MessageKind → DeliveryStatus
derive_delivery_status [] drops dispatch = failed
derive_delivery_status [] drops _ = pending
derive_delivery_status (_ ∷ _) [] kind = delivered
derive_delivery_status (_ ∷ _) (_ ∷ _) kind = partial

-- `if sender != *lead_id { push_unique(...) }`, for a team with a lead.
unfoldable pub add_lead : Result (Option (Option Text)) → Text → List Text → List Text
add_lead (ok (some (some lead))) sender recipients =
    if sender == lead then recipients else push_unique recipients lead
add_lead _ sender recipients = recipients

unfoldable pub is_dispatch : MessageKind → Bool
is_dispatch dispatch = true
is_dispatch _ = false

unfoldable pub no_recipient : List Text → Bool
no_recipient [] = true
no_recipient (_ ∷ _) = false

unfoldable pub policy_of : Option AudiencePolicy → List Text → Option AudiencePolicy
policy_of (some p) recipients = some p
policy_of none [] = none
policy_of none (_ ∷ _) = some mentions

unfoldable pub resolution_of : Option AudiencePolicy → List Text → Option VisibilityResolution
unfolding no_recipient
resolution_of none recipients = none
resolution_of (some p) recipients =
    some (record {
      policy = p;
      reasons = if no_recipient recipients then [] else explicit_mention ∷ [];
    })

-- `to_lowercase` is the standard library's, on all of Unicode.
module _ (lowercase : Text → Text) where
  -- `lc_active`. Of names that differ in case only one stays, the last in the given order, which is
  -- that of a hash map and so an arbitrary one.
  unfoldable pub lc_active : List (Text × MemberStatus) → List (Text × (Text × MemberStatus))
  lc_active members = foldl (λ m e. insert (lowercase e.0) e m) [] members

  unfoldable pub route : List (Text × MemberStatus) → List MentionCandidate → Route → Route
  unfolding route_one lc_active
  route members [] r = r
  route members (c ∷ cs) r =
      route members cs (route_one (lookup (lowercase c.handle) (lc_active members)) c r)

-- The checks at the beginning of `send_inner`.
unfoldable pub check_request : Stores → SendMessageRequest → Result (Unit {0})
unfolding ensure_team_exists ensure_room_exists ensure_sender_exists
check_request stores request = do
  validate_name request.team_id
  validate_name request.room_id
  validate_name request.sender
  ensure_team_exists stores request.team_id
  ensure_room_exists stores request.team_id
  ensure_sender_exists stores request.team_id request.sender

-- The new ids and the time of a message.
pub record Stamp : Type 0 where
  pub message_id : Text
  pub thread_id : Text
  pub now : ℕ

unfoldable pub new_message :
    SendMessageRequest
    → Stamp
    → List MentionCandidate
    → List Text
    → List DeliveryDrop
    → Text
    → Message
unfolding policy_of resolution_of derive_delivery_status
new_message request stamp found recipients drops thread_id =
    let policy = policy_of request.audience_policy recipients in
    record {
      id = stamp.message_id;
      room_id = request.room_id;
      team_id = some request.team_id;
      thread_id = some thread_id;
      reply_to = request.reply_to;
      sender = request.sender;
      kind = request.kind;
      subject = request.subject;
      body = request.body;
      mentions = map (λ c. c.handle) found;
      visibility = request.visibility;
      audience_policy = policy;
      effective_visibility_reason = resolution_of policy recipients;
      effective_recipients = recipients;
      delivered_to = recipients;
      dropped_for = drops;
      read_by = [];
      acked_by = [];
      delivery_status = derive_delivery_status recipients drops request.kind;
      created_at = stamp.now;
      expires_at = request.expires_at;
    }

module _ (lowercase : Text → Text) (serde : LineSerde TranscriptEntry) (stores : Stores) where
  unfoldable pub refuse_self :
      SendMessageRequest → List MentionCandidate → Route → Result (List MentionCandidate × Route)
  refuse_self request found r =
      if contains request.sender r.recipients
      then err (other (send_to_self request.sender))
      else ok (found, r)

  -- The recipients that the mentions give, unless the sender is among them.
  unfoldable pub mentioned :
      BodyMentionMode → SendMessageRequest → Result (List MentionCandidate × Route)
  unfolding candidates route refuse_self
  mentioned mode request = do
    members ← stores.members request.team_id
    refuse_self request (candidates mode request.body request.mentions) (
        route lowercase members (candidates mode request.body request.mentions)
          (record { recipients = []; drops = [] }))

  -- With the lead of the team, who sees every message of others.
  unfoldable pub all_recipients : SendMessageRequest → Route → List Text
  unfolding add_lead
  all_recipients request r = add_lead (stores.team request.team_id) request.sender r.recipients

  unfoldable pub check_recipients : SendMessageRequest → List Text → Result (Unit {0})
  unfolding is_dispatch no_recipient
  check_recipients request recipients =
      if is_dispatch request.kind && no_recipient recipients
      then err (other dispatch_without_recipient)
      else ok tt

  -- `send_inner` up to the storing of the message.
  unfoldable pub prepare : BodyMentionMode → SendMessageRequest → Stamp → File → Result Message
  unfolding check_request mentioned all_recipients check_recipients resolve_thread_id new_message
  prepare mode request stamp file = do
    check_request stores request
    (found, r) ← mentioned mode request
    check_recipients request (all_recipients request r)
    thread_id ←
        resolve_thread_id serde file request.team_id request.room_id request.thread_id
          request.reply_to stamp.thread_id
    ok (new_message request stamp found (all_recipients request r) r.drops thread_id)

  -- What comes after the message is stored: the watchers are told of it, and the queue of the lead,
  -- if the team has one. Both are parameters, that do nothing where the service has none.
  module _ {Outside : Type 0} (notify : Outside → Outside)
      (maybe_write : Message → Text → Text → Outside → Outside) where
    unfoldable pub tell_lead :
        Result (Option (Option Text)) → SendMessageRequest → Message → Outside → Outside
    tell_lead (ok (some (some lead))) request m o = maybe_write m lead request.sender o
    tell_lead _ request m o = o

    unfoldable pub finish :
        SendMessageRequest
        → Message
        → Result (Unit {0}) × File
        → Outside
        → Result Message × (File × Outside)
    unfolding tell_lead
    finish request m (ok _, file') o =
        (ok m, (file', tell_lead (stores.team request.team_id) request m (notify o)))
    finish request m (err e, file') o = (err e, (file', o))
    finish request m (panic, file') o = (panic, (file', o))

    unfoldable pub send_inner :
        BodyMentionMode
        → SendMessageRequest
        → Stamp
        → File × Outside
        → Result Message × (File × Outside)
    unfolding prepare finish
    send_inner mode request stamp (file, o) =
        proceed (prepare mode request stamp file, (file, o))
          (λ m state. finish request m (save serde m file) o)

    unfoldable pub send :
        SendMessageRequest → Stamp → File × Outside → Result Message × (File × Outside)
    unfolding send_inner
    send request stamp state = send_inner full_body request stamp state

    unfoldable pub send_with_explicit_mentions :
        SendMessageRequest → Stamp → File × Outside → Result Message × (File × Outside)
    unfolding send_inner
    send_with_explicit_mentions request stamp state = send_inner explicit_only request stamp state
