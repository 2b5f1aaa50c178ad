-- ===== src/TeamMode/Threading.antt =====
-- team_mode/service/message_service.rs: the thread in which a new message stands.
pub mod Rooms
use agent_teams_mcp.Base.{
  Text, ◌==◌, ℕ, Bool, true, false, not, ◌&&◌, ◌||◌, Option, none, some, List, [], ◌∷◌, ◌++◌,
  contains, lookup, insert, retain, foldl, map, if◌then◌else◌,
}
use agent_teams_mcp.Error.{
  Error, other, team_not_found, member_not_found, Result, ok, err, panic, ◌>>=◌, ◌>>◌, ok_or,
  proceed, room_not_found, send_to_self, dispatch_without_recipient, reply_to_not_found,
  reply_outside_room, no_thread_to_inherit, thread_mismatch, thread_bound_elsewhere,
}
use agent_teams_mcp.Names.{validate_name}
use agent_teams_mcp.TeamMode.Message.{
  MessageKind, dispatch, VisibilityRule, AudiencePolicy, mentions, VisibilityReason,
  explicit_mention, VisibilityResolution, DropReason, removed_member, unknown_recipient,
  DeliveryDrop, DeliveryStatus, failed, pending, delivered, partial, Message,
}
use agent_teams_mcp.TeamMode.Lines.{LineSerde, is_blank}
use agent_teams_mcp.TeamMode.Transcript.{TranscriptEntry, File, get, list_by_thread, save}
use agent_teams_mcp.TeamMode.Mentions.{
  MentionCandidate, normalize_mention, push_unique, push_unique_candidate, parse_mentions_from_body,
}

-- The first message of a thread that stands in another room.
unfoldable pub find_conflict : Text → List Message → Option Text
find_conflict room_id [] = none
find_conflict room_id (m ∷ ms) =
    let rest = find_conflict room_id ms in if m.room_id == room_id then rest else some m.room_id

-- `parent.team_id.as_deref() != Some(team_id) || parent.room_id != room_id`
unfoldable pub belongs : Text → Text → Message → Bool
belongs team_id room_id m = elim m.team_id [
  | none ↦ false
  | some t ↦ t == team_id && m.room_id == room_id
]

unfoldable pub check_belongs : Text → Text → Text → Message → Result (Unit {0})
unfolding belongs
check_belongs team_id room_id reply_to parent =
    if belongs team_id room_id parent
    then ok tt
    else err (other (reply_outside_room reply_to team_id room_id))

unfoldable pub check_explicit : Option Text → Text → Result Text
check_explicit none inherited = ok inherited
check_explicit (some explicit) inherited = do
  validate_name explicit
  if explicit == inherited then ok inherited else err (other (thread_mismatch explicit inherited))

module _ (serde : LineSerde TranscriptEntry) (file : File) where
  unfoldable pub inherit_thread : Text → Text → Option Text → Text → Result Text
  unfolding check_belongs check_explicit
  inherit_thread team_id room_id thread_id reply_to = do
    found ← get serde team_id reply_to file
    parent ← ok_or found (other (reply_to_not_found reply_to))
    check_belongs team_id room_id reply_to parent
    inherited ← ok_or parent.thread_id (other (no_thread_to_inherit reply_to))
    check_explicit thread_id inherited

  unfoldable pub join_thread : Text → Text → Text → Result Text
  unfolding find_conflict
  join_thread team_id room_id thread_id = do
    validate_name thread_id
    existing ← list_by_thread serde team_id thread_id file
    elim (find_conflict room_id existing) [
      | none ↦ ok thread_id
      | some room ↦ err (other (thread_bound_elsewhere thread_id room team_id))
    ]

  -- `fresh` is the text of `Uuid::new_v4()`.
  unfoldable pub resolve_thread_id : Text → Text → Option Text → Option Text → Text → Result Text
  unfolding inherit_thread join_thread
  resolve_thread_id team_id room_id thread_id (some reply_to) fresh =
      inherit_thread team_id room_id thread_id reply_to
  resolve_thread_id team_id room_id (some thread_id) none fresh =
      join_thread team_id room_id thread_id
  resolve_thread_id team_id room_id none none fresh = ok fresh
