-- ===== src/TeamMode/Pending.antt =====
-- team_mode/service/lead_pending.rs: the queue of notices for the lead of a team, one line for each
-- message that reaches it. The file system's own failures are left out.
pub mod Truncation
pub mod Queue
pub mod Migration
pub mod Appended
pub mod Distributed
pub mod Migrated
use agent_teams_mcp.Base.{
  Text, text, ◌==◌, ℕ, zero, suc, ◌+◌, leb, len, Bool, true, false, not, ◌&&◌, ◌||◌, Option, none,
  some, List, [], ◌∷◌, ◌++◌, any, lookup, insert, if◌then◌else◌,
}
use agent_teams_mcp.Error.{Result, ok, err, panic, ◌>>=◌, proceed}
use agent_teams_mcp.Names.{byte_prefix}
use agent_teams_mcp.TeamMode.Message.{
  MessageKind, dispatch, discussion, reply, system, notice, status, Message,
}
use agent_teams_mcp.TeamMode.Lines.{LineSerde, is_blank}
use agent_teams_mcp.TeamMode.Transcript.{File, text_of}

pub record LeadPendingEntry : Type 0 where
  pub team : Text
  pub from : Text
  pub from_id : Text
  pub msg_id : Text
  pub kind : Text
  pub text : Text
  pub ts : ℕ
  pub reply_to : Option Text
  pub owner_cc_pid : Option ℕ

abbrev pub pending_text_max_bytes : ℕ
pending_text_max_bytes = 16384

abbrev pub truncation_marker : Text
truncation_marker =
    text
      "\n\n[…body truncated by lead_pending. Call mcp__team-mode__inbox_read or read messages.jsonl for the full reply.]"

-- `str::is_char_boundary`
unfoldable pub is_char_boundary : ℕ → Text → Bool
unfolding byte_prefix
is_char_boundary n body = elim (byte_prefix n body) [ none ↦ false | some _ ↦ true ]

-- `while end > 0 && !body.is_char_boundary(end) { end -= 1; }`
unfoldable pub step_back : ℕ → Text → ℕ
unfolding is_char_boundary
step_back zero body = 0
step_back (suc end) body =
    let rest = step_back end body in if is_char_boundary (suc end) body then suc end else rest

unfoldable pub truncate_at : ℕ → Text → Result Text
unfolding step_back
truncate_at max body =
    if leb (len body) max then ok body else elim (byte_prefix (step_back max body) body) [
      | none ↦ panic
      | some kept ↦ ok (kept ++ truncation_marker)
    ]

unfoldable pub truncate_body_for_pending : Text → Result Text
unfolding truncate_at
truncate_body_for_pending body = truncate_at pending_text_max_bytes body

unfoldable pub kind_to_str : MessageKind → Text
kind_to_str dispatch = text "dispatch"
kind_to_str discussion = text "discussion"
kind_to_str reply = text "reply"
kind_to_str system = text "system"
kind_to_str notice = text "notice"
kind_to_str status = text "status"

unfoldable pub entry_of : Text → Text → Message → Text → LeadPendingEntry
unfolding kind_to_str
entry_of team_id from_display_name m shown = record {
  team = team_id;
  from = from_display_name;
  from_id = m.sender;
  msg_id = m.id;
  kind = kind_to_str m.kind;
  text = shown;
  ts = m.created_at;
  reply_to = m.reply_to;
  owner_cc_pid = none;
}

-- The texts of `lead_pending.jsonl` by team, for teams that are plain names (`validate_name`), each
-- of which has a directory of its own. Two texts that are no such names can lead to one file.
abbrev pub Queues : Type 0
Queues = List (Text × Text)

-- `message.team_id` that is there and not empty.
unfoldable pub addressed_team : Message → Option Text
addressed_team m = elim m.team_id [ none ↦ none | some t ↦ if is_blank t then none else some t ]

module _ (serde : LineSerde LeadPendingEntry) where
  unfoldable pub append_line : Text → Text → Queues → Queues
  append_line team_id line queues =
      insert team_id (text_of (lookup team_id queues) ++ (line ++ 10 ∷ [])) queues

  unfoldable pub append_pending : Text → Text → Message → Queues → Result Bool × Queues
  unfolding entry_of append_line truncate_body_for_pending
  append_pending team_id from_display_name m queues =
      proceed (truncate_body_for_pending m.body, queues)
        (λ shown s. (
          ok true,
          append_line team_id (serde.encode (entry_of team_id from_display_name m shown)) s,
        ))

  unfoldable pub maybe_write : Message → Text → Text → Queues → Result Bool × Queues
  unfolding addressed_team append_pending
  maybe_write m lead_member_id from_display_name queues =
      if any (λ r. r == lead_member_id) m.effective_recipients
      then elim (addressed_team m) [
        | none ↦ (ok false, queues)
        | some team_id ↦ append_pending team_id from_display_name m queues
      ]
      else (ok false, queues)
