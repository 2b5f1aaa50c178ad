-- ===== src/Tests/PendingTests.antt =====
-- The queue of the lead.
use agent_teams_mcp.Base.{
  inr, len, has_char, Text, text, ◌==◌, ◌≡◌, refl, ◌⊎◌, ℕ, ◌+◌, ◌<◌, ◌≤◌, len, true, false, Option,
  none, some, List, [], ◌∷◌, ◌++◌, map, lookup, if◌then◌else◌,
}
use agent_teams_mcp.Error.{ok}
use agent_teams_mcp.Names.{byte_prefix, validate_name}
use agent_teams_mcp.TeamMode.Message.{Message}
use agent_teams_mcp.TeamMode.Lines.{LineSerde, render}
use agent_teams_mcp.TeamMode.Pending.{
  LeadPendingEntry, Queues, truncation_marker, is_char_boundary, step_back, truncate_at,
  truncate_body_for_pending, entry_of, addressed_team, maybe_write,
}
use agent_teams_mcp.TeamMode.Pending.Truncation.{truncate_body_for_pending-bounds}
use agent_teams_mcp.TeamMode.Pending.Queue.{Holds, queue_lines, is_for, maybe_write-appends}
use agent_teams_mcp.TeamMode.Pending.Migration.{PendingDisk, migrate_legacy_path}
use agent_teams_mcp.TeamMode.Pending.Appended.{fresh}
use agent_teams_mcp.TeamMode.Pending.Migrated.{mine, teamless, migrate_legacy_path-moves}
use agent_teams_mcp.TeamMode.Transcript.{text_of}
use agent_teams_mcp.Tests.Coding.{
  Coding, nat_coding, pair_coding, copy_coding, option_coding, line_serde_of,
}
use agent_teams_mcp.Tests.Samples.{text_coding}
use agent_teams_mcp.Tests.Messages.{note}

abbrev LeadPendingEntryParts : Type 0
LeadPendingEntryParts =
    Text × (Text × (Text × (Text × (Text × (Text × (ℕ × (Option Text × (Option ℕ))))))))

pub entry_to : LeadPendingEntry → LeadPendingEntryParts
entry_to x = (
  x.team,
  (x.from, (x.from_id, (x.msg_id, (x.kind, (x.text, (x.ts, (x.reply_to, (x.owner_cc_pid)))))))),
)

pub entry_from : LeadPendingEntryParts → LeadPendingEntry
entry_from p = record {
  team = p.0;
  from = p.1.0;
  from_id = p.1.1.0;
  msg_id = p.1.1.1.0;
  kind = p.1.1.1.1.0;
  text = p.1.1.1.1.1.0;
  ts = p.1.1.1.1.1.1.0;
  reply_to = p.1.1.1.1.1.1.1.0;
  owner_cc_pid = p.1.1.1.1.1.1.1.1;
}

pub entry_same : (x : LeadPendingEntry) → entry_from (entry_to x) ≡ x
unfolding entry_to entry_from
entry_same x = refl

pub entry_coding : Coding LeadPendingEntry
unfolding entry_to entry_from text_coding
entry_coding =
    copy_coding
      (pair_coding text_coding (
        pair_coding text_coding (
          pair_coding text_coding (
            pair_coding text_coding (
              pair_coding text_coding (
                pair_coding text_coding (
                  pair_coding nat_coding
                    (pair_coding (option_coding text_coding) (option_coding nat_coding)))))))))
      entry_to entry_from entry_same

abbrev pending_serde : LineSerde LeadPendingEntry
pending_serde = line_serde_of entry_coding

-- A cut in the middle of the second character, of three bytes, keeps the first.
cut_runs : truncate_at 3 (b'a' ∷ 0x20ac ∷ b'b' ∷ []) ≡ ok (b'a' ∷ truncation_marker)
unfolding truncate_at step_back is_char_boundary byte_prefix len
cut_runs = refl

truncate_body_for_pending-bounds_example :
    (len (text "done") ≤ 16384) × (truncate_body_for_pending (text "done") ≡ ok (text "done"))
    ⊎ (kept rest : Text) × (truncate_body_for_pending (text "done")
        ≡ ok (kept ++ truncation_marker))
      × (text "done" ≡ kept ++ rest)
      × (len kept ≤ 16384)
      × (16384 < len kept + 4)
truncate_body_for_pending-bounds_example = truncate_body_for_pending-bounds (text "done")

abbrev m : Message
m = note (text "a") 1

abbrev none_held : Text → List LeadPendingEntry
none_held team = []

empty_queues : (team : Text) → Holds pending_serde team (none_held team) []
unfolding lookup
empty_queues team = refl

maybe_write-appends_example :
    ((is_for pending_serde (text "w") m ≡ false) ⊎ (addressed_team m ≡ none))
      × (maybe_write pending_serde m (text "w") (text "Ann") [] ≡ (ok false, []))
    ⊎ (team shown : Text) × (queues' : Queues) × (is_for pending_serde (text "w") m ≡ true)
      × (addressed_team m ≡ some team)
      × (truncate_body_for_pending m.body ≡ ok shown)
      × (maybe_write pending_serde m (text "w") (text "Ann") [] ≡ (ok true, queues'))
      × ((other : Text)
          → Holds pending_serde other
              (if team == other
                then none_held other ++ entry_of team (text "Ann") m shown ∷ []
                else none_held other)
              queues')
      × (queue_lines pending_serde team queues'
          ≡ map pending_serde.encode (none_held team ++ entry_of team (text "Ann") m shown ∷ []))
maybe_write-appends_example =
    maybe_write-appends pending_serde m (text "w") (text "Ann") [] none_held empty_queues

abbrev entry : Text → LeadPendingEntry
entry id = record {
  team = text "t";
  from = text "Ann";
  from_id = text "ann";
  msg_id = id;
  kind = text "reply";
  text = text "done";
  ts = 1;
  reply_to = none;
  owner_cc_pid = none;
}

abbrev old_entries : List LeadPendingEntry
old_entries = entry (text "a") ∷ entry (text "b") ∷ []

abbrev disk : PendingDisk
disk = record { legacy = some (render pending_serde old_entries); unrouted = none; queues = [] }

plain : validate_name (text "t") ≡ ok tt
unfolding validate_name ◌==◌ len has_char
plain = refl

migrate_legacy_path-moves_example :
    ((migrate_legacy_path pending_serde disk).1.legacy ≡ none)
    × (migrate_legacy_path pending_serde (migrate_legacy_path pending_serde disk).1
        ≡ (0, (migrate_legacy_path pending_serde disk).1))
    × Holds pending_serde
        (text "t")
        ([] ++ fresh [] (mine (text "t") old_entries))
        (migrate_legacy_path pending_serde disk).1.queues
    × (text_of (migrate_legacy_path pending_serde disk).1.unrouted
        ≡ text_of disk.unrouted ++ render pending_serde (teamless old_entries))
unfolding lookup
migrate_legacy_path-moves_example =
    migrate_legacy_path-moves pending_serde disk old_entries (text "t") []
      (inr plain, (inr plain, tt)) plain refl refl
