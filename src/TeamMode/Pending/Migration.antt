-- ===== src/TeamMode/Pending/Migration.antt =====
-- team_mode/service/lead_pending.rs: `migrate_legacy_path`, which moves the notices of the old queue
-- for all teams into the queues of the teams. The order of the teams makes no difference, since each
-- has its own file, so `by_team` is in the order of insertion. That holds of teams that are plain
-- names: the source does not check the team of an old entry, and for a text such as `.` or `./t` the
-- path is that of the old queue itself or of another team's queue, which is not modelled.
use agent_teams_mcp.Base.{
  Text, ℕ, ◌+◌, not, Option, none, some, List, [], ◌∷◌, ◌++◌, map, contains, insert_set, lookup,
  insert, if◌then◌else◌,
}
use agent_teams_mcp.TeamMode.Lines.{LineSerde, is_utf8, is_blank, trim, split_lines, content_lines}
use agent_teams_mcp.TeamMode.Transcript.{File, text_of}
use agent_teams_mcp.TeamMode.Pending.{LeadPendingEntry, Queues}

-- The files: the old queue, `.legacy_unrouted_pending.jsonl`, and the queues of the teams.
pub record PendingDisk : Type 0 where
  pub legacy : File
  pub unrouted : File
  pub queues : Queues

pub record Routed : Type 0 where
  pub by_team : List (Text × List Text)
  pub unrouted : List Text

-- The state of the loop over the lines for one team.
pub record Appending : Type 0 where
  pub existing_msg_ids : List Text
  pub text : Text
  pub appended : ℕ

unfoldable pub lines_of : Text → List (Text × List Text) → List Text
lines_of team by_team = elim (lookup team by_team) [ none ↦ [] | some lines ↦ lines ]

-- `writeln!` of each line.
unfoldable pub write_lines : List Text → Text → Text
write_lines [] t = t
write_lines (line ∷ lines) t = write_lines lines (t ++ (line ++ 10 ∷ []))

-- `if !unrouted.is_empty()`
unfoldable pub write_unrouted : List Text → File → File
unfolding write_lines
write_unrouted [] file = file
write_unrouted (line ∷ lines) file = some (write_lines (line ∷ lines) (text_of file))

module _ (serde : LineSerde LeadPendingEntry) where
  unfoldable pub route_line : Text → Routed → Routed
  unfolding lines_of
  route_line line r = elim (serde.decode line) [
    | none ↦ record r { unrouted = r.unrouted ++ line ∷ [] }
    | some e ↦
        if not (is_blank e.team)
        then record r { by_team = insert e.team (lines_of e.team r.by_team ++ line ∷ []) r.by_team }
        else record r { unrouted = r.unrouted ++ line ∷ [] }
  ]

  unfoldable pub route_lines : List Text → Routed → Routed
  unfolding route_line
  route_lines [] r = r
  route_lines (line ∷ lines) r = route_lines lines (route_line line r)

  -- The id of a line that can be read and has one.
  unfoldable pub msg_id_of : Text → Option Text
  msg_id_of line = elim (serde.decode line) [
    | none ↦ none
    | some e ↦ if not (is_blank e.msg_id) then some e.msg_id else none
  ]

  unfoldable pub collect_ids : List Text → List Text
  unfolding msg_id_of
  collect_ids [] = []
  collect_ids (line ∷ lines) =
      let rest = collect_ids lines in
      elim (msg_id_of line) [ none ↦ rest | some id ↦ insert_set id rest ]

  unfoldable pub pending_msg_ids : File → List Text
  unfolding collect_ids is_utf8
  pending_msg_ids file =
      if is_utf8 (text_of file) then collect_ids (map trim (split_lines (text_of file))) else []

  unfoldable pub append_new : Text → Appending → Appending
  unfolding msg_id_of
  append_new line s = elim (msg_id_of line) [
    | none ↦ record s { text = s.text ++ (line ++ 10 ∷ []); appended = s.appended + 1 }
    | some id ↦ if contains id s.existing_msg_ids then s else record {
      existing_msg_ids = insert_set id s.existing_msg_ids;
      text = s.text ++ (line ++ 10 ∷ []);
      appended = s.appended + 1;
    }
  ]

  unfoldable pub append_all : List Text → Appending → Appending
  unfolding append_new
  append_all [] s = s
  append_all (line ∷ lines) s = append_all lines (append_new line s)

  unfoldable pub append_team : Text → List Text → Queues → Appending
  unfolding pending_msg_ids append_all
  append_team team lines queues = append_all lines (record {
    existing_msg_ids = pending_msg_ids (lookup team queues);
    text = text_of (lookup team queues);
    appended = 0;
  })

  -- The loop over the teams: the number of lines appended, and the queues.
  unfoldable pub distribute : List (Text × List Text) → Queues → ℕ × Queues
  unfolding append_team
  distribute [] queues = (0, queues)
  distribute ((team, lines) ∷ by_team) queues =
      let s = append_team team lines queues in
      let (n, queues') = distribute by_team (insert team s.text queues) in (s.appended + n, queues')

  -- What follows once the old queue has been read.
  unfoldable pub migrate_content : Text → PendingDisk → ℕ × PendingDisk
  unfolding route_lines distribute write_unrouted
  migrate_content content disk =
      let r = route_lines (content_lines content) (record { by_team = []; unrouted = [] }) in
      let (n, queues') = distribute r.by_team disk.queues in
      (
        n,
        record {
          legacy = none;
          unrouted = write_unrouted r.unrouted disk.unrouted;
          queues = queues';
        },
      )

  unfoldable pub migrate_legacy_path : PendingDisk → ℕ × PendingDisk
  unfolding migrate_content is_utf8
  migrate_legacy_path disk = elim disk.legacy [
    | none ↦ (0, disk)
    | some content ↦ if is_utf8 content then migrate_content content disk else (0, disk)
  ]

  -- `migrate_legacy`, which looks into a second directory where one is given that is not the first:
  -- `root` is the old queue there. The answer has what is left of it.
  unfoldable pub migrate_legacy : Option File → PendingDisk → ℕ × (Option File × PendingDisk)
  unfolding migrate_legacy_path
  migrate_legacy none disk = let (n, disk') = migrate_legacy_path disk in (n, (none, disk'))
  migrate_legacy (some root) disk =
      let (n, first) = migrate_legacy_path disk in
      let (m, second) = migrate_legacy_path (record first { legacy = root }) in
      (n + m, (some second.legacy, record second { legacy = first.legacy }))
