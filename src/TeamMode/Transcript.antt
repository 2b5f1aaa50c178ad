-- ===== src/TeamMode/Transcript.antt =====
-- team_mode/storage/message_store.rs: the transcript of one team, an append-only file of entries,
-- one to a line, and the snapshot that reading it gives. Every operation holds the team's lock.
pub mod Replay
pub mod Store
pub mod Effects
use agent_teams_mcp.Base.{
  Text, ◌==◌, ℕ, Bool, true, false, Option, none, some, List, [], ◌∷◌, ◌++◌, contains, lookup,
  insert, remove, retain, if◌then◌else◌,
}
use agent_teams_mcp.Error.{
  Error, io, json, other, missing_team_id, Result, ok, err, panic, ◌>>=◌, ◌>>◌, ok_or,
}
use agent_teams_mcp.Names.{validate_name}
use agent_teams_mcp.TeamMode.Message.{Message}
use agent_teams_mcp.TeamMode.Lines.{LineSerde, is_utf8, content_lines}

pub data TranscriptEntry : Type 0 where
  message : Message → TranscriptEntry
  deleted : (message_id : Text) (deleted_at : ℕ) → TranscriptEntry

-- `order_index` has the ids of `order`, and is only asked whether it has one.
pub record TranscriptSnapshot : Type 0 where
  pub order : List Text
  pub active : List (Text × Message)

abbrev pub empty : TranscriptSnapshot
empty = record { order = []; active = [] }

pub record MessageUpdateResult : Type 0 where
  pub message : Message
  pub changed : Bool

-- The content of `messages.jsonl`, if the file is there (see `is_utf8`).
abbrev pub File : Type 0
File = Option Text

abbrev pub text_of : File → Text
text_of none = []
text_of (some t) = t

unfoldable pub apply_entry : TranscriptEntry → TranscriptSnapshot → TranscriptSnapshot
apply_entry (message m) s = record {
  order = if contains m.id s.order then s.order else s.order ++ m.id ∷ [];
  active = insert m.id m s.active;
}
apply_entry (deleted id at) s = record { order = s.order; active = remove id s.active }

-- The messages that are still active, in the order in which their ids came first.
unfoldable pub collect : List (Text × Message) → List Text → List Message
collect active [] = []
collect active (id ∷ ids) =
    let rest = collect active ids in elim (lookup id active) [ none ↦ rest | some m ↦ m ∷ rest ]

unfoldable pub validate_opt : Option Text → Result (Unit {0})
validate_opt none = ok tt
validate_opt (some name) = validate_name name

-- `m.thread_id.as_deref() == Some(thread_id)`
unfoldable pub in_thread : Text → Message → Bool
in_thread thread_id m = elim m.thread_id [ none ↦ false | some t ↦ t == thread_id ]

module _ (serde : LineSerde TranscriptEntry) where
  open serde use {encode, decode}

  -- The loop over the lines: a line that cannot be read is tolerated in the last place only.
  unfoldable pub load : List Text → TranscriptSnapshot → Result TranscriptSnapshot
  load [] s = ok s
  load (line ∷ rest) s = elim (decode line) [
    | some e ↦ load rest (apply_entry e s)
    | none ↦ elim rest [ [] ↦ ok s | _ ∷ _ ↦ err json ]
  ]

  unfoldable pub snapshot : File → Result TranscriptSnapshot
  unfolding load is_utf8
  snapshot file = elim file [
    | none ↦ ok empty
    | some data' ↦ if is_utf8 data' then load (content_lines data') empty else err io
  ]

  unfoldable pub append_entry : TranscriptEntry → File → File
  append_entry e file = some (text_of file ++ (encode e ++ 10 ∷ []))

  -- The checks before the lock; then the entry goes to the end of the file.
  unfoldable pub save_checks : Message → Result (Unit {0})
  unfolding validate_opt
  save_checks m = do
    team_id ← ok_or m.team_id (other missing_team_id)
    validate_name team_id
    validate_name m.id
    validate_name m.room_id
    validate_opt m.thread_id

  unfoldable pub save : Message → File → Result (Unit {0}) × File
  unfolding append_entry
  save m file = elim (save_checks m) [
    | ok _ ↦ (ok tt, append_entry (message m) file)
    | err e ↦ (err e, file)
    | panic ↦ (panic, file)
  ]

  unfoldable pub get : Text → Text → File → Result (Option Message)
  get team_id id file = do
    validate_name team_id
    validate_name id
    s ← snapshot file
    ok (lookup id s.active)

  unfoldable pub list : Text → File → Result (List Message)
  unfolding collect
  list team_id file = do validate_name team_id; s ← snapshot file; ok (collect s.active s.order)

  unfoldable pub list_by_room : Text → Text → File → Result (List Message)
  unfolding list
  list_by_room team_id room_id file = do
    validate_name room_id
    messages ← list team_id file
    ok (retain (λ m. m.room_id == room_id) messages)

  unfoldable pub list_by_thread : Text → Text → File → Result (List Message)
  unfolding list in_thread
  list_by_thread team_id thread_id file = do
    validate_name thread_id
    messages ← list team_id file
    ok (retain (in_thread thread_id) messages)

  unfoldable pub delete : Text → Text → ℕ → File → Result (Unit {0}) × File
  unfolding append_entry
  delete team_id id now file = elim (validate_name team_id >> validate_name id) [
    | ok _ ↦ (ok tt, append_entry (deleted id now) file)
    | err e ↦ (err e, file)
    | panic ↦ (panic, file)
  ]

  -- What the updater's answer does: the new message is appended if it says that it changed it.
  unfoldable pub finish_update :
      Result (Message × Bool) → File → Result (Option MessageUpdateResult) × File
  unfolding append_entry
  finish_update (ok (m, changed)) file = (
    ok (some (record { message = m; changed = changed })),
    if changed then append_entry (message m) file else file,
  )
  finish_update (err e) file = (err e, file)
  finish_update panic file = (panic, file)

  -- `updater` gives the message as it left it, and whether it changed it.
  unfoldable pub update :
      Text
      → Text
      → (Message → Result (Message × Bool))
      → File
      → Result (Option MessageUpdateResult) × File
  unfolding get finish_update
  update team_id id updater file = elim (get team_id id file) [
    | ok none ↦ (ok none, file)
    | ok (some m) ↦ finish_update (updater m) file
    | err e ↦ (err e, file)
    | panic ↦ (panic, file)
  ]
