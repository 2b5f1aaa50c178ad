-- ===== src/Tests/TranscriptTests.antt =====
-- Transcripts and inboxes with concrete messages.
use mathlib.Core.List.{Perm}
use agent_teams_mcp.Base.{
  Text, text, ◌==◌, ◌≡◌, refl, ◌↔◌, ◌⊎◌, ℕ, none, some, List, [], ◌∷◌, ◌++◌, not, false, true, len,
  has_char, contains, length, map, retain, lookup, insert, if◌then◌else◌, ◌+◌, Bool, remove,
}
use agent_teams_mcp.Error.{ok, err, io, json}
use agent_teams_mcp.Names.{validate_name}
use agent_teams_mcp.TeamMode.Message.{Message}
use agent_teams_mcp.TeamMode.Lines.{
  prepend, is_whitespace, trim_start, trim_end, trim, is_blank, is_utf8, content_lines, split_lines,
}
use agent_teams_mcp.TeamMode.Transcript.{
  TranscriptEntry, message, deleted, empty, File, apply_entry, collect, validate_opt, snapshot,
  append_entry, save_checks, save, get, list, delete, load, update, finish_update,
}
use agent_teams_mcp.TeamMode.Lines.{render}
use agent_teams_mcp.TeamMode.Transcript.Replay.{
  replay, IsLog, IsTorn, snapshot-replay, snapshot-IsTorn, append_entry-IsTorn,
}
use agent_teams_mcp.TeamMode.Transcript.Store.{get-now, list-now}
use agent_teams_mcp.TeamMode.Transcript.Effects.{save-get, delete-get, list-save_new}
use agent_teams_mcp.TeamMode.Inbox.{
  unread, read, acked, InboxItem, Inbox, peek, count, apply_receipt, receipt_loop, receipt_updater,
  mark, ensure_receipt, has_receipt, is_changed,
}
use agent_teams_mcp.TeamMode.Inbox.Marks.{IsMarked}
use agent_teams_mcp.TeamMode.Inbox.Receipts.{apply_receipt-IsMarked}
use agent_teams_mcp.TeamMode.Inbox.Views.{with_status, peek-lists}
use agent_teams_mcp.TeamMode.Inbox.Shown.{IsAddressed, Shows, InOrder}
use agent_teams_mcp.Tests.Messages.{entry_serde, note}

abbrev a_id : Text
a_id = text "a"

abbrev b_id : Text
b_id = text "b"

abbrev team : Text
team = text "t"

abbrev worker : Text
worker = text "w"

abbrev entries : List TranscriptEntry
entries = message (note b_id 2) ∷ message (note a_id 1) ∷ []

abbrev stored : File
stored = some (render entry_serde entries)

abbrev both : List Message
both = note b_id 2 ∷ note a_id 1 ∷ []

named :
    (validate_name team ≡ ok tt)
    × (validate_name a_id ≡ ok tt)
    × (validate_name b_id ≡ ok tt)
    × (validate_name worker ≡ ok tt)
unfolding validate_name ◌==◌ len has_char
named = (refl, refl, refl, refl)

listed : list entry_serde team stored ≡ ok both
unfolding apply_entry collect contains insert lookup ◌==◌
listed = list-now entry_serde entries stored refl team named.0

found : get entry_serde team a_id stored ≡ ok (some (note a_id 1))
unfolding apply_entry insert lookup ◌==◌
found = get-now entry_serde entries stored refl team a_id named.0 named.1

note_checks : (id : Text) → validate_name id ≡ ok tt → save_checks entry_serde (note id 3) ≡ ok tt
unfolding save_checks validate_opt validate_name ◌==◌ len has_char
note_checks id h = rw h refl

snapshot-replay_example : snapshot entry_serde stored ≡ ok (replay entries empty)
snapshot-replay_example = snapshot-replay entry_serde entries stored refl

-- The beginning of an entry's line.
abbrev torn : Text
torn = text "{B"

torn-IsTorn : IsTorn entry_serde torn
unfolding has_char is_blank trim trim_start trim_end is_whitespace entry_serde
torn-IsTorn = record { part = refl; some_text = refl; unreadable = refl }

abbrev c_entry : TranscriptEntry
c_entry = message (note (text "c") 3)

joined :
    (trim (torn ++ entry_serde.encode c_entry) ≡ torn ++ entry_serde.encode c_entry)
    × (entry_serde.decode (torn ++ entry_serde.encode c_entry) ≡ none)
unfolding trim trim_start trim_end is_whitespace entry_serde
joined = (refl, refl)

snapshot-IsTorn_example :
    ((is_utf8 torn ≡ true)
      × (snapshot entry_serde (some (render entry_serde entries ++ torn))
          ≡ ok (replay entries empty)))
    ⊎ (is_utf8 torn ≡ false)
      × (snapshot entry_serde (some (render entry_serde entries ++ torn)) ≡ err io)
      × (snapshot entry_serde
            (append_entry entry_serde c_entry (some (render entry_serde entries ++ torn)))
          ≡ err io)
snapshot-IsTorn_example = snapshot-IsTorn entry_serde entries torn c_entry torn-IsTorn

-- The same line with the first byte of a character behind it.
torn_inside_runs :
    snapshot entry_serde (some (render entry_serde entries ++ torn ++ 0x1100c3 ∷ [])) ≡ err io
unfolding snapshot entry_serde
torn_inside_runs = refl

torn_utf8 : is_utf8 torn ≡ true
unfolding is_utf8
torn_utf8 = refl

append_entry-IsTorn_example :
    (snapshot entry_serde
        (append_entry entry_serde c_entry (some (render entry_serde entries ++ torn)))
      ≡ ok (replay entries empty))
    × (snapshot entry_serde (
          append_entry entry_serde c_entry
            (append_entry entry_serde c_entry (some (render entry_serde entries ++ torn))))
        ≡ err json)
append_entry-IsTorn_example =
    append_entry-IsTorn entry_serde entries torn c_entry c_entry torn-IsTorn torn_utf8 joined.0
      joined.1

save-get_example :
    (file' : File) × (save entry_serde (note b_id 3) stored ≡ (ok tt, file'))
    × IsLog entry_serde (entries ++ message (note b_id 3) ∷ []) file'
    × (get entry_serde team a_id file'
        ≡ (if b_id == a_id then ok (some (note b_id 3)) else get entry_serde team a_id stored))
save-get_example =
    save-get entry_serde entries stored refl (note b_id 3) team a_id (note_checks b_id named.2)
      named.0 named.1

delete-get_example :
    (file' : File) × (delete entry_serde team a_id 5 stored ≡ (ok tt, file'))
    × IsLog entry_serde (entries ++ deleted a_id 5 ∷ []) file'
    × (get entry_serde team b_id file'
        ≡ (if a_id == b_id then ok none else get entry_serde team b_id stored))
    × (list entry_serde team file' ≡ ok (retain (λ x. not (x.id == a_id)) both))
delete-get_example =
    delete-get entry_serde entries stored refl team a_id b_id 5 both named.0 named.1 named.2 listed

c_named : validate_name (text "c") ≡ ok tt
unfolding validate_name ◌==◌ len has_char
c_named = refl

c_new : contains (text "c") (replay entries empty).order ≡ false
unfolding apply_entry contains ◌==◌
c_new = refl

list-save_new_example :
    list entry_serde team (save entry_serde (note (text "c") 3) stored).1
    ≡ ok (both ++ note (text "c") 3 ∷ [])
list-save_new_example =
    list-save_new entry_serde entries stored refl (note (text "c") 3) team both
      (note_checks (text "c") c_named) named.0 c_new listed

no_thread : validate_opt none ≡ ok tt
unfolding validate_opt
no_thread = refl

peek-lists_example :
    (inbox : Inbox) × (chosen : Message → Bool) × (view : Message → InboxItem) × (peek entry_serde
        team worker none 9 stored
      ≡ ok inbox)
    × Perm inbox.items (map view (retain chosen both))
    × ((m : Message) → (chosen m ≡ true) ↔ IsAddressed worker none m)
    × ((m : Message) → Shows worker m (view m))
    × InOrder inbox.items
    × (count entry_serde team worker none 9 stored
        ≡ ok (record {
          total = length inbox.items;
          unread = with_status unread inbox.items;
          read = with_status read inbox.items;
          acked = with_status acked inbox.items;
        }))
    × (length inbox.items
        ≡ with_status unread inbox.items
          + (with_status read inbox.items + with_status acked inbox.items))
peek-lists_example =
    peek-lists entry_serde team worker none 9 stored both named.0 named.3 no_thread listed

-- Acknowledging "a" for the worker.
abbrev clock : Text → Bool → ℕ
clock id ack = 7

abbrev acked_file : File
acked_file =
    append_entry entry_serde (message (mark worker true (clock a_id) (note a_id 1)).0) stored

acknowledged :
    apply_receipt entry_serde team worker (a_id ∷ []) true clock stored ≡ (ok 1, acked_file)
unfolding apply_receipt receipt_loop update get snapshot load content_lines split_lines
    is_whitespace trim trim_start trim_end is_blank apply_entry insert lookup contains ◌==◌
    entry_serde validate_name len has_char append_entry finish_update receipt_updater mark
    ensure_receipt has_receipt is_changed prepend remove
acknowledged = refl

apply_receipt-IsMarked_example :
    (m' : Message) × (get entry_serde team a_id acked_file ≡ ok (some m'))
    × IsMarked worker true (contains a_id (a_id ∷ [])) (note a_id 1) m'
apply_receipt-IsMarked_example =
    apply_receipt-IsMarked entry_serde team worker true clock (a_id ∷ []) 1 entries stored
      acked_file a_id (note a_id 1) refl acknowledged named.1 found
