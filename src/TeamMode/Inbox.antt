-- ===== src/TeamMode/Inbox.antt =====
-- team_mode/storage/projection_store.rs, team_mode/domain/inbox.rs and
-- team_mode/service/inbox_service.rs: inboxes and threads as views of the transcript, and receipts.
pub mod Marks
pub mod Receipts
pub mod Shown
pub mod Views
use agent_teams_mcp.Base.{
  Text, ◌==◌, text_le, ℕ, suc, ltb, nat_eq, Bool, true, false, not, ◌&&◌, ◌||◌, Option, none, some,
  List, [], ◌∷◌, ◌++◌, any, contains, retain, map, length, sort_by, if◌then◌else◌,
}
use agent_teams_mcp.Error.{other, not_visible, Result, ok, err, panic, ◌>>=◌, ◌>>◌, proceed}
use agent_teams_mcp.Names.{validate_name}
use agent_teams_mcp.TeamMode.Message.{MessageReceipt, Message}
use agent_teams_mcp.TeamMode.Lines.{LineSerde}
use agent_teams_mcp.TeamMode.Transcript.{
  TranscriptEntry, MessageUpdateResult, File, list, list_by_thread, in_thread, validate_opt, update,
}

pub data InboxStatus : Type 0 where
  unread read acked : InboxStatus

pub record InboxItem : Type 0 where
  pub message_id : Text
  pub recipient : Text
  pub status : InboxStatus
  pub created_at : ℕ

pub record Inbox : Type 0 where
  pub team_id : Option Text
  pub recipient : Text
  pub items : List InboxItem
  pub updated_at : ℕ

pub record InboxCount : Type 0 where
  pub total : ℕ
  pub unread : ℕ
  pub read : ℕ
  pub acked : ℕ

unfoldable pub has_receipt : Text → List MessageReceipt → Bool
has_receipt actor receipts = any (λ r. r.actor == actor) receipts

unfoldable pub inbox_status : Message → Text → InboxStatus
unfolding has_receipt
inbox_status m recipient =
    if has_receipt recipient m.acked_by
    then acked
    else if has_receipt recipient m.read_by
    then read
    else unread

-- The two tests of the loop in `project_inbox`.
unfoldable pub is_listed : Text → Option Text → Message → Bool
unfolding in_thread
is_listed recipient none m = contains recipient m.effective_recipients
is_listed recipient (some thread) m =
    contains recipient m.effective_recipients && in_thread thread m

unfoldable pub item_of : Text → Message → InboxItem
unfolding inbox_status
item_of recipient m = record {
  message_id = m.id;
  recipient = recipient;
  status = inbox_status m recipient;
  created_at = m.created_at;
}

-- `a.created_at.cmp(&b.created_at).then(a.id.cmp(&b.id))`, as "not greater".
unfoldable pub earlier : ℕ → Text → ℕ → Text → Bool
earlier at id at' id' = if ltb at at' then true else nat_eq at at' && text_le id id'

unfoldable pub item_le : InboxItem → InboxItem → Bool
unfolding earlier
item_le a b = earlier a.created_at a.message_id b.created_at b.message_id

unfoldable pub message_le : Message → Message → Bool
unfolding earlier
message_le a b = earlier a.created_at a.id b.created_at b.id

-- `items.last()`, with the present time for none.
unfoldable pub last_time : ℕ → List InboxItem → ℕ
last_time now [] = now
last_time now (i ∷ is) = last_time i.created_at is

unfoldable pub tally : InboxStatus → InboxCount → InboxCount
tally unread c = record c { unread = suc c.unread }
tally read c = record c { read = suc c.read }
tally acked c = record c { acked = suc c.acked }

unfoldable pub count_items : List InboxItem → InboxCount → InboxCount
unfolding tally
count_items [] c = c
count_items (i ∷ is) c = count_items is (tally i.status c)

-- The receipts with one of the actor, and whether it is new.
unfoldable pub ensure_receipt : List MessageReceipt → Text → ℕ → List MessageReceipt × Bool
unfolding has_receipt
ensure_receipt receipts actor at =
    if has_receipt actor receipts
    then (receipts, false)
    else (receipts ++ (record { actor = actor; at = at }) ∷ [], true)

-- The closure of `apply_receipt`. `now ack` is the time at which the receipt is made.
unfoldable pub mark : Text → Bool → (Bool → ℕ) → Message → Message × Bool
unfolding ensure_receipt
mark recipient ack now m =
    let (read_by, new_read) = ensure_receipt m.read_by recipient (now false) in
    let (acked_by, new_ack) = ensure_receipt m.acked_by recipient (now true) in
    if ack
    then (record m { read_by = read_by; acked_by = acked_by }, new_read || new_ack)
    else (record m { read_by = read_by }, new_read)

unfoldable pub receipt_updater : Text → Text → Bool → (Bool → ℕ) → Message → Result (Message × Bool)
unfolding mark
receipt_updater message_id recipient ack now m =
    if not (contains recipient m.effective_recipients)
    then err (other (not_visible message_id recipient))
    else ok (mark recipient ack now m)

-- `changed.is_some_and(|result| result.changed)`
unfoldable pub is_changed : Option MessageUpdateResult → Bool
is_changed none = false
is_changed (some r) = r.changed

module _ (serde : LineSerde TranscriptEntry) where
  unfoldable pub project_inbox : Text → Text → Option Text → File → Result (List InboxItem)
  unfolding item_of is_listed item_le
  project_inbox team_id recipient thread_id file = do
    messages ← list serde team_id file
    ok (sort_by item_le (map (item_of recipient) (retain (is_listed recipient thread_id) messages)))

  unfoldable pub project_thread : Text → Text → File → Result (List Message)
  unfolding message_le
  project_thread team_id thread_id file = do
    messages ← list_by_thread serde team_id thread_id file
    ok (sort_by message_le messages)

  unfoldable pub peek : Text → Text → Option Text → ℕ → File → Result Inbox
  unfolding project_inbox last_time
  peek team_id recipient thread_id now file = do
    validate_name team_id
    validate_name recipient
    validate_opt thread_id
    items ← project_inbox team_id recipient thread_id file
    ok (record {
      team_id = some team_id;
      recipient = recipient;
      items = items;
      updated_at = last_time now items;
    })

  unfoldable pub count : Text → Text → Option Text → ℕ → File → Result InboxCount
  unfolding peek count_items
  count team_id recipient thread_id now file = do
    inbox ← peek team_id recipient thread_id now file
    ok (
        count_items inbox.items
          (record { total = length inbox.items; unread = 0; read = 0; acked = 0 }))

  -- The loop of `apply_receipt`. An error ends it; the receipts before it are already stored.
  unfoldable pub receipt_loop :
      Text → Text → Bool → (Text → Bool → ℕ) → List Text → ℕ → File → Result ℕ × File
  unfolding receipt_updater is_changed
  receipt_loop team_id recipient ack now [] updated file = (ok updated, file)
  receipt_loop team_id recipient ack now (id ∷ ids) updated file =
      proceed (validate_name id, file)
        (λ valid file.
          proceed (update serde team_id id (receipt_updater id recipient ack (now id)) file)
            (λ changed file'.
              receipt_loop team_id recipient ack now ids
                (if is_changed changed then suc updated else updated) file'))

  unfoldable pub apply_receipt :
      Text → Text → List Text → Bool → (Text → Bool → ℕ) → File → Result ℕ × File
  unfolding receipt_loop
  apply_receipt team_id recipient ids ack now file =
      proceed (validate_name team_id >> validate_name recipient, file)
        (λ valid file. receipt_loop team_id recipient ack now ids 0 file)

  unfoldable pub read_messages :
      Text → Text → List Text → (Text → Bool → ℕ) → File → Result ℕ × File
  unfolding apply_receipt
  read_messages team_id recipient ids now file = apply_receipt team_id recipient ids false now file

  unfoldable pub ack_messages : Text → Text → List Text → (Text → Bool → ℕ) → File → Result ℕ × File
  unfolding apply_receipt
  ack_messages team_id recipient ids now file = apply_receipt team_id recipient ids true now file
