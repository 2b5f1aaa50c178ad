-- ===== src/TeamMode/Inbox/Views.antt =====
-- What an inbox lists, in which order, and how its items are counted.
use mathlib.Core.List.{Perm}
use agent_teams_mcp.Base.{
  Text, text_le, ◌↔◌, ◌≡◌, refl, ap, ◌∙◌, ℕ, ◌+◌, Bool, true, false, Option, some, List, [], ◌∷◌,
  map, arith, length, retain, sort_by, IsSorted, sort_by-perm, sort_by-IsSorted, if◌then◌else◌,
}
use agent_teams_mcp.Error.{ok}
use agent_teams_mcp.Names.{validate_name}
use agent_teams_mcp.TeamMode.Message.{Message}
use agent_teams_mcp.TeamMode.Lines.{LineSerde}
use agent_teams_mcp.TeamMode.Transcript.{
  TranscriptEntry, File, list, list_by_thread, in_thread, validate_opt,
}
use agent_teams_mcp.TeamMode.Inbox.{
  InboxStatus, unread, read, acked, InboxItem, Inbox, InboxCount, is_listed, item_of, earlier,
  item_le, message_le, last_time, tally, count_items, project_inbox, project_thread, peek, count,
}
use agent_teams_mcp.TeamMode.Inbox.Shown.{
  IsAddressed, Shows, InOrder, is_listed_iff, item_of-Shows, IsSorted-InOrder,
}

text_le_total : (s t : Text) → text_le s t ≡ false → text_le t s ≡ true
unfolding text_le
text_le_total [] t h = cc
text_le_total (a ∷ s) [] h = refl
text_le_total (a ∷ s) (b ∷ t) h = ground (arith, text_le_total s t)

text_le_trans : (s t u : Text) → text_le s t ≡ true → text_le t u ≡ true → text_le s u ≡ true
unfolding text_le
text_le_trans [] t u h k = refl
text_le_trans (a ∷ s) [] u h k = cc
text_le_trans (a ∷ s) (b ∷ t) [] h k = cc
text_le_trans (a ∷ s) (b ∷ t) (c ∷ u) h k = ground (arith, text_le_trans s t u)

earlier_total :
    (at : ℕ) (id : Text) (at' : ℕ) (id' : Text)
    → earlier at id at' id' ≡ false
    → earlier at' id' at id ≡ true
unfolding earlier
earlier_total at id at' id' h = ground (arith, text_le_total id id')

earlier_trans :
    (a : ℕ) (s : Text) (b : ℕ) (t : Text) (c : ℕ) (u : Text)
    → earlier a s b t ≡ true
    → earlier b t c u ≡ true
    → earlier a s c u ≡ true
unfolding earlier
earlier_trans a s b t c u h k = ground (arith, text_le_trans s t u)

item_le_total : (a b : InboxItem) → item_le a b ≡ false → item_le b a ≡ true
unfolding item_le
item_le_total a b h = earlier_total a.created_at a.message_id b.created_at b.message_id h

item_le_trans : (a b c : InboxItem) → item_le a b ≡ true → item_le b c ≡ true → item_le a c ≡ true
unfolding item_le
item_le_trans a b c h k =
    earlier_trans a.created_at a.message_id b.created_at b.message_id c.created_at c.message_id h k

message_le_total : (a b : Message) → message_le a b ≡ false → message_le b a ≡ true
unfolding message_le
message_le_total a b h = earlier_total a.created_at a.id b.created_at b.id h

message_le_trans :
    (a b c : Message) → message_le a b ≡ true → message_le b c ≡ true → message_le a c ≡ true
unfolding message_le
message_le_trans a b c h k = earlier_trans a.created_at a.id b.created_at b.id c.created_at c.id h k

-- How many of the items have the status.
abbrev pub is_status : InboxStatus → InboxStatus → Bool
is_status unread unread = true
is_status read read = true
is_status acked acked = true
is_status _ _ = false

abbrev pub with_status : InboxStatus → List InboxItem → ℕ
with_status s items = length (retain (λ i. is_status s i.status) items)

abbrev pub counts : ℕ → ℕ → ℕ → ℕ → InboxCount
counts total u r a = record { total = total; unread = u; read = r; acked = a }

counts_ext :
    (total : ℕ) {u r a u' r' a' : ℕ}
    → u ≡ u'
    → r ≡ r'
    → a ≡ a'
    → counts total u r a ≡ counts total u' r' a'
counts_ext total e f g = rw (e, f, g) refl

one_if : Bool → ℕ
one_if b = if b then 1 else 0

with_status-cons :
    (s : InboxStatus) (i : InboxItem) (is : List InboxItem)
    → with_status s (i ∷ is) ≡ one_if (is_status s i.status) + with_status s is
unfolding one_if
with_status-cons s i is = ground arith

tally_lem :
    (s : InboxStatus) (total u r a : ℕ)
    → tally s (counts total u r a)
      ≡ counts total
          (u + one_if (is_status unread s))
          (r + one_if (is_status read s))
          (a + one_if (is_status acked s))
unfolding tally one_if
tally_lem unread total u r a = counts_ext total (omega arith) (omega arith) (omega arith)
tally_lem read total u r a = counts_ext total (omega arith) (omega arith) (omega arith)
tally_lem acked total u r a = counts_ext total (omega arith) (omega arith) (omega arith)

count_items_lem :
    (items : List InboxItem) (total u r a : ℕ)
    → count_items items (counts total u r a)
      ≡ counts total
          (u + with_status unread items)
          (r + with_status read items)
          (a + with_status acked items)
unfolding count_items
count_items_lem [] total u r a = counts_ext total (omega arith) (omega arith) (omega arith)
count_items_lem (i ∷ is) total u r a =
    ap (count_items is) (tally_lem i.status total u r a)
    ∙ count_items_lem is total (u + one_if (is_status unread i.status))
        (r + one_if (is_status read i.status)) (a + one_if (is_status acked i.status))
    ∙ counts_ext total (ground (arith, with_status-cons unread i is))
        (ground (arith, with_status-cons read i is)) (ground (arith, with_status-cons acked i is))

one_of :
    (s : InboxStatus)
    → one_if (is_status unread s) + (one_if (is_status read s) + one_if (is_status acked s)) ≡ 1
unfolding one_if
one_of unread = refl
one_of read = refl
one_of acked = refl

all_counted :
    (items : List InboxItem)
    → length items ≡ with_status unread items + (with_status read items + with_status acked items)
all_counted [] = refl
all_counted (i ∷ is) =
    let ih = all_counted is in
    let one = one_of i.status in
    ground
      (arith, with_status-cons unread i is, with_status-cons read i is, with_status-cons acked i is)

module _ (serde : LineSerde TranscriptEntry) where
  -- Peeking at an inbox with valid names, where the transcript can be read, lists an item for each
  -- message that has the recipient among its effective recipients and, if a thread is given, stands in
  -- that thread, as often as it is there, by time and then by id. An item has the message's id and
  -- time, and is acknowledged, read or unread as the message's receipts of the recipient say.
  -- Counting says how many items there are and how many of them have each status, and every item has
  -- one.
  pub peek-lists :
      (team recipient : Text) (thread : Option Text) (now : ℕ) (file : File)
      (messages : List Message)
      → validate_name team ≡ ok tt
      → validate_name recipient ≡ ok tt
      → validate_opt thread ≡ ok tt
      → list serde team file ≡ ok messages
      → (inbox : Inbox) × (chosen : Message → Bool) × (view : Message → InboxItem) × (peek serde
            team recipient thread now file
          ≡ ok inbox)
        × Perm inbox.items (map view (retain chosen messages))
        × ((m : Message) → (chosen m ≡ true) ↔ IsAddressed recipient thread m)
        × ((m : Message) → Shows recipient m (view m))
        × InOrder inbox.items
        × (count serde team recipient thread now file
            ≡ ok (record {
              total = length inbox.items;
              unread = with_status unread inbox.items;
              read = with_status read inbox.items;
              acked = with_status acked inbox.items;
            }))
        × (length inbox.items
            ≡ with_status unread inbox.items
              + (with_status read inbox.items + with_status acked inbox.items))
  unfolding peek count project_inbox
  peek-lists team recipient thread now file messages ht hr hth listed =
      let shown = map (item_of recipient) (retain (is_listed recipient thread) messages) in
      let items = sort_by item_le shown in
      (
        record {
          team_id = some team;
          recipient = recipient;
          items = items;
          updated_at = last_time now items;
        },
        is_listed recipient thread,
        item_of recipient,
        ground arith,
        sort_by-perm item_le shown,
        is_listed_iff recipient thread,
        item_of-Shows recipient,
        IsSorted-InOrder items (sort_by-IsSorted item_le item_le_total item_le_trans shown),
        ground (arith, count_items_lem items (length items) 0 0 0),
        all_counted items,
      )

  -- A thread that can be read lists its messages, each as often as it is in the transcript, by time
  -- and then by id.
  pub project_thread-lists :
      (team thread : Text) (file : File) (messages : List Message)
      → validate_name team ≡ ok tt
      → validate_name thread ≡ ok tt
      → list serde team file ≡ ok messages
      → (shown : List Message) × (project_thread serde team thread file ≡ ok shown)
        × Perm shown (retain (in_thread thread) messages)
        × IsSorted message_le shown
  unfolding project_thread list_by_thread
  project_thread-lists team thread file messages ht hth listed = (
    sort_by message_le (retain (in_thread thread) messages),
    ground arith,
    sort_by-perm message_le (retain (in_thread thread) messages),
    sort_by-IsSorted message_le message_le_total message_le_trans
        (retain (in_thread thread) messages),
  )
