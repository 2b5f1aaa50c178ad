-- ===== src/Tests/RoutingTests.antt =====
-- Messages sent in a team with a lead and two workers.
use agent_teams_mcp.Base.{
  arith, ==_iff, ◌≢◌, inl, inr, map, leb, ◌+◌, ◌&&◌, if◌then◌else◌, ◌++◌, false, Text, text, ◌==◌,
  ◌≡◌, refl, ℕ, none, some, List, [], ◌∷◌, all, len, has_char, contains, lookup, insert, suc, true,
}
use agent_teams_mcp.Error.{Result, ok}
use agent_teams_mcp.Names.{validate_name, is_ascii_lowercase, is_ascii_digit}
use agent_teams_mcp.TeamMode.Message.{discussion, Message}
use agent_teams_mcp.TeamMode.Lines.{
  is_whitespace, trim_start, trim_end, trim, is_blank, content_lines, split_lines, prepend,
}
use agent_teams_mcp.TeamMode.Transcript.{
  message, File, apply_entry, collect, in_thread, validate_opt, load, snapshot, append_entry,
  save_checks, save, get, list, list_by_thread,
}
use agent_teams_mcp.TeamMode.Lines.{render}
use agent_teams_mcp.TeamMode.Mentions.{
  is_handle_char, push_unique, has_handle, push_unique_candidate, behind_handle, close, outer, next,
  found_at, parse_from, parse_mentions_from_body,
}
use agent_teams_mcp.TeamMode.Mentions.Found.{
  starts_handle, ends_handle, parse_mentions_from_body-finds,
}
use agent_teams_mcp.TeamMode.Member.{MemberStatus, active, removed}
use agent_teams_mcp.TeamMode.Routing.{
  SendMessageRequest, full_body, Stores, ensure_team_exists, ensure_room_exists, refuse_removed,
  ensure_sender_exists, add_mentions, candidates, route_one, derive_delivery_status, add_lead,
  is_dispatch, no_recipient, policy_of, resolution_of, lc_active, route, check_request, Stamp,
  new_message, refuse_self, mentioned, all_recipients, check_recipients, prepare, tell_lead, finish,
  send_inner,
}
use agent_teams_mcp.TeamMode.Threading.{
  find_conflict, belongs, check_belongs, check_explicit, inherit_thread, join_thread,
  resolve_thread_id,
}
use agent_teams_mcp.TeamMode.Routing.{send}
use agent_teams_mcp.TeamMode.Routing.Mentioned.{IsOnlyOne, send-reaches}
use agent_teams_mcp.TeamMode.Routing.Sending.{IsRouted, send_inner-IsRouted}
use agent_teams_mcp.TeamMode.Threading.Rooms.{resolve_thread_id-inherits, resolve_thread_id-joins}
use agent_teams_mcp.Tests.Messages.{entry_serde, note}

abbrev team : Text
team = text "t"

abbrev main_room : Text
main_room = text "main"

abbrev members : List (Text × MemberStatus)
members =
    (text "lead", active) ∷ (text "ann", active) ∷ (text "bob", active) ∷ (text "old", removed) ∷ []

abbrev stores : Stores
stores = record {
  team = λ t. ok (some (some (text "lead")));
  room = λ t. ok (some tt);
  member = λ t name. ok (lookup name members);
  members = λ t. ok members;
}

abbrev request : Text → SendMessageRequest
request body = record {
  team_id = team;
  room_id = main_room;
  sender = text "ann";
  kind = discussion;
  subject = none;
  body = body;
  mentions = [];
  visibility = [];
  audience_policy = none;
  reply_to = some (text "a");
  thread_id = none;
  expires_at = none;
}

abbrev stamp : Stamp
stamp = record { message_id = text "n1"; thread_id = text "n2"; now = 5 }

abbrev stored : File
stored = some (render entry_serde (message (note (text "a") 1) ∷ []))

handles_run :
    (parse_mentions_from_body (text "x@ann @bob,@zed @")
      ≡ (record { raw = text "@bob"; handle = text "bob" })
        ∷ (record { raw = text "@zed"; handle = text "zed" })
        ∷ [])
unfolding parse_mentions_from_body parse_from next found_at outer close behind_handle is_handle_char
    push_unique_candidate has_handle is_blank ◌==◌ is_ascii_lowercase is_ascii_digit
handles_run = refl

-- The answer to the message "a": ann writes to bob, and to someone who is not there.
-- The lower case of ASCII.
abbrev ascii_lower : Text → Text
ascii_lower t = map (λ c. if leb b'A' c && leb c b'Z' then c + 32 else c) t

abbrev run : Text → Result Message × (File × ℕ)
run body =
    send_inner ascii_lower entry_serde stores suc (λ m lead sender o. o) full_body (request body)
      stamp (stored, 0)

abbrev sent_of : Result Message × (File × ℕ) → Message
sent_of (ok m, _) = m
sent_of _ = note (text "none") 0

sends_run :
    run (text "hi @Bob, @zed")
    ≡ (ok (sent_of (run (text "hi @Bob, @zed"))), ((run (text "hi @Bob, @zed")).1.0, 1))
unfolding send_inner prepare finish tell_lead check_request validate_name ◌==◌ len has_char
    ensure_team_exists ensure_room_exists ensure_sender_exists refuse_removed mentioned refuse_self
    candidates add_mentions route route_one lc_active lookup insert contains all_recipients add_lead
    check_recipients resolve_thread_id inherit_thread check_belongs belongs check_explicit get
    snapshot load content_lines split_lines prepend is_whitespace trim trim_start trim_end is_blank
    apply_entry entry_serde save save_checks validate_opt append_entry parse_mentions_from_body
    parse_from next found_at outer close behind_handle is_handle_char push_unique
    push_unique_candidate has_handle is_ascii_lowercase is_ascii_digit new_message policy_of
    resolution_of derive_delivery_status is_dispatch no_recipient
sends_run = refl

abbrev sent : Message
sent = sent_of (run (text "hi @Bob, @zed"))

routes_run : sent.effective_recipients ≡ text "bob" ∷ text "lead" ∷ []
unfolding send_inner prepare finish tell_lead check_request validate_name ◌==◌ len has_char
    ensure_team_exists ensure_room_exists ensure_sender_exists refuse_removed mentioned refuse_self
    candidates add_mentions route route_one lc_active lookup insert contains all_recipients add_lead
    check_recipients resolve_thread_id inherit_thread check_belongs belongs check_explicit get
    snapshot load content_lines split_lines prepend is_whitespace trim trim_start trim_end is_blank
    apply_entry entry_serde save save_checks validate_opt append_entry parse_mentions_from_body
    parse_from next found_at outer close behind_handle is_handle_char push_unique
    push_unique_candidate has_handle is_ascii_lowercase is_ascii_digit new_message policy_of
    resolution_of derive_delivery_status is_dispatch no_recipient
routes_run = refl

send_inner-IsRouted_example :
    (members' : List (Text × MemberStatus)) × (stores.members team ≡ ok members')
    × IsRouted ascii_lower entry_serde stores full_body
        (request (text "hi @Bob, @zed"))
        members'
        sent
    × ((run (text "hi @Bob, @zed")).1.0 ≡ append_entry entry_serde (message sent) stored)
    × (thread : Text) × (resolve_thread_id entry_serde stored team main_room none
          (some (text "a"))
          (text "n2")
        ≡ ok thread)
    × (sent.thread_id ≡ some thread)
send_inner-IsRouted_example =
    send_inner-IsRouted ascii_lower entry_serde stores suc (λ m lead sender o. o) full_body
      (request (text "hi @Bob, @zed")) stamp stored (run (text "hi @Bob, @zed")).1.0 0 1 sent
      sends_run

inherited :
    resolve_thread_id entry_serde stored team main_room none (some (text "a")) (text "n2")
    ≡ ok (text "th")
unfolding send_inner prepare finish tell_lead check_request validate_name ◌==◌ len has_char
    ensure_team_exists ensure_room_exists ensure_sender_exists refuse_removed mentioned refuse_self
    candidates add_mentions route route_one lc_active lookup insert contains all_recipients add_lead
    check_recipients resolve_thread_id inherit_thread check_belongs belongs check_explicit get
    snapshot load content_lines split_lines prepend is_whitespace trim trim_start trim_end is_blank
    apply_entry entry_serde save save_checks validate_opt append_entry parse_mentions_from_body
    parse_from next found_at outer close behind_handle is_handle_char push_unique
    push_unique_candidate has_handle is_ascii_lowercase is_ascii_digit new_message policy_of
    resolution_of derive_delivery_status is_dispatch no_recipient
inherited = refl

resolve_thread_id-inherits_example :
    (parent : Message) × (get entry_serde team (text "a") stored ≡ ok (some parent))
    × (parent.thread_id ≡ some (text "th"))
    × (parent.team_id ≡ some team)
    × (parent.room_id ≡ main_room)
    × ((t : Text) → none ≡ some t → t ≡ text "th")
resolve_thread_id-inherits_example =
    resolve_thread_id-inherits entry_serde stored team main_room none (text "a") (text "n2")
      (text "th") inherited

joined :
    resolve_thread_id entry_serde stored team main_room (some (text "th")) none (text "n2")
    ≡ ok (text "th")
unfolding list_by_thread list collect in_thread find_conflict join_thread send_inner prepare finish
    tell_lead check_request validate_name ◌==◌ len has_char ensure_team_exists ensure_room_exists
    ensure_sender_exists refuse_removed mentioned refuse_self candidates add_mentions route
    route_one lc_active lookup insert contains all_recipients add_lead check_recipients
    resolve_thread_id inherit_thread check_belongs belongs check_explicit get snapshot load
    content_lines split_lines prepend is_whitespace trim trim_start trim_end is_blank apply_entry
    entry_serde save save_checks validate_opt append_entry parse_mentions_from_body parse_from next
    found_at outer close behind_handle is_handle_char push_unique push_unique_candidate has_handle
    is_ascii_lowercase is_ascii_digit new_message policy_of resolution_of derive_delivery_status
    is_dispatch no_recipient
joined = refl

thread_listed : list_by_thread entry_serde team (text "th") stored ≡ ok (note (text "a") 1 ∷ [])
unfolding list_by_thread list collect in_thread send_inner prepare finish tell_lead check_request
    validate_name ◌==◌ len has_char ensure_team_exists ensure_room_exists ensure_sender_exists
    refuse_removed mentioned refuse_self candidates add_mentions route route_one lc_active lookup
    insert contains all_recipients add_lead check_recipients resolve_thread_id inherit_thread
    check_belongs belongs check_explicit get snapshot load content_lines split_lines prepend
    is_whitespace trim trim_start trim_end is_blank apply_entry entry_serde save save_checks
    validate_opt append_entry parse_mentions_from_body parse_from next found_at outer close
    behind_handle is_handle_char push_unique push_unique_candidate has_handle is_ascii_lowercase
    is_ascii_digit new_message policy_of resolution_of derive_delivery_status is_dispatch
    no_recipient
thread_listed = refl

resolve_thread_id-joins_example :
    (text "th" ≡ text "th") × (all (λ m. m.room_id == main_room) (note (text "a") 1 ∷ []) ≡ true)
resolve_thread_id-joins_example =
    resolve_thread_id-joins entry_serde stored team main_room (text "th") (text "n2") (text "th")
      (note (text "a") 1 ∷ []) joined thread_listed

bob : (is_blank (text "Bob") ≡ false) × (is_blank (text "bob") ≡ false)
unfolding is_blank
bob = (refl, refl)

bob_chars : all is_handle_char (text "Bob") ≡ true
unfolding is_handle_char is_ascii_lowercase is_ascii_digit
bob_chars = refl

alone :
    (is_blank (text "Bob") ≡ false)
    × (ends_handle false (text "hi ") ≡ false)
    × (starts_handle (text ", all") ≡ false)
unfolding is_blank is_handle_char is_ascii_lowercase is_ascii_digit
alone = (refl, refl, refl)

comma : starts_handle (text ", @zed") ≡ false
unfolding is_handle_char is_ascii_lowercase is_ascii_digit
comma = refl

parse_mentions_from_body-finds_example :
    has_handle
      (text "Bob")
      (parse_mentions_from_body (text "hi " ++ b'@' ∷ text "Bob" ++ text ", all"))
    ≡ true
parse_mentions_from_body-finds_example =
    parse_mentions_from_body-finds (text "hi ") (text "Bob") (text ", all") bob_chars alone.0
      alone.1 alone.2

apart : (s t : Text) → (s == t) ≡ false → s ≢ t
apart s t h e = let same = (==_iff s t).1 e in absurd (ground arith)

only_bob : IsOnlyOne ascii_lower (text "bob") active members
unfolding ◌==◌
only_bob = (
  inr (apart (text "lead") (text "bob") refl),
  (
    inr (apart (text "ann") (text "bob") refl),
    (inl refl, (inr (apart (text "old") (text "bob") refl), tt)),
  ),
)

send-reaches_example : contains (text "bob") sent.effective_recipients ≡ true
unfolding send
send-reaches_example =
    send-reaches ascii_lower entry_serde stores suc (λ m lead sender o. o)
      (request (text "hi @Bob, @zed")) stamp stored (run (text "hi @Bob, @zed")).1.0 0 1 sent
      members (text "hi ") (text "Bob") (text ", @zed") (text "bob") sends_run refl bob_chars bob.0
      alone.1 comma refl (inr (inr (inl refl))) only_bob refl bob.1
