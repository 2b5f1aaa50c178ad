-- ===== src/TeamMode/Threading/Rooms.antt =====
-- In which thread a message stands.
use agent_teams_mcp.Base.{
  Text, ◌==◌, ==_iff, ◌≡◌, refl, sym, ap, ◌∙◌, inl, inr, true, Option, none, some, List, [], ◌∷◌,
  arith, all, Bool-cases, Option-cases,
}
use agent_teams_mcp.Error.{
  Error, other, reply_to_not_found, no_thread_to_inherit, ok, ok_or, ran_both,
}
use agent_teams_mcp.Names.{validate_name}
use agent_teams_mcp.TeamMode.Message.{Message}
use agent_teams_mcp.TeamMode.Lines.{LineSerde}
use agent_teams_mcp.TeamMode.Transcript.{TranscriptEntry, File, get, list_by_thread}
use agent_teams_mcp.TeamMode.Threading.{
  find_conflict, belongs, check_belongs, check_explicit, inherit_thread, join_thread,
  resolve_thread_id,
}

ok_or-some : {A : Type 0} (o : Option A) (e : Error) (a : A) → ok_or o e ≡ ok a → o ≡ some a
ok_or-some none e a h = cc
ok_or-some (some x) e a h = ground (arith, h)

check_explicit-parts :
    (explicit : Option Text) (inherited thread : Text)
    → check_explicit explicit inherited ≡ ok thread
    → (thread ≡ inherited) × ((t : Text) → explicit ≡ some t → t ≡ thread)
unfolding check_explicit
check_explicit-parts none inherited thread h = (ground (arith, h), λ t e. cc)
check_explicit-parts (some x) inherited thread h =
    let (_, valid, h1) = ran_both (validate_name x) h in
    elim (Bool-cases (x == inherited)) [
      | inl same ↦
          (ground (arith, h1, same), λ t e. ground (arith, h1, same, e, ==_iff x inherited))
      | inr away ↦ (ground (arith, h1, away), λ t e. ground (arith, h1, away))
    ]

check_belongs-parts :
    (team room reply_to : Text) (parent : Message)
    → check_belongs team room reply_to parent ≡ ok tt
    → (parent.team_id ≡ some team) × (parent.room_id ≡ room)
unfolding check_belongs belongs
check_belongs-parts team room reply_to parent h = elim (Option-cases parent.team_id) [
  | inl missing ↦ (ground (arith, h, missing), ground (arith, h, missing))
  | inr (t, there) ↦ (
    ground (arith, h, there, ==_iff t team),
    ground (arith, h, there, ==_iff parent.room_id room),
  )
]

find_conflict-all :
    (room : Text) (ms : List Message)
    → find_conflict room ms ≡ none
    → all (λ m. m.room_id == room) ms ≡ true
unfolding find_conflict
find_conflict-all room [] h = refl
find_conflict-all room (m ∷ ms) h = ground (arith, find_conflict-all room ms)

module _ (serde : LineSerde TranscriptEntry) (file : File) where
  -- An accepted reply stands in the thread of the message it replies to, which is an active message
  -- of the same team and room; a thread that was asked for besides is that thread.
  pub resolve_thread_id-inherits :
      (team room : Text) (explicit : Option Text) (reply_to fresh thread : Text)
      → resolve_thread_id serde file team room explicit (some reply_to) fresh ≡ ok thread
      → (parent : Message) × (get serde team reply_to file ≡ ok (some parent))
        × (parent.thread_id ≡ some thread)
        × (parent.team_id ≡ some team)
        × (parent.room_id ≡ room)
        × ((t : Text) → explicit ≡ some t → t ≡ thread)
  unfolding resolve_thread_id inherit_thread
  resolve_thread_id-inherits team room explicit reply_to fresh thread h =
      let (found, got, h1) = ran_both (get serde team reply_to file) h in
      let (parent, there, h2) = ran_both (ok_or found (other (reply_to_not_found reply_to))) h1 in
      let (_, inside, h3) = ran_both (check_belongs team room reply_to parent) h2 in
      let (inherited, threaded, h4) =
        ran_both (ok_or parent.thread_id (other (no_thread_to_inherit reply_to))) h3 in
      let (same, asked) = check_explicit-parts explicit inherited thread h4 in
      let (own_team, own_room) = check_belongs-parts team room reply_to parent inside in
      (
        parent,
        got ∙ ap ok (ok_or-some found _ parent there),
        ok_or-some parent.thread_id _ inherited threaded ∙ ap some (sym same),
        own_team,
        own_room,
        asked,
      )

  -- A message that is no reply and names a thread stands in that thread if it is accepted, and
  -- every message of the thread was in the same room.
  pub resolve_thread_id-joins :
      (team room explicit fresh thread : Text) (messages : List Message)
      → resolve_thread_id serde file team room (some explicit) none fresh ≡ ok thread
      → list_by_thread serde team explicit file ≡ ok messages
      → (thread ≡ explicit) × (all (λ m. m.room_id == room) messages ≡ true)
  unfolding resolve_thread_id join_thread
  resolve_thread_id-joins team room explicit fresh thread messages h listed =
      elim (Option-cases (find_conflict room messages)) [
        | inl free ↦ (ground (arith, h, listed), find_conflict-all room messages free)
        | inr (x, taken) ↦ (ground (arith, h, listed, taken), ground (arith, h, listed, taken))
      ]
