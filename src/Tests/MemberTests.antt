-- ===== src/Tests/MemberTests.antt =====
-- A team with a first member, and what the changes of the store do to it.
use agent_teams_mcp.Base.{
  Text, text, ◌==◌, ==_iff, ◌≡◌, ◌≢◌, refl, len, has_char, true, false, any, none, some, List, [],
  lookup,
}
use agent_teams_mcp.Error.{other, member_exists, member_not_found, Result, ok, err}
use agent_teams_mcp.Names.{validate_name}
use agent_teams_mcp.TeamMode.Member.{active, removed, MemberRecord, into_unified}
use agent_teams_mcp.TeamMode.Members.{
  Files, find_member, load_file, save_result, get_member, list_active, mark_removed, plan_add, add,
  upsert,
}
use agent_teams_mcp.TeamMode.Members.Table.{add_op, upsert_op}
use agent_teams_mcp.TeamMode.Members.Refined.{run, table, IsSound, Refines, run-Refines}
use agent_teams_mcp.TeamMode.Members.Reading.{left_with, upsert-get_member, mark_removed-hides}
use agent_teams_mcp.TeamMode.Members.Overlap.{add-add_overlap}
use agent_teams_mcp.TeamMode.Routing.{Stores, ensure_sender_exists}
use agent_teams_mcp.TeamMode.MemberService.{mark_member_removed, mark_member_active, with_members}
use agent_teams_mcp.TeamMode.MemberService.Senders.{mark_member_removed-mark_member_active}
use agent_teams_mcp.Tests.MemberFiles.{members_serde, worker}

abbrev team : Text
team = text "t"

abbrev ann : Text
ann = text "ann"

abbrev bob : Text
bob = text "bob"

named : (validate_name team ≡ ok tt) × (validate_name ann ≡ ok tt) × (validate_name bob ≡ ok tt)
unfolding validate_name ◌==◌ len has_char
named = (refl, refl, refl)

abbrev nothing : Files
nothing = []

nothing-IsSound : IsSound members_serde nothing
unfolding load_file lookup
nothing-IsSound t = (record { version = 1; members = [] }, refl, tt)

nobody : (t name : Text) → table members_serde nothing t name ≡ none
unfolding load_file lookup find_member
nobody t name = refl

run-Refines_example :
    Refines members_serde
      (add_op (worker ann))
      nothing
      (run members_serde (add_op (worker ann)) nothing).0
      (run members_serde (add_op (worker ann)) nothing).1
run-Refines_example =
    run-Refines members_serde (add_op (worker ann)) nothing nothing-IsSound named.0 named.1

upsert-get_member_example :
    get_member members_serde team ann (upsert members_serde (worker ann) nothing).1
    ≡ ok (some (worker ann))
upsert-get_member_example =
    upsert-get_member members_serde (worker ann) nothing nothing-IsSound named.0 named.1

-- The files after ann was added.
abbrev with_ann : Files
with_ann = (run members_serde (upsert_op (worker ann)) nothing).1

added :
    Refines members_serde
      (upsert_op (worker ann))
      nothing
      (run members_serde (upsert_op (worker ann)) nothing).0
      with_ann
added = run-Refines members_serde (upsert_op (worker ann)) nothing nothing-IsSound named.0 named.1

ann_there : table members_serde with_ann team ann ≡ some (into_unified (worker ann))
unfolding ◌==◌
ann_there = added.entries team ann

mark_removed-hides_example :
    ((mark_removed members_serde team ann with_ann).0 ≡ ok true)
    × (get_member members_serde team ann (mark_removed members_serde team ann with_ann).1
        ≡ ok (some (left_with team (into_unified (worker ann)) removed)))
    × ((records : List MemberRecord) × (list_active members_serde team
            (mark_removed members_serde team ann with_ann).1
          ≡ ok records)
        × (any (λ r. r.profile.name == ann) records ≡ false))
    × (add members_serde (worker ann) (mark_removed members_serde team ann with_ann).1
        ≡ (err (other (member_exists ann team)), (mark_removed members_serde team ann with_ann).1))
mark_removed-hides_example =
    mark_removed-hides members_serde team ann (into_unified (worker ann)) with_ann (worker ann)
      added.sound named.0 named.1 ann_there refl refl

different : ann ≢ bob
unfolding ◌==◌
different e = let h : false ≡ true = (==_iff ann bob).1 e in cc

abbrev first : Result (Unit {0}) × Files
first = save_result members_serde team (plan_add members_serde (worker ann) nothing) nothing

abbrev second : Result (Unit {0}) × Files
second = save_result members_serde team (plan_add members_serde (worker bob) nothing) first.1

add-add_overlap_example :
    (first.0 ≡ ok tt)
    × (second.0 ≡ ok tt)
    × (get_member members_serde team bob second.1 ≡ ok (some (worker bob)))
    × (get_member members_serde team ann second.1 ≡ ok none)
add-add_overlap_example =
    add-add_overlap members_serde (worker ann) (worker bob) nothing nothing-IsSound refl different
      named.0 named.1 named.2 (nobody team ann) (nobody team bob)

abbrev other_stores : Stores
other_stores = record {
  team = λ t. ok (some none);
  room = λ t. ok (some tt);
  member = λ t name. ok none;
  members = λ t. ok [];
}

abbrev ann_removed : Result (Unit {0}) × Files
ann_removed = mark_member_removed members_serde team ann with_ann

abbrev ann_back : Result (Unit {0}) × Files
ann_back = mark_member_active members_serde team ann ann_removed.1

mark_member_removed-mark_member_active_example :
    (ann_removed.0 ≡ ok tt)
    × (ensure_sender_exists
          (with_members members_serde (λ ms. ms) other_stores ann_removed.1)
          team
          ann
        ≡ err (member_not_found team ann))
    × (ann_back.0 ≡ ok tt)
    × (ensure_sender_exists (with_members members_serde (λ ms. ms) other_stores ann_back.1) team ann
        ≡ ok tt)
    × (get_member members_serde team ann ann_back.1
        ≡ ok (some (left_with team (into_unified (worker ann)) active)))
mark_member_removed-mark_member_active_example =
    mark_member_removed-mark_member_active members_serde (λ ms. ms) other_stores team ann with_ann
      (into_unified (worker ann)) added.sound named.0 named.1 ann_there
