-- ===== src/TeamMode/MemberService/Senders.antt =====
-- Who may send: a removed member may not, and one that is active again may.
use agent_teams_mcp.Base.{
  Text, ==_refl, List, ◌≡◌, refl, ap, ◌∙◌, Bool, true, false, none, some, Serde, arith,
}
use agent_teams_mcp.Error.{member_not_found, Result, ok, err, panic, ◌>>=◌, ok_or, proceed}
use agent_teams_mcp.Names.{validate_name}
use agent_teams_mcp.TeamMode.Member.{MemberStatus, active, UnifiedMember, MembersFile, from_unified}
use agent_teams_mcp.TeamMode.Members.{Files, remove_mark, get_member, mark_removed, update}
use agent_teams_mcp.TeamMode.Members.Table.{update_op}
use agent_teams_mcp.TeamMode.Members.Refined.{table, IsSound, run-Refines}
use agent_teams_mcp.TeamMode.Members.Reading.{shown, left_with, get_member-table}
use agent_teams_mcp.TeamMode.Routing.{Stores, refuse_removed, ensure_sender_exists}
use agent_teams_mcp.TeamMode.MemberService.{
  activate, refuse_missing, mark_member_removed, mark_member_active, with_members,
}

from_unified-activate :
    (team : Text) (m : UnifiedMember)
    → from_unified team (activate (remove_mark m)) ≡ left_with team m active
unfolding from_unified remove_mark activate
from_unified-activate team m = elim m.execution [ none ↦ refl | some e ↦ refl ]

module _ (serde : Serde MembersFile)
    (iterated : List (Text × MemberStatus) → List (Text × MemberStatus)) (stores : Stores)
    (team name : Text) where
  sender-table :
      (files : Files) (m : UnifiedMember)
      → IsSound serde files
      → validate_name team ≡ ok tt
      → validate_name name ≡ ok tt
      → table serde files team name ≡ some m
      → ensure_sender_exists (with_members serde iterated stores files) team name
        ≡ refuse_removed team name m.status
  unfolding ensure_sender_exists with_members from_unified
  sender-table files m sound t n there =
      let got =
        get_member-table serde files team name sound t n ∙ ap (λ o. ok (shown team o)) there in
      ap
        (λ found.
          (found >>= λ o. ok (elim o [ none ↦ none | some r ↦ some r.profile.status ])) >>= λ o.
          ok_or o (member_not_found team name) >>= λ status. refuse_removed team name status)
        got

  -- The answer of the service where the store had the member.
  told :
      (s : Result Bool × Files)
      → s.0 ≡ ok true
      → proceed s (λ changed s'. (refuse_missing team name changed, s')) ≡ (ok tt, s.1)
  unfolding refuse_missing
  told (ok true, s) h = refl
  told (ok false, s) h = cc
  told (err e, s) h = cc
  told (panic, s) h = cc

  -- Once a member is marked as removed it may not send: the check of a sender answers as for a name
  -- that is not there. Once it is marked as active it may again: its status is active, its session
  -- stays stopped if it has an execution, and every other field of its profile and of its execution
  -- is as before the removal. All files are sound before, and the member is in them.
  pub mark_member_removed-mark_member_active :
      (files : Files) (m : UnifiedMember)
      → IsSound serde files
      → validate_name team ≡ ok tt
      → validate_name name ≡ ok tt
      → table serde files team name ≡ some m
      → let (answer, files1) = mark_member_removed serde team name files in
        let (again, files2) = mark_member_active serde team name files1 in
        (answer ≡ ok tt)
        × (ensure_sender_exists (with_members serde iterated stores files1) team name
            ≡ err (member_not_found team name))
        × (again ≡ ok tt)
        × (ensure_sender_exists (with_members serde iterated stores files2) team name ≡ ok tt)
        × (get_member serde team name files2 ≡ ok (some (left_with team m active)))
  unfolding mark_member_removed mark_member_active mark_removed remove_mark activate refuse_removed
  mark_member_removed-mark_member_active files m sound t n there =
      let first = run-Refines serde (update_op team name remove_mark (λ x h. h)) files sound t n in
      let state1 = update serde team name remove_mark files in
      let gone : table serde state1.1 team name ≡ some (remove_mark m) =
        first.entries team name ∙ ground (arith, ==_refl team, ==_refl name, there) in
      let answer1 : state1.0 ≡ ok true = first.answers ∙ ground (arith, there) in
      let second =
        run-Refines serde (update_op team name activate (λ x h. h)) state1.1 first.sound t n in
      let state2 = update serde team name activate state1.1 in
      let back : table serde state2.1 team name ≡ some (activate (remove_mark m)) =
        second.entries team name ∙ ground (arith, ==_refl team, ==_refl name, gone) in
      let answer2 : state2.0 ≡ ok true = second.answers ∙ ground (arith, gone) in
      let told1 = told state1 answer1 in
      let files1 : (mark_member_removed serde team name files).1 ≡ state1.1 = ap (λ s. s.1) told1 in
      let told2 = ap (λ f. mark_member_active serde team name f) files1 ∙ told state2 answer2 in
      let files2 = ap (λ s. s.1) told2 in
      let may_send =
        λ (f : Files). ensure_sender_exists (with_members serde iterated stores f) team name in
      (
        ap (λ s. s.0) told1,
        ap may_send files1 ∙ sender-table state1.1 (remove_mark m) first.sound t n gone,
        ap (λ s. s.0) told2,
        ap may_send files2 ∙ sender-table state2.1 (activate (remove_mark m)) second.sound t n back,
        ap (get_member serde team name) files2
            ∙ get_member-table serde state2.1 team name second.sound t n
            ∙ ap (λ o. ok (shown team o)) back
            ∙ ap (λ x. ok (some x)) (from_unified-activate team m),
      )
