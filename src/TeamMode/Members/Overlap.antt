-- ===== src/TeamMode/Members/Overlap.antt =====
-- Two additions of members that both read the file before either writes it. The lock is held for
-- the writing alone, so nothing rules this order out.
use agent_teams_mcp.Base.{
  Text, ◌==◌, ==_iff, ==_refl, ◌≡◌, ◌≢◌, refl, sym, ap, subst, ◌∙◌, none, some, [], ◌∷◌, ◌++◌,
  Serde, arith, if◌then◌else◌,
}
use agent_teams_mcp.Error.{ok}
use agent_teams_mcp.Names.{validate_name}
use agent_teams_mcp.TeamMode.Member.{MembersFile, MemberRecord, into_unified, from_unified}
use agent_teams_mcp.TeamMode.Members.{
  Files, renewed, find_member, load_file, save_file, save_result, get_member, plan_add, add_to_file,
}
use agent_teams_mcp.TeamMode.Members.Changes.{any-find_member, find_member-snoc}
use agent_teams_mcp.TeamMode.Members.Refined.{table, table-loaded, load_file-save_file, IsSound}
use agent_teams_mcp.TeamMode.Members.Reading.{shown}

same_name :
    (s : MemberRecord)
    → (if (into_unified s).name == s.profile.name then some (into_unified s) else none)
      ≡ some (into_unified s)
unfolding into_unified
same_name s = rw (==_refl s.profile.name) refl

other_name :
    (s : MemberRecord) (name : Text)
    → s.profile.name ≢ name
    → (if (into_unified s).name == name then some (into_unified s) else none) ≡ none
unfolding into_unified
other_name s name h = ground (arith, ==_iff s.profile.name name, h)

shown_again :
    (s : MemberRecord) → ok (shown s.profile.team_id (some (into_unified s))) ≡ ok (some s)
unfolding into_unified from_unified
shown_again s = refl

module _ (serde : Serde MembersFile) where
  plan_add-new :
      (r : MemberRecord) (files : Files) (file : MembersFile)
      → validate_name r.profile.team_id ≡ ok tt
      → validate_name r.profile.name ≡ ok tt
      → load_file serde r.profile.team_id files ≡ ok file
      → find_member r.profile.name file.members ≡ none
      → plan_add serde r files ≡ ok (renewed (file.members ++ into_unified r ∷ []))
  unfolding plan_add add_to_file
  plan_add-new r files file t n loaded new =
      ground (arith, t, n, loaded, any-find_member r.profile.name file.members, new)

  get_member-loaded :
      (team name : Text) (files : Files) (file : MembersFile)
      → validate_name team ≡ ok tt
      → validate_name name ≡ ok tt
      → load_file serde team files ≡ ok file
      → get_member serde team name files ≡ ok (shown team (find_member name file.members))
  unfolding get_member
  get_member-loaded team name files file t n loaded = ground (arith, t, n, loaded)

  -- Two members with different names that are both new in one team, each added by a process that has
  -- read the team's sound file before the other wrote it: both additions report success, and the
  -- member added by the first to write is lost.
  pub add-add_overlap :
      (r s : MemberRecord) (files : Files)
      → IsSound serde files
      → r.profile.team_id ≡ s.profile.team_id
      → r.profile.name ≢ s.profile.name
      → validate_name s.profile.team_id ≡ ok tt
      → validate_name r.profile.name ≡ ok tt
      → validate_name s.profile.name ≡ ok tt
      → table serde files s.profile.team_id r.profile.name ≡ none
      → table serde files s.profile.team_id s.profile.name ≡ none
      → let first = save_result serde r.profile.team_id (plan_add serde r files) files in
        let second = save_result serde s.profile.team_id (plan_add serde s files) first.1 in
        (first.0 ≡ ok tt)
        × (second.0 ≡ ok tt)
        × (get_member serde s.profile.team_id s.profile.name second.1 ≡ ok (some s))
        × (get_member serde s.profile.team_id r.profile.name second.1 ≡ ok none)
  add-add_overlap r s files sound same_team apart t n m new_r new_s =
      let team = s.profile.team_id in
      let (file, loaded, once) = sound team in
      let r_new = sym (table-loaded serde files team r.profile.name file loaded) ∙ new_r in
      let s_new = sym (table-loaded serde files team s.profile.name file loaded) ∙ new_s in
      let plan_r =
        plan_add-new r files file (subst (λ x. validate_name x ≡ ok tt) (sym same_team) t) n
          (subst (λ x. load_file serde x files ≡ ok file) (sym same_team) loaded) r_new in
      let plan_s = plan_add-new s files file t m loaded s_new in
      let first = save_result serde r.profile.team_id (plan_add serde r files) files in
      let kept = renewed (file.members ++ into_unified s ∷ []) in
      let written : save_result serde team (plan_add serde s files) first.1
          ≡ (ok tt, save_file serde team kept first.1) =
        ap (λ p. save_result serde team p first.1) plan_s in
      let last : load_file serde team (save_result serde team (plan_add serde s files) first.1).1
          ≡ ok kept =
        ap (λ w. load_file serde team w.1) written
        ∙ load_file-save_file serde team team kept first.1
        ∙ rw (==_refl team) refl in
      let found_s : find_member s.profile.name kept.members ≡ some (into_unified s) =
        find_member-snoc s.profile.name (into_unified s) file.members ∙ rw s_new (same_name s) in
      let lost_r : find_member r.profile.name kept.members ≡ none =
        find_member-snoc r.profile.name (into_unified s) file.members
        ∙ rw r_new (other_name s r.profile.name (λ e. apart (sym e))) in
      let state = (save_result serde team (plan_add serde s files) first.1).1 in
      (
        ap (λ p. (save_result serde r.profile.team_id p files).0) plan_r,
        ap (λ w. w.0) written,
        get_member-loaded team s.profile.name state kept t m last
            ∙ ap (λ o. ok (shown team o)) found_s
            ∙ shown_again s,
        get_member-loaded team r.profile.name state kept t n last
            ∙ ap (λ o. ok (shown team o)) lost_r,
      )
