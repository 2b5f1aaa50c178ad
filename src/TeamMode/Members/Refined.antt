-- ===== src/TeamMode/Members/Refined.antt =====
-- The store of members is the table.
use agent_teams_mcp.Base.{
  Text, ◌==◌, ==_iff, ◌≡◌, refl, sym, ap, subst, ◌∙◌, Bool, true, ◌&&◌, Option, none, some,
  lookup-insert, NoRepeat, Serde, arith, if◌then◌else◌, Bool-cases, inl, inr,
}
use agent_teams_mcp.Error.{Result, ok, err, panic}
use agent_teams_mcp.Names.{validate_name}
use agent_teams_mcp.TeamMode.Member.{UnifiedMember, MembersFile}
use agent_teams_mcp.TeamMode.Members.{
  Files, find_member, load_file, save_file, plan_add, add, plan_upsert, upsert, plan_update, update,
  plan_delete, delete,
}
use agent_teams_mcp.TeamMode.Members.Changes.{names}
use agent_teams_mcp.TeamMode.Members.Table.{
  MemberOp, add_op, upsert_op, update_op, delete_op, team_of, name_of, promised, plan, after, Does,
}
use agent_teams_mcp.TeamMode.Members.Plans.{plan-Fulfills}

abbrev pub answered : Result (Unit {0}) × Files → Result Bool × Files
answered (ok _, s) = (ok true, s)
answered (err e, s) = (err e, s)
answered (panic, s) = (panic, s)

pub answered-files : (s : Result (Unit {0}) × Files) → (answered s).1 ≡ s.1
answered-files (ok _, s) = refl
answered-files (err e, s) = refl
answered-files (panic, s) = refl

abbrev entry : Text → Result MembersFile → Option UnifiedMember
entry name (ok file) = find_member name file.members
entry name (err _) = none
entry name panic = none

module _ (serde : Serde MembersFile) where
  -- The program's change; where its answer has no value, `true` stands for it.
  abbrev pub run : MemberOp → Files → Result Bool × Files
  run (add_op r) files = answered (add serde r files)
  run (upsert_op r) files = answered (upsert serde r files)
  run (update_op team name f _) files = update serde team name f files
  run (delete_op team name) files = answered (delete serde team name files)

  -- The members on the disk as a table.
  abbrev pub table : Files → Text → Text → Option UnifiedMember
  table files team name = entry name (load_file serde team files)

  -- Every file can be read and names each member once.
  abbrev pub IsSound : Files → Type 0
  IsSound files =
      (team : Text)
      → (file : MembersFile) × (load_file serde team files ≡ ok file)
        × NoRepeat (names file.members)

  abbrev commit : Text → Result Bool × Option MembersFile → Files → Result Bool × Files
  commit team (answer, none) files = (answer, files)
  commit team (answer, some file) files = (answer, save_file serde team file files)

  run-plan :
      (op : MemberOp) (files : Files) (file : MembersFile)
      → validate_name (team_of op) ≡ ok tt
      → validate_name (name_of op) ≡ ok tt
      → load_file serde (team_of op) files ≡ ok file
      → run op files ≡ commit (team_of op) (plan op file) files
  unfolding add plan_add upsert plan_upsert update plan_update delete plan_delete
  run-plan (add_op r) files file t n l = ground (arith, t, n, l)
  run-plan (upsert_op r) files file t n l = ground (arith, t, n, l)
  run-plan (update_op team name f keeps) files file t n l = ground (arith, t, n, l)
  run-plan (delete_op team name) files file t n l = ground (arith, t, n, l)

  pub load_file-save_file :
      (team other : Text) (file : MembersFile) (files : Files)
      → load_file serde other (save_file serde team file files)
        ≡ (if team == other then ok file else load_file serde other files)
  unfolding load_file save_file
  load_file-save_file team other file files =
      ground (arith, lookup-insert team other (serde.encode file) files, serde.decode-encode file)

  pub table-loaded :
      (files : Files) (team name : Text) (file : MembersFile)
      → load_file serde team files ≡ ok file
      → table files team name ≡ find_member name file.members
  table-loaded files team name file h = ap (entry name) h

  pub table-save_file :
      (team other name : Text) (file : MembersFile) (files : Files)
      → table (save_file serde team file files) other name
        ≡ (if team == other then find_member name file.members else table files other name)
  table-save_file team other name file files = elim (Bool-cases (team == other)) [
    | inl same ↦ rw same (
        table-loaded (save_file serde team file files) other name file
          (load_file-save_file team other file files ∙ rw same refl))
    | inr apart ↦
        rw apart (ap (entry name) (load_file-save_file team other file files ∙ rw apart refl))
  ]

  save_file-IsSound :
      (team : Text) (file : MembersFile) (files : Files)
      → IsSound files
      → NoRepeat (names file.members)
      → IsSound (save_file serde team file files)
  save_file-IsSound team file files sound once other = elim (Bool-cases (team == other)) [
    | inl same ↦ (file, load_file-save_file team other file files ∙ rw same refl, once)
    | inr apart ↦
        let (old, loaded, once') = sound other in
        (old, load_file-save_file team other file files ∙ rw apart loaded, once')
  ]

  -- The state and the answer that the table promises for a change.
  pub record Refines (op : MemberOp) (files : Files) (answer : Result Bool) (files' : Files)
      : Type 0 where
    pub answers : answer ≡ (promised op (table files (team_of op) (name_of op))).0
    pub entries :
        (team name : Text)
        → table files' team name ≡ (
            if team_of op == team && name_of op == name
            then (promised op (table files (team_of op) (name_of op))).1
            else table files team name)
    pub sound : IsSound files'

  module _ (op : MemberOp) (files : Files) (sound : IsSound files) (file : MembersFile)
      (loaded : load_file serde (team_of op) files ≡ ok file) where
    here : table files (team_of op) (name_of op) ≡ find_member (name_of op) file.members
    here = table-loaded files (team_of op) (name_of op) file loaded

    own_team :
        (team name : Text)
        → team_of op == team ≡ true
        → table files team name ≡ find_member name file.members
    own_team team name same =
        subst (λ t. table files t name ≡ find_member name file.members)
          ((==_iff (team_of op) team).0 same) (table-loaded files (team_of op) name file loaded)

    entry_there :
        (team name : Text)
        → team_of op == team ≡ true
        → (if name_of op == name
            then (promised op (find_member (name_of op) file.members)).1
            else find_member name file.members)
          ≡ (if name_of op == name
              then (promised op (table files (team_of op) (name_of op))).1
              else table files team name)
    entry_there team name same =
        ap (λ o. if name_of op == name then (promised op o).1 else find_member name file.members)
          (sym here)
        ∙ ap
            (λ o.
              if name_of op == name
              then (promised op (table files (team_of op) (name_of op))).1
              else o)
            (sym (own_team team name same))

    commit-Refines :
        (answer : Result Bool) (saved : Option MembersFile)
        → Does op file.members answer (after file saved)
        → let s = commit (team_of op) (answer, saved) files in Refines op files s.0 s.1
    commit-Refines answer none d = record {
      answers = d.answers ∙ ap (λ o. (promised op o).0) (sym here);
      entries = λ team name. elim (Bool-cases (team_of op == team)) [
        | inl same ↦ rw same (own_team team name same ∙ d.entries name ∙ entry_there team name same)
        | inr apart ↦ rw apart refl
      ];
      sound = sound;
    }
    commit-Refines answer (some new) d = record {
      answers = d.answers ∙ ap (λ o. (promised op o).0) (sym here);
      entries = λ team name.
          table-save_file (team_of op) team name new files
          ∙ elim (Bool-cases (team_of op == team)) [
            | inl same ↦ rw same (d.entries name ∙ entry_there team name same)
            | inr apart ↦ rw apart refl
          ];
      sound = save_file-IsSound (team_of op) new files sound d.once;
    }

  -- Adding, overwriting, updating and deleting a member do to the files of the teams, which can be
  -- read and name each member once, what a table from team and name promises: the answer follows
  -- from the entry there, that entry changes and no other does, and the files stay as they should be.
  -- A change is refused just where the table refuses it: for the addition of a name that is there.
  pub run-Refines :
      (op : MemberOp) (files : Files)
      → IsSound files
      → validate_name (team_of op) ≡ ok tt
      → validate_name (name_of op) ≡ ok tt
      → Refines op files (run op files).0 (run op files).1
  run-Refines op files sound valid_team valid_name =
      let (file, loaded, once) = sound (team_of op) in
      let p = plan op file in
      subst (λ s. Refines op files s.0 s.1)
        (sym (run-plan op files file valid_team valid_name loaded))
        (commit-Refines op files sound file loaded p.0 p.1 (plan-Fulfills op file once))
