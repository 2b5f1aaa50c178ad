-- ===== src/TeamMode/Members/Table.antt =====
-- What the store of members promises: a table from team and name to member.
use agent_teams_mcp.Base.{
  Text, ◌==◌, ◌≡◌, Bool, true, false, Option, none, some, List, NoRepeat, if◌then◌else◌,
}
use agent_teams_mcp.Error.{other, member_exists, Result, ok, err, panic}
use agent_teams_mcp.TeamMode.Member.{UnifiedMember, MembersFile, MemberRecord, into_unified}
use agent_teams_mcp.TeamMode.Members.{
  find_member, add_to_file, upsert_in_file, update_in_file, delete_from_file,
}
use agent_teams_mcp.TeamMode.Members.Changes.{names}

-- The changes that a caller can ask for. An update keeps the name.
pub data MemberOp : Type 0 where
  add_op upsert_op : MemberRecord → MemberOp
  update_op :
      (team_id name : Text) (f : UnifiedMember → UnifiedMember)
      → ((m : UnifiedMember) → m.name ≡ name → (f m).name ≡ name)
      → MemberOp
  delete_op : (team_id name : Text) → MemberOp

abbrev pub team_of : MemberOp → Text
team_of (add_op r) = r.profile.team_id
team_of (upsert_op r) = r.profile.team_id
team_of (update_op team_id _ _ _) = team_id
team_of (delete_op team_id _) = team_id

abbrev pub name_of : MemberOp → Text
name_of (add_op r) = r.profile.name
name_of (upsert_op r) = r.profile.name
name_of (update_op _ name _ _) = name
name_of (delete_op _ name) = name

-- The table's answer and its new entry for the name of a change, from the entry there.
abbrev pub promised : MemberOp → Option UnifiedMember → Result Bool × Option UnifiedMember
promised (add_op r) (some m) =
    (err (other (member_exists r.profile.name r.profile.team_id)), some m)
promised (add_op r) none = (ok true, some (into_unified r))
promised (upsert_op r) old = (ok true, some (into_unified r))
promised (update_op _ _ f _) (some m) = (ok true, some (f m))
promised (update_op _ _ f _) none = (ok false, none)
promised (delete_op _ _) old = (ok true, none)

-- The answer, and the file to save if there is one.
abbrev pub plan : MemberOp → MembersFile → Result Bool × Option MembersFile
plan (add_op r) file = elim (add_to_file r file) [
  | ok new ↦ (ok true, some new)
  | err e ↦ (err e, none)
  | panic ↦ (panic, none)
]
plan (upsert_op r) file = (ok true, some (upsert_in_file r file))
plan (update_op _ name f _) file = elim (update_in_file name f file) [
  | none ↦ (ok false, none)
  | some new ↦ (ok true, some new)
]
plan (delete_op _ name) file = elim (delete_from_file name file) [
  | none ↦ (ok true, none)
  | some new ↦ (ok true, some new)
]

abbrev pub after : MembersFile → Option MembersFile → List UnifiedMember
after file none = file.members
after file (some new) = new.members

-- A change of a list that does what the table promises.
pub record Does (op : MemberOp) (ms : List UnifiedMember) (answer : Result Bool)
    (ms' : List UnifiedMember) : Type 0 where
  pub answers : answer ≡ (promised op (find_member (name_of op) ms)).0
  pub entries :
      (n : Text)
      → find_member n ms' ≡ (
          if name_of op == n
          then (promised op (find_member (name_of op) ms)).1
          else find_member n ms)
  pub once : NoRepeat (names ms')

-- A plan does what the table promises.
abbrev pub Fulfills : MemberOp → MembersFile → Result Bool × Option MembersFile → Type 0
Fulfills op file p = Does op file.members p.0 (after file p.1)
