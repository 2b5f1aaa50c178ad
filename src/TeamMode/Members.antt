-- ===== src/TeamMode/Members.antt =====
-- team_mode/domain/member.rs and team_mode/storage/member_store.rs: the members of the teams, one
-- `members.json` for each team. A change first reads the file, without a lock, and then writes it
-- whole: `plan_add` and its like are the first half and `save_file` is the second.
pub mod Changes
pub mod Table
pub mod Plans
pub mod Refined
pub mod Reading
pub mod Overlap
use agent_teams_mcp.Base.{
  Text, text_le, ◌==◌, Bool, true, false, not, Option, none, some, List, [], ◌∷◌, ◌++◌, any, find,
  retain, map, length, nat_eq, lookup, insert, remove, sort_by, Serde, if◌then◌else◌,
}
use agent_teams_mcp.Error.{json, other, member_exists, Result, ok, err, ◌>>=◌, ◌>>◌, proceed}
use agent_teams_mcp.Names.{validate_name}
use agent_teams_mcp.TeamMode.Member.{
  ExecutionProfile, UnifiedMember, MembersFile, MemberRecord, from_unified, into_unified,
  members_file_version, lead, member, removed, stopped,
}

-- The texts of the files by team.
abbrev pub Files : Type 0
Files = List (Text × Text)

-- `iter().find(|m| m.name == name)`
unfoldable pub find_member : Text → List UnifiedMember → Option UnifiedMember
find_member name members = find (λ m. m.name == name) members

-- `if let Some(slot) = members.iter_mut().find(...)`: the change of the first that has the name.
unfoldable pub change_member :
    (UnifiedMember → UnifiedMember) → Text → List UnifiedMember → List UnifiedMember
change_member f name [] = []
change_member f name (m ∷ ms) =
    let rest = change_member f name ms in if m.name == name then f m ∷ ms else m ∷ rest

abbrev pub renewed : List UnifiedMember → MembersFile
renewed members = record { version = members_file_version; members = members }

-- What `add` does with the file that it has read.
unfoldable pub add_to_file : MemberRecord → MembersFile → Result MembersFile
unfolding into_unified
add_to_file r file =
    if any (λ m. m.name == r.profile.name) file.members
    then err (other (member_exists r.profile.name r.profile.team_id))
    else ok (renewed (file.members ++ into_unified r ∷ []))

unfoldable pub upsert_in_file : MemberRecord → MembersFile → MembersFile
unfolding into_unified find_member change_member
upsert_in_file r file = elim (find_member r.profile.name file.members) [
  | some _ ↦ renewed (change_member (λ _. into_unified r) r.profile.name file.members)
  | none ↦ renewed (file.members ++ into_unified r ∷ [])
]

-- `none`: nothing to save.
unfoldable pub update_in_file :
    Text → (UnifiedMember → UnifiedMember) → MembersFile → Option MembersFile
unfolding find_member change_member
update_in_file name f file = elim (find_member name file.members) [
  | none ↦ none
  | some _ ↦ some (renewed (change_member f name file.members))
]

unfoldable pub delete_from_file : Text → MembersFile → Option MembersFile
delete_from_file name file =
    let kept = retain (λ m. not (m.name == name)) file.members in
    if nat_eq (length kept) (length file.members) then none else some (renewed kept)

-- The closures that the program gives to `update`.
unfoldable pub remove_mark : UnifiedMember → UnifiedMember
remove_mark m = record m {
  status = removed;
  execution = elim m.execution [
    | none ↦ none
    | some e ↦ some (record e { session_state = some stopped })
  ];
}

module _ (serde : Serde MembersFile) where
  unfoldable pub load_file : Text → Files → Result MembersFile
  load_file team_id files = elim (lookup team_id files) [
    | none ↦ ok (record { version = members_file_version; members = [] })
    | some t ↦ elim (serde.decode t) [ none ↦ err json | some file ↦ ok file ]
  ]

  unfoldable pub save_file : Text → MembersFile → Files → Files
  save_file team_id file files = insert team_id (serde.encode file) files

  abbrev pub save_result : Text → Result MembersFile → Files → Result (Unit {0}) × Files
  save_result team_id plan files =
      proceed (plan, files) (λ file s. (ok tt, save_file team_id file s))

  unfoldable pub list_by_team : Text → Files → Result (List MemberRecord)
  unfolding load_file from_unified
  list_by_team team_id files = do
    validate_name team_id
    file ← load_file team_id files
    ok (
        sort_by (λ a b. text_le a.profile.name b.profile.name)
          (map (from_unified team_id) file.members))

  unfoldable pub list_active : Text → Files → Result (List MemberRecord)
  unfolding list_by_team
  list_active team_id files = do
    records ← list_by_team team_id files
    ok (retain (λ r. elim r.profile.status [ removed ↦ false | _ ↦ true ]) records)

  unfoldable pub get_member : Text → Text → Files → Result (Option MemberRecord)
  unfolding load_file from_unified find_member
  get_member team_id name files = do
    validate_name team_id
    validate_name name
    file ← load_file team_id files
    ok (elim (find_member name file.members) [
      | none ↦ none
      | some u ↦ some (from_unified team_id u)
    ])

  unfoldable pub get_lead : Text → Files → Result (Option MemberRecord)
  unfolding load_file from_unified
  get_lead team_id files = do
    validate_name team_id
    file ← load_file team_id files
    ok (elim (find (λ m. elim m.kind [ lead ↦ true | member ↦ false ]) file.members) [
      | none ↦ none
      | some u ↦ some (from_unified team_id u)
    ])

  unfoldable pub plan_add : MemberRecord → Files → Result MembersFile
  unfolding load_file add_to_file
  plan_add r files = do
    validate_name r.profile.team_id
    validate_name r.profile.name
    file ← load_file r.profile.team_id files
    add_to_file r file

  unfoldable pub add : MemberRecord → Files → Result (Unit {0}) × Files
  unfolding plan_add save_file
  add r files = save_result r.profile.team_id (plan_add r files) files

  unfoldable pub plan_upsert : MemberRecord → Files → Result MembersFile
  unfolding load_file upsert_in_file
  plan_upsert r files = do
    validate_name r.profile.team_id
    validate_name r.profile.name
    file ← load_file r.profile.team_id files
    ok (upsert_in_file r file)

  unfoldable pub upsert : MemberRecord → Files → Result (Unit {0}) × Files
  unfolding plan_upsert save_file
  upsert r files = save_result r.profile.team_id (plan_upsert r files) files

  unfoldable pub plan_update :
      Text → Text → (UnifiedMember → UnifiedMember) → Files → Result (Option MembersFile)
  unfolding load_file update_in_file
  plan_update team_id name f files = do
    validate_name team_id
    validate_name name
    file ← load_file team_id files
    ok (update_in_file name f file)

  unfoldable pub update :
      Text → Text → (UnifiedMember → UnifiedMember) → Files → Result Bool × Files
  unfolding plan_update save_file
  update team_id name f files =
      proceed (plan_update team_id name f files, files)
        (λ changed s. elim changed [
          | none ↦ (ok false, s)
          | some file ↦ (ok true, save_file team_id file s)
        ])

  unfoldable pub plan_delete : Text → Text → Files → Result (Option MembersFile)
  unfolding load_file delete_from_file
  plan_delete team_id name files = do
    validate_name team_id
    validate_name name
    file ← load_file team_id files
    ok (delete_from_file name file)

  unfoldable pub delete : Text → Text → Files → Result (Unit {0}) × Files
  unfolding plan_delete save_file
  delete team_id name files =
      proceed (plan_delete team_id name files, files)
        (λ changed s. elim changed [
          | none ↦ (ok tt, s)
          | some file ↦ (ok tt, save_file team_id file s)
        ])

  unfoldable pub mark_removed : Text → Text → Files → Result Bool × Files
  unfolding update remove_mark
  mark_removed team_id name files = update team_id name remove_mark files

  unfoldable pub save_execution : Text → Text → ExecutionProfile → Files → Result Bool × Files
  unfolding update
  save_execution team_id name execution files =
      update team_id name (λ m. record m { execution = some execution }) files

  unfoldable pub clear_execution : Text → Text → Files → Result Bool × Files
  unfolding update
  clear_execution team_id name files =
      update team_id name (λ m. record m { execution = none }) files

  unfoldable pub delete_team_members : Text → Files → Result (Unit {0}) × Files
  delete_team_members team_id files =
      proceed (validate_name team_id, files) (λ _ s. (ok tt, remove team_id s))
