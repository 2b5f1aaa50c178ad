-- ===== src/TeamMode/MemberService.antt =====
-- team_mode/service/member_service.rs: the service over the store of members, and what the service
-- of messages asks of that store.
pub mod Senders
use agent_teams_mcp.Base.{
  Text, ℕ, Bool, true, false, Option, none, some, List, [], ◌∷◌, map, Serde, if◌then◌else◌,
}
use agent_teams_mcp.Error.{
  member_not_found, member_already_exists, Result, ok, err, panic, ◌>>=◌, ◌>>◌, ok_or, proceed,
}
use agent_teams_mcp.Names.{validate_name}
use agent_teams_mcp.TeamMode.Member.{
  MemberStatus, MemberKind, active, ExecutionProfile, UnifiedMember, MembersFile, MemberRecord,
}
use agent_teams_mcp.TeamMode.Members.{
  Files, get_member, list_by_team, list_active, add, update, delete, mark_removed,
}
use agent_teams_mcp.TeamMode.Routing.{Stores, ensure_team_exists}

pub record AddMemberRequest : Type 0 where
  pub team_id : Text
  pub name : Text
  pub kind : MemberKind
  pub role_label : Text
  pub role_description : Option Text
  pub execution : Option ExecutionProfile

pub record UpdateMemberRequest : Type 0 where
  pub team_id : Text
  pub name : Text
  pub role_label : Option Text
  pub role_description : Option Text
  pub execution : Option ExecutionProfile

-- `now` is `Utc::now()`.
unfoldable pub new_member : AddMemberRequest → ℕ → MemberRecord
new_member request now = record {
  profile = record {
    team_id = request.team_id;
    name = request.name;
    kind = request.kind;
    role_label = request.role_label;
    role_description = request.role_description;
    status = active;
    joined_at = now;
  };
  execution = request.execution;
}

abbrev given {ℓ} : {A : Type ℓ} → Option A → Option A → Option A
given none old = old
given (some a) old = some a

-- The closure that `update` gives to the store.
unfoldable pub fill : UpdateMemberRequest → UnifiedMember → UnifiedMember
fill request m = record m {
  role_label = elim request.role_label [ none ↦ m.role_label | some label ↦ label ];
  role_description = given request.role_description m.role_description;
  execution = given request.execution m.execution;
}

unfoldable pub activate : UnifiedMember → UnifiedMember
activate m = record m { status = active }

unfoldable pub refuse_existing : Text → Text → Option MemberRecord → Result (Unit {0})
refuse_existing team_id name none = ok tt
refuse_existing team_id name (some _) = err (member_already_exists team_id name)

-- `changed` is whether the store had the member.
unfoldable pub refuse_missing : Text → Text → Bool → Result (Unit {0})
refuse_missing team_id name changed = if changed then ok tt else err (member_not_found team_id name)

module _ (serde : Serde MembersFile) (stores : Stores) where
  unfoldable pub check_new : AddMemberRequest → Files → Result (Unit {0})
  unfolding refuse_existing
  check_new request files = do
    validate_name request.team_id
    validate_name request.name
    ensure_team_exists stores request.team_id
    found ← get_member serde request.team_id request.name files
    refuse_existing request.team_id request.name found

  unfoldable pub add_member : AddMemberRequest → ℕ → Files → Result MemberRecord × Files
  unfolding check_new new_member
  add_member request now files =
      proceed (check_new request files, files)
        (λ _ s.
          proceed (add serde (new_member request now) s)
            (λ _ s'. (ok (new_member request now), s')))

  unfoldable pub list_members : Text → Files → Result (List MemberRecord)
  list_members team_id files = do
    ensure_team_exists stores team_id
    list_by_team serde team_id files

  unfoldable pub list_active_members : Text → Files → Result (List MemberRecord)
  list_active_members team_id files = do
    ensure_team_exists stores team_id
    list_active serde team_id files

module _ (serde : Serde MembersFile) where
  unfoldable pub find_existing : Text → Text → Files → Result MemberRecord
  find_existing team_id name files = do
    found ← get_member serde team_id name files
    ok_or found (member_not_found team_id name)

  unfoldable pub check_update : UpdateMemberRequest → Files → Result MemberRecord
  unfolding find_existing
  check_update request files = do
    validate_name request.team_id
    validate_name request.name
    find_existing request.team_id request.name files

  unfoldable pub update_member : UpdateMemberRequest → Files → Result MemberRecord × Files
  unfolding check_update fill find_existing
  update_member request files =
      proceed (check_update request files, files)
        (λ _ s.
          proceed (update serde request.team_id request.name (fill request) s)
            (λ _ s'. (find_existing request.team_id request.name s', s')))

  unfoldable pub remove_member : Text → Text → Files → Result (Unit {0}) × Files
  unfolding find_existing
  remove_member team_id name files =
      proceed (find_existing team_id name files, files) (λ _ s. delete serde team_id name s)

  unfoldable pub mark_member_removed : Text → Text → Files → Result (Unit {0}) × Files
  unfolding refuse_missing
  mark_member_removed team_id name files =
      proceed (mark_removed serde team_id name files)
        (λ changed s. (refuse_missing team_id name changed, s))

  unfoldable pub mark_member_active : Text → Text → Files → Result (Unit {0}) × Files
  unfolding refuse_missing activate
  mark_member_active team_id name files =
      proceed (update serde team_id name activate files)
        (λ changed s. (refuse_missing team_id name changed, s))

  -- The stores that the service of messages asks, with the members on this disk. `iterated` gives the
  -- order in which a hash map with these entries iterates (`active_members_by_name`).
  unfoldable pub with_members :
      (List (Text × MemberStatus) → List (Text × MemberStatus)) → Stores → Files → Stores
  with_members iterated stores files = record stores {
    member = λ team name. (do
      found ← get_member serde team name files
      ok (elim found [ none ↦ none | some r ↦ some r.profile.status ]));
    members = λ team. (do
      records ← list_by_team serde team files
      ok (iterated (map (λ r. (r.profile.name, r.profile.status)) records)));
  }
