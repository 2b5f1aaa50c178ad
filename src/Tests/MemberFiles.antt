-- ===== src/Tests/MemberFiles.antt =====
-- A concrete encoding of the files of members, and sample members.
use agent_teams_mcp.Base.{Text, text, ◌≡◌, refl, ℕ, zero, suc, Option, none, some, List, [], Serde}
use agent_teams_mcp.TeamMode.Member.{
  MemberKind, lead, member, MemberStatus, active, invited, suspended, removed, ExecutionMode,
  external, managed, ExecutionSessionState, unknown, starting, running, paused, stopped, failed,
  ExecutionProfile, UnifiedMember, MembersFile, MemberRecord,
}
use agent_teams_mcp.Tests.Coding.{
  Coding, nat_coding, pair_coding, copy_coding, list_coding, option_coding, serde_of,
}
use agent_teams_mcp.Tests.Samples.{text_coding}

pub kind_to : MemberKind → ℕ
kind_to lead = 0
kind_to member = 1

pub kind_from : ℕ → MemberKind
kind_from zero = lead
kind_from _ = member

pub kind_same : (x : MemberKind) → kind_from (kind_to x) ≡ x
unfolding kind_to kind_from
kind_same lead = refl
kind_same member = refl

pub kind_coding : Coding MemberKind
unfolding kind_to kind_from
kind_coding = copy_coding nat_coding kind_to kind_from kind_same

pub status_to : MemberStatus → ℕ
status_to active = 0
status_to invited = 1
status_to suspended = 2
status_to removed = 3

pub status_from : ℕ → MemberStatus
status_from zero = active
status_from (suc zero) = invited
status_from (suc (suc zero)) = suspended
status_from _ = removed

pub status_same : (x : MemberStatus) → status_from (status_to x) ≡ x
unfolding status_to status_from
status_same active = refl
status_same invited = refl
status_same suspended = refl
status_same removed = refl

pub status_coding : Coding MemberStatus
unfolding status_to status_from
status_coding = copy_coding nat_coding status_to status_from status_same

pub mode_to : ExecutionMode → ℕ
mode_to external = 0
mode_to managed = 1

pub mode_from : ℕ → ExecutionMode
mode_from zero = external
mode_from _ = managed

pub mode_same : (x : ExecutionMode) → mode_from (mode_to x) ≡ x
unfolding mode_to mode_from
mode_same external = refl
mode_same managed = refl

pub mode_coding : Coding ExecutionMode
unfolding mode_to mode_from
mode_coding = copy_coding nat_coding mode_to mode_from mode_same

pub session_to : ExecutionSessionState → ℕ
session_to unknown = 0
session_to starting = 1
session_to running = 2
session_to paused = 3
session_to stopped = 4
session_to failed = 5

pub session_from : ℕ → ExecutionSessionState
session_from zero = unknown
session_from (suc zero) = starting
session_from (suc (suc zero)) = running
session_from (suc (suc (suc zero))) = paused
session_from (suc (suc (suc (suc zero)))) = stopped
session_from _ = failed

pub session_same : (x : ExecutionSessionState) → session_from (session_to x) ≡ x
unfolding session_to session_from
session_same unknown = refl
session_same starting = refl
session_same running = refl
session_same paused = refl
session_same stopped = refl
session_same failed = refl

pub session_coding : Coding ExecutionSessionState
unfolding session_to session_from
session_coding = copy_coding nat_coding session_to session_from session_same

abbrev ExecutionProfileParts : Type 0
ExecutionProfileParts =
    ExecutionMode
    × (Option Text
        × (Option Text
            × (Option Text
                × (Option Text
                    × (List (Text × Text)
                        × (Option Text
                            × (List Text
                                × (Option ExecutionSessionState
                                    × (Option Text × (Option Text))))))))))

pub profile_to : ExecutionProfile → ExecutionProfileParts
profile_to x = (
  x.execution_mode,
  (
    x.adapter,
    (
      x.agent_name,
      (
        x.model,
        (
          x.cwd,
          (
            x.env,
            (x.system_prompt, (x.skills, (x.session_state, (x.session_id, (x.reasoning_effort))))),
          ),
        ),
      ),
    ),
  ),
)

pub profile_from : ExecutionProfileParts → ExecutionProfile
profile_from p = record {
  execution_mode = p.0;
  adapter = p.1.0;
  agent_name = p.1.1.0;
  model = p.1.1.1.0;
  cwd = p.1.1.1.1.0;
  env = p.1.1.1.1.1.0;
  system_prompt = p.1.1.1.1.1.1.0;
  skills = p.1.1.1.1.1.1.1.0;
  session_state = p.1.1.1.1.1.1.1.1.0;
  session_id = p.1.1.1.1.1.1.1.1.1.0;
  reasoning_effort = p.1.1.1.1.1.1.1.1.1.1;
}

pub profile_same : (x : ExecutionProfile) → profile_from (profile_to x) ≡ x
unfolding profile_to profile_from
profile_same x = refl

pub profile_coding : Coding ExecutionProfile
unfolding profile_to profile_from text_coding
profile_coding =
    copy_coding
      (pair_coding mode_coding (
        pair_coding (option_coding text_coding) (
          pair_coding (option_coding text_coding) (
            pair_coding (option_coding text_coding) (
              pair_coding (option_coding text_coding) (
                pair_coding (list_coding (pair_coding text_coding text_coding)) (
                  pair_coding (option_coding text_coding) (
                    pair_coding (list_coding text_coding) (
                      pair_coding (option_coding session_coding) (
                        pair_coding (option_coding text_coding)
                          (option_coding text_coding)))))))))))
      profile_to profile_from profile_same

abbrev UnifiedMemberParts : Type 0
UnifiedMemberParts =
    MemberKind × (Text × (MemberStatus × (Text × (Option Text × (ℕ × (Option ExecutionProfile))))))

pub member_to : UnifiedMember → UnifiedMemberParts
member_to x = (
  x.kind,
  (x.name, (x.status, (x.role_label, (x.role_description, (x.joined_at, (x.execution)))))),
)

pub member_from : UnifiedMemberParts → UnifiedMember
member_from p = record {
  kind = p.0;
  name = p.1.0;
  status = p.1.1.0;
  role_label = p.1.1.1.0;
  role_description = p.1.1.1.1.0;
  joined_at = p.1.1.1.1.1.0;
  execution = p.1.1.1.1.1.1;
}

pub member_same : (x : UnifiedMember) → member_from (member_to x) ≡ x
unfolding member_to member_from
member_same x = refl

pub member_coding : Coding UnifiedMember
unfolding member_to member_from text_coding
member_coding =
    copy_coding
      (pair_coding kind_coding (
        pair_coding text_coding (
          pair_coding status_coding (
            pair_coding text_coding (
              pair_coding (option_coding text_coding)
                (pair_coding nat_coding (option_coding profile_coding)))))))
      member_to member_from member_same

abbrev MembersFileParts : Type 0
MembersFileParts = ℕ × (List UnifiedMember)

pub file_to : MembersFile → MembersFileParts
file_to x = (x.version, (x.members))

pub file_from : MembersFileParts → MembersFile
file_from p = record { version = p.0; members = p.1 }

pub file_same : (x : MembersFile) → file_from (file_to x) ≡ x
unfolding file_to file_from
file_same x = refl

pub file_coding : Coding MembersFile
unfolding file_to file_from text_coding
file_coding =
    copy_coding (pair_coding nat_coding (list_coding member_coding)) file_to file_from file_same

unfoldable pub members_serde : Serde MembersFile
members_serde = serde_of file_coding

abbrev pub profile : ExecutionProfile
profile = record {
  execution_mode = managed;
  adapter = none;
  agent_name = none;
  model = some (text "m");
  cwd = none;
  env = [];
  system_prompt = none;
  skills = [];
  session_state = some running;
  session_id = none;
  reasoning_effort = none;
}

abbrev pub worker : Text → MemberRecord
worker name = record {
  profile = record {
    team_id = text "t";
    name = name;
    kind = member;
    role_label = text "worker";
    role_description = none;
    status = active;
    joined_at = 1;
  };
  execution = some profile;
}
