-- ===== src/TeamMode/Member.antt =====
-- team_mode/domain/member.rs: the members of a team, as the file has them and as the services see
-- them (team_mode/storage/member_store.rs), and runtime/session_state.rs.
use agent_teams_mcp.Base.{Text, ℕ, Option, List}

pub data MemberKind : Type 0 where
  lead member : MemberKind

pub data MemberStatus : Type 0 where
  active invited suspended removed : MemberStatus

pub data ExecutionMode : Type 0 where
  external managed : ExecutionMode

pub data ExecutionSessionState : Type 0 where
  unknown starting running paused stopped failed : ExecutionSessionState

pub record ExecutionProfile : Type 0 where
  pub execution_mode : ExecutionMode
  pub adapter : Option Text
  pub agent_name : Option Text
  pub model : Option Text
  pub cwd : Option Text
  pub env : List (Text × Text)
  pub system_prompt : Option Text
  pub skills : List Text
  pub session_state : Option ExecutionSessionState
  pub session_id : Option Text
  pub reasoning_effort : Option Text

pub record MemberProfile : Type 0 where
  pub team_id : Text
  pub name : Text
  pub kind : MemberKind
  pub role_label : Text
  pub role_description : Option Text
  pub status : MemberStatus
  pub joined_at : ℕ

pub record UnifiedMember : Type 0 where
  pub kind : MemberKind
  pub name : Text
  pub status : MemberStatus
  pub role_label : Text
  pub role_description : Option Text
  pub joined_at : ℕ
  pub execution : Option ExecutionProfile

pub record MembersFile : Type 0 where
  pub version : ℕ
  pub members : List UnifiedMember

pub record MemberRecord : Type 0 where
  pub profile : MemberProfile
  pub execution : Option ExecutionProfile

unfoldable pub from_unified : Text → UnifiedMember → MemberRecord
from_unified team_id u = record {
  profile = record {
    team_id = team_id;
    name = u.name;
    kind = u.kind;
    role_label = u.role_label;
    role_description = u.role_description;
    status = u.status;
    joined_at = u.joined_at;
  };
  execution = u.execution;
}

unfoldable pub into_unified : MemberRecord → UnifiedMember
into_unified r = record {
  kind = r.profile.kind;
  name = r.profile.name;
  status = r.profile.status;
  role_label = r.profile.role_label;
  role_description = r.profile.role_description;
  joined_at = r.profile.joined_at;
  execution = r.execution;
}

abbrev pub members_file_version : ℕ
members_file_version = 1
