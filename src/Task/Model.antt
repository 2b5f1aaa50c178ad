-- ===== src/Task/Model.antt =====
-- models/task.rs: the status machine, the task record and the requests on it. `metadata` is JSON
-- one level deep, which is as far as the manager looks into it.
use agent_teams_mcp.Base.{Text, text, ◌≡◌, Bool, true, false, Option, none, some, List}

pub data TaskStatus : Type 0 where
  pending in_progress completed deleted : TaskStatus

unfoldable pub can_transition_to : TaskStatus → TaskStatus → Bool
can_transition_to _ deleted = true
can_transition_to pending in_progress = true
can_transition_to in_progress completed = true
can_transition_to _ _ = false

unfoldable pub status_eq : TaskStatus → TaskStatus → Bool
status_eq pending pending = true
status_eq in_progress in_progress = true
status_eq completed completed = true
status_eq deleted deleted = true
status_eq _ _ = false

unfoldable pub to_string : TaskStatus → Text
to_string pending = text "pending"
to_string in_progress = text "in_progress"
to_string completed = text "completed"
to_string deleted = text "deleted"

-- A value inside a JSON object: null, or any other value by its text. The values meant are those that
-- serde_json reads as it wrote them, which leaves out a floating-point number whose last digit changes
-- in that, and an object has each of its keys once.
pub data JsonValue : Type 0 where
  null : JsonValue
  value : Text → JsonValue

-- Metadata: an object, or any other JSON value.
pub data Json : Type 0 where
  object : List (Text × JsonValue) → Json
  plain : JsonValue → Json

pub record TaskFile : Type 0 where
  pub id : Text
  pub subject : Text
  pub description : Option Text
  pub active_form : Option Text
  pub status : TaskStatus
  pub owner : Option Text
  pub blocks : List Text
  pub blocked_by : List Text
  pub metadata : Option Json

-- serde_json reads a `null` where an `Option` stands as `None`.
unfoldable pub metadata_read : Option Json → Option Json
metadata_read (some (plain null)) = none
metadata_read m = m

-- A task as it comes back from its file.
unfoldable pub as_read : TaskFile → TaskFile
unfolding metadata_read
as_read t = record t { metadata = metadata_read t.metadata }

-- serde_json between a task and its text. Of what is written all comes back but a metadata of `null`,
-- and what is read has none.
pub record TaskSerde : Type 0 where
  pub encode : TaskFile → Text
  pub decode : Text → Option TaskFile
  pub decode-encode : (t : TaskFile) → decode (encode t) ≡ some (as_read t)
  pub decode_as_read : (content : Text) (t : TaskFile) → decode content ≡ some t → as_read t ≡ t

pub record CreateTaskRequest : Type 0 where
  pub subject : Text
  pub description : Option Text
  pub active_form : Option Text
  pub metadata : Option Json

pub record TaskUpdate : Type 0 where
  pub subject : Option Text
  pub description : Option Text
  pub active_form : Option Text
  pub status : Option TaskStatus
  pub owner : Option Text
  pub add_blocks : Option (List Text)
  pub add_blocked_by : Option (List Text)
  pub metadata : Option Json

pub record TaskFilter : Type 0 where
  pub status : Option TaskStatus
  pub owner : Option Text
  pub unblocked_only : Bool
