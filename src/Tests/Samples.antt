-- ===== src/Tests/Samples.antt =====
-- A concrete encoding of task files, and sample tasks.
use agent_teams_mcp.Base.{
  Text, text, ◌≡◌, refl, ap, subst, ℕ, zero, suc, Option, none, some, List, [], ◌∷◌,
}
use agent_teams_mcp.Task.Model.{
  TaskStatus, pending, in_progress, completed, deleted, JsonValue, null, value, Json, object, plain,
  TaskFile, TaskUpdate, TaskSerde, as_read, metadata_read,
}
use agent_teams_mcp.Tests.Coding.{
  Coding, nat_coding, pair_coding, copy_coding, list_coding, option_coding, serde_of,
}

unfoldable pub text_coding : Coding Text
text_coding = list_coding nat_coding

pub status_to : TaskStatus → ℕ
status_to pending = 0
status_to in_progress = 1
status_to completed = 2
status_to deleted = 3

pub status_from : ℕ → TaskStatus
status_from zero = pending
status_from (suc zero) = in_progress
status_from (suc (suc zero)) = completed
status_from _ = deleted

pub status_same : (s : TaskStatus) → status_from (status_to s) ≡ s
unfolding status_to status_from
status_same pending = refl
status_same in_progress = refl
status_same completed = refl
status_same deleted = refl

-- Metadata is written as whether it is an object, and its entries; null is an entry with no value.
abbrev JsonParts : Type 0
JsonParts = ℕ × List (Text × Option Text)

pub value_to : JsonValue → Option Text
value_to null = none
value_to (value v) = some v

pub value_from : Option Text → JsonValue
value_from none = null
value_from (some v) = value v

pub entries_to : List (Text × JsonValue) → List (Text × Option Text)
unfolding value_to
entries_to [] = []
entries_to ((k, v) ∷ m) = (k, value_to v) ∷ entries_to m

pub entries_from : List (Text × Option Text) → List (Text × JsonValue)
unfolding value_from
entries_from [] = []
entries_from ((k, v) ∷ m) = (k, value_from v) ∷ entries_from m

pub json_to : Json → JsonParts
unfolding entries_to
json_to (object m) = (0, entries_to m)
json_to (plain v) = (1, ([], value_to v) ∷ [])

pub json_of : ℕ → List (Text × Option Text) → Json
unfolding entries_from
json_of zero m = object (entries_from m)
json_of (suc _) [] = plain null
json_of (suc _) ((_, v) ∷ _) = plain (value_from v)

pub json_from : JsonParts → Json
unfolding json_of
json_from (n, m) = json_of n m

pub value_same : (v : JsonValue) → value_from (value_to v) ≡ v
unfolding value_to value_from
value_same null = refl
value_same (value v) = refl

pub entries_same : (m : List (Text × JsonValue)) → entries_from (entries_to m) ≡ m
unfolding entries_to entries_from
entries_same [] = refl
entries_same ((k, v) ∷ m) = rw (value_same v, entries_same m)

pub json_same : (j : Json) → json_from (json_to j) ≡ j
unfolding json_to json_from
json_same (object m) = rw (entries_same m)
json_same (plain v) = rw (value_same v)

pub json_coding : Coding Json
unfolding json_to json_from
json_coding =
    copy_coding
      (pair_coding nat_coding (list_coding (pair_coding text_coding (option_coding text_coding))))
      json_to json_from json_same

pub status_coding : Coding TaskStatus
unfolding status_to status_from
status_coding = copy_coding nat_coding status_to status_from status_same

abbrev Strings : Type 0
Strings = Text × (Text × (Option Text × (Option Text × Option Text)))

abbrev TaskParts : Type 0
TaskParts = Strings × (TaskStatus × (List Text × (List Text × Option Json)))

pub parts_of : TaskFile → TaskParts
parts_of t = (
  (t.id, (t.subject, (t.description, (t.active_form, t.owner)))),
  (t.status, (t.blocks, (t.blocked_by, t.metadata))),
)

pub task_of : TaskParts → TaskFile
task_of p = record {
  id = p.0.0;
  subject = p.0.1.0;
  description = p.0.1.1.0;
  active_form = p.0.1.1.1.0;
  status = p.1.0;
  owner = p.0.1.1.1.1;
  blocks = p.1.1.0;
  blocked_by = p.1.1.1.0;
  metadata = p.1.1.1.1;
}

pub task_same : (t : TaskFile) → task_of (parts_of t) ≡ t
unfolding parts_of task_of
task_same t = refl

pub task_coding : Coding TaskFile
unfolding parts_of task_of text_coding status_coding json_coding
task_coding =
    copy_coding
      (pair_coding
        (pair_coding text_coding (
          pair_coding text_coding (
            pair_coding (option_coding text_coding)
              (pair_coding (option_coding text_coding) (option_coding text_coding)))))
        (pair_coding status_coding (
          pair_coding (list_coding text_coding)
            (pair_coding (list_coding text_coding) (option_coding json_coding)))))
      parts_of task_of task_same

as_read_idem : (t : TaskFile) → as_read (as_read t) ≡ as_read t
unfolding as_read metadata_read
as_read_idem t = again t t.metadata
  where
    again :
        (t : TaskFile) (m : Option Json)
        → as_read (as_read (record t { metadata = m })) ≡ as_read (record t { metadata = m })
    again t none = refl
    again t (some (object m)) = refl
    again t (some (plain null)) = refl
    again t (some (plain (value v))) = refl

pub read_of : Option TaskFile → Option TaskFile
read_of none = none
read_of (some t) = some (as_read t)

pub read_of-as_read : (o : Option TaskFile) (t : TaskFile) → read_of o ≡ some t → as_read t ≡ t
unfolding read_of
read_of-as_read none t h = cc
read_of-as_read (some u) t h =
    let e : as_read u ≡ t = cc in subst (λ x. as_read x ≡ x) e (as_read_idem u)

unfoldable pub task_serde : TaskSerde
unfolding task_coding serde_of nat_coding pair_coding copy_coding list_coding option_coding as_read
    metadata_read read_of
task_serde = record {
  encode = (serde_of task_coding).encode;
  decode = λ content. read_of ((serde_of task_coding).decode content);
  decode-encode = λ t. ap read_of ((serde_of task_coding).decode-encode t);
  decode_as_read = λ content t h. read_of-as_read ((serde_of task_coding).decode content) t h;
}

abbrev pub task : Text → TaskStatus → List Text → TaskFile
task id status blocked_by = record {
  id = id;
  subject = text "work";
  description = none;
  active_form = none;
  status = status;
  owner = none;
  blocks = [];
  blocked_by = blocked_by;
  metadata = some (object ((text "k", value (text "v")) ∷ []));
}

abbrev pub no_update : TaskUpdate
no_update = record {
  subject = none;
  description = none;
  active_form = none;
  status = none;
  owner = none;
  add_blocks = none;
  add_blocked_by = none;
  metadata = none;
}
