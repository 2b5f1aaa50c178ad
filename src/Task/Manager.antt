-- ===== src/Task/Manager.antt =====
-- task/mod.rs and util/id_gen.rs: the manager of one team's task directory. Every operation runs
-- under the directory's lock, so each is one step; the file system's own failures are left out.
pub mod Cascade
pub mod Create
pub mod Update
pub mod Listing
use agent_teams_mcp.Base.{
  Text, text, ◌==◌, ℕ, ◌+◌, ◌-◌, ◌%◌, leb, Bool, true, false, not, ◌&&◌, Option, none, some, List,
  [], ◌∷◌, ◌++◌, contains, insert_set, lookup, insert, remove, retain, sort_by, Serde,
  if◌then◌else◌,
}
use agent_teams_mcp.Error.{
  Error, task_not_found, invalid_status_transition, json, Result, ok, err, panic,
}
use agent_teams_mcp.Names.{validate_name}
use agent_teams_mcp.Decimal.{u64_mod, to_string, parse_u64}
use agent_teams_mcp.Task.Model.{
  TaskSerde, TaskStatus, pending, completed, can_transition_to, status_eq, to_string as status_text,
  null, value, JsonValue, object, plain, Json, TaskFile, CreateTaskRequest, TaskUpdate, TaskFilter,
}

-- A directory: the texts of its files by their names, in the order in which they are listed.
abbrev pub Dir : Type 0
Dir = List (Text × Text)

-- A step on the directory, which keeps what was written before an error.
abbrev pub Action : Type 0 → Type 0
Action A = Dir → Result A × Dir

infixl 5 ◌>>=◌ ◌>>◌
abbrev pub ◌>>=◌ : {A B : Type 0} → Action A → (A → Action B) → Action B
◌>>=◌ m f dir =
    let (r, dir') = m dir in
    elim r [ ok a ↦ f a dir' | err e ↦ (err e, dir') | panic ↦ (panic, dir') ]

abbrev pub ◌>>◌ : {B : Type 0} → Action (Unit {0}) → Action B → Action B
m >> k = m >>= λ _. k

abbrev pub pure : {A : Type 0} → A → Action A
pure a dir = (ok a, dir)

-- A check or a computation that does not touch the directory.
abbrev pub lift : {A : Type 0} → Result A → Action A
lift r dir = (r, dir)

unfoldable pub strip_suffix : Text → Text → Option Text
strip_suffix suffix [] = if suffix == [] then some [] else none
strip_suffix suffix (c ∷ s) =
    let rest = strip_suffix suffix s in
    if (c ∷ s) == suffix then some [] else elim rest [ none ↦ none | some t ↦ some (c ∷ t) ]

-- `format!("{id}.json")`
unfoldable pub file_name : Text → Text
file_name id = id ++ text ".json"

-- The number of a file name that is a number followed by `.json`, behind its stem.
unfoldable pub numeric_stem : Text → Option (Text × ℕ)
unfolding strip_suffix
numeric_stem name = elim (strip_suffix (text ".json") name) [
  | none ↦ none
  | some stem ↦ elim (parse_u64 stem) [ none ↦ none | some n ↦ some (stem, n) ]
]

-- `.max().unwrap_or(0)` over the numbers of the directory's files.
unfoldable pub max_id : Dir → ℕ
max_id [] = 0
max_id ((name, _) ∷ dir) =
    let rest = max_id dir in
    elim (numeric_stem name) [ none ↦ rest | some (_, n) ↦ if leb n rest then rest else n ]

-- `max_id + 1` wraps around, as `u64` does in a release build.
unfoldable pub next_task_id : Dir → Text
unfolding max_id
next_task_id dir = to_string ((max_id dir + 1) % u64_mod)

-- `if let Some(new) = update { *field = Some(new) }`
abbrev pub overwrite : {A : Type 0} → Option A → Option A → Option A
overwrite none old = old
overwrite (some new) old = some new

unfoldable pub push_missing : List Text → List Text → List Text
push_missing [] ids = ids
push_missing (a ∷ add) ids = push_missing add (insert_set a ids)

abbrev pub push_missing? : Option (List Text) → List Text → List Text
push_missing? none ids = ids
push_missing? (some add) ids = push_missing add ids

-- The loop over the new keys: null removes a key, any other value replaces it.
unfoldable pub merge_object :
    List (Text × JsonValue) → List (Text × JsonValue) → List (Text × JsonValue)
merge_object [] old = old
merge_object ((k, null) ∷ new) old = merge_object new (remove k old)
merge_object ((k, value v) ∷ new) old = merge_object new (insert k (value v) old)

unfoldable pub merge_metadata : Option Json → Option Json → Option Json
unfolding merge_object
merge_metadata (some (object new)) none = some (object (merge_object new []))
merge_metadata (some (object new)) (some (object old)) = some (object (merge_object new old))
merge_metadata (some (object new)) (some (plain v)) = some (plain v)
merge_metadata (some (plain v)) old = old
merge_metadata none old = old

unfoldable pub change_status : Option TaskStatus → TaskStatus → Result TaskStatus
change_status none old = ok old
change_status (some new) old =
    if can_transition_to old new
    then ok new
    else err (invalid_status_transition (status_text old) (status_text new))

-- The other fields, once the status is settled.
unfoldable pub apply_fields : TaskFile → TaskUpdate → TaskStatus → TaskFile
apply_fields task update status = record {
  id = task.id;
  subject = elim update.subject [ none ↦ task.subject | some s ↦ s ];
  description = overwrite update.description task.description;
  active_form = overwrite update.active_form task.active_form;
  status = status;
  owner = overwrite update.owner task.owner;
  blocks = push_missing? update.add_blocks task.blocks;
  blocked_by = push_missing? update.add_blocked_by task.blocked_by;
  metadata = merge_metadata update.metadata task.metadata;
}

unfoldable pub apply_update : TaskFile → TaskUpdate → Result TaskFile
unfolding change_status apply_fields
apply_update task update = elim (change_status update.status task.status) [
  | ok status ↦ ok (apply_fields task update status)
  | err e ↦ err e
  | panic ↦ panic
]

-- What `list_tasks` keeps, by one part of the filter at a time.
unfoldable pub matches_status : Option TaskStatus → TaskFile → Bool
matches_status none t = true
matches_status (some status) t = status_eq t.status status

unfoldable pub matches_owner : Option Text → TaskFile → Bool
matches_owner none t = true
matches_owner (some owner) t = elim t.owner [ none ↦ false | some o ↦ o == owner ]

unfoldable pub is_unblocked : TaskFile → Bool
is_unblocked t = elim t.blocked_by [ [] ↦ true | _ ∷ _ ↦ false ]

unfoldable pub apply_filter : Option TaskFilter → List TaskFile → List TaskFile
unfolding matches_status matches_owner is_unblocked
apply_filter none tasks = tasks
apply_filter (some filter) tasks =
    let by_status = retain (matches_status filter.status) tasks in
    let by_owner = retain (matches_owner filter.owner) by_status in
    if filter.unblocked_only then retain is_unblocked by_owner else by_owner

-- `parse::<u64>().unwrap_or(u64::MAX)`, the key of the order.
unfoldable pub id_number : TaskFile → ℕ
id_number t = elim (parse_u64 t.id) [ none ↦ u64_mod - 1 | some n ↦ n ]

unfoldable pub by_id : TaskFile → TaskFile → Bool
unfolding id_number
by_id a b = leb (id_number a) (id_number b)

module _ (serde : TaskSerde) where
  open serde use {encode, decode}

  unfoldable pub read_task_at : Text → Text → Action TaskFile
  read_task_at team id dir = elim (lookup (file_name id) dir) [
    | none ↦ (err (task_not_found team id), dir)
    | some content ↦ elim (decode content) [ none ↦ (err json, dir) | some t ↦ (ok t, dir) ]
  ]

  unfoldable pub write_task : Text → TaskFile → Action (Unit {0})
  write_task id task dir = (ok tt, insert (file_name id) (encode task) dir)

  unfoldable pub remove_task : Text → Action (Unit {0})
  remove_task id dir = (ok tt, remove (file_name id) dir)

  -- All task files of the directory; the files of other names are passed over.
  unfoldable pub read_all_tasks_in : Dir → Result (List TaskFile)
  read_all_tasks_in [] = ok []
  read_all_tasks_in ((name, content) ∷ dir) =
      let rest = read_all_tasks_in dir in
      elim (numeric_stem name) [
        | none ↦ rest
        | some _ ↦ elim (decode content) [
          | none ↦ err json
          | some t ↦ elim rest [ ok ts ↦ ok (t ∷ ts) | err e ↦ err e | panic ↦ panic ]
        ]
      ]

  -- One file of the loop of `cascade_completion`, by its new text.
  unfoldable pub release_text : Text → Text → Result Text
  release_text done content = elim (decode content) [
    | none ↦ err json
    | some t ↦
        if contains done t.blocked_by
        then ok (encode (record t { blocked_by = retain (λ id. not (id == done)) t.blocked_by }))
        else ok content
  ]

  unfoldable pub release_file : Text → Text → Text → Result Text
  unfolding release_text
  release_file done name content = elim (numeric_stem name) [
    | none ↦ ok content
    | some (stem, _) ↦ if stem == done then ok content else release_text done content
  ]

  -- An error ends the loop; the files before it are already rewritten.
  unfoldable pub cascade_completion : Text → Action (Unit {0})
  cascade_completion done [] = (ok tt, [])
  cascade_completion done ((name, content) ∷ dir) =
      let (r, dir') = cascade_completion done dir in
      elim (release_file done name content) [
        | ok content' ↦ (r, (name, content') ∷ dir')
        | err e ↦ (err e, (name, content) ∷ dir)
        | panic ↦ (panic, (name, content) ∷ dir)
      ]

  unfoldable pub new_task : Text → CreateTaskRequest → TaskFile
  new_task id req = record {
    id = id;
    subject = req.subject;
    description = req.description;
    active_form = req.active_form;
    status = pending;
    owner = none;
    blocks = [];
    blocked_by = [];
    metadata = req.metadata;
  }

  unfoldable pub create_task : Text → CreateTaskRequest → Action TaskFile
  unfolding write_task
  create_task team req = do
    lift (validate_name team)
    id ← λ dir. (ok (next_task_id dir), dir)
    write_task id (new_task id req)
    pure (new_task id req)

  unfoldable pub is_completed : TaskFile → Bool
  is_completed t = status_eq t.status completed

  unfoldable pub cascade_if : Bool → Text → Action (Unit {0})
  cascade_if true id = cascade_completion id
  cascade_if false id = pure tt

  unfoldable pub update_task : Text → Text → TaskUpdate → Action TaskFile
  unfolding read_task_at write_task cascade_if
  update_task team id update = do
    lift (validate_name team)
    lift (validate_name id)
    task ← read_task_at team id
    task' ← lift (apply_update task update)
    write_task id task'
    cascade_if (not (is_completed task) && is_completed task') id
    pure task'

  unfoldable pub get_task : Text → Text → Action TaskFile
  unfolding read_task_at
  get_task team id = do lift (validate_name team); lift (validate_name id); read_task_at team id

  unfoldable pub list_tasks : Text → Option TaskFilter → Action (List TaskFile)
  list_tasks team filter = do
    lift (validate_name team)
    tasks ← λ dir. (read_all_tasks_in dir, dir)
    pure (sort_by by_id (apply_filter filter tasks))

  unfoldable pub delete_task : Text → Text → Action (Unit {0})
  unfolding read_task_at remove_task
  delete_task team id = do
    lift (validate_name team)
    lift (validate_name id)
    _ ← read_task_at team id
    remove_task id
    cascade_completion id
