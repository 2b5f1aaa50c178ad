-- ===== src/Tests/TaskTests.antt =====
-- A team's task directory: task 1 in progress, task 2 waiting for it, and the lock file.
use mathlib.Core.List.{Perm}
use agent_teams_mcp.Base.{
  Text, text, ◌==◌, ◌≡◌, refl, ◌↔◌, Bool, ◌+◌, ◌<◌, true, false, some, none, List, [], ◌∷◌, arith,
  contains, insert_set, lookup, insert, remove, retain, sort_by, len, has_char,
}
use agent_teams_mcp.Error.{task_not_found, invalid_status_transition, ok, err}
use agent_teams_mcp.Names.{validate_name}
use agent_teams_mcp.Decimal.{u64_mod, to_string, parse_u64}
use agent_teams_mcp.Task.Model.{
  pending, in_progress, completed, can_transition_to, status_eq, to_string as status_text, TaskFile,
  CreateTaskRequest, TaskUpdate, TaskFilter, plain, null,
}
use agent_teams_mcp.Task.Manager.{
  Dir, file_name, numeric_stem, max_id, next_task_id, push_missing, merge_metadata, apply_update,
  apply_filter, by_id, read_task_at, read_all_tasks_in, release_file, cascade_completion, new_task,
  create_task, is_completed, update_task, get_task, list_tasks, delete_task,
}
use agent_teams_mcp.Task.Manager.Update.{
  AllReleased, Forward, update_task-completes, delete_task-releases, update_task-Forward,
  update_task-rejects,
}
use agent_teams_mcp.Task.Manager.Create.{Created, create_task-Created}
use agent_teams_mcp.Task.Manager.Listing.{Wanted, InOrder, list_tasks-lists}
use agent_teams_mcp.Tests.Samples.{task, task_serde, no_update}

runs : Unit {0}
unfolding ◌==◌ contains insert_set lookup insert remove sort_by len has_char validate_name to_string
    parse_u64 can_transition_to status_eq status_text file_name numeric_stem max_id next_task_id
    push_missing merge_metadata apply_update apply_filter by_id read_task_at read_all_tasks_in
    release_file cascade_completion new_task create_task is_completed update_task get_task
    list_tasks delete_task task_serde
runs = tt

abbrev one : Text
one = text "1"

abbrev two : Text
two = text "2"

abbrev team : Text
team = text "team"

abbrev work : TaskFile
work = task one in_progress []

abbrev waiting : TaskFile
waiting = task two pending (one ∷ text "7" ∷ [])

dir : Dir
dir =
    (text ".lock", [])
    ∷ (text "2.json", task_serde.encode waiting)
    ∷ (text "1.json", task_serde.encode work)
    ∷ []

abbrev finish : TaskUpdate
finish = record no_update { status = some completed; owner = some (text "alice") }

finished : TaskFile
finished = record work { status = completed; owner = some (text "alice") }

after_update : Dir
after_update = (update_task task_serde team one finish dir).1

finish_runs : update_task task_serde team one finish dir ≡ (ok finished, after_update)
unfolding runs dir finished after_update
finish_runs = refl

freed_runs : (get_task task_serde team two after_update).0 ≡ ok (task two pending (text "7" ∷ []))
unfolding runs dir after_update
freed_runs = refl

after_delete : Dir
after_delete = (delete_task task_serde team one dir).1

delete_runs : delete_task task_serde team one dir ≡ (ok tt, after_delete)
unfolding runs dir after_delete
delete_runs = refl

missing_runs : (get_task task_serde team (text "9") dir).0 ≡ err (task_not_found team (text "9"))
unfolding runs dir
missing_runs = refl

update_task-completes_example :
    AllReleased task_serde one dir after_update
    × (lookup (file_name one) after_update ≡ some (task_serde.encode finished))
update_task-completes_example =
    update_task-completes task_serde team one finish dir after_update finished finish_runs refl

delete_task-releases_example :
    AllReleased task_serde one dir after_delete
    × (lookup (file_name one) after_delete ≡ none)
    × ((t : TaskFile) × (read_task_at task_serde team one dir ≡ (ok t, dir)))
delete_task-releases_example = delete_task-releases task_serde team one dir after_delete delete_runs

update_task-Forward_example :
    (t : TaskFile) × (read_task_at task_serde team one dir ≡ (ok t, dir))
    × Forward t.status finished.status
update_task-Forward_example =
    update_task-Forward task_serde team one finish dir after_update finished finish_runs

valid_team : validate_name team ≡ ok tt
unfolding runs
valid_team = refl

valid_two : validate_name two ≡ ok tt
unfolding runs
valid_two = refl

read_two : read_task_at task_serde team two dir ≡ (ok waiting, dir)
unfolding runs dir
read_two = refl

skips : can_transition_to pending completed ≡ false
unfolding runs
skips = refl

update_task-rejects_example :
    update_task task_serde team two finish dir
    ≡ (err (invalid_status_transition (status_text pending) (status_text completed)), dir)
update_task-rejects_example =
    update_task-rejects task_serde team two finish dir waiting completed valid_team valid_two
      read_two refl skips

abbrev request : CreateTaskRequest
request = record {
  subject = text "new";
  description = none;
  active_form = none;
  metadata = some (plain null);
}

room : max_id dir + 1 < u64_mod
unfolding runs dir
room = omega arith

create_task-Created_example :
    (dir' : Dir) × Created task_serde team (next_task_id dir) request dir dir'
create_task-Created_example = create_task-Created task_serde team request dir valid_team room

next_runs : next_task_id dir ≡ text "3"
unfolding runs dir
next_runs = refl

abbrev unblocked : TaskFilter
unblocked = record { status = none; owner = none; unblocked_only = true }

read_all : read_all_tasks_in task_serde dir ≡ ok (waiting ∷ work ∷ [])
unfolding runs dir
read_all = refl

list_tasks-lists_example :
    (listed : List TaskFile) × (chosen : TaskFile → Bool) × (list_tasks task_serde team
        (some unblocked)
        dir
      ≡ (ok listed, dir))
    × Perm listed (retain chosen (waiting ∷ work ∷ []))
    × ((t : TaskFile) → (chosen t ≡ true) ↔ Wanted (some unblocked) t)
    × InOrder listed
list_tasks-lists_example =
    list_tasks-lists task_serde team (some unblocked) dir (waiting ∷ work ∷ []) valid_team read_all
