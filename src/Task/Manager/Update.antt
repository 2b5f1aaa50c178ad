-- ===== src/Task/Manager/Update.antt =====
-- What `update_task` and `delete_task` do to the task, to the directory and to the other tasks.
use agent_teams_mcp.Base.{
  Text, ◌==◌, ◌≡◌, refl, sym, ap, ◌∙◌, ==_refl, ◌≢◌, ◌⊎◌, inl, inr, ℕ, Bool, true, false, not, ◌&&◌,
  none, some, arith, lookup, lookup-insert, insert, lookup-remove, remove, Option-cases,
}
use agent_teams_mcp.Error.{invalid_status_transition, ok, err}
use agent_teams_mcp.Names.{validate_name}
use agent_teams_mcp.Task.Model.{
  TaskSerde, TaskStatus, pending, in_progress, completed, deleted, can_transition_to, status_eq,
  to_string as status_text, TaskFile, TaskUpdate,
}
use agent_teams_mcp.Task.Manager.{
  Dir, file_name, numeric_stem, apply_update, read_task_at, write_task, cascade_completion,
  cascade_if, is_completed, update_task, delete_task,
}
use agent_teams_mcp.Task.Manager.Cascade.{
  numeric_stem-file_name, own_stem, IsReleased, cascade-IsReleased, cascade-others,
}

-- The ways in which the status of a task may change.
abbrev pub Forward : TaskStatus → TaskStatus → Type 0
Forward s s' =
    (s' ≡ s)
    ⊎ (s' ≡ deleted)
    ⊎ (s ≡ pending) × (s' ≡ in_progress)
    ⊎ (s ≡ in_progress) × (s' ≡ completed)

module _ (serde : TaskSerde) where
  open serde use {encode, decode}

  -- Every other task file of the directory was a task file before, and holds the same task without
  -- `done` among those that it waits for.
  pub record AllReleased (done : Text) (dir dir' : Dir) : Type 0 where
    pub each :
        (name stem : Text) (n : ℕ) (content' : Text)
        → numeric_stem name ≡ some (stem, n)
        → stem ≢ done
        → lookup name dir' ≡ some content'
        → (content : Text) × (lookup name dir ≡ some content)
          × IsReleased serde done content content'

  -- The parts of an update that succeeds.
  record Updated (team id : Text) (update : TaskUpdate) (dir dir' : Dir) (task' : TaskFile)
      : Type 0 where
    task : TaskFile
    read : read_task_at serde team id dir ≡ (ok task, dir)
    applied : apply_update task update ≡ ok task'
    cascaded :
        cascade_if serde
          (not (is_completed serde task) && is_completed serde task')
          id
          (insert (file_name id) (encode task') dir)
        ≡ (ok tt, dir')

  update_task-Updated :
      (team id : Text) (update : TaskUpdate) (dir dir' : Dir) (task' : TaskFile)
      → update_task serde team id update dir ≡ (ok task', dir')
      → Updated team id update dir dir' task'
  unfolding update_task read_task_at write_task
  update_task-Updated team id update dir dir' task' e =
      elim (Option-cases (lookup (file_name id) dir)) [
        | inl gone ↦ absurd (ground arith)
        | inr (content, found) ↦ elim (Option-cases (decode content)) [
          | inl bad ↦ absurd (ground arith)
          | inr (task, good) ↦ record {
            task = task;
            read = ground arith;
            applied = ground arith;
            cascaded = ground arith;
          }
        ]
      ]

  delete_task-parts :
      (team id : Text) (dir dir' : Dir)
      → delete_task serde team id dir ≡ (ok tt, dir')
      → (task : TaskFile) × (read_task_at serde team id dir ≡ (ok task, dir))
        × (cascade_completion serde id (remove (file_name id) dir) ≡ (ok tt, dir'))
  unfolding delete_task
  delete_task-parts team id dir dir' e = elim (Option-cases (lookup (file_name id) dir)) [
    | inl gone ↦ absurd (ground arith)
    | inr (content, found) ↦ elim (Option-cases (decode content)) [
      | inl bad ↦ absurd (ground arith)
      | inr (task, good) ↦ (task, ground arith, ground arith)
    ]
  ]

  released_after :
      (done : Text) (dir mid dir' : Dir)
      → ((name : Text) → (file_name done == name) ≡ false → lookup name mid ≡ lookup name dir)
      → cascade_completion serde done mid ≡ (ok tt, dir')
      → AllReleased done dir dir'
  released_after done dir mid dir' same e = record {
    each = λ name stem n content' numeric other h.
        let apart = numeric_stem-file_name done name stem n numeric other in
        let (content, was, r) =
          cascade-IsReleased serde done name stem n content' mid (ap (λ p. p.0) e) numeric other
            (ap (λ p. lookup name p.1) e ∙ h) in
        (content, sym (same name apart) ∙ was, r);
  }

  own_file :
      (done : Text) (mid dir' : Dir)
      → cascade_completion serde done mid ≡ (ok tt, dir')
      → lookup (file_name done) dir' ≡ lookup (file_name done) mid
  own_file done mid dir' e =
      sym (ap (λ p. lookup (file_name done) p.1) e)
      ∙ cascade-others serde done (file_name done) mid (ap (λ p. p.0) e) (own_stem done)

  cascade_if-true :
      (id : Text) (dir : Dir) (b : Bool)
      → b ≡ true
      → cascade_if serde b id dir ≡ cascade_completion serde id dir
  unfolding cascade_if
  cascade_if-true id dir true e = refl
  cascade_if-true id dir false e = cc

  newly_completed :
      (task task' : TaskFile) (update : TaskUpdate)
      → apply_update task update ≡ ok task'
      → update.status ≡ some completed
      → (not (is_completed serde task) && is_completed serde task') ≡ true
  unfolding apply_update is_completed status_eq can_transition_to
  newly_completed task task' update e h = ground arith

  -- Completing a task by an update that succeeds writes the new task to its file, and every other
  -- task of the directory is then the task that it was, with the completed one removed from those
  -- that it waits for: nothing waits for a completed task.
  pub update_task-completes :
      (team id : Text) (update : TaskUpdate) (dir dir' : Dir) (task' : TaskFile)
      → update_task serde team id update dir ≡ (ok task', dir')
      → update.status ≡ some completed
      → AllReleased id dir dir' × (lookup (file_name id) dir' ≡ some (encode task'))
  update_task-completes team id update dir dir' task' e h =
      let u = update_task-Updated team id update dir dir' task' e in
      let mid = insert (file_name id) (encode task') dir in
      let c : cascade_completion serde id mid ≡ (ok tt, dir') =
        sym (cascade_if-true id mid _ (newly_completed u.task task' update u.applied h))
        ∙ u.cascaded in
      (
        released_after id dir mid dir'
            (λ name apart.
              lookup-insert (file_name id) name (encode task') dir ∙ ground (arith, apart))
            c,
        own_file id mid dir' c
            ∙ lookup-insert (file_name id) (file_name id) (encode task') dir
            ∙ ground (arith, ==_refl (file_name id)),
      )

  -- A deletion that succeeds removes a file that held a task, and every other task of the directory
  -- is then the task that it was, with the deleted one removed from those that it waits for.
  pub delete_task-releases :
      (team id : Text) (dir dir' : Dir)
      → delete_task serde team id dir ≡ (ok tt, dir')
      → AllReleased id dir dir'
        × (lookup (file_name id) dir' ≡ none)
        × ((task : TaskFile) × (read_task_at serde team id dir ≡ (ok task, dir)))
  delete_task-releases team id dir dir' e =
      let (task, read, c) = delete_task-parts team id dir dir' e in
      (
        released_after id dir (remove (file_name id) dir) dir'
            (λ name apart. lookup-remove (file_name id) name dir ∙ ground (arith, apart)) c,
        own_file id (remove (file_name id) dir) dir' c
            ∙ lookup-remove (file_name id) (file_name id) dir
            ∙ ground (arith, ==_refl (file_name id)),
        (task, read),
      )

  status-apply_update :
      (task task' : TaskFile) (update : TaskUpdate)
      → apply_update task update ≡ ok task'
      → Forward task.status task'.status
  unfolding apply_update can_transition_to
  status-apply_update task task' update e = ground arith

  -- An update that succeeds started from a stored task, and moved its status forward or left it: from
  -- pending to in progress, from there to completed, or from anywhere to deleted.
  pub update_task-Forward :
      (team id : Text) (update : TaskUpdate) (dir dir' : Dir) (task' : TaskFile)
      → update_task serde team id update dir ≡ (ok task', dir')
      → (task : TaskFile) × (read_task_at serde team id dir ≡ (ok task, dir))
        × Forward task.status task'.status
  update_task-Forward team id update dir dir' task' e =
      let u = update_task-Updated team id update dir dir' task' e in
      (u.task, u.read, status-apply_update u.task task' update u.applied)

  -- An update to a status that cannot follow the stored one fails with both statuses, and changes no
  -- file, whatever else it asks for.
  pub update_task-rejects :
      (team id : Text) (update : TaskUpdate) (dir : Dir) (task : TaskFile) (new : TaskStatus)
      → validate_name team ≡ ok tt
      → validate_name id ≡ ok tt
      → read_task_at serde team id dir ≡ (ok task, dir)
      → update.status ≡ some new
      → can_transition_to task.status new ≡ false
      → update_task serde team id update dir
        ≡ (err (invalid_status_transition (status_text task.status) (status_text new)), dir)
  unfolding update_task apply_update
  update_task-rejects team id update dir task new ht hi read h bad = ground arith
