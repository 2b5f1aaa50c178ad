-- ===== src/Task/Manager/Create.antt =====
-- A new task gets an id that no file has.
use agent_teams_mcp.Base.{
  Text, text, ◌==◌, ==_iff, ==_refl, ◌≡◌, refl, ap, ◌∙◌, inl, inr, ℕ, ◌+◌, ◌%◌, ◌≤◌, ◌<◌, false,
  none, some, [], ◌∷◌, arith, lookup, lookup-insert, insert, Bool-cases, Option-cases,
}
use agent_teams_mcp.Error.{ok}
use agent_teams_mcp.Names.{validate_name}
use agent_teams_mcp.Decimal.{u64_mod, to_string}
use agent_teams_mcp.Decimal.RoundTrip.{parse_u64-to_string}
use agent_teams_mcp.Task.Model.{TaskSerde, pending, as_read, TaskFile, CreateTaskRequest}
use agent_teams_mcp.Task.Manager.{
  Dir, file_name, numeric_stem, max_id, next_task_id, read_task_at, new_task, create_task,
}
use agent_teams_mcp.Task.Manager.Cascade.{strip_suffix-append}

le-max_id :
    (name content stem : Text) (n : ℕ) (dir : Dir)
    → lookup name dir ≡ some content
    → numeric_stem name ≡ some (stem, n)
    → n ≤ max_id dir
unfolding max_id lookup
le-max_id name content stem n [] h numeric = cc
le-max_id name content stem n ((j, c) ∷ dir) h numeric = elim (Bool-cases (j == name)) [
  | inl same ↦
      let e : numeric_stem j ≡ some (stem, n) =
        ap numeric_stem ((==_iff j name).0 same) ∙ numeric in
      rw (e, max_id) (ground arith)
  | inr apart ↦
      let ih = le-max_id name content stem n dir (ground arith) numeric in
      elim (Option-cases (numeric_stem j)) [
        | inl other ↦ rw (other, max_id) ih
        | inr ((s, k), e) ↦ rw (e, max_id) (ground (arith, ih))
      ]
]

numeric_stem-to_string :
    (n : ℕ) → n < u64_mod → numeric_stem (file_name (to_string n)) ≡ some (to_string n, n)
unfolding numeric_stem file_name
numeric_stem-to_string n h =
    ground
      (arith, strip_suffix-append (text ".json") (to_string n) (λ p. cc), parse_u64-to_string n h)

no_file : (dir : Dir) → max_id dir + 1 < u64_mod → lookup (file_name (next_task_id dir)) dir ≡ none
unfolding next_task_id
no_file dir h =
    elim (Option-cases (lookup (file_name (to_string ((max_id dir + 1) % u64_mod))) dir)) [
      | inl free ↦ free
      | inr (content, taken) ↦
          let n = (max_id dir + 1) % u64_mod in
          let same : n ≡ max_id dir + 1 = omega arith in
          absurd (
            omega (
              arith,
              le-max_id _ content _ n dir taken (numeric_stem-to_string n (omega arith)),
              same,
            ))
    ]

module _ (serde : TaskSerde) where
  open serde use {encode, decode, decode-encode}

  -- The task that a request asks for.
  pub record IsNew (id : Text) (req : CreateTaskRequest) (t : TaskFile) : Type 0 where
    has_id : t.id ≡ id
    subject : t.subject ≡ req.subject
    description : t.description ≡ req.description
    active_form : t.active_form ≡ req.active_form
    status : t.status ≡ pending
    owner : t.owner ≡ none
    blocks : t.blocks ≡ []
    blocked_by : t.blocked_by ≡ []
    metadata : t.metadata ≡ req.metadata

  -- What a creation leaves behind, in a directory where no file had the id.
  pub record Created (team id : Text) (req : CreateTaskRequest) (dir dir' : Dir) : Type 0 where
    pub task : TaskFile
    pub asked : IsNew id req task
    pub returns : create_task serde team req dir ≡ (ok task, dir')
    pub fresh : lookup (file_name id) dir ≡ none
    pub stored : read_task_at serde team id dir' ≡ (ok (as_read task), dir')
    pub others : (name : Text) → (file_name id == name) ≡ false → lookup name dir' ≡ lookup name dir

  -- In a directory whose ids leave room in `u64`, creating a task succeeds: its id is one for which
  -- there was no file, and the task that is returned is pending, waits for nothing and has the fields
  -- of the request. It is read back under the id, except that a metadata of `null` is read as none,
  -- and every other file stays as it was.
  pub create_task-Created :
      (team : Text) (req : CreateTaskRequest) (dir : Dir)
      → validate_name team ≡ ok tt
      → max_id dir + 1 < u64_mod
      → (dir' : Dir) × Created team (next_task_id dir) req dir dir'
  unfolding create_task read_task_at new_task
  create_task-Created team req dir valid room =
      let id = next_task_id dir in
      let content = encode (new_task serde id req) in
      (
        insert (file_name id) content dir,
        record {
          task = new_task serde id req;
          asked = record {
            has_id = refl;
            subject = refl;
            description = refl;
            active_form = refl;
            status = refl;
            owner = refl;
            blocks = refl;
            blocked_by = refl;
            metadata = refl;
          };
          returns = ground arith;
          fresh = no_file dir room;
          stored = ground (
            arith,
            lookup-insert (file_name id) (file_name id) content dir,
            ==_refl (file_name id),
            decode-encode (new_task serde id req),
          );
          others =
              λ name apart. lookup-insert (file_name id) name content dir ∙ ground (arith, apart);
        },
      )
