-- ===== src/Task/Manager/Cascade.antt =====
-- What `cascade_completion` does to the directory.
use agent_teams_mcp.Base.{
  Text, text, ◌==◌, ==_iff, ==_refl, ◌≡◌, refl, ap, ◌∙◌, ◌≢◌, inl, inr, ℕ, false, not, Option, none,
  some, List, [], ◌∷◌, ◌++◌, arith, length, length-append, contains, lookup, retain, Bool-cases,
  Option-cases,
}
use agent_teams_mcp.Error.{ok, err, panic}
use agent_teams_mcp.Task.Model.{TaskSerde, as_read, TaskFile}
use agent_teams_mcp.Task.Manager.{
  Dir, strip_suffix, file_name, numeric_stem, release_text, release_file, cascade_completion,
}

-- A suffix is not read out of a longer text.
strip_suffix-longer : (suffix s : Text) (c : ℕ) → ((c ∷ s) ++ suffix == suffix) ≡ false
strip_suffix-longer suffix s c = elim (Bool-cases ((c ∷ s) ++ suffix == suffix)) [
  | inl same ↦
      let e = ap length ((==_iff _ suffix).0 same) in
      absurd (omega (arith, e, length-append (c ∷ s) suffix))
  | inr other ↦ other
]

pub strip_suffix-append :
    (suffix s : Text) → suffix ≢ [] → strip_suffix suffix (s ++ suffix) ≡ some s
unfolding strip_suffix
strip_suffix-append [] [] h = absurd (h refl)
strip_suffix-append (d ∷ suffix) [] h = rw (==_refl (d ∷ suffix))
strip_suffix-append suffix (c ∷ s) h =
    rw (strip_suffix-longer suffix s c, strip_suffix-append suffix s h)

-- A task's file is read back under the task's id.
pub numeric_stem-file_name :
    (id name stem : Text) (n : ℕ)
    → numeric_stem name ≡ some (stem, n)
    → stem ≢ id
    → (file_name id == name) ≡ false
unfolding numeric_stem file_name
numeric_stem-file_name id name stem n e other = elim (Bool-cases (id ++ text ".json" == name)) [
  | inl same ↦
      let back = strip_suffix-append (text ".json") id (λ p. cc) in
      let named = (==_iff (id ++ text ".json") name).0 same in
      absurd (other (ground (arith, back, named)))
  | inr apart ↦ apart
]

pub own_stem : (id stem : Text) (n : ℕ) → numeric_stem (file_name id) ≡ some (stem, n) → stem ≡ id
unfolding numeric_stem file_name
own_stem id stem n e = ground (arith, strip_suffix-append (text ".json") id (λ p. cc))

retain-absent : (a : Text) (xs : List Text) → contains a (retain (λ id. not (id == a)) xs) ≡ false
unfolding contains
retain-absent a [] = refl
retain-absent a (x ∷ xs) = ground (arith, retain-absent a xs)

retain-same :
    (a : Text) (xs : List Text) → contains a xs ≡ false → retain (λ id. not (id == a)) xs ≡ xs
unfolding contains
retain-same a [] h = refl
retain-same a (x ∷ xs) h = ground (arith, retain-same a xs)

-- The task without `done` among those that it waits for.
abbrev pub release : Text → TaskFile → TaskFile
release done t = record t { blocked_by = retain (λ id. not (id == done)) t.blocked_by }

module _ (serde : TaskSerde) where
  open serde use {encode, decode, decode-encode, decode_as_read}

  -- The file's task after the loop is its task before, without `done`.
  pub record IsReleased (done content content' : Text) : Type 0 where
    pub before : TaskFile
    pub was : decode content ≡ some before
    pub now : decode content' ≡ some (release done before)
    pub free : contains done (release done before).blocked_by ≡ false

  -- A task that was read stays one that can be read back as it is.
  decode-release :
      (done content : Text) (t : TaskFile)
      → decode content ≡ some t
      → decode (encode (release done t)) ≡ some (release done t)
  unfolding as_read
  decode-release done content t good =
      decode-encode (release done t)
      ∙ ap (λ x. some (release done x)) (decode_as_read content t good)

  release_text-IsReleased :
      (done content content' : Text)
      → release_text serde done content ≡ ok content'
      → IsReleased done content content'
  unfolding release_text
  release_text-IsReleased done content content' e = elim (Option-cases (decode content)) [
    | inl bad ↦ absurd (ground arith)
    | inr (t, good) ↦ record {
      before = t;
      was = good;
      now = ground (arith, decode-release done content t good, retain-same done t.blocked_by);
      free = retain-absent done t.blocked_by;
    }
  ]

  abbrev keeps : Text → Text → Text → Text
  keeps done name content = elim (release_file serde done name content) [
    | ok content' ↦ content'
    | err _ ↦ content
    | panic ↦ content
  ]

  abbrev map_option : (Text → Text) → Option Text → Option Text
  map_option f none = none
  map_option f (some a) = some (f a)

  lookup-cascade :
      (done name : Text) (dir : Dir)
      → (cascade_completion serde done dir).0 ≡ ok tt
      → lookup name (cascade_completion serde done dir).1
        ≡ map_option (keeps done name) (lookup name dir)
  unfolding cascade_completion lookup
  lookup-cascade done name [] e = refl
  lookup-cascade done name ((j, content) ∷ dir) e =
      ground (arith, lookup-cascade done name dir, ==_iff j name)

  done_each :
      (done name content : Text) (dir : Dir)
      → (cascade_completion serde done dir).0 ≡ ok tt
      → lookup name dir ≡ some content
      → (content' : Text) × (release_file serde done name content ≡ ok content')
  unfolding cascade_completion lookup
  done_each done name content [] e h = absurd (cc)
  done_each done name content ((j, c) ∷ dir) e h = elim (Bool-cases (j == name)) [
    | inl same ↦ (keeps done name content, ground (arith, (==_iff j name).0 same))
    | inr apart ↦ done_each done name content dir (ground arith) (ground arith)
  ]

  pub cascade-IsReleased :
      (done name stem : Text) (n : ℕ) (content' : Text) (dir : Dir)
      → (cascade_completion serde done dir).0 ≡ ok tt
      → numeric_stem name ≡ some (stem, n)
      → stem ≢ done
      → lookup name (cascade_completion serde done dir).1 ≡ some content'
      → (content : Text) × (lookup name dir ≡ some content) × IsReleased done content content'
  unfolding release_file
  cascade-IsReleased done name stem n content' dir e numeric other h =
      elim (Option-cases (lookup name dir)) [
        | inl gone ↦ absurd (ground (arith, lookup-cascade done name dir e, gone))
        | inr (content, was) ↦
            let (c, r) = done_each done name content dir e was in
            let kept = lookup-cascade done name dir e in
            let same : c ≡ content' = ground (arith, r, kept, was, h) in
            (
              content,
              was,
              release_text-IsReleased done content content'
                  (ground (arith, r, same, numeric, ==_iff stem done)),
            )
      ]

  -- The files that are no task's, and the one of `done`, stay as they are.
  pub cascade-others :
      (done name : Text) (dir : Dir)
      → (cascade_completion serde done dir).0 ≡ ok tt
      → ((stem : Text) (n : ℕ) → numeric_stem name ≡ some (stem, n) → stem ≡ done)
      → lookup name (cascade_completion serde done dir).1 ≡ lookup name dir
  unfolding release_file
  cascade-others done name dir e h = elim (Option-cases (numeric_stem name)) [
    | inl none' ↦ ground (arith, lookup-cascade done name dir e)
    | inr ((stem, n), numeric) ↦
        ground (arith, lookup-cascade done name dir e, h stem n numeric, ==_refl done)
  ]
