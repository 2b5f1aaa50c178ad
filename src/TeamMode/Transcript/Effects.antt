-- ===== src/TeamMode/Transcript/Effects.antt =====
-- The store as its users see it: what `save`, `delete` and `update` do to `get` and `list`.
use agent_teams_mcp.Base.{
  Text, ◌==◌, ==_refl, ◌≡◌, sym, ap, ◌∙◌, ℕ, false, not, none, some, List, [], ◌∷◌, ◌++◌, arith,
  contains, lookup, lookup-insert, insert, lookup-remove, retain, if◌then◌else◌,
}
use agent_teams_mcp.Error.{ok}
use agent_teams_mcp.Names.{validate_name}
use agent_teams_mcp.TeamMode.Message.{Message}
use agent_teams_mcp.TeamMode.Lines.{LineSerde}
use agent_teams_mcp.TeamMode.Transcript.{
  TranscriptEntry, message, deleted, empty, File, apply_entry, collect, append_entry, save_checks,
  save, get, list, delete,
}
use agent_teams_mcp.TeamMode.Transcript.Replay.{replay, IsLog, append_entry-IsLog}
use agent_teams_mcp.TeamMode.Transcript.Store.{
  now, now-IsKeyed, get-now, list-now, get-append_entry, list-append_entry, collect-insert_absent,
  collect-snoc, replace, collect-replace, collect-remove,
}

module _ (serde : LineSerde TranscriptEntry) (es : List TranscriptEntry) (file : File)
    (log : IsLog serde es file) where
  saved :
      (m : Message)
      → save_checks serde m ≡ ok tt
      → save serde m file ≡ (ok tt, append_entry serde (message m) file)
  unfolding save
  saved m checked = ground arith

  -- Saving a message whose names pass the checks succeeds and only appends to the transcript, of
  -- which every earlier entry stays: the message is then read under its id, and every other id
  -- reads as before.
  pub save-get :
      (m : Message) (team id : Text)
      → save_checks serde m ≡ ok tt
      → validate_name team ≡ ok tt
      → validate_name id ≡ ok tt
      → (file' : File) × (save serde m file ≡ (ok tt, file'))
        × IsLog serde (es ++ message m ∷ []) file'
        × (get serde team id file' ≡ (if m.id == id then ok (some m) else get serde team id file))
  unfolding apply_entry
  save-get m team id checked ht hi = (
    append_entry serde (message m) file,
    saved m checked,
    append_entry-IsLog serde (message m) es file log,
    ground (
      arith,
      get-append_entry serde es file log (message m) team id ht hi,
      get-now serde es file log team id ht hi,
      lookup-insert m.id id m (now serde es file log).active,
    ),
  )

  -- Deleting an id leaves none to be read under it, keeps what is read under every other id, and
  -- takes just the message with that id out of the list.
  pub delete-get :
      (team gone id : Text) (at : ℕ) (messages : List Message)
      → validate_name team ≡ ok tt
      → validate_name gone ≡ ok tt
      → validate_name id ≡ ok tt
      → list serde team file ≡ ok messages
      → (file' : File) × (delete serde team gone at file ≡ (ok tt, file'))
        × IsLog serde (es ++ deleted gone at ∷ []) file'
        × (get serde team id file' ≡ (if gone == id then ok none else get serde team id file))
        × (list serde team file' ≡ ok (retain (λ x. not (x.id == gone)) messages))
  unfolding delete apply_entry
  delete-get team gone id at messages ht hg hi listed =
      let s = now serde es file log in
      let keyed = now-IsKeyed serde es file log in
      let same : ok (collect s.active s.order) ≡ ok messages =
        sym (list-now serde es file log team ht) ∙ listed in
      (
        append_entry serde (deleted gone at) file,
        ground arith,
        append_entry-IsLog serde (deleted gone at) es file log,
        ground (
          arith,
          get-append_entry serde es file log (deleted gone at) team id ht hi,
          get-now serde es file log team id ht hi,
          lookup-remove gone id s.active,
        ),
        list-append_entry serde es file log (deleted gone at) team ht
            ∙ ap ok (collect-remove s.active gone s.order keyed.own)
            ∙ ground (arith, same),
      )

  -- A saved message with an id that the transcript never had goes to the end of the list.
  pub list-save_new :
      (m : Message) (team : Text) (messages : List Message)
      → save_checks serde m ≡ ok tt
      → validate_name team ≡ ok tt
      → contains m.id (replay es empty).order ≡ false
      → list serde team file ≡ ok messages
      → list serde team (save serde m file).1 ≡ ok (messages ++ m ∷ [])
  unfolding apply_entry
  list-save_new m team messages checked ht new listed =
      let s = now serde es file log in
      let same : ok (collect s.active s.order) ≡ ok messages =
        sym (list-now serde es file log team ht) ∙ listed in
      ap (λ p. list serde team p.1) (saved m checked)
      ∙ list-append_entry serde es file log (message m) team ht
      ∙ rw new (
          ap ok (
            collect-snoc (insert m.id m s.active) s.order m.id m
              (lookup-insert m.id m.id m s.active ∙ ground (arith, ==_refl m.id))
            ∙ ap (λ l. l ++ m ∷ []) (collect-insert_absent s.active m.id m s.order new)
            ∙ ground (arith, same)))

  -- A saved message with the id of an active one takes its place in the list; the others keep theirs.
  pub list-save-replace :
      (m old : Message) (team : Text) (messages : List Message)
      → save_checks serde m ≡ ok tt
      → validate_name team ≡ ok tt
      → validate_name m.id ≡ ok tt
      → get serde team m.id file ≡ ok (some old)
      → list serde team file ≡ ok messages
      → list serde team (save serde m file).1 ≡ ok (replace m messages)
  unfolding apply_entry
  list-save-replace m old team messages checked ht hm there listed =
      let s = now serde es file log in
      let keyed = now-IsKeyed serde es file log in
      let same : ok (collect s.active s.order) ≡ ok messages =
        sym (list-now serde es file log team ht) ∙ listed in
      let here : ok (lookup m.id s.active) ≡ ok (some old) =
        sym (get-now serde es file log team m.id ht hm) ∙ there in
      let active : lookup m.id s.active ≡ some old = ground (arith, here) in
      ap (λ p. list serde team p.1) (saved m checked)
      ∙ list-append_entry serde es file log (message m) team ht
      ∙ rw (keyed.known m.id old active) (
          ap ok (
            collect-replace s.active m old s.order keyed.own active
            ∙ ap (replace m) (ground (arith, same))))
