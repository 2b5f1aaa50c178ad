-- ===== src/TeamMode/Inbox/Receipts.antt =====
-- What reading and acknowledging messages do to what the transcript then holds.
use agent_teams_mcp.Base.{
  Text, ◌==◌, ==_iff, ◌≡◌, subst, sym, ap, ◌∙◌, inl, inr, ℕ, suc, Bool, true, false, ◌||◌, Option,
  none, some, List, [], ◌∷◌, ◌++◌, arith, contains, lookup, lookup-insert, if◌then◌else◌,
  Bool-cases, Option-cases,
}
use agent_teams_mcp.Error.{proceeded, checked, ran_both, other, not_visible, ok, err, ◌>>◌}
use agent_teams_mcp.Names.{validate_name}
use agent_teams_mcp.TeamMode.Message.{Message}
use agent_teams_mcp.TeamMode.Lines.{LineSerde}
use agent_teams_mcp.TeamMode.Transcript.{
  TranscriptEntry, message, MessageUpdateResult, empty, File, apply_entry, append_entry, get,
  update, finish_update,
}
use agent_teams_mcp.TeamMode.Transcript.Replay.{replay, replay-append, IsLog, append_entry-IsLog}
use agent_teams_mcp.TeamMode.Transcript.Store.{now-IsKeyed, get-now}
use agent_teams_mcp.TeamMode.Inbox.{mark, receipt_updater, is_changed, receipt_loop, apply_receipt}
use agent_teams_mcp.TeamMode.Inbox.Marks.{
  IsMarked, mark-id, mark-same, mark-IsMarked, same-IsMarked, IsMarked-trans,
}

module _ (serde : LineSerde TranscriptEntry) (team recipient : Text) (ack : Bool) where
  -- What one receipt makes of the transcript: only the message with the id can change.
  record IsStep (now : Bool → ℕ) (id : Text) (es : List TranscriptEntry) (file' : File)
      : Type 0 where
    es' : List TranscriptEntry
    log : IsLog serde es' file'
    seen :
        (j : Text) (m : Message)
        → lookup j (replay es empty).active ≡ some m
        → lookup j (replay es' empty).active
          ≡ some (if id == j then (mark recipient ack now m).0 else m)

  module _ (now : Bool → ℕ) (id : Text) (es : List TranscriptEntry) (file : File)
      (log : IsLog serde es file) (ht : validate_name team ≡ ok tt)
      (hi : validate_name id ≡ ok tt) where
    update-absent :
        lookup id (replay es empty).active ≡ none
        → update serde team id (receipt_updater id recipient ack now) file ≡ (ok none, file)
    unfolding update
    update-absent gone = ground (arith, get-now serde es file log team id ht hi)

    update-visible :
        (m : Message)
        → lookup id (replay es empty).active ≡ some m
        → contains recipient m.effective_recipients ≡ true
        → update serde team id (receipt_updater id recipient ack now) file ≡ (
          ok (
              some (record {
                message = (mark recipient ack now m).0;
                changed = (mark recipient ack now m).1;
              })),
          if (mark recipient ack now m).1
              then append_entry serde (message (mark recipient ack now m).0) file
              else file,
        )
    unfolding update finish_update receipt_updater
    update-visible m there seen = ground (arith, get-now serde es file log team id ht hi)

    update-hidden :
        (m : Message)
        → lookup id (replay es empty).active ≡ some m
        → contains recipient m.effective_recipients ≡ false
        → (update serde team id (receipt_updater id recipient ack now) file).0
          ≡ err (other (not_visible id recipient))
    unfolding update finish_update receipt_updater
    update-hidden m there hidden = ground (arith, get-now serde es file log team id ht hi)

    appended-IsStep :
        (m : Message)
        → lookup id (replay es empty).active ≡ some m
        → IsStep now id es (append_entry serde (message (mark recipient ack now m).0) file)
    unfolding apply_entry
    appended-IsStep m there = record {
      es' = es ++ message (mark recipient ack now m).0 ∷ [];
      log = append_entry-IsLog serde (message (mark recipient ack now m).0) es file log;
      seen = λ j x e. rw (replay-append es (message (mark recipient ack now m).0 ∷ []) empty) (
          ground (
            arith,
            mark-id recipient now ack m,
            (now-IsKeyed serde es file log).own id m there,
            lookup-insert (mark recipient ack now m).0.id j (mark recipient ack now m).0
                (replay es empty).active,
            ==_iff id j,
          ));
    }

    kept-IsStep :
        ((m : Message)
          → lookup id (replay es empty).active ≡ some m
          → (mark recipient ack now m).1 ≡ false)
        → IsStep now id es file
    kept-IsStep same = record {
      es' = es;
      log = log;
      seen = λ j m e. elim (Bool-cases (id == j)) [
        | inl here ↦
            let there : lookup id (replay es empty).active ≡ some m = ground (arith, ==_iff id j) in
            rw (here, mark-same recipient now ack m (same m there)) e
        | inr away ↦ rw away e
      ];
    }

    update-IsStep :
        (file' : File) (r : Option MessageUpdateResult)
        → update serde team id (receipt_updater id recipient ack now) file ≡ (ok r, file')
        → IsStep now id es file'
    update-IsStep file' r done = elim (Option-cases (lookup id (replay es empty).active)) [
      | inl gone ↦
          subst (IsStep now id es) (ap (λ p. p.1) (sym (update-absent gone) ∙ done))
            (kept-IsStep (λ m e. cc))
      | inr (m, there) ↦ elim (Bool-cases (contains recipient m.effective_recipients)) [
        | inr hidden ↦
            let bad : err (other (not_visible id recipient)) ≡ ok r =
              sym (update-hidden m there hidden) ∙ ap (λ p. p.0) done in
            cc
        | inl visible ↦
            subst (IsStep now id es) (ap (λ p. p.1) (sym (update-visible m there visible) ∙ done))
              (elim (Bool-cases (mark recipient ack now m).1) [
                | inl changed ↦ rw changed (appended-IsStep m there)
                | inr kept ↦ rw kept (kept-IsStep (λ x e. ground (arith, sym e ∙ there)))
              ])
      ]
    ]

  -- What a message has become after the receipts for `ids`.
  pub record IsDone (ids : List Text) (es : List TranscriptEntry) (file' : File) : Type 0 where
    pub es' : List TranscriptEntry
    pub log : IsLog serde es' file'
    pub seen :
        (j : Text) (m : Message)
        → lookup j (replay es empty).active ≡ some m
        → (m' : Message) × (lookup j (replay es' empty).active ≡ some m')
          × IsMarked recipient ack (contains j ids) m m'

  first-IsMarked :
      (now : Bool → ℕ) (here : Bool) (m : Message)
      → IsMarked recipient ack here m (if here then (mark recipient ack now m).0 else m)
  first-IsMarked now true m = mark-IsMarked recipient now ack m
  first-IsMarked now false m = same-IsMarked recipient ack m

  then-IsMarked :
      (now : Bool → ℕ) (id j : Text) (ids : List Text) (m m' : Message)
      → IsMarked recipient ack
          (contains j ids)
          (if id == j then (mark recipient ack now m).0 else m)
          m'
      → IsMarked recipient ack (contains j (id ∷ ids)) m m'
  unfolding contains
  then-IsMarked now id j ids m m' h =
      let e : (id == j || contains j ids) ≡ contains j (id ∷ ids) =
        ground (arith, ==_iff id j, ==_iff j id) in
      subst (λ b. IsMarked recipient ack b m m') e
        (IsMarked-trans recipient ack (id == j) (contains j ids) m
          (if id == j then (mark recipient ack now m).0 else m) m' (first-IsMarked now (id == j) m)
          h)

  step-IsDone :
      (now : Bool → ℕ) (id : Text) (ids : List Text) (es : List TranscriptEntry)
      (file1 file' : File) (s : IsStep now id es file1)
      → IsDone ids s.es' file'
      → IsDone (id ∷ ids) es file'
  step-IsDone now id ids es file1 file' s d = record {
    es' = d.es';
    log = d.log;
    seen = λ j m e.
        let (m', there, marked) =
          d.seen j (if id == j then (mark recipient ack now m).0 else m) (s.seen j m e) in
        (m', there, then-IsMarked now id j ids m m' marked);
  }

  receipt_loop-IsDone :
      (now : Text → Bool → ℕ) (ids : List Text) (updated n : ℕ) (es : List TranscriptEntry)
      (file file' : File)
      → IsLog serde es file
      → validate_name team ≡ ok tt
      → receipt_loop serde team recipient ack now ids updated file ≡ (ok n, file')
      → IsDone ids es file'
  unfolding receipt_loop contains
  receipt_loop-IsDone now [] updated n es file file' log ht done = record {
    es' = es;
    log = subst (IsLog serde es) (ap (λ p. p.1) done) log;
    seen = λ j m e. (m, e, same-IsMarked recipient ack m);
  }
  receipt_loop-IsDone now (id ∷ ids) updated n es file file' log ht done =
      let (_, named, went) = checked (validate_name id) file _ done in
      let (r, file1, stepped, rest) =
        proceeded (update serde team id (receipt_updater id recipient ack (now id)) file) went in
      let s = update-IsStep (now id) id es file log ht named file1 r stepped in
      step-IsDone (now id) id ids es file1 file' s (
        receipt_loop-IsDone now ids (if is_changed r then suc updated else updated) n s.es' file1
          file' s.log ht rest)

  -- Once the receipts for `ids` are accepted, the transcript is still readable and every message
  -- has become what `IsMarked` says: one that `ids` does not name is unchanged; one that it names is no
  -- longer unread for the recipient, and is acknowledged if that was asked; if it was not, no receipt
  -- of an acknowledgement is added. Nothing but the receipts of a message changes, nobody else's
  -- status does, and no status of the recipient goes back.
  pub apply_receipt-IsMarked :
      (now : Text → Bool → ℕ) (ids : List Text) (n : ℕ) (es : List TranscriptEntry)
      (file file' : File) (j : Text) (m : Message)
      → IsLog serde es file
      → apply_receipt serde team recipient ids ack now file ≡ (ok n, file')
      → validate_name j ≡ ok tt
      → get serde team j file ≡ ok (some m)
      → (m' : Message) × (get serde team j file' ≡ ok (some m'))
        × IsMarked recipient ack (contains j ids) m m'
  unfolding apply_receipt
  apply_receipt-IsMarked now ids n es file file' j m log done hj there =
      let (_, named, went) = checked (validate_name team >> validate_name recipient) file _ done in
      let (_, ht, _) = ran_both (validate_name team) named in
      let d = receipt_loop-IsDone now ids 0 n es file file' log ht went in
      let here : ok (lookup j (replay es empty).active) ≡ ok (some m) =
        sym (get-now serde es file log team j ht hj) ∙ there in
      let (m', after, marked) = d.seen j m (ground (arith, here)) in
      (m', get-now serde d.es' file' d.log team j ht hj ∙ ap ok after, marked)
