-- ===== src/TeamMode/Transcript/Replay.antt =====
-- Reading a transcript: a file of written entries replays them, and what a torn last line does.
use agent_teams_mcp.Base.{
  Text, ℕ, ◌≡◌, refl, sym, ap, ◌∙◌, ◌⊎◌, inl, inr, Bool-cases, true, false, ◌||◌, none, some, List,
  [], ◌∷◌, ◌++◌, append_assoc, append-nil, arith, has_char,
}
use agent_teams_mcp.Error.{io, json, ok, err}
use agent_teams_mcp.TeamMode.Lines.{
  LineSerde, trim, is_blank, is_utf8, is_utf8-append, render-utf8, content_lines,
  content_lines-line, content_lines-last, render, render-append,
}
use agent_teams_mcp.TeamMode.Transcript.{
  TranscriptEntry, TranscriptSnapshot, empty, File, text_of, apply_entry, load, snapshot,
  append_entry,
}

-- The snapshot after entries, from one before them.
abbrev pub replay : List TranscriptEntry → TranscriptSnapshot → TranscriptSnapshot
replay [] s = s
replay (e ∷ es) s = replay es (apply_entry e s)

pub replay-append :
    (es fs : List TranscriptEntry) (s : TranscriptSnapshot)
    → replay (es ++ fs) s ≡ replay fs (replay es s)
replay-append [] fs s = refl
replay-append (e ∷ es) fs s = replay-append es fs (apply_entry e s)

pub has_char-append : (c : ℕ) (s t : Text) → has_char c (s ++ t) ≡ (has_char c s || has_char c t)
unfolding has_char
has_char-append c [] t = refl
has_char-append c (d ∷ s) t = ground (arith, has_char-append c s t)

is_blank-append : (s t : Text) → is_blank s ≡ false → is_blank (s ++ t) ≡ false
unfolding is_blank
is_blank-append [] t h = cc
is_blank-append (c ∷ s) t h = refl

module _ (serde : LineSerde TranscriptEntry) where
  open serde use {encode, decode, decode-encode, one_line, trimmed, nonempty, utf8}

  load-encode :
      (e : TranscriptEntry) (lines : List Text) (s : TranscriptSnapshot)
      → load serde (encode e ∷ lines) s ≡ load serde lines (apply_entry e s)
  unfolding load
  load-encode e lines s = ground (arith, decode-encode e)

  load_bad_last :
      (line : Text) (s : TranscriptSnapshot) → decode line ≡ none → load serde (line ∷ []) s ≡ ok s
  unfolding load
  load_bad_last line s h = ground arith

  load_bad :
      (line next : Text) (lines : List Text) (s : TranscriptSnapshot)
      → decode line ≡ none
      → load serde (line ∷ next ∷ lines) s ≡ err json
  unfolding load
  load_bad line next lines s h = ground arith

  -- Entries at the front are replayed, whatever follows them.
  pub load-render :
      (es : List TranscriptEntry) (rest : Text) (s : TranscriptSnapshot)
      → load serde (content_lines (render serde es ++ rest)) s
        ≡ load serde (content_lines rest) (replay es s)
  unfolding load
  load-render [] rest s = refl
  load-render (e ∷ es) rest s =
      rw
        (
          append_assoc,
          content_lines-line (encode e) (render serde es ++ rest) (one_line e) (trimmed e)
              (nonempty e),
        )
        (load-encode e (content_lines (render serde es ++ rest)) s
          ∙ load-render es rest (apply_entry e s))

  -- The file holds the written entries and nothing else; an empty transcript may have no file.
  abbrev pub IsLog : List TranscriptEntry → File → Type 0
  IsLog es file = text_of file ≡ render serde es

  pub append_entry-IsLog :
      (e : TranscriptEntry) (es : List TranscriptEntry) (file : File)
      → IsLog es file
      → IsLog (es ++ e ∷ []) (append_entry serde e file)
  unfolding append_entry
  append_entry-IsLog e es file h = rw h (sym (render-append serde es (e ∷ [])))

  snapshot-text :
      (file : File)
      → is_utf8 (text_of file) ≡ true
      → snapshot serde file ≡ load serde (content_lines (text_of file)) empty
  unfolding snapshot load content_lines
  snapshot-text none h = refl
  snapshot-text (some t) h = rw h refl

  snapshot-broken : (t : Text) → is_utf8 t ≡ false → snapshot serde (some t) ≡ err io
  unfolding snapshot
  snapshot-broken t h = rw h refl

  -- A transcript that was only ever appended to is read without error, and gives what replaying its
  -- entries in order gives.
  pub snapshot-replay :
      (es : List TranscriptEntry) (file : File)
      → IsLog es file
      → snapshot serde file ≡ ok (replay es empty)
  unfolding load content_lines
  snapshot-replay es file h =
      snapshot-text file (ap is_utf8 h ∙ render-utf8 serde es)
      ∙ ap (λ t. load serde (content_lines t) empty) (h ∙ sym (append-nil (render serde es)))
      ∙ load-render es [] empty

  -- What a line that was torn off in the middle looks like: part of one line, not readable.
  pub record IsTorn (torn : Text) : Type 0 where
    pub part : has_char 10 torn ≡ false
    pub some_text : is_blank torn ≡ false
    pub unreadable : decode (trim torn) ≡ none

  render-torn :
      (es : List TranscriptEntry) (torn : Text) → is_utf8 (render serde es ++ torn) ≡ is_utf8 torn
  render-torn es torn = is_utf8-append (render serde es) torn ∙ ground (arith, render-utf8 serde es)

  append-utf8 :
      (e : TranscriptEntry) (t : Text)
      → is_utf8 t ≡ true
      → is_utf8 (t ++ (encode e ++ 10 ∷ [])) ≡ true
  unfolding is_utf8
  append-utf8 e t h =
      is_utf8-append t (encode e ++ 10 ∷ [])
      ∙ ground (arith, h, is_utf8-append (encode e) (10 ∷ []), utf8 e)

  -- Behind written entries stands a last line that was torn off and cannot be read. If it was torn off
  -- between two characters, it is passed over: the entries before it are all replayed. If it was torn
  -- off inside a character, the whole transcript cannot be read, and neither can it once a further
  -- entry is appended.
  pub snapshot-IsTorn :
      (es : List TranscriptEntry) (torn : Text) (e : TranscriptEntry)
      → IsTorn torn
      → ((is_utf8 torn ≡ true)
          × (snapshot serde (some (render serde es ++ torn)) ≡ ok (replay es empty)))
        ⊎ (is_utf8 torn ≡ false)
          × (snapshot serde (some (render serde es ++ torn)) ≡ err io)
          × (snapshot serde (append_entry serde e (some (render serde es ++ torn))) ≡ err io)
  unfolding load append_entry
  snapshot-IsTorn es torn e h = elim (Bool-cases (is_utf8 torn)) [
    | inl whole ↦ inl (
      whole,
      snapshot-text (some (render serde es ++ torn)) (render-torn es torn ∙ whole)
          ∙ load-render es torn empty
          ∙ rw (content_lines-last torn h.part h.some_text) (ground (arith, h.unreadable)),
    )
    | inr broken ↦
        let still = render-torn es torn ∙ broken in
        inr (
          broken,
          snapshot-broken (render serde es ++ torn) still,
          snapshot-broken ((render serde es ++ torn) ++ (encode e ++ 10 ∷ [])) (
              is_utf8-append (render serde es ++ torn) (encode e ++ 10 ∷ [])
              ∙ ground (arith, still)),
        )
  ]

  -- An entry that is appended behind a torn line of whole characters joins that line and is lost: if the joined line
  -- cannot be read either, the next reading gives the entries before it, and once a further entry
  -- is appended every reading fails.
  pub append_entry-IsTorn :
      (es : List TranscriptEntry) (torn : Text) (e f : TranscriptEntry)
      → IsTorn torn
      → is_utf8 torn ≡ true
      → trim (torn ++ encode e) ≡ torn ++ encode e
      → decode (torn ++ encode e) ≡ none
      → (snapshot serde (append_entry serde e (some (render serde es ++ torn)))
          ≡ ok (replay es empty))
        × (snapshot serde
              (append_entry serde f (append_entry serde e (some (render serde es ++ torn))))
            ≡ err json)
  unfolding snapshot append_entry content_lines
  append_entry-IsTorn es torn e f h chars whole bad =
      let one : has_char 10 (torn ++ encode e) ≡ false =
        has_char-append 10 torn (encode e) ∙ ground (arith, h.part, one_line e) in
      let full = is_blank-append torn (encode e) h.some_text in
      let first = content_lines-line (torn ++ encode e) [] one whole full in
      let second = content_lines-line (torn ++ encode e) (encode f ++ 10 ∷ []) one whole full in
      let last = content_lines-line (encode f) [] (one_line f) (trimmed f) (nonempty f) in
      let joined : (render serde es ++ torn) ++ (encode e ++ 10 ∷ [])
          ≡ render serde es ++ ((torn ++ encode e) ++ 10 ∷ []) =
        simp append_assoc in
      let first_utf8 = append-utf8 e (render serde es ++ torn) (render-torn es torn ∙ chars) in
      let second_utf8 =
        append-utf8 f ((render serde es ++ torn) ++ (encode e ++ 10 ∷ [])) first_utf8 in
      let joined_more : ((render serde es ++ torn) ++ (encode e ++ 10 ∷ []))
            ++ (encode f ++ 10 ∷ [])
          ≡ render serde es ++ ((torn ++ encode e) ++ 10 ∷ (encode f ++ 10 ∷ [])) =
        simp append_assoc in
      (
        snapshot-text (append_entry serde e (some (render serde es ++ torn))) first_utf8
            ∙ ap (λ t. load serde (content_lines t) empty) joined
            ∙ load-render es ((torn ++ encode e) ++ 10 ∷ []) empty
            ∙ ap (λ ls. load serde ls (replay es empty)) first
            ∙ load_bad_last (torn ++ encode e) (replay es empty) bad,
        snapshot-text (append_entry serde f (append_entry serde e (some (render serde es ++ torn))))
              second_utf8
            ∙ ap (λ t. load serde (content_lines t) empty) joined_more
            ∙ load-render es ((torn ++ encode e) ++ 10 ∷ (encode f ++ 10 ∷ [])) empty
            ∙ ap (λ ls. load serde ls (replay es empty))
                (second ∙ ap (λ ls. (torn ++ encode e) ∷ ls) last)
            ∙ load_bad (torn ++ encode e) (encode f) (content_lines []) (replay es empty) bad,
      )
