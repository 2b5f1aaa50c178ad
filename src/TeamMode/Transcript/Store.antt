-- ===== src/TeamMode/Transcript/Store.antt =====
-- What saving and deleting a message do to what is then read.
use agent_teams_mcp.Base.{
  NoRepeat, NoRepeat-snoc, Text, ◌==◌, ==_iff, ◌≡◌, refl, ap, ◌∙◌, inl, inr, true, false, not, some,
  List, [], ◌∷◌, ◌++◌, map, arith, contains, contains-snoc, lookup, lookup-insert, insert,
  lookup-remove, remove, retain, if◌then◌else◌, Bool-cases, Option-cases,
}
use agent_teams_mcp.Error.{ok}
use agent_teams_mcp.Names.{validate_name}
use agent_teams_mcp.TeamMode.Message.{Message}
use agent_teams_mcp.TeamMode.Lines.{LineSerde}
use agent_teams_mcp.TeamMode.Transcript.{
  TranscriptEntry, message, deleted, TranscriptSnapshot, empty, File, apply_entry, collect,
  snapshot, append_entry, get, list,
}
use agent_teams_mcp.TeamMode.Transcript.Replay.{
  replay, replay-append, IsLog, append_entry-IsLog, snapshot-replay,
}

-- A snapshot as reading makes it: every active message stands under its own id, and the order has
-- each id of an active message, and no id twice.
pub record IsKeyed (s : TranscriptSnapshot) : Type 0 where
  pub own : (id : Text) (m : Message) → lookup id s.active ≡ some m → m.id ≡ id
  pub known : (id : Text) (m : Message) → lookup id s.active ≡ some m → contains id s.order ≡ true
  pub once : NoRepeat s.order

apply_entry-IsKeyed :
    (e : TranscriptEntry) (s : TranscriptSnapshot) → IsKeyed s → IsKeyed (apply_entry e s)
unfolding apply_entry
apply_entry-IsKeyed (message m) s h = record {
  own = λ id x e. ground (arith, lookup-insert m.id id m s.active, ==_iff m.id id, h.own id x);
  known = λ id x e. ground (
    arith,
    lookup-insert m.id id m s.active,
    ==_iff m.id id,
    h.known id x,
    contains-snoc id m.id s.order,
  );
  once = elim (Bool-cases (contains m.id s.order)) [
    | inl old ↦ rw old h.once
    | inr new ↦ rw new (NoRepeat-snoc s.order m.id h.once new)
  ];
}
apply_entry-IsKeyed (deleted k at) s h = record {
  own = λ id x e. ground (arith, lookup-remove k id s.active, h.own id x);
  known = λ id x e. ground (arith, lookup-remove k id s.active, h.known id x);
  once = h.once;
}

replay-IsKeyed :
    (es : List TranscriptEntry) (s : TranscriptSnapshot) → IsKeyed s → IsKeyed (replay es s)
replay-IsKeyed [] s h = h
replay-IsKeyed (e ∷ es) s h = replay-IsKeyed es (apply_entry e s) (apply_entry-IsKeyed e s h)

empty-IsKeyed : IsKeyed empty
unfolding lookup
empty-IsKeyed = record { own = λ id m e. cc; known = λ id m e. cc; once = tt }

module _ (active : List (Text × Message)) where
  pub collect-insert_absent :
      (k : Text) (m : Message) (ids : List Text)
      → contains k ids ≡ false
      → collect (insert k m active) ids ≡ collect active ids
  unfolding collect contains
  collect-insert_absent k m [] h = refl
  collect-insert_absent k m (id ∷ ids) h =
      ground (
        arith,
        collect-insert_absent k m ids,
        lookup-insert k id m active,
        ==_iff id k,
        ==_iff k id,
      )

  pub collect-snoc :
      (ids : List Text) (id : Text) (m : Message)
      → lookup id active ≡ some m
      → collect active (ids ++ id ∷ []) ≡ collect active ids ++ m ∷ []
  unfolding collect
  collect-snoc [] id m h = ground arith
  collect-snoc (x ∷ ids) id m h = ground (arith, collect-snoc ids id m h)

-- The message put in the place of the one with its id.
abbrev pub replace : Message → List Message → List Message
replace m ms = map (λ x. if x.id == m.id then m else x) ms

pub collect-replace :
    (active : List (Text × Message)) (m old : Message) (ids : List Text)
    → ((id : Text) (x : Message) → lookup id active ≡ some x → x.id ≡ id)
    → lookup m.id active ≡ some old
    → collect (insert m.id m active) ids ≡ replace m (collect active ids)
unfolding collect
collect-replace active m old [] own h = refl
collect-replace active m old (id ∷ ids) own h =
    let ih = collect-replace active m old ids own h in
    elim (Option-cases (lookup id active)) [
      | inl gone ↦ ground (arith, ih, gone, lookup-insert m.id id m active, ==_iff m.id id, h)
      | inr (x, here) ↦ ground (
        arith,
        ih,
        here,
        own id x here,
        lookup-insert m.id id m active,
        ==_iff m.id id,
        ==_iff id m.id,
      )
    ]

pub collect-remove :
    (active : List (Text × Message)) (k : Text) (ids : List Text)
    → ((id : Text) (x : Message) → lookup id active ≡ some x → x.id ≡ id)
    → collect (remove k active) ids ≡ retain (λ x. not (x.id == k)) (collect active ids)
unfolding collect
collect-remove active k [] own = refl
collect-remove active k (id ∷ ids) own =
    let ih = collect-remove active k ids own in
    elim (Option-cases (lookup id active)) [
      | inl gone ↦ ground (arith, ih, gone, lookup-remove k id active)
      | inr (x, here) ↦
          ground
            (arith, ih, here, own id x here, lookup-remove k id active, ==_iff k id, ==_iff id k)
    ]

module _ (serde : LineSerde TranscriptEntry) (es : List TranscriptEntry) (file : File)
    (log : IsLog serde es file) where
  abbrev pub now : TranscriptSnapshot
  now = replay es empty

  pub now-IsKeyed : IsKeyed now
  now-IsKeyed = replay-IsKeyed es empty empty-IsKeyed

  pub snapshot-append_entry :
      (e : TranscriptEntry) → snapshot serde (append_entry serde e file) ≡ ok (apply_entry e now)
  snapshot-append_entry e =
      snapshot-replay serde (es ++ e ∷ []) (append_entry serde e file)
        (append_entry-IsLog serde e es file log)
      ∙ ap ok (replay-append es (e ∷ []) empty)

  pub get-now :
      (team id : Text)
      → validate_name team ≡ ok tt
      → validate_name id ≡ ok tt
      → get serde team id file ≡ ok (lookup id now.active)
  unfolding get
  get-now team id ht hi = rw (ht, hi, snapshot-replay serde es file log)

  pub list-now :
      (team : Text)
      → validate_name team ≡ ok tt
      → list serde team file ≡ ok (collect now.active now.order)
  unfolding list
  list-now team ht = rw (ht, snapshot-replay serde es file log)

  pub get-append_entry :
      (e : TranscriptEntry) (team id : Text)
      → validate_name team ≡ ok tt
      → validate_name id ≡ ok tt
      → get serde team id (append_entry serde e file) ≡ ok (lookup id (apply_entry e now).active)
  unfolding get
  get-append_entry e team id ht hi = rw (ht, hi, snapshot-append_entry e)

  pub list-append_entry :
      (e : TranscriptEntry) (team : Text)
      → validate_name team ≡ ok tt
      → list serde team (append_entry serde e file)
        ≡ ok (collect (apply_entry e now).active (apply_entry e now).order)
  unfolding list
  list-append_entry e team ht = rw (ht, snapshot-append_entry e)
