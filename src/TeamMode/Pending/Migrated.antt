-- ===== src/TeamMode/Pending/Migrated.antt =====
-- Where the notices of the old queue go.
use agent_teams_mcp.Base.{
  Text, ◌==◌, ==_iff, ◌≡◌, refl, sym, ap, subst, ◌∙◌, ◌⊎◌, inl, inr, ℕ, true, false, not, ◌&&◌,
  Option, none, some, List, [], ◌∷◌, ◌++◌, append_assoc, append-nil, map, retain, lookup, insert,
  lookup-insert, NoRepeat, keys, insert-NoRepeat, arith, if◌then◌else◌, Bool-cases,
}
use agent_teams_mcp.Error.{ok}
use agent_teams_mcp.Names.{validate_name}
use agent_teams_mcp.TeamMode.Lines.{
  LineSerde, is_utf8, render-utf8, is_blank, content_lines, render, content_lines-render,
}
use agent_teams_mcp.TeamMode.Transcript.{File, text_of}
use agent_teams_mcp.TeamMode.Pending.{LeadPendingEntry, Queues}
use agent_teams_mcp.TeamMode.Pending.Migration.{
  PendingDisk, Routed, lines_of, write_lines, write_unrouted, route_line, route_lines, append_team,
  distribute, migrate_content, migrate_legacy_path,
}
use agent_teams_mcp.TeamMode.Pending.Queue.{Holds}
use agent_teams_mcp.TeamMode.Pending.Appended.{fresh, append_team-fresh}
use agent_teams_mcp.TeamMode.Pending.Distributed.{lookup-distribute, after}

-- The entries for a team, which has a name.
abbrev pub mine : Text → List LeadPendingEntry → List LeadPendingEntry
mine team es = retain (λ e. not (is_blank e.team) && e.team == team) es

-- Each entry has no team or one that is a plain name, and so a directory of its own.
abbrev pub HavePlainTeams : List LeadPendingEntry → Type 0
HavePlainTeams [] = Unit
HavePlainTeams (e ∷ es) =
    ((is_blank e.team ≡ true) ⊎ (validate_name e.team ≡ ok tt)) × HavePlainTeams es

abbrev pub teamless : List LeadPendingEntry → List LeadPendingEntry
teamless es = retain (λ e. is_blank e.team) es

module _ (serde : LineSerde LeadPendingEntry) where
  open serde use {encode, decode, decode-encode}

  record Routes (es : List LeadPendingEntry) (r r' : Routed) : Type 0 where
    teams :
        (team : Text)
        → lines_of team r'.by_team ≡ lines_of team r.by_team ++ map encode (mine team es)
    rest : r'.unrouted ≡ r.unrouted ++ map encode (teamless es)
    once : NoRepeat (keys r'.by_team)

  route_line-teamless :
      (e : LeadPendingEntry) (r : Routed)
      → is_blank e.team ≡ true
      → route_line serde (encode e) r ≡ record r { unrouted = r.unrouted ++ encode e ∷ [] }
  unfolding route_line
  route_line-teamless e r h = ground (arith, decode-encode e, h)

  route_line-named :
      (e : LeadPendingEntry) (r : Routed)
      → is_blank e.team ≡ false
      → route_line serde (encode e) r ≡ record r {
        by_team = insert e.team (lines_of e.team r.by_team ++ encode e ∷ []) r.by_team;
      }
  unfolding route_line
  route_line-named e r h = ground (arith, decode-encode e, h)

  lines_of-insert :
      (k team : Text) (lines : List Text) (m : List (Text × List Text))
      → lines_of team (insert k lines m) ≡ (if k == team then lines else lines_of team m)
  unfolding lines_of
  lines_of-insert k team lines m = ground (arith, lookup-insert k team lines m)

  teams_after :
      (e : LeadPendingEntry) (es : List LeadPendingEntry) (r : Routed)
      → is_blank e.team ≡ false
      → (team : Text)
      → lines_of team (insert e.team (lines_of e.team r.by_team ++ encode e ∷ []) r.by_team)
          ++ map encode (mine team es)
        ≡ lines_of team r.by_team ++ map encode (mine team (e ∷ es))
  teams_after e es r named team =
      let more = lines_of e.team r.by_team ++ encode e ∷ [] in
      let later = map encode (mine team es) in
      ap (λ ls. ls ++ later) (lines_of-insert e.team team more r.by_team)
      ∙ elim (Bool-cases (e.team == team)) [
        | inl same ↦
            rw (named, same)
              (append_assoc (lines_of e.team r.by_team) (encode e ∷ []) later
                ∙ ap (λ t. lines_of t r.by_team ++ encode e ∷ later) ((==_iff e.team team).0 same))
        | inr apart ↦ rw (named, apart) refl
      ]

  route_lines-Routes :
      (es : List LeadPendingEntry) (r : Routed)
      → NoRepeat (keys r.by_team)
      → Routes es r (route_lines serde (map encode es) r)
  unfolding route_lines
  route_lines-Routes [] r once = record {
    teams = λ team. sym (append-nil (lines_of team r.by_team));
    rest = sym (append-nil r.unrouted);
    once = once;
  }
  route_lines-Routes (e ∷ es) r once = elim (Bool-cases (is_blank e.team)) [
    | inl blank ↦
        let r1 = record r { unrouted = r.unrouted ++ encode e ∷ [] } in
        let ih = route_lines-Routes es r1 once in
        subst (λ x. Routes (e ∷ es) r (route_lines serde (map encode es) x))
          (sym (route_line-teamless e r blank))
          (record {
            teams = λ team. ih.teams team ∙ rw blank refl;
            rest =
                ih.rest
                ∙ append_assoc r.unrouted (encode e ∷ []) (map encode (teamless es))
                ∙ rw blank refl;
            once = ih.once;
          })
    | inr named ↦
        let more = lines_of e.team r.by_team ++ encode e ∷ [] in
        let r1 = record r { by_team = insert e.team more r.by_team } in
        let ih = route_lines-Routes es r1 (insert-NoRepeat e.team more r.by_team once) in
        subst (λ x. Routes (e ∷ es) r (route_lines serde (map encode es) x))
          (sym (route_line-named e r named))
          (record {
            teams = λ team. ih.teams team ∙ teams_after e es r named team;
            rest = ih.rest ∙ rw named refl;
            once = ih.once;
          })
  ]

  write_lines-render :
      (es : List LeadPendingEntry) (t : Text) → write_lines (map encode es) t ≡ t ++ render serde es
  unfolding write_lines
  write_lines-render [] t = sym (append-nil t)
  write_lines-render (e ∷ es) t =
      write_lines-render es (t ++ (encode e ++ 10 ∷ []))
      ∙ append_assoc t (encode e ++ 10 ∷ []) (render serde es)
      ∙ ap (λ x. t ++ x) (append_assoc (encode e) (10 ∷ []) (render serde es))

  text_of-write_unrouted :
      (es : List LeadPendingEntry) (file : File)
      → text_of (write_unrouted (map encode es) file) ≡ text_of file ++ render serde es
  unfolding write_unrouted
  text_of-write_unrouted [] file = sym (append-nil (text_of file))
  text_of-write_unrouted (e ∷ es) file = write_lines-render (e ∷ es) (text_of file)

  abbrev moved : PendingDisk → Routed → ℕ × PendingDisk
  moved disk r = (
    (distribute serde r.by_team disk.queues).0,
    record {
      legacy = none;
      unrouted = write_unrouted r.unrouted disk.unrouted;
      queues = (distribute serde r.by_team disk.queues).1;
    },
  )

  abbrev nowhere : Routed
  nowhere = record { by_team = []; unrouted = [] }

  migrate_legacy_path-moved :
      (disk : PendingDisk) (content : Text)
      → disk.legacy ≡ some content
      → is_utf8 content ≡ true
      → migrate_legacy_path serde disk
        ≡ moved disk (route_lines serde (content_lines content) nowhere)
  unfolding migrate_legacy_path migrate_content
  migrate_legacy_path-moved disk content h chars = ground (arith, h)

  migrate_legacy_path-nothing :
      (disk : PendingDisk) → disk.legacy ≡ none → migrate_legacy_path serde disk ≡ (0, disk)
  unfolding migrate_legacy_path
  migrate_legacy_path-nothing disk h = ground (arith, h)

  after-fresh :
      (found : Option (List Text)) (team : Text) (es held : List LeadPendingEntry) (queues : Queues)
      → elim found [ none ↦ [] | some lines ↦ lines ] ≡ map encode es
      → Holds serde team held queues
      → after serde found team queues ≡ render serde (held ++ fresh held es)
  after-fresh none team [] held queues same h = h ∙ ap (render serde) (sym (append-nil held))
  after-fresh none team (e ∷ es) held queues same h = cc
  after-fresh (some lines) team es held queues same h =
      ap (λ ls. (append_team serde team ls queues).text) same
      ∙ append_team-fresh serde team es held queues h

  -- In an old queue of written entries each entry either has no team or has one that is a plain name.
  -- Migrating it removes it, and a second migration does nothing. The queue of a team, which held
  -- written entries, holds behind them the team's entries of the old queue in their order, except for
  -- those with an id that is there already, and the entries without a team are at the end of the file
  -- for such lines.
  pub migrate_legacy_path-moves :
      (disk : PendingDisk) (es : List LeadPendingEntry) (team : Text) (held : List LeadPendingEntry)
      → HavePlainTeams es
      → validate_name team ≡ ok tt
      → disk.legacy ≡ some (render serde es)
      → Holds serde team held disk.queues
      → let disk' = (migrate_legacy_path serde disk).1 in
        (disk'.legacy ≡ none)
        × (migrate_legacy_path serde disk' ≡ (0, disk'))
        × Holds serde team (held ++ fresh held (mine team es)) disk'.queues
        × (text_of disk'.unrouted ≡ text_of disk.unrouted ++ render serde (teamless es))
  unfolding lines_of lookup
  migrate_legacy_path-moves disk es team held plain named old holds =
      let r = route_lines serde (map encode es) nowhere in
      let routes = route_lines-Routes es nowhere tt in
      let same : migrate_legacy_path serde disk ≡ moved disk r =
        migrate_legacy_path-moved disk (render serde es) old (render-utf8 serde es)
        ∙ ap (λ ls. moved disk (route_lines serde ls nowhere)) (content_lines-render serde es) in
      let gone = ap (λ x. x.1.legacy) same in
      (
        gone,
        migrate_legacy_path-nothing (migrate_legacy_path serde disk).1 gone,
        ap (λ x. text_of (lookup team x.1.queues)) same
            ∙ lookup-distribute serde r.by_team disk.queues team routes.once
            ∙ after-fresh (lookup team r.by_team) team (mine team es) held disk.queues
                (routes.teams team) holds,
        ap (λ x. text_of x.1.unrouted) same
            ∙ ap (λ ls. text_of (write_unrouted ls disk.unrouted)) routes.rest
            ∙ text_of-write_unrouted (teamless es) disk.unrouted,
      )
