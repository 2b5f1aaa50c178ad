-- ===== src/TeamMode/Pending/Appended.antt =====
-- What the loop of the migration appends to the queue of each team.
use agent_teams_mcp.Base.{
  Text, ◌==◌, ==_iff, ◌≡◌, refl, sym, ap, ◌∙◌, inl, inr, ◌+◌, Bool, true, false, not, ◌&&◌, ◌||◌,
  none, some, List, [], ◌∷◌, ◌++◌, append_assoc, append-nil, any, map, contains,
  contains-insert_set, insert_set, lookup, arith, if◌then◌else◌, Bool-cases,
}
use agent_teams_mcp.TeamMode.Lines.{
  LineSerde, is_blank, is_utf8, render-utf8, trim, split_lines, split_lines-line, render,
  render-append,
}
use agent_teams_mcp.TeamMode.Transcript.{File, text_of}
use agent_teams_mcp.TeamMode.Pending.{LeadPendingEntry, Queues}
use agent_teams_mcp.TeamMode.Pending.Migration.{
  Appending, msg_id_of, collect_ids, pending_msg_ids, append_new, append_all, append_team,
}
use agent_teams_mcp.TeamMode.Pending.Queue.{Holds}

any-snoc :
    {A : Type 0} (p : A → Bool) (xs : List A) (x : A) → any p (xs ++ x ∷ []) ≡ (any p xs || p x)
any-snoc p [] x = ground arith
any-snoc p (y ∷ ys) x = ground (arith, any-snoc p ys x)

-- An entry of that id is in the list.
abbrev pub has_id : Text → List LeadPendingEntry → Bool
has_id id es = any (λ e. e.msg_id == id) es

-- The entries that are new behind those seen: an entry is old when its id is not empty and is there.
abbrev pub fresh : List LeadPendingEntry → List LeadPendingEntry → List LeadPendingEntry
fresh seen [] = []
fresh seen (e ∷ es) =
    let skip = fresh seen es in
    let more = e ∷ fresh (seen ++ e ∷ []) es in
    if not (is_blank e.msg_id) && has_id e.msg_id seen then skip else more

fresh-by :
    (seen es : List LeadPendingEntry) (e : LeadPendingEntry) (b : Bool)
    → (not (is_blank e.msg_id) && has_id e.msg_id seen) ≡ b
    → fresh seen (e ∷ es) ≡ (if b then fresh seen es else e ∷ fresh (seen ++ e ∷ []) es)
fresh-by seen es e b h = ap (λ x. if x then fresh seen es else e ∷ fresh (seen ++ e ∷ []) es) h

module _ (serde : LineSerde LeadPendingEntry) where
  open serde use {encode, decode, decode-encode, one_line, trimmed, nonempty}

  msg_id_of-encode :
      (e : LeadPendingEntry)
      → msg_id_of serde (encode e) ≡ (if not (is_blank e.msg_id) then some e.msg_id else none)
  unfolding msg_id_of
  msg_id_of-encode e = ground (arith, decode-encode e)

  lines-render :
      (es : List LeadPendingEntry) → map trim (split_lines (render serde es)) ≡ map encode es
  unfolding split_lines
  lines-render [] = refl
  lines-render (e ∷ es) =
      ap (map trim) (split_lines-line (encode e) (render serde es) (one_line e))
      ∙ ap (λ l. l ∷ map trim (split_lines (render serde es))) (trimmed e)
      ∙ ap (λ ls. encode e ∷ ls) (lines-render es)

  -- The ids that are known are those of the entries seen.
  abbrev Knows : List Text → List LeadPendingEntry → Type 0
  Knows ids seen = (id : Text) → is_blank id ≡ false → contains id ids ≡ has_id id seen

  collect_ids-encode :
      (e : LeadPendingEntry) (lines : List Text)
      → collect_ids serde (encode e ∷ lines) ≡ (
          if not (is_blank e.msg_id)
          then insert_set e.msg_id (collect_ids serde lines)
          else collect_ids serde lines)
  unfolding collect_ids
  collect_ids-encode e lines = ground (arith, msg_id_of-encode e)

  collect_ids-Knows : (es : List LeadPendingEntry) → Knows (collect_ids serde (map encode es)) es
  unfolding collect_ids contains
  collect_ids-Knows [] id full = refl
  collect_ids-Knows (e ∷ es) id full =
      let rest = collect_ids serde (map encode es) in
      let ih = collect_ids-Knows es id full in
      ap (contains id) (collect_ids-encode e (map encode es))
      ∙ elim (Bool-cases (is_blank e.msg_id)) [
        | inl blank ↦ rw blank (ih ∙ ground (arith, blank, ==_iff e.msg_id id, ap is_blank))
        | inr named ↦ rw named (contains-insert_set id e.msg_id rest ∙ ground (arith, ih))
      ]

  Knows-snoc_blank :
      (ids : List Text) (seen : List LeadPendingEntry) (e : LeadPendingEntry)
      → Knows ids seen
      → is_blank e.msg_id ≡ true
      → Knows ids (seen ++ e ∷ [])
  Knows-snoc_blank ids seen e knows blank id full =
      knows id full
      ∙ ground (arith, any-snoc (λ x. x.msg_id == id) seen e, ==_iff e.msg_id id, ap is_blank)

  Knows-snoc_named :
      (ids : List Text) (seen : List LeadPendingEntry) (e : LeadPendingEntry)
      → Knows ids seen
      → Knows (insert_set e.msg_id ids) (seen ++ e ∷ [])
  Knows-snoc_named ids seen e knows id full =
      contains-insert_set id e.msg_id ids
      ∙ ground (arith, knows id full, any-snoc (λ x. x.msg_id == id) seen e)

  append_new-blank :
      (e : LeadPendingEntry) (s : Appending)
      → is_blank e.msg_id ≡ true
      → append_new serde (encode e) s
        ≡ record s { text = s.text ++ (encode e ++ 10 ∷ []); appended = s.appended + 1 }
  unfolding append_new
  append_new-blank e s blank = ground (arith, msg_id_of-encode e, blank)

  append_new-old :
      (e : LeadPendingEntry) (s : Appending)
      → is_blank e.msg_id ≡ false
      → contains e.msg_id s.existing_msg_ids ≡ true
      → append_new serde (encode e) s ≡ s
  unfolding append_new
  append_new-old e s named old = ground (arith, msg_id_of-encode e, named, old)

  append_new-new :
      (e : LeadPendingEntry) (s : Appending)
      → is_blank e.msg_id ≡ false
      → contains e.msg_id s.existing_msg_ids ≡ false
      → append_new serde (encode e) s ≡ record {
        existing_msg_ids = insert_set e.msg_id s.existing_msg_ids;
        text = s.text ++ (encode e ++ 10 ∷ []);
        appended = s.appended + 1;
      }
  unfolding append_new
  append_new-new e s named new = ground (arith, msg_id_of-encode e, named, new)

  append_all-fresh :
      (es seen : List LeadPendingEntry) (s : Appending)
      → Knows s.existing_msg_ids seen
      → s.text ≡ render serde seen
      → (append_all serde (map encode es) s).text ≡ render serde (seen ++ fresh seen es)
  unfolding append_all
  append_all-fresh [] seen s knows same = same ∙ ap (render serde) (sym (append-nil seen))
  append_all-fresh (e ∷ es) seen s knows same =
      let longer : s.text ++ (encode e ++ 10 ∷ []) ≡ render serde (seen ++ e ∷ []) =
        ap (λ t. t ++ (encode e ++ 10 ∷ [])) same ∙ sym (render-append serde seen (e ∷ [])) in
      let later = fresh (seen ++ e ∷ []) es in
      let joined = ap (render serde) (append_assoc seen (e ∷ []) later) in
      elim (Bool-cases (is_blank e.msg_id)) [
        | inl blank ↦
            ap (λ x. (append_all serde (map encode es) x).text) (append_new-blank e s blank)
            ∙ append_all-fresh es (seen ++ e ∷ [])
                (record s { text = s.text ++ (encode e ++ 10 ∷ []); appended = s.appended + 1 })
                (Knows-snoc_blank s.existing_msg_ids seen e knows blank) longer
            ∙ joined
            ∙ ap (λ x. render serde (seen ++ x))
                (sym (fresh-by seen es e false (ground (arith, blank))))
        | inr named ↦ elim (Bool-cases (contains e.msg_id s.existing_msg_ids)) [
          | inl old ↦
              ap (λ x. (append_all serde (map encode es) x).text) (append_new-old e s named old)
              ∙ append_all-fresh es seen s knows same
              ∙ ap (λ x. render serde (seen ++ x))
                  (sym (fresh-by seen es e true (ground (arith, named, old, knows e.msg_id named))))
          | inr new ↦
              ap (λ x. (append_all serde (map encode es) x).text) (append_new-new e s named new)
              ∙ append_all-fresh es (seen ++ e ∷ [])
                  (record {
                    existing_msg_ids = insert_set e.msg_id s.existing_msg_ids;
                    text = s.text ++ (encode e ++ 10 ∷ []);
                    appended = s.appended + 1;
                  })
                  (Knows-snoc_named s.existing_msg_ids seen e knows) longer
              ∙ joined
              ∙ ap (λ x. render serde (seen ++ x))
                  (sym
                    (fresh-by seen es e false (ground (arith, named, new, knows e.msg_id named))))
        ]
      ]

  pending_msg_ids-render :
      (file : File) (held : List LeadPendingEntry)
      → text_of file ≡ render serde held
      → pending_msg_ids serde file ≡ collect_ids serde (map trim (split_lines (text_of file)))
  unfolding pending_msg_ids
  pending_msg_ids-render file held h =
      let chars = ap is_utf8 h ∙ render-utf8 serde held in rw chars refl

  pub append_team-fresh :
      (team : Text) (es held : List LeadPendingEntry) (queues : Queues)
      → Holds serde team held queues
      → (append_team serde team (map encode es) queues).text ≡ render serde (held ++ fresh held es)
  unfolding append_team
  append_team-fresh team es held queues h =
      append_all-fresh es held
        (record {
          existing_msg_ids = pending_msg_ids serde (lookup team queues);
          text = text_of (lookup team queues);
          appended = 0;
        })
        (λ id full.
          ap (contains id) (pending_msg_ids-render (lookup team queues) held h)
          ∙ ap (λ t. contains id (collect_ids serde (map trim (split_lines t)))) h
          ∙ ap (λ ls. contains id (collect_ids serde ls)) (lines-render held)
          ∙ collect_ids-Knows held id full)
        h
