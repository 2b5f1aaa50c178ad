-- ===== src/TeamMode/Members/Reading.antt =====
-- What the readers of the members' files show after a change.
use agent_teams_mcp.Base.{
  Text, text_le, ◌==◌, ==_iff, ==_refl, ◌≡◌, refl, sym, ap, subst, ◌∙◌, Bool, true, false, ◌&&◌,
  ◌||◌, Option, none, some, List, [], ◌∷◌, any, retain, map, contains, insert_sorted, sort_by,
  NoRepeat, Serde, arith, Bool-cases, inl, inr,
}
use agent_teams_mcp.Error.{other, member_exists, ok, err}
use agent_teams_mcp.Names.{validate_name}
use agent_teams_mcp.TeamMode.Member.{
  removed, stopped, MemberStatus, ExecutionProfile, UnifiedMember, MembersFile, MemberRecord,
  from_unified, into_unified,
}
use agent_teams_mcp.TeamMode.Members.{
  Files, find_member, remove_mark, get_member, list_by_team, list_active, mark_removed, plan_add,
  add, add_to_file, upsert,
}
use agent_teams_mcp.TeamMode.Members.Changes.{names, contains-names, any-find_member}
use agent_teams_mcp.TeamMode.Members.Table.{upsert_op, update_op}
use agent_teams_mcp.TeamMode.Members.Refined.{
  run, answered-files, table, table-loaded, IsSound, run-Refines,
}

abbrev pub shown : Text → Option UnifiedMember → Option MemberRecord
shown team none = none
shown team (some u) = some (from_unified team u)

from_unified-into_unified : (r : MemberRecord) → from_unified r.profile.team_id (into_unified r) ≡ r
unfolding from_unified into_unified
from_unified-into_unified r = refl

-- An execution whose session is stopped, and nothing else of it changed.
abbrev pub stopped_execution : Option ExecutionProfile → Option ExecutionProfile
stopped_execution none = none
stopped_execution (some e) = some (record e { session_state = some stopped })

-- The member as a record of the team, field by field: of what `m` holds, only the status and the
-- state of the session are others.
abbrev pub left_with : Text → UnifiedMember → MemberStatus → MemberRecord
left_with team m status = record {
  profile = record {
    team_id = team;
    name = m.name;
    kind = m.kind;
    role_label = m.role_label;
    role_description = m.role_description;
    status = status;
    joined_at = m.joined_at;
  };
  execution = stopped_execution m.execution;
}

pub from_unified-remove_mark :
    (team : Text) (m : UnifiedMember) → from_unified team (remove_mark m) ≡ left_with team m removed
unfolding from_unified remove_mark
from_unified-remove_mark team m = elim m.execution [ none ↦ refl | some e ↦ refl ]

module _ {A : Type 0} (p : A → Bool) where
  any-insert_sorted :
      (le : A → A → Bool) (x : A) (xs : List A) → any p (insert_sorted le x xs) ≡ (p x || any p xs)
  unfolding insert_sorted
  any-insert_sorted le x [] = refl
  any-insert_sorted le x (y ∷ ys) = ground (arith, any-insert_sorted le x ys)

  any-sort_by : (le : A → A → Bool) (xs : List A) → any p (sort_by le xs) ≡ any p xs
  unfolding sort_by
  any-sort_by le [] = refl
  any-sort_by le (x ∷ xs) =
      any-insert_sorted le x (sort_by le xs) ∙ ap (λ b. p x || b) (any-sort_by le xs)

  any-retain : (q : A → Bool) (xs : List A) → any p (retain q xs) ≡ any (λ x. q x && p x) xs
  any-retain q [] = refl
  any-retain q (x ∷ xs) = ground (arith, any-retain q xs)

  any-map : {B : Type 0} (f : B → A) (xs : List B) → any p (map f xs) ≡ any (λ x. p (f x)) xs
  any-map f [] = refl
  any-map f (x ∷ xs) = ap (λ b. p (f x) || b) (any-map f xs)

abbrev is_present : MemberStatus → Bool
is_present s = elim s [ removed ↦ false | _ ↦ true ]

any-less :
    {A : Type 0} (p q : A → Bool) (xs : List A)
    → any p xs ≡ false
    → any (λ x. q x && p x) xs ≡ false
any-less p q [] h = refl
any-less p q (x ∷ xs) h = ground (arith, any-less p q xs)

abbrev present_of : Option UnifiedMember → Bool
present_of none = false
present_of (some m) = is_present m.status

-- One removed member under a name, and so no present one.
only_removed :
    (name : Text) (m : UnifiedMember) (ms : List UnifiedMember)
    → NoRepeat (names ms)
    → find_member name ms ≡ some m
    → is_present m.status ≡ false
    → any (λ x. is_present x.status && x.name == name) ms ≡ false
unfolding find_member
only_removed name m [] once h gone = cc
only_removed name m (x ∷ ms) once h gone = elim (Bool-cases (x.name == name)) [
  | inl same ↦
      let head : is_present x.status ≡ false =
        let e : some x ≡ some m = ground (arith, h) in ap present_of e ∙ gone in
      let others : any (λ y. y.name == name) ms ≡ false =
        any-find_member name ms
        ∙ sym (contains-names name ms)
        ∙ subst (λ n. contains n (names ms) ≡ false) ((==_iff x.name name).0 same) once.0 in
      ground (arith, head, any-less (λ y. y.name == name) (λ y. is_present y.status) ms others)
  | inr apart ↦ ground (arith, only_removed name m ms once.1)
]

module _ (serde : Serde MembersFile) where
  pub get_member-table :
      (files : Files) (team name : Text)
      → IsSound serde files
      → validate_name team ≡ ok tt
      → validate_name name ≡ ok tt
      → get_member serde team name files ≡ ok (shown team (table serde files team name))
  unfolding get_member
  get_member-table files team name sound t n =
      let (file, loaded, _) = sound team in ground (arith, loaded, t, n)

  -- What was written for a member is what is read, where all files are sound before.
  pub upsert-get_member :
      (r : MemberRecord) (files : Files)
      → IsSound serde files
      → validate_name r.profile.team_id ≡ ok tt
      → validate_name r.profile.name ≡ ok tt
      → get_member serde r.profile.team_id r.profile.name (upsert serde r files).1 ≡ ok (some r)
  upsert-get_member r files sound t n =
      let done = run-Refines serde (upsert_op r) files sound t n in
      let same = answered-files (upsert serde r files) in
      let t' = r.profile.team_id in
      let n' = r.profile.name in
      let there : table serde (run serde (upsert_op r) files).1 t' n' ≡ some (into_unified r) =
        done.entries t' n' ∙ ground (arith, ==_refl t', ==_refl n') in
      get_member-table (upsert serde r files).1 t' n' (subst (IsSound serde) same done.sound) t n
      ∙ ap (λ o. ok (shown t' o)) (ap (λ s. table serde s t' n') (sym same) ∙ there)
      ∙ ap (λ x. ok (some x)) (from_unified-into_unified r)

  list_active-hides :
      (files : Files) (team name : Text) (m : UnifiedMember)
      → IsSound serde files
      → validate_name team ≡ ok tt
      → table serde files team name ≡ some m
      → is_present m.status ≡ false
      → (records : List MemberRecord) × (list_active serde team files ≡ ok records)
        × (any (λ r. r.profile.name == name) records ≡ false)
  unfolding list_active list_by_team from_unified
  list_active-hides files team name m sound t there gone =
      let (file, loaded, once) = sound team in
      let le = λ (a b : MemberRecord). text_le a.profile.name b.profile.name in
      let present = λ (r : MemberRecord). is_present r.profile.status in
      let named = λ (r : MemberRecord). r.profile.name == name in
      let all = map (from_unified team) file.members in
      (
        retain present (sort_by le all),
        ground (arith, t, loaded),
        any-retain named present (sort_by le all)
            ∙ any-sort_by (λ r. present r && named r) le all
            ∙ any-map (λ r. present r && named r) (from_unified team) file.members
            ∙ only_removed name m file.members once
                (sym (table-loaded serde files team name file loaded) ∙ there) gone,
      )

  add-refused :
      (r : MemberRecord) (files : Files) (m : UnifiedMember)
      → IsSound serde files
      → validate_name r.profile.team_id ≡ ok tt
      → validate_name r.profile.name ≡ ok tt
      → table serde files r.profile.team_id r.profile.name ≡ some m
      → add serde r files ≡ (err (other (member_exists r.profile.name r.profile.team_id)), files)
  unfolding add plan_add add_to_file
  add-refused r files m sound t n there =
      let (file, loaded, once) = sound r.profile.team_id in
      let found =
        sym (table-loaded serde files r.profile.team_id r.profile.name file loaded) ∙ there in
      ground (arith, t, n, loaded, any-find_member r.profile.name file.members, found)

  -- Where all files are sound and the member is in them, marking it as removed succeeds. It is then
  -- read with the status removed and, if it has an execution, with a stopped session: every other
  -- field of its profile and of its execution is as before. It is no longer listed as active, and its
  -- name cannot be added again.
  pub mark_removed-hides :
      (team name : Text) (m : UnifiedMember) (files : Files) (r : MemberRecord)
      → IsSound serde files
      → validate_name team ≡ ok tt
      → validate_name name ≡ ok tt
      → table serde files team name ≡ some m
      → r.profile.team_id ≡ team
      → r.profile.name ≡ name
      → let (answer, files') = mark_removed serde team name files in
        (answer ≡ ok true)
        × (get_member serde team name files' ≡ ok (some (left_with team m removed)))
        × ((records : List MemberRecord) × (list_active serde team files' ≡ ok records)
            × (any (λ r. r.profile.name == name) records ≡ false))
        × (add serde r files'
            ≡ (err (other (member_exists r.profile.name r.profile.team_id)), files'))
  unfolding mark_removed remove_mark
  mark_removed-hides team name m files r sound t n there same_team same_name =
      let done = run-Refines serde (update_op team name remove_mark (λ x h. h)) files sound t n in
      let files' = (mark_removed serde team name files).1 in
      let now : table serde files' team name ≡ some (remove_mark m) =
        done.entries team name ∙ ground (arith, ==_refl team, ==_refl name, there) in
      (
        done.answers ∙ ground (arith, there),
        get_member-table files' team name done.sound t n
            ∙ ap (λ o. ok (shown team o)) now
            ∙ ap (λ x. ok (some x)) (from_unified-remove_mark team m),
        list_active-hides files' team name (remove_mark m) done.sound t now refl,
        add-refused r files' (remove_mark m) done.sound
            (subst (λ x. validate_name x ≡ ok tt) (sym same_team) t)
            (subst (λ x. validate_name x ≡ ok tt) (sym same_name) n)
            (ap (λ x. table serde files' x r.profile.name) same_team
              ∙ ap (table serde files' team) same_name
              ∙ now),
      )
