-- ===== src/TeamMode/Members/Plans.antt =====
-- Each change of the file of a team does what the table of members promises.
use agent_teams_mcp.Base.{
  Text, ◌==◌, ==_iff, ◌≡◌, refl, sym, subst, ◌∙◌, nat_eq, length, true, false, not, Option, none,
  some, List, [], ◌∷◌, ◌++◌, retain, NoRepeat, arith, if◌then◌else◌, Bool-cases, Option-cases, inl,
  inr,
}
use agent_teams_mcp.Error.{other, member_exists, ok, err}
use agent_teams_mcp.TeamMode.Member.{UnifiedMember, MembersFile, MemberRecord, into_unified}
use agent_teams_mcp.TeamMode.Members.{
  find_member, change_member, renewed, add_to_file, upsert_in_file, update_in_file,
  delete_from_file,
}
use agent_teams_mcp.TeamMode.Members.Changes.{
  names, any-find_member, find_member-snoc, find_member-retain, find_member-change, names-change,
  retain-all, retain-NoRepeat, snoc-NoRepeat,
}
use agent_teams_mcp.TeamMode.Members.Table.{
  MemberOp, add_op, upsert_op, update_op, delete_op, plan, Fulfills,
}

same_entry :
    (k n : Text) (ms : List UnifiedMember) (o : Option UnifiedMember)
    → find_member k ms ≡ o
    → find_member n ms ≡ (if k == n then o else find_member n ms)
same_entry k n ms o h = elim (Bool-cases (k == n)) [
  | inl same ↦ rw same (subst (λ x. find_member x ms ≡ o) ((==_iff k n).0 same) h)
  | inr apart ↦ rw apart refl
]

module _ (r : MemberRecord) (file : MembersFile) (once : NoRepeat (names file.members)) where
  snoc_entry :
      (n : Text)
      → find_member r.profile.name file.members ≡ none
      → find_member n (file.members ++ into_unified r ∷ [])
        ≡ (if r.profile.name == n then some (into_unified r) else find_member n file.members)
  unfolding into_unified
  snoc_entry n new =
      find_member-snoc n (into_unified r) file.members
      ∙ ground (arith, same_entry r.profile.name n file.members none new)

  snoc_once :
      find_member r.profile.name file.members ≡ none
      → NoRepeat (names (file.members ++ into_unified r ∷ []))
  unfolding into_unified
  snoc_once new = snoc-NoRepeat (into_unified r) file.members once new

  plan-add_new :
      find_member r.profile.name file.members ≡ none
      → plan (add_op r) file ≡ (ok true, some (renewed (file.members ++ into_unified r ∷ [])))
  unfolding add_to_file
  plan-add_new new = ground (arith, any-find_member r.profile.name file.members, new)

  plan-add_old :
      (m : UnifiedMember)
      → find_member r.profile.name file.members ≡ some m
      → plan (add_op r) file ≡ (err (other (member_exists r.profile.name r.profile.team_id)), none)
  unfolding add_to_file
  plan-add_old m old = ground (arith, any-find_member r.profile.name file.members, old)

  add-Fulfills : Fulfills (add_op r) file (plan (add_op r) file)
  add-Fulfills = elim (Option-cases (find_member r.profile.name file.members)) [
    | inl new ↦ subst (Fulfills (add_op r) file) (sym (plan-add_new new)) (record {
      answers = rw new refl;
      entries = λ n. rw new (snoc_entry n new);
      once = snoc_once new;
    })
    | inr (m, old) ↦ subst (Fulfills (add_op r) file) (sym (plan-add_old m old)) (record {
      answers = rw old refl;
      entries = λ n. rw old (same_entry r.profile.name n file.members (some m) old);
      once = once;
    })
  ]

  plan-upsert_new :
      find_member r.profile.name file.members ≡ none
      → plan (upsert_op r) file ≡ (ok true, some (renewed (file.members ++ into_unified r ∷ [])))
  unfolding upsert_in_file
  plan-upsert_new new = ground (arith, new)

  abbrev replaced : List UnifiedMember
  replaced = change_member (λ _. into_unified r) r.profile.name file.members

  plan-upsert_old :
      (m : UnifiedMember)
      → find_member r.profile.name file.members ≡ some m
      → plan (upsert_op r) file ≡ (ok true, some (renewed replaced))
  unfolding upsert_in_file
  plan-upsert_old m old = ground (arith, old)

  keeps_name :
      (m : UnifiedMember) → m.name ≡ r.profile.name → (into_unified r).name ≡ r.profile.name
  unfolding into_unified
  keeps_name m h = refl

  upsert-Fulfills : Fulfills (upsert_op r) file (plan (upsert_op r) file)
  upsert-Fulfills = elim (Option-cases (find_member r.profile.name file.members)) [
    | inl new ↦
        subst (Fulfills (upsert_op r) file) (sym (plan-upsert_new new))
          (record { answers = refl; entries = λ n. snoc_entry n new; once = snoc_once new })
    | inr (m, old) ↦ subst (Fulfills (upsert_op r) file) (sym (plan-upsert_old m old)) (record {
      answers = refl;
      entries = λ n.
          find_member-change (λ _. into_unified r) r.profile.name keeps_name n file.members
          ∙ ground (arith, same_entry r.profile.name n file.members (some m) old);
      once =
          subst NoRepeat
            (sym (names-change (λ _. into_unified r) r.profile.name keeps_name file.members)) once;
    })
  ]

module _ (team name : Text) (f : UnifiedMember → UnifiedMember)
    (keeps : (m : UnifiedMember) → m.name ≡ name → (f m).name ≡ name) (file : MembersFile)
    (once : NoRepeat (names file.members)) where
  plan-update_new :
      find_member name file.members ≡ none
      → plan (update_op team name f keeps) file ≡ (ok false, none)
  unfolding update_in_file
  plan-update_new new = ground (arith, new)

  plan-update_old :
      (m : UnifiedMember)
      → find_member name file.members ≡ some m
      → plan (update_op team name f keeps) file
        ≡ (ok true, some (renewed (change_member f name file.members)))
  unfolding update_in_file
  plan-update_old m old = ground (arith, old)

  update-Fulfills :
      Fulfills (update_op team name f keeps) file (plan (update_op team name f keeps) file)
  update-Fulfills = elim (Option-cases (find_member name file.members)) [
    | inl new ↦
        subst (Fulfills (update_op team name f keeps) file) (sym (plan-update_new new)) (record {
          answers = rw new refl;
          entries = λ n. rw new (same_entry name n file.members none new);
          once = once;
        })
    | inr (m, old) ↦
        subst (Fulfills (update_op team name f keeps) file) (sym (plan-update_old m old)) (record {
          answers = rw old refl;
          entries = λ n. rw old (
              find_member-change f name keeps n file.members
              ∙ ground (arith, same_entry name n file.members (some m) old));
          once = subst NoRepeat (sym (names-change f name keeps file.members)) once;
        })
  ]

module _ (team name : Text) (file : MembersFile) (once : NoRepeat (names file.members)) where
  abbrev kept : List UnifiedMember
  kept = retain (λ m. not (m.name == name)) file.members

  plan-delete_none :
      nat_eq (length kept) (length file.members) ≡ true
      → plan (delete_op team name) file ≡ (ok true, none)
  unfolding delete_from_file
  plan-delete_none h = ground (arith, h)

  plan-delete_some :
      nat_eq (length kept) (length file.members) ≡ false
      → plan (delete_op team name) file ≡ (ok true, some (renewed kept))
  unfolding delete_from_file
  plan-delete_some h = ground (arith, h)

  delete-Fulfills : Fulfills (delete_op team name) file (plan (delete_op team name) file)
  delete-Fulfills = elim (Bool-cases (nat_eq (length kept) (length file.members))) [
    | inl whole ↦
        subst (Fulfills (delete_op team name) file) (sym (plan-delete_none whole)) (record {
          answers = refl;
          entries = λ n.
              same_entry name n file.members none (retain-all name file.members (ground arith));
          once = once;
        })
    | inr less ↦ subst (Fulfills (delete_op team name) file) (sym (plan-delete_some less)) (record {
      answers = refl;
      entries = λ n. find_member-retain name n file.members;
      once = retain-NoRepeat name file.members once;
    })
  ]

pub plan-Fulfills :
    (op : MemberOp) (file : MembersFile)
    → NoRepeat (names file.members)
    → Fulfills op file (plan op file)
plan-Fulfills (add_op r) file once = add-Fulfills r file once
plan-Fulfills (upsert_op r) file once = upsert-Fulfills r file once
plan-Fulfills (update_op team name f keeps) file once = update-Fulfills team name f keeps file once
plan-Fulfills (delete_op team name) file once = delete-Fulfills team name file once
