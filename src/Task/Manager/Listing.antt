-- ===== src/Task/Manager/Listing.antt =====
-- What `list_tasks` lists, and in which order.
use mathlib.Core.List.{Perm}
use agent_teams_mcp.Base.{
  Text, ◌==◌, ==_iff, ◌↔◌, ℕ, ◌≤◌, all, ◌≡◌, refl, sym, ap, subst, ◌∙◌, inl, inr, Bool-cases, Bool,
  true, false, not, ◌&&◌, ◌||◌, Option, none, some, List, [], ◌∷◌, arith, retain, sort_by, IsSorted,
  sort_by-perm, sort_by-IsSorted,
}
use agent_teams_mcp.Error.{ok}
use agent_teams_mcp.Names.{validate_name}
use agent_teams_mcp.Decimal.{parse_u64}
use agent_teams_mcp.Task.Model.{
  TaskSerde, TaskFile, TaskFilter, TaskStatus, pending, in_progress, completed, deleted, status_eq,
}
use agent_teams_mcp.Task.Manager.{
  Dir, matches_status, matches_owner, is_unblocked, apply_filter, by_id, id_number,
  read_all_tasks_in, list_tasks,
}

-- What a filter asks of a task, part by part: a part that is not given asks for nothing.
abbrev pub HasStatus : Option TaskStatus → TaskFile → Type 0
HasStatus none t = Unit
HasStatus (some status) t = t.status ≡ status

abbrev pub HasOwner : Option Text → TaskFile → Type 0
HasOwner none t = Unit
HasOwner (some owner) t = t.owner ≡ some owner

abbrev pub WaitsForNone : Bool → TaskFile → Type 0
WaitsForNone false t = Unit
WaitsForNone true t = t.blocked_by ≡ []

abbrev pub Wanted : Option TaskFilter → TaskFile → Type 0
Wanted none t = Unit
Wanted (some f) t = HasStatus f.status t × HasOwner f.owner t × WaitsForNone f.unblocked_only t

-- The number of an id, and the greatest number for an id that is none.
abbrev pub rank : TaskFile → ℕ
rank t = elim (parse_u64 t.id) [ none ↦ 18446744073709551615 | some n ↦ n ]

abbrev pub RanksFrom : ℕ → List TaskFile → Type 0
RanksFrom n [] = Unit
RanksFrom n (t ∷ ts) = (n ≤ rank t) × RanksFrom n ts

-- Each task has a number that none of those behind it is below.
abbrev pub InOrder : List TaskFile → Type 0
InOrder [] = Unit
InOrder (t ∷ ts) = RanksFrom (rank t) ts × InOrder ts

-- The test that the code makes with a filter.
abbrev wanted : Option TaskFilter → TaskFile → Bool
wanted none t = true
wanted (some f) t =
    (matches_status f.status t && matches_owner f.owner t)
    && (not f.unblocked_only || is_unblocked t)

retain-true : (tasks : List TaskFile) → retain (λ _. true) tasks ≡ tasks
retain-true [] = refl
retain-true (t ∷ ts) = ap (◌∷◌ t) (retain-true ts)

retain-retain :
    (p q : TaskFile → Bool) (tasks : List TaskFile)
    → retain q (retain p tasks) ≡ retain (λ t. p t && q t) tasks
retain-retain p q [] = refl
retain-retain p q (t ∷ ts) = ground (arith, retain-retain p q ts)

retain-ext :
    (p q : TaskFile → Bool) (tasks : List TaskFile)
    → ((t : TaskFile) → p t ≡ q t)
    → retain p tasks ≡ retain q tasks
retain-ext p q [] h = refl
retain-ext p q (t ∷ ts) h = ground (arith, h t, retain-ext p q ts h)

apply_filter-wanted :
    (filter : Option TaskFilter) (tasks : List TaskFile)
    → apply_filter filter tasks ≡ retain (wanted filter) tasks
apply_filter-wanted none tasks = unfold apply_filter in sym (retain-true tasks)
apply_filter-wanted (some f) tasks =
    unfold apply_filter in
    elim (Bool-cases f.unblocked_only) [
      | inl on ↦ rw (on) (
          ap (retain is_unblocked)
            (retain-retain (matches_status f.status) (matches_owner f.owner) tasks)
          ∙ retain-retain _ is_unblocked tasks)
      | inr off ↦ rw (off) (
          retain-retain (matches_status f.status) (matches_owner f.owner) tasks
          ∙ retain-ext _ _ tasks (λ t. ground arith))
    ]

by_id_total : (a b : TaskFile) → by_id a b ≡ false → by_id b a ≡ true
unfolding by_id
by_id_total a b h = ground arith

by_id_trans : (a b c : TaskFile) → by_id a b ≡ true → by_id b c ≡ true → by_id a c ≡ true
unfolding by_id
by_id_trans a b c h k = ground arith

status_eq-same : (a b : TaskStatus) → status_eq a b ≡ true → a ≡ b
unfolding status_eq
status_eq-same pending pending h = refl
status_eq-same pending in_progress h = cc
status_eq-same pending completed h = cc
status_eq-same pending deleted h = cc
status_eq-same in_progress pending h = cc
status_eq-same in_progress in_progress h = refl
status_eq-same in_progress completed h = cc
status_eq-same in_progress deleted h = cc
status_eq-same completed pending h = cc
status_eq-same completed in_progress h = cc
status_eq-same completed completed h = refl
status_eq-same completed deleted h = cc
status_eq-same deleted pending h = cc
status_eq-same deleted in_progress h = cc
status_eq-same deleted completed h = cc
status_eq-same deleted deleted h = refl

status_eq_refl : (a : TaskStatus) → status_eq a a ≡ true
unfolding status_eq
status_eq_refl pending = refl
status_eq_refl in_progress = refl
status_eq_refl completed = refl
status_eq_refl deleted = refl

status_eq_iff : (a b : TaskStatus) → (status_eq a b ≡ true) ↔ (a ≡ b)
status_eq_iff a b =
    (status_eq-same a b, λ e. subst (λ x. status_eq a x ≡ true) e (status_eq_refl a))

matches_status_iff :
    (given : Option TaskStatus) (t : TaskFile) → (matches_status given t ≡ true) ↔ HasStatus given t
unfolding matches_status
matches_status_iff none t = (λ _. tt, λ _. refl)
matches_status_iff (some status) t = status_eq_iff t.status status

is_owner_iff :
    (owner : Text) (o : Option Text)
    → (elim o [ none ↦ false | some x ↦ x == owner ] ≡ true) ↔ (o ≡ some owner)
is_owner_iff owner none = (λ h. cc, λ h. cc)
is_owner_iff owner (some x) =
    (λ h. ap (λ y. some y) ((==_iff x owner).0 h), λ h. (==_iff x owner).1 (cc))

matches_owner_iff :
    (given : Option Text) (t : TaskFile) → (matches_owner given t ≡ true) ↔ HasOwner given t
unfolding matches_owner
matches_owner_iff none t = (λ _. tt, λ _. refl)
matches_owner_iff (some owner) t = is_owner_iff owner t.owner

nil_iff : (xs : List Text) → (elim xs [ [] ↦ true | _ ∷ _ ↦ false ] ≡ true) ↔ (xs ≡ [])
nil_iff [] = (λ _. refl, λ _. refl)
nil_iff (x ∷ xs) = (λ h. cc, λ h. cc)

waits_iff : (on : Bool) (t : TaskFile) → ((not on || is_unblocked t) ≡ true) ↔ WaitsForNone on t
unfolding is_unblocked
waits_iff false t = (λ _. tt, λ _. refl)
waits_iff true t = nil_iff t.blocked_by

&&_iff :
    {P Q : Type 0} (p q : Bool) → ((p ≡ true) ↔ P) → ((q ≡ true) ↔ Q) → ((p && q) ≡ true) ↔ (P × Q)
&&_iff true q hp hq = (λ h. (hp.0 refl, hq.0 h), λ h. hq.1 h.1)
&&_iff false q hp hq = (λ h. cc, λ h. hp.1 h.0)

wanted_iff :
    (filter : Option TaskFilter) (t : TaskFile) → (wanted filter t ≡ true) ↔ Wanted filter t
wanted_iff none t = (λ _. tt, λ _. refl)
wanted_iff (some f) t =
    let status = matches_status_iff f.status t in
    let owner = matches_owner_iff f.owner t in
    let waits = waits_iff f.unblocked_only t in
    let both =
      &&_iff (matches_status f.status t && matches_owner f.owner t)
        (not f.unblocked_only || is_unblocked t)
        (&&_iff (matches_status f.status t) (matches_owner f.owner t) status owner) waits in
    (λ h. let got = both.0 h in (got.0.0, got.0.1, got.1), λ h. both.1 ((h.0, h.1), h.2))

by_id-rank : (a b : TaskFile) → by_id a b ≡ true → rank a ≤ rank b
unfolding by_id id_number
by_id-rank a b h = ground arith

IsSorted-InOrder : (ts : List TaskFile) → IsSorted by_id ts → InOrder ts
IsSorted-InOrder [] h = tt
IsSorted-InOrder (t ∷ ts) h = (from ts h.0, IsSorted-InOrder ts h.1)
  where
    from : (us : List TaskFile) → all (by_id t) us ≡ true → RanksFrom (rank t) us
    from [] k = tt
    from (u ∷ us) k = (by_id-rank t u (ground arith), from us (ground arith))

-- If all task files can be read, the listing succeeds and changes nothing. It holds the tasks that
-- have the status and the owner that the filter gives and, with `unblocked_only`, an empty
-- `blocked_by`, each as often as it is stored, and it is in the order of the numbers of the ids, an
-- id that is no number of 64 bits counting as the greatest.
pub list_tasks-lists :
    (serde : TaskSerde) (team : Text) (filter : Option TaskFilter) (dir : Dir)
    (tasks : List TaskFile)
    → validate_name team ≡ ok tt
    → read_all_tasks_in serde dir ≡ ok tasks
    → (listed : List TaskFile) × (chosen : TaskFile → Bool) × (list_tasks serde team filter dir
        ≡ (ok listed, dir))
      × Perm listed (retain chosen tasks)
      × ((t : TaskFile) → (chosen t ≡ true) ↔ Wanted filter t)
      × InOrder listed
unfolding list_tasks
list_tasks-lists serde team filter dir tasks valid read = (
  sort_by by_id (apply_filter filter tasks),
  wanted filter,
  ground arith,
  subst (Perm _) (apply_filter-wanted filter tasks)
      (sort_by-perm by_id (apply_filter filter tasks)),
  wanted_iff filter,
  IsSorted-InOrder _ (sort_by-IsSorted by_id by_id_total by_id_trans (apply_filter filter tasks)),
)
