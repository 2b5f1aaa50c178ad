-- ===== src/TeamMode/Members/Changes.antt =====
-- What the changes of a list of members do to the member that is found under a name.
use agent_teams_mcp.Base.{
  Text, ◌==◌, ==_iff, ◌≡◌, refl, sym, ap, subst, ◌∙◌, ◌≤◌, Bool, true, false, not, Option, none,
  some, List, [], ◌∷◌, ◌++◌, any, retain, map, length, contains, NoRepeat, NoRepeat-snoc, arith,
  if◌then◌else◌, Bool-cases, inl, inr,
}
use agent_teams_mcp.TeamMode.Member.{UnifiedMember}
use agent_teams_mcp.TeamMode.Members.{find_member, change_member}

abbrev pub names : List UnifiedMember → List Text
names members = map (λ m. m.name) members

abbrev pub is_found : Option UnifiedMember → Bool
is_found none = false
is_found (some _) = true

pub any-find_member :
    (n : Text) (ms : List UnifiedMember) → any (λ m. m.name == n) ms ≡ is_found (find_member n ms)
unfolding find_member
any-find_member n [] = refl
any-find_member n (m ∷ ms) = ground (arith, any-find_member n ms)

pub contains-names :
    (n : Text) (ms : List UnifiedMember) → contains n (names ms) ≡ is_found (find_member n ms)
unfolding find_member contains
contains-names n [] = refl
contains-names n (m ∷ ms) = ground (arith, contains-names n ms)

pub find_member-snoc :
    (n : Text) (u : UnifiedMember) (ms : List UnifiedMember)
    → find_member n (ms ++ u ∷ [])
      ≡ elim (find_member n ms) [ some m ↦ some m | none ↦ if u.name == n then some u else none ]
unfolding find_member
find_member-snoc n u [] = refl
find_member-snoc n u (m ∷ ms) = ground (arith, find_member-snoc n u ms)

pub find_member-retain :
    (gone n : Text) (ms : List UnifiedMember)
    → find_member n (retain (λ m. not (m.name == gone)) ms)
      ≡ (if gone == n then none else find_member n ms)
unfolding find_member
find_member-retain gone n [] = ground arith
find_member-retain gone n (m ∷ ms) =
    ground (arith, find_member-retain gone n ms, ==_iff m.name gone, ==_iff m.name n, ==_iff gone n)

names-snoc :
    (u : UnifiedMember) (ms : List UnifiedMember) → names (ms ++ u ∷ []) ≡ names ms ++ u.name ∷ []
names-snoc u [] = refl
names-snoc u (m ∷ ms) = ap (λ xs. m.name ∷ xs) (names-snoc u ms)

pub snoc-NoRepeat :
    (u : UnifiedMember) (ms : List UnifiedMember)
    → NoRepeat (names ms)
    → find_member u.name ms ≡ none
    → NoRepeat (names (ms ++ u ∷ []))
snoc-NoRepeat u ms h new =
    subst NoRepeat (sym (names-snoc u ms))
      (NoRepeat-snoc (names ms) u.name h (contains-names u.name ms ∙ ap is_found new))

length-retain :
    (gone : Text) (ms : List UnifiedMember)
    → length (retain (λ m. not (m.name == gone)) ms) ≤ length ms
length-retain gone [] = omega arith
length-retain gone (m ∷ ms) = ground (arith, length-retain gone ms)

-- As long as before: nothing was dropped.
pub retain-all :
    (gone : Text) (ms : List UnifiedMember)
    → length (retain (λ m. not (m.name == gone)) ms) ≡ length ms
    → find_member gone ms ≡ none
unfolding find_member
retain-all gone [] h = refl
retain-all gone (m ∷ ms) h = elim (Bool-cases (m.name == gone)) [
  | inl same ↦ absurd (ground (arith, length-retain gone ms))
  | inr other ↦ ground (arith, retain-all gone ms)
]

pub retain-NoRepeat :
    (gone : Text) (ms : List UnifiedMember)
    → NoRepeat (names ms)
    → NoRepeat (names (retain (λ m. not (m.name == gone)) ms))
retain-NoRepeat gone [] h = tt
retain-NoRepeat gone (m ∷ ms) h = elim (Bool-cases (m.name == gone)) [
  | inl same ↦ rw same (retain-NoRepeat gone ms h.1)
  | inr other ↦ rw other (
    ground (
      arith,
      h.0,
      contains-names m.name ms,
      find_member-retain gone m.name ms,
      contains-names m.name (retain (λ x. not (x.name == gone)) ms),
    ),
    retain-NoRepeat gone ms h.1,
  )
]

module _ (f : UnifiedMember → UnifiedMember) (name : Text) where
  abbrev pub changed : Option UnifiedMember → Option UnifiedMember
  changed none = none
  changed (some m) = some (f m)

  module _ (keeps : (m : UnifiedMember) → m.name ≡ name → (f m).name ≡ name) where
    pub find_member-change :
        (n : Text) (ms : List UnifiedMember)
        → find_member n (change_member f name ms)
          ≡ (if name == n then changed (find_member n ms) else find_member n ms)
    unfolding find_member change_member
    find_member-change n [] = ground arith
    find_member-change n (m ∷ ms) = elim (Bool-cases (m.name == name)) [
      | inl same ↦ ground (
        arith,
        keeps m ((==_iff m.name name).0 same),
        ==_iff m.name name,
        ==_iff m.name n,
        ==_iff (f m).name n,
        ==_iff name n,
      )
      | inr other ↦
          ground
            (arith, find_member-change n ms, ==_iff m.name name, ==_iff m.name n, ==_iff name n)
    ]

    pub names-change : (ms : List UnifiedMember) → names (change_member f name ms) ≡ names ms
    unfolding change_member
    names-change [] = refl
    names-change (m ∷ ms) = elim (Bool-cases (m.name == name)) [
      | inl same ↦
          let here = (==_iff m.name name).0 same in
          rw same (ap (λ x. x ∷ names ms) (keeps m here ∙ sym here))
      | inr other ↦ rw other (ap (λ xs. m.name ∷ xs) (names-change ms))
    ]
