-- ===== src/TeamMode/Routing/Recipients.antt =====
-- Who receives a message.
use agent_teams_mcp.Base.{
  NoRepeat, NoRepeat-snoc, Text, ◌==◌, ==_iff, ==_refl, ◌≡◌, refl, sym, ap, ◌∙◌, ◌⊎◌, inl, inr,
  Bool, true, false, not, ◌&&◌, ◌||◌, Option, none, some, List, [], ◌∷◌, arith, contains,
  contains-snoc, lookup, lookup-insert, insert, foldl, Bool-cases,
}
use agent_teams_mcp.Error.{Result, ok, err, panic}
use agent_teams_mcp.TeamMode.Lines.{is_blank}
use agent_teams_mcp.TeamMode.Mentions.{MentionCandidate, push_unique}
use agent_teams_mcp.TeamMode.Member.{MemberStatus, active, invited, suspended, removed}
use agent_teams_mcp.TeamMode.Routing.{Route, route_one, lc_active, route, add_lead}

pub contains-push_unique :
    (a : Text) (items : List Text) (value : Text)
    → contains a (push_unique items value)
      ≡ (contains a items || not (is_blank value) && value == a)
unfolding push_unique
contains-push_unique a items value = ground (arith, contains-snoc a value items, ==_iff value a)

push_unique-NoRepeat :
    (items : List Text) (value : Text) → NoRepeat items → NoRepeat (push_unique items value)
unfolding push_unique
push_unique-NoRepeat items value h = elim (Bool-cases (is_blank value || contains value items)) [
  | inl skipped ↦ rw skipped h
  | inr new ↦ rw new (NoRepeat-snoc items value h (ground arith))
]

-- The name stands among the members, and is active.
abbrev pub is_active : MemberStatus → Bool
is_active active = true
is_active _ = false

abbrev pub is_active_member : Text → List (Text × MemberStatus) → Bool
is_active_member name [] = false
is_active_member name ((n, s) ∷ members) = n == name && is_active s || is_active_member name members

abbrev is_entry : Text → Option (Text × MemberStatus) → Bool
is_entry n none = false
is_entry n (some (x, s)) = x == n && is_active s

route_one-active :
    (members : List (Text × MemberStatus)) (o : Option (Text × MemberStatus)) (c : MentionCandidate)
    (r : Route) (a : Text)
    → ((n : Text) → o ≡ some (n, active) → is_active_member n members ≡ true)
    → contains a (route_one o c r).recipients ≡ true
    → (is_active_member a members ≡ true) ⊎ (contains a r.recipients ≡ true)
unfolding route_one
route_one-active members none c r a known h = inr h
route_one-active members (some (n, invited)) c r a known h = inr h
route_one-active members (some (n, suspended)) c r a known h = inr h
route_one-active members (some (n, removed)) c r a known h = inr h
route_one-active members (some (n, active)) c r a known h =
    elim (Bool-cases (contains a r.recipients)) [
      | inl old ↦ inr old
      | inr new ↦
          inl (ground (arith, contains-push_unique a r.recipients n, ==_iff n a, known n refl))
    ]

route_one-NoRepeat :
    (o : Option (Text × MemberStatus)) (c : MentionCandidate) (r : Route)
    → NoRepeat r.recipients
    → NoRepeat (route_one o c r).recipients
unfolding route_one
route_one-NoRepeat none c r h = h
route_one-NoRepeat (some (n, invited)) c r h = h
route_one-NoRepeat (some (n, suspended)) c r h = h
route_one-NoRepeat (some (n, removed)) c r h = h
route_one-NoRepeat (some (n, active)) c r h = push_unique-NoRepeat r.recipients n h

module _ (lowercase : Text → Text) where
  folded-active :
      (members : List (Text × MemberStatus)) (acc : List (Text × (Text × MemberStatus)))
      (k n : Text)
      → lookup k (foldl (λ m e. insert (lowercase e.0) e m) acc members) ≡ some (n, active)
      → (is_active_member n members ≡ true) ⊎ (lookup k acc ≡ some (n, active))
  folded-active [] acc k n h = inr h
  folded-active ((x, s) ∷ members) acc k n h =
      elim (folded-active members (insert (lowercase x) (x, s) acc) k n h) [
        | inl later ↦ inl (ground arith)
        | inr here ↦ elim (Bool-cases (lowercase x == k)) [
          | inl same ↦
              let e : some (x, s) ≡ some (n, active) =
                sym (lookup-insert (lowercase x) k (x, s) acc ∙ ground arith) ∙ here in
              inl (ground (arith, ap (is_entry n) e, ==_refl n))
          | inr other ↦ inr (sym (lookup-insert (lowercase x) k (x, s) acc ∙ ground arith) ∙ here)
        ]
      ]

  lookup-active :
      (members : List (Text × MemberStatus)) (k n : Text)
      → lookup k (lc_active lowercase members) ≡ some (n, active)
      → is_active_member n members ≡ true
  unfolding lc_active lookup
  lookup-active members k n h = elim (folded-active members [] k n h) [
    | inl member ↦ member
    | inr absent ↦ cc
  ]

  pub route-active :
      (members : List (Text × MemberStatus)) (cs : List MentionCandidate) (r : Route) (a : Text)
      → contains a (route lowercase members cs r).recipients ≡ true
      → (is_active_member a members ≡ true) ⊎ (contains a r.recipients ≡ true)
  unfolding route
  route-active members [] r a h = inr h
  route-active members (c ∷ cs) r a h =
      let o = lookup (lowercase c.handle) (lc_active lowercase members) in
      elim (route-active members cs (route_one o c r) a h) [
        | inl later ↦ inl later
        | inr here ↦
            route_one-active members o c r a (lookup-active members (lowercase c.handle)) here
      ]

  pub route-NoRepeat :
      (members : List (Text × MemberStatus)) (cs : List MentionCandidate) (r : Route)
      → NoRepeat r.recipients
      → NoRepeat (route lowercase members cs r).recipients
  unfolding route
  route-NoRepeat members [] r h = h
  route-NoRepeat members (c ∷ cs) r h =
      let o = lookup (lowercase c.handle) (lc_active lowercase members) in
      route-NoRepeat members cs (route_one o c r) (route_one-NoRepeat o c r h)

abbrev pub is_lead : Result (Option (Option Text)) → Text → Bool
is_lead (ok (some (some lead))) a = lead == a
is_lead _ a = false

pub add_lead-contains :
    (team : Result (Option (Option Text))) (sender : Text) (rs : List Text) (a : Text)
    → contains a (add_lead team sender rs)
      ≡ (contains a rs || is_lead team a && not (sender == a) && not (is_blank a))
unfolding add_lead
add_lead-contains (err e) sender rs a = ground arith
add_lead-contains panic sender rs a = ground arith
add_lead-contains (ok none) sender rs a = ground arith
add_lead-contains (ok (some none)) sender rs a = ground arith
add_lead-contains (ok (some (some lead))) sender rs a =
    ground (arith, contains-push_unique a rs lead, ==_iff lead a)

pub add_lead-NoRepeat :
    (team : Result (Option (Option Text))) (sender : Text) (rs : List Text)
    → NoRepeat rs
    → NoRepeat (add_lead team sender rs)
unfolding add_lead
add_lead-NoRepeat (err e) sender rs h = h
add_lead-NoRepeat panic sender rs h = h
add_lead-NoRepeat (ok none) sender rs h = h
add_lead-NoRepeat (ok (some none)) sender rs h = h
add_lead-NoRepeat (ok (some (some lead))) sender rs h = elim (Bool-cases (sender == lead)) [
  | inl own ↦ rw own h
  | inr other ↦ rw other (push_unique-NoRepeat rs lead h)
]
