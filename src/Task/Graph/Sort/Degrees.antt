-- ===== src/Task/Graph/Sort/Degrees.antt =====
-- The in-degrees with which the sort starts.
use agent_teams_mcp.Base.{
  has_key, keys, contains-keys, insert-NoRepeat, Text, ◌==◌, ==_iff, ◌≡◌, refl, sym, ap, ◌∙◌, ℕ,
  zero, nat_eq, Bool, true, false, ◌||◌, Option, none, some, List, [], ◌∷◌, arith, contains, lookup,
  insert, lookup-insert, length, NoRepeat, if◌then◌else◌, Bool-cases, Option-cases, inl, inr,
}
use agent_teams_mcp.Task.Graph.{DependencyGraph, set_of}
use agent_teams_mcp.Task.Graph.Sort.{or_zero, add_nodes, set_degrees, degrees, roots}

lookup-add_nodes :
    (v : Text) (index : List (Text × List Text)) (m : List (Text × ℕ))
    → lookup v (add_nodes index m)
      ≡ (if has_key v m then lookup v m else if has_key v index then some 0 else none)
unfolding add_nodes or_zero lookup
lookup-add_nodes v [] m = ground arith
lookup-add_nodes v (e ∷ index) m =
    ground (arith, lookup-add_nodes v index (or_zero e.0 m), lookup-insert e.0 v 0 m, ==_iff e.0 v)

lookup-set_degrees :
    (v : Text) (index : List (Text × List Text)) (m : List (Text × ℕ))
    → NoRepeat (keys index)
    → lookup v (set_degrees index m)
      ≡ (if has_key v index then some (length (set_of v index)) else lookup v m)
unfolding set_degrees set_of lookup
lookup-set_degrees v [] m once = refl
lookup-set_degrees v (e ∷ index) m once =
    let later = lookup-set_degrees v index (insert e.0 (length e.1) m) once.1 in
    elim (Bool-cases (e.0 == v)) [
      | inl same ↦
          let gone : has_key v index ≡ false =
            sym (contains-keys v index)
            ∙ ap (λ x. contains x (keys index)) (sym ((==_iff e.0 v).0 same))
            ∙ once.0 in
          ground (arith, later, gone, lookup-insert e.0 v (length e.1) m)
      | inr other ↦ ground (arith, later, lookup-insert e.0 v (length e.1) m)
    ]

-- A node is a task that either index has as a key.
abbrev pub is_node : DependencyGraph → Text → Bool
is_node g v = has_key v g.deps || has_key v g.rdeps

-- A task starts with the number of the tasks that it waits for.
pub lookup-degrees :
    (g : DependencyGraph) (v : Text)
    → NoRepeat (keys g.deps)
    → lookup v (degrees g) ≡ (if is_node g v then some (length (set_of v g.deps)) else none)
unfolding degrees set_of lookup
lookup-degrees g v once = ground (
  arith,
  lookup-set_degrees v g.deps (add_nodes g.rdeps (add_nodes g.deps [])) once,
  lookup-add_nodes v g.rdeps (add_nodes g.deps []),
  lookup-add_nodes v g.deps [],
)

or_zero-NoRepeat :
    (k : Text) (m : List (Text × ℕ)) → NoRepeat (keys m) → NoRepeat (keys (or_zero k m))
unfolding or_zero
or_zero-NoRepeat k m once = elim (Option-cases (lookup k m)) [
  | inl absent ↦ rw (absent, or_zero) (insert-NoRepeat k 0 m once)
  | inr (n, there) ↦ rw (there, or_zero) once
]

add_nodes-NoRepeat :
    (index : List (Text × List Text)) (m : List (Text × ℕ))
    → NoRepeat (keys m)
    → NoRepeat (keys (add_nodes index m))
unfolding add_nodes
add_nodes-NoRepeat [] m once = once
add_nodes-NoRepeat (e ∷ index) m once =
    add_nodes-NoRepeat index (or_zero e.0 m) (or_zero-NoRepeat e.0 m once)

set_degrees-NoRepeat :
    (index : List (Text × List Text)) (m : List (Text × ℕ))
    → NoRepeat (keys m)
    → NoRepeat (keys (set_degrees index m))
unfolding set_degrees
set_degrees-NoRepeat [] m once = once
set_degrees-NoRepeat (e ∷ index) m once =
    set_degrees-NoRepeat index (insert e.0 (length e.1) m) (insert-NoRepeat e.0 (length e.1) m once)

pub degrees-NoRepeat : (g : DependencyGraph) → NoRepeat (keys (degrees g))
unfolding degrees
degrees-NoRepeat g =
    set_degrees-NoRepeat g.deps (add_nodes g.rdeps (add_nodes g.deps []))
      (add_nodes-NoRepeat g.rdeps (add_nodes g.deps []) (add_nodes-NoRepeat g.deps [] tt))

abbrev pub is_zero : Option ℕ → Bool
is_zero (some zero) = true
is_zero _ = false

pub contains-roots :
    (v : Text) (m : List (Text × ℕ))
    → NoRepeat (keys m)
    → contains v (roots m) ≡ is_zero (lookup v m)
unfolding roots contains lookup
contains-roots v [] once = refl
contains-roots v (e ∷ m) once =
    let ih = contains-roots v m once.1 in
    elim (Bool-cases (e.0 == v)) [
      | inl same ↦
          let gone : has_key v m ≡ false =
            sym (contains-keys v m)
            ∙ ap (λ x. contains x (keys m)) (sym ((==_iff e.0 v).0 same))
            ∙ once.0 in
          ground (arith, ih, gone)
      | inr other ↦ ground (arith, ih)
    ]

pub roots-NoRepeat : (m : List (Text × ℕ)) → NoRepeat (keys m) → NoRepeat (roots m)
unfolding roots
roots-NoRepeat [] once = tt
roots-NoRepeat (e ∷ m) once = elim (Bool-cases (nat_eq e.1 0)) [
  | inl zero_in ↦ rw zero_in (
    contains-roots e.0 m once.1 ∙ ground (arith, sym (contains-keys e.0 m) ∙ once.0),
    roots-NoRepeat m once.1,
  )
  | inr other ↦ rw other (roots-NoRepeat m once.1)
]
