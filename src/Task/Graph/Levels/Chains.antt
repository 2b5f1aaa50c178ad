-- ===== src/Task/Graph/Levels/Chains.antt =====
-- The level of a task is the length of the longest chain of dependencies below it.
use agent_teams_mcp.Base.{
  has_key, Text, ◌==◌, ==_iff, ==_refl, ◌≡◌, refl, sym, subst, ◌⊎◌, inl, inr, ℕ, suc, ◌<◌, ltb,
  true, Option, none, some, List, [], ◌∷◌, arith, contains, lookup, if◌then◌else◌, Bool-cases,
  Option-cases,
}
use agent_teams_mcp.Task.Graph.Levels.{max_level}

-- The level `n` of a task that waits for `ds`: above the level of each, and 0 or just above one.
pub record IsLevel (levels : List (Text × ℕ)) (ds : List Text) (n : ℕ) : Type 0 where
  pub above : (d : Text) → contains d ds ≡ true → (k : ℕ) × (lookup d levels ≡ some k) × (k < n)
  pub reached :
      (ds ≡ []) × (n ≡ 0)
      ⊎ ((d : Text) × (contains d ds ≡ true) × (k : ℕ) × (lookup d levels ≡ some k) × (n ≡ suc k))

abbrev up : Option ℕ → ℕ
up none = 0
up (some n) = suc n

IsLevel-first :
    (d : Text) (ds : List Text) (levels : List (Text × ℕ)) (k : ℕ)
    → lookup d levels ≡ some k
    → IsLevel levels ds 0
    → IsLevel levels (d ∷ ds) (suc k)
unfolding contains
IsLevel-first d ds levels k there h = record {
  above = λ x m. elim (Bool-cases (d == x)) [
    | inl same ↦ (k, subst (λ y. lookup y levels ≡ some k) ((==_iff d x).0 same) there, omega arith)
    | inr other ↦ let (j, _, below) = h.above x (ground arith) in absurd (omega (arith, below))
  ];
  reached = inr (d, ground (arith, ==_refl d), k, there, refl);
}

IsLevel-more :
    (d : Text) (ds : List Text) (levels : List (Text × ℕ)) (k m : ℕ)
    → lookup d levels ≡ some k
    → IsLevel levels ds (suc m)
    → IsLevel levels (d ∷ ds) (suc (if ltb m k then k else m))
unfolding contains
IsLevel-more d ds levels k m there h = record {
  above = λ x c. elim (Bool-cases (d == x)) [
    | inl same ↦
        (k, subst (λ y. lookup y levels ≡ some k) ((==_iff d x).0 same) there, ground arith)
    | inr other ↦
        let (j, found, below) = h.above x (ground arith) in (j, found, ground (arith, below))
  ];
  reached = elim (Bool-cases (ltb m k)) [
    | inl higher ↦ inr (d, ground (arith, ==_refl d), k, there, ground arith)
    | inr lower ↦ elim h.reached [
      | inl (_, zero_is) ↦ absurd (omega (arith, zero_is))
      | inr (x, c, j, found, e) ↦ inr (x, ground arith, j, found, ground (arith, e))
    ]
  ];
}

max_level-cons :
    (d : Text) (ds : List Text) (levels : List (Text × ℕ)) (k : ℕ)
    → lookup d levels ≡ some k
    → up (max_level (d ∷ ds) levels)
      ≡ elim (max_level ds levels) [ none ↦ suc k | some m ↦ suc (if ltb m k then k else m) ]
unfolding max_level
max_level-cons d ds levels k there = ground (arith, there)

-- The maximum over a list whose every entry has a level.
pub max_level-IsLevel :
    (ds : List Text) (levels : List (Text × ℕ))
    → ((d : Text) → contains d ds ≡ true → has_key d levels ≡ true)
    → IsLevel levels ds (up (max_level ds levels))
unfolding max_level contains
max_level-IsLevel [] levels known = record { above = λ d h. cc; reached = inl (refl, refl) }
max_level-IsLevel (d ∷ ds) levels known =
    let ih = max_level-IsLevel ds levels (λ x m. known x (ground arith)) in
    elim (Option-cases (lookup d levels)) [
      | inl absent ↦ let h = known d (ground (arith, ==_refl d)) in cc
      | inr (k, there) ↦
          subst (IsLevel levels (d ∷ ds)) (sym (max_level-cons d ds levels k there))
            (elim (Option-cases (max_level ds levels)) [
              | inl nothing ↦ rw nothing (
                  IsLevel-first d ds levels k there
                    (subst (λ o. IsLevel levels ds (up o)) nothing ih))
              | inr (m, most) ↦ rw most (
                  IsLevel-more d ds levels k m there
                    (subst (λ o. IsLevel levels ds (up o)) most ih))
            ])
    ]
