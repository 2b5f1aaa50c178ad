-- ===== src/Base/Map.antt =====
-- `HashMap<String, V>` as an association list with one entry for each key. The order of the
-- entries is that of their first insertion; no theorem depends on it.
use mathlib.Core.Path.{◌≡◌, refl, sym, ap, ◌∙◌}
use mathlib.Core.Logic.{inl, inr}
use mathlib.Core.Bool.{Bool, true, false, ◌||◌}
use mathlib.Core.Option.{Option, none, some}
use mathlib.Core.List.{List, [], ◌∷◌, map}
use native.Mathlib.Omega.{arith}
use agent_teams_mcp.Base.Tests.{if◌then◌else◌, Bool-cases}
use agent_teams_mcp.Base.Lists.{contains, NoRepeat}
use agent_teams_mcp.Base.Texts.{Text, ◌==◌, ==_iff}

module _ {ℓ} {V : Type ℓ} (k : Text) where
  unfoldable pub lookup : List (Text × V) → Option V
  lookup [] = none
  lookup (entry ∷ m) = let rest = lookup m in if entry.0 == k then some entry.1 else rest

  unfoldable pub remove : List (Text × V) → List (Text × V)
  remove [] = []
  remove (entry ∷ m) = let rest = remove m in if entry.0 == k then rest else entry ∷ rest

  unfoldable pub insert : V → List (Text × V) → List (Text × V)
  insert v [] = (k, v) ∷ []
  insert v (entry ∷ m) = let rest = insert v m in if entry.0 == k then (k, v) ∷ m else entry ∷ rest

module _ {ℓ} {V : Type ℓ} (k j : Text) where
  pub lookup-insert :
      (v : V) (m : List (Text × V))
      → lookup j (insert k v m) ≡ (if k == j then some v else lookup j m)
  unfolding lookup insert
  lookup-insert v [] = refl
  lookup-insert v (entry ∷ m) =
      ground (arith, lookup-insert v m, ==_iff entry.0 k, ==_iff entry.0 j, ==_iff k j)

  pub lookup-remove :
      (m : List (Text × V)) → lookup j (remove k m) ≡ (if k == j then none else lookup j m)
  unfolding lookup remove
  lookup-remove [] = ground arith
  lookup-remove (entry ∷ m) =
      ground (arith, lookup-remove m, ==_iff entry.0 k, ==_iff entry.0 j, ==_iff k j)

abbrev pub is_some {ℓ} : {A : Type ℓ} → Option A → Bool
is_some none = false
is_some (some _) = true

abbrev pub has_key {ℓ} : {V : Type ℓ} → Text → List (Text × V) → Bool
has_key k m = is_some (lookup k m)

abbrev pub keys {ℓ} : {V : Type ℓ} → List (Text × V) → List Text
keys m = map (λ e. e.0) m

module _ {V : Type 0} where
  pub contains-keys : (k : Text) (m : List (Text × V)) → contains k (keys m) ≡ has_key k m
  unfolding lookup contains
  contains-keys k [] = refl
  contains-keys k (e ∷ m) = ground (arith, contains-keys k m)

  contains-keys-insert :
      (j k : Text) (v : V) (m : List (Text × V))
      → contains j (keys (insert k v m)) ≡ (contains j (keys m) || k == j)
  contains-keys-insert j k v m =
      contains-keys j (insert k v m) ∙ ground (arith, lookup-insert k j v m, contains-keys j m)

  pub insert-NoRepeat :
      (k : Text) (v : V) (m : List (Text × V)) → NoRepeat (keys m) → NoRepeat (keys (insert k v m))
  unfolding insert contains
  insert-NoRepeat k v [] once = (refl, tt)
  insert-NoRepeat k v (e ∷ m) once = elim (Bool-cases (e.0 == k)) [
    | inl same ↦
        rw same (ap (λ x. contains x (keys m)) (sym ((==_iff e.0 k).0 same)) ∙ once.0, once.1)
    | inr other ↦ rw other (
      contains-keys-insert e.0 k v m ∙ ground (arith, once.0, ==_iff e.0 k, ==_iff k e.0),
      insert-NoRepeat k v m once.1,
    )
  ]
