-- ===== src/Base/Lists.antt =====
-- Lists as the program uses them: lengths in native numbers, `iter().any`, `contains`, `retain`.
use Prim.Native.Nat.{ℕ, zero, suc, ◌+◌}
use mathlib.Core.Path.{◌≡◌, refl, ◌∙◌}
use mathlib.Core.Logic.{inl, inr}
use mathlib.Core.Bool.{Bool, true, false, ◌&&◌, ◌||◌}
use mathlib.Core.Option.{Option, none, some}
use mathlib.Core.List.{List, [], ◌∷◌, ◌++◌}
use native.Mathlib.Omega.{arith}
use agent_teams_mcp.Base.Tests.{if◌then◌else◌, Bool-cases}
use agent_teams_mcp.Base.Texts.{Text, ◌==◌, ==_iff}

module _ {ℓ} {A : Type ℓ} where
  abbrev pub length : List A → ℕ
  length [] = 0
  length (x ∷ xs) = suc (length xs)

  abbrev pub any : (A → Bool) → List A → Bool
  any p [] = false
  any p (x ∷ xs) = p x || any p xs

  abbrev pub all : (A → Bool) → List A → Bool
  all p [] = true
  all p (x ∷ xs) = p x && all p xs

  -- `Vec::retain`, and `filter` before a `collect`.
  abbrev pub retain : (A → Bool) → List A → List A
  retain p [] = []
  retain p (x ∷ xs) = let rest = retain p xs in if p x then x ∷ rest else rest

  -- `Iterator::find`.
  abbrev pub find : (A → Bool) → List A → Option A
  find p [] = none
  find p (x ∷ xs) = let rest = find p xs in if p x then some x else rest

  abbrev pub take : ℕ → List A → List A
  take zero xs = []
  take (suc n) [] = []
  take (suc n) (x ∷ xs) = x ∷ take n xs

  abbrev pub replicate : ℕ → A → List A
  replicate zero a = []
  replicate (suc n) a = a ∷ replicate n a

  pub length-append : (xs ys : List A) → length (xs ++ ys) ≡ length xs + length ys
  length-append [] ys = omega arith
  length-append (x ∷ xs) ys = omega (arith, length-append xs ys)

-- `contains` of a list or set of texts.
unfoldable pub contains : Text → List Text → Bool
contains a [] = false
contains a (x ∷ xs) = x == a || contains a xs

pub contains-append :
    (a : Text) (xs ys : List Text) → contains a (xs ++ ys) ≡ (contains a xs || contains a ys)
unfolding contains
contains-append a [] ys = refl
contains-append a (x ∷ xs) ys = ground (arith, contains-append a xs ys)

pub contains-snoc :
    (a b : Text) (xs : List Text) → contains a (xs ++ b ∷ []) ≡ (contains a xs || b == a)
unfolding contains
contains-snoc a b xs = ground (arith, contains-append a xs (b ∷ []))

pub contains-cons : (a b : Text) (xs : List Text) → contains a (b ∷ xs) ≡ (b == a || contains a xs)
unfolding contains
contains-cons a b xs = refl

-- Insertion into a set of texts (`HashSet::insert`), and the `contains`-guarded `push` of vectors.
unfoldable pub insert_set : Text → List Text → List Text
insert_set a xs = if contains a xs then xs else xs ++ a ∷ []

pub contains-insert_set :
    (a b : Text) (xs : List Text) → contains a (insert_set b xs) ≡ (contains a xs || b == a)
unfolding insert_set
contains-insert_set a b xs = ground (arith, contains-snoc a b xs, ==_iff b a)

-- No text stands in the list twice.
abbrev pub NoRepeat : List Text → Type 0
NoRepeat [] = Unit
NoRepeat (x ∷ xs) = (contains x xs ≡ false) × NoRepeat xs

pub NoRepeat-snoc :
    (xs : List Text) (x : Text) → NoRepeat xs → contains x xs ≡ false → NoRepeat (xs ++ x ∷ [])
unfolding contains
NoRepeat-snoc [] x h k = (refl, tt)
NoRepeat-snoc (y ∷ ys) x h k = (
  contains-snoc y x ys ∙ ground (arith, h.0, ==_iff x y, ==_iff y x),
  NoRepeat-snoc ys x h.1 (ground arith),
)

pub insert_set-NoRepeat : (a : Text) (xs : List Text) → NoRepeat xs → NoRepeat (insert_set a xs)
unfolding insert_set
insert_set-NoRepeat a xs h = elim (Bool-cases (contains a xs)) [
  | inl old ↦ rw old h
  | inr new ↦ rw new (NoRepeat-snoc xs a h new)
]
