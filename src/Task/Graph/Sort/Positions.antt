-- ===== src/Task/Graph/Sort/Positions.antt =====
-- Places in a list that grows at its end.
use agent_teams_mcp.Base.{
  Text, ◌==◌, ==_iff, ==_refl, ◌≡◌, refl, ℕ, suc, ◌<◌, true, false, List, [], ◌∷◌, ◌++◌, arith,
  contains, contains-append, length, NoRepeat, if◌then◌else◌,
}

-- The place of a task in a list; its length, if the task is not in it.
abbrev pub position : Text → List Text → ℕ
position v [] = 0
position v (x ∷ xs) = let rest = position v xs in if x == v then 0 else suc rest

pub position-lt : (v : Text) (xs : List Text) → contains v xs ≡ true → position v xs < length xs
unfolding contains
position-lt v [] h = cc
position-lt v (x ∷ xs) h = ground (arith, position-lt v xs)

pub contains-position :
    (v : Text) (xs : List Text) → position v xs < length xs → contains v xs ≡ true
unfolding contains
contains-position v [] h = absurd (omega arith)
contains-position v (x ∷ xs) h = ground (arith, contains-position v xs)

pub position-snoc_old :
    (v w : Text) (xs : List Text) → contains v xs ≡ true → position v (xs ++ w ∷ []) ≡ position v xs
unfolding contains
position-snoc_old v w [] h = cc
position-snoc_old v w (x ∷ xs) h = ground (arith, position-snoc_old v w xs)

pub position-snoc_new :
    (w : Text) (xs : List Text) → contains w xs ≡ false → position w (xs ++ w ∷ []) ≡ length xs
unfolding contains
position-snoc_new w [] h = ground (arith, ==_refl w)
position-snoc_new w (x ∷ xs) h = ground (arith, position-snoc_new w xs)

pub position-middle :
    (w : Text) (xs ys : List Text) → contains w xs ≡ false → position w (xs ++ w ∷ ys) ≡ length xs
unfolding contains
position-middle w [] ys h = ground (arith, ==_refl w)
position-middle w (x ∷ xs) ys h = ground (arith, position-middle w xs ys)

pub position-before :
    (v : Text) (xs ys : List Text) → position v (xs ++ ys) < length xs → contains v xs ≡ true
unfolding contains
position-before v [] ys h = absurd (omega arith)
position-before v (x ∷ xs) ys h = ground (arith, position-before v xs ys)

pub NoRepeat-middle :
    (w : Text) (xs ys : List Text) → NoRepeat (xs ++ w ∷ ys) → contains w xs ≡ false
unfolding contains
NoRepeat-middle w [] ys h = refl
NoRepeat-middle w (x ∷ xs) ys h =
    ground (
      arith,
      NoRepeat-middle w xs ys h.1,
      h.0,
      contains-append x xs (w ∷ ys),
      ==_iff x w,
      ==_refl x,
    )
