-- ===== src/Task/Graph/Sort/Counts.antt =====
-- How many entries of a list are not among others, when one more is.
use agent_teams_mcp.Base.{
  Text, text_le, ◌==◌, ==_iff, ==_refl, ◌≡◌, refl, sym, ap, ◌∙◌, suc, ◌<◌, true, false, ◌||◌, List,
  [], ◌∷◌, ◌++◌, arith, contains, contains-snoc, length, NoRepeat, insert_sorted, sort_by,
  Bool-cases, inl, inr,
}
use agent_teams_mcp.Task.Graph.Scan.{unseen}

pub unseen-nil : (pool : List Text) → unseen [] pool ≡ length pool
unfolding contains
unseen-nil [] = refl
unseen-nil (x ∷ pool) = ap suc (unseen-nil pool)

pub unseen-snoc_absent :
    (d : Text) (xs pool : List Text)
    → contains d pool ≡ false
    → unseen (xs ++ d ∷ []) pool ≡ unseen xs pool
unfolding contains
unseen-snoc_absent d xs [] h = refl
unseen-snoc_absent d xs (x ∷ pool) h =
    ground (arith, contains-snoc x d xs, unseen-snoc_absent d xs pool, ==_iff x d, ==_iff d x)

pub unseen-snoc_present :
    (d : Text) (xs pool : List Text)
    → NoRepeat pool
    → contains d xs ≡ false
    → contains d pool ≡ true
    → unseen xs pool ≡ suc (unseen (xs ++ d ∷ []) pool)
unfolding contains
unseen-snoc_present d xs [] once new h = cc
unseen-snoc_present d xs (x ∷ pool) once new h = elim (Bool-cases (x == d)) [
  | inl same ↦
      let e : x ≡ d = ground (arith, ==_iff x d) in
      let gone : contains d pool ≡ false = ap (λ y. contains y pool) (sym e) ∙ once.0 in
      ground (
        arith,
        e,
        gone,
        contains-snoc x d xs,
        ==_iff d x,
        unseen-snoc_absent d xs pool gone,
        ap (λ y. contains y xs) e,
      )
  | inr other ↦ ground (
    arith,
    unseen-snoc_present d xs pool once.1 new,
    contains-snoc x d xs,
    ==_iff x d,
    ==_iff d x,
  )
]

pub unseen-zero :
    (v : Text) (xs pool : List Text)
    → unseen xs pool ≡ 0
    → contains v pool ≡ true
    → contains v xs ≡ true
unfolding contains
unseen-zero v xs [] h k = cc
unseen-zero v xs (x ∷ pool) h k = elim (Bool-cases (x == v)) [
  | inl same ↦ ground (arith, ap (λ y. contains y xs) ((==_iff x v).0 same))
  | inr other ↦ ground (arith, unseen-zero v xs pool)
]

pub unseen-pos :
    (xs pool : List Text)
    → 0 < unseen xs pool
    → (d : Text) × (contains d pool ≡ true) × (contains d xs ≡ false)
unfolding contains
unseen-pos xs [] h = absurd (omega arith)
unseen-pos xs (x ∷ pool) h = elim (Bool-cases (contains x xs)) [
  | inl old ↦ let (d, inside, new) = unseen-pos xs pool (ground arith) in (d, ground arith, new)
  | inr new ↦ (x, ground (arith, ==_refl x), new)
]

contains-insert_sorted :
    (a x : Text) (xs : List Text)
    → contains a (insert_sorted text_le x xs) ≡ (x == a || contains a xs)
unfolding insert_sorted contains
contains-insert_sorted a x [] = refl
contains-insert_sorted a x (y ∷ ys) = ground (arith, contains-insert_sorted a x ys)

pub contains-sort_by : (a : Text) (xs : List Text) → contains a (sort_by text_le xs) ≡ contains a xs
unfolding sort_by contains
contains-sort_by a [] = refl
contains-sort_by a (x ∷ xs) =
    contains-insert_sorted a x (sort_by text_le xs) ∙ ap (λ b. x == a || b) (contains-sort_by a xs)

insert_sorted-NoRepeat :
    (x : Text) (xs : List Text)
    → contains x xs ≡ false
    → NoRepeat xs
    → NoRepeat (insert_sorted text_le x xs)
unfolding insert_sorted contains
insert_sorted-NoRepeat x [] h once = (refl, tt)
insert_sorted-NoRepeat x (y ∷ ys) h once = elim (Bool-cases (text_le x y)) [
  | inl first ↦ rw first (h, once)
  | inr later ↦ rw later (
    contains-insert_sorted y x ys ∙ ground (arith, once.0, ==_iff x y, ==_iff y x),
    insert_sorted-NoRepeat x ys (ground arith) once.1,
  )
]

pub sort_by-NoRepeat : (xs : List Text) → NoRepeat xs → NoRepeat (sort_by text_le xs)
unfolding sort_by
sort_by-NoRepeat [] once = tt
sort_by-NoRepeat (x ∷ xs) once =
    insert_sorted-NoRepeat x (sort_by text_le xs) (contains-sort_by x xs ∙ once.0)
      (sort_by-NoRepeat xs once.1)
