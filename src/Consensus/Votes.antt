-- ===== src/Consensus/Votes.antt =====
-- The counts of the contents, and the greatest of them.
use agent_teams_mcp.Base.{
  Text, ◌==◌, ==_iff, ◌≡◌, ◌≢◌, refl, sym, ap, ◌∙◌, ◌⊎◌, ◌↔◌, inl, inr, ℕ, suc, ◌+◌, ◌<◌, ◌≤◌, ltb,
  true, some, List, [], ◌∷◌, length, lookup, insert, lookup-insert, NoRepeat, keys, has_key,
  is_some, insert-NoRepeat, arith, if◌then◌else◌, Bool-cases, Option-cases,
}
use agent_teams_mcp.Consensus.{AgentResponse, Weights, or_else, max_count, count_contents}

-- `e` is one of the list.
abbrev pub Entry : {A : Type 0} → A → List A → Type 0
Entry e [] = ⊥
Entry e (x ∷ xs) = (x ≡ e) ⊎ Entry e xs

-- An iterator over a map gives its entries, in any order.
abbrev pub IsIteration : Weights → Type 1
IsIteration w =
    (V : Type 0) (m : List (Text × V))
    → NoRepeat (keys m)
    → (k : Text) (v : V) → Entry (k, v) (w.iter m) ↔ (lookup k m ≡ some v)

abbrev pub votes : {F32 : Type 0} → Text → List (AgentResponse F32) → ℕ
votes c [] = 0
votes c (r ∷ rs) = let rest = votes c rs in if r.content == c then suc rest else rest

pub votes-le : {F32 : Type 0} (c : Text) (rs : List (AgentResponse F32)) → votes c rs ≤ length rs
votes-le c [] = omega arith
votes-le c (r ∷ rs) = ground (arith, votes-le c rs)

pub votes-two :
    {F32 : Type 0} (c d : Text) (rs : List (AgentResponse F32))
    → c ≢ d
    → votes c rs + votes d rs ≤ length rs
votes-two c d [] h = omega arith
votes-two c d (r ∷ rs) h =
    ground (arith, votes-two c d rs h, ==_iff r.content c, ==_iff r.content d)

module _ (w : Weights) where
  open w use {F32}

  pub lookup-count_contents :
      (c : Text) (rs : List (AgentResponse F32)) (counts : List (Text × ℕ))
      → or_else (lookup c (count_contents w rs counts)) 0 ≡ or_else (lookup c counts) 0 + votes c rs
  unfolding count_contents
  lookup-count_contents c [] counts = omega arith
  lookup-count_contents c (r ∷ rs) counts =
      let next = insert r.content (or_else (lookup r.content counts) 0 + 1) counts in
      lookup-count_contents c rs next ∙ elim (Bool-cases (r.content == c)) [
        | inl same ↦
            let e = (==_iff r.content c).0 same in
            ground (
              arith,
              lookup-insert r.content c (or_else (lookup r.content counts) 0 + 1) counts,
              ap (λ x. or_else (lookup x counts) 0) e,
            )
        | inr apart ↦
            ground
              (arith, lookup-insert r.content c (or_else (lookup r.content counts) 0 + 1) counts)
      ]

  pub has_key-count_contents :
      (c : Text) (rs : List (AgentResponse F32)) (counts : List (Text × ℕ))
      → 0 < votes c rs
      → has_key c (count_contents w rs counts) ≡ true
  unfolding count_contents
  has_key-count_contents c rs counts h =
      let total = lookup-count_contents c rs counts in
      elim (Option-cases (lookup c (count_contents w rs counts))) [
        | inl absent ↦ absurd (omega (arith, total, ap (λ o. or_else o 0) absent))
        | inr (k, there) ↦ ap is_some there
      ]

  pub count_contents-NoRepeat :
      (rs : List (AgentResponse F32)) (counts : List (Text × ℕ))
      → NoRepeat (keys counts)
      → NoRepeat (keys (count_contents w rs counts))
  unfolding count_contents
  count_contents-NoRepeat [] counts once = once
  count_contents-NoRepeat (r ∷ rs) counts once =
      count_contents-NoRepeat rs (insert r.content (or_else (lookup r.content counts) 0 + 1) counts)
        (insert-NoRepeat r.content (or_else (lookup r.content counts) 0 + 1) counts once)

abbrev greater_of : Text × ℕ → Text × ℕ → Text × ℕ
greater_of best e = if ltb e.1 best.1 then best else e

greater_of-cases : (best e : Text × ℕ) → (greater_of best e ≡ best) ⊎ (greater_of best e ≡ e)
greater_of-cases best e = elim (Bool-cases (ltb e.1 best.1)) [
  | inl less ↦ inl (rw less refl)
  | inr more ↦ inr (rw more refl)
]

pub max_count-Entry :
    (best : Text × ℕ) (es : List (Text × ℕ)) → Entry (max_count best es) (best ∷ es)
unfolding max_count
max_count-Entry best [] = inl refl
max_count-Entry best (e ∷ es) = elim (max_count-Entry (greater_of best e) es) [
  | inl same ↦ elim (greater_of-cases best e) [
    | inl first ↦ inl (sym first ∙ same)
    | inr second ↦ inr (inl (sym second ∙ same))
  ]
  | inr later ↦ inr (inr later)
]

max_count-above : (best : Text × ℕ) (es : List (Text × ℕ)) → best.1 ≤ (max_count best es).1
unfolding max_count
max_count-above best [] = omega arith
max_count-above best (e ∷ es) =
    let ih = max_count-above (greater_of best e) es in
    elim (Bool-cases (ltb e.1 best.1)) [
      | inl less ↦
          let p : greater_of best e ≡ best = rw less refl in omega (arith, ih, ap (λ x. x.1) p)
      | inr more ↦
          let p : greater_of best e ≡ e = rw more refl in ground (arith, ih, ap (λ x. x.1) p)
    ]

pub max_count-greatest :
    (best x : Text × ℕ) (es : List (Text × ℕ)) → Entry x (best ∷ es) → x.1 ≤ (max_count best es).1
unfolding max_count
max_count-greatest best x es (inl same) = omega (arith, ap (λ e. e.1) same, max_count-above best es)
max_count-greatest best x [] (inr never) = absurd never
max_count-greatest best x (e ∷ es) (inr (inr later)) =
    max_count-greatest (greater_of best e) x es (inr later)
max_count-greatest best x (e ∷ es) (inr (inl same)) =
    let high = max_count-above (greater_of best e) es in
    elim (Bool-cases (ltb e.1 best.1)) [
      | inl less ↦
          let p : greater_of best e ≡ best = rw less refl in
          ground (arith, high, ap (λ z. z.1) p, ap (λ z. z.1) same)
      | inr more ↦
          let p : greater_of best e ≡ e = rw more refl in
          omega (arith, high, ap (λ z. z.1) p, ap (λ z. z.1) same)
    ]
