-- ===== src/Task/Graph/Sort/Lowering.antt =====
-- One round of the inner loop of the sort: the degrees that fall, and the tasks that become free.
use agent_teams_mcp.Base.{
  has_key, keys, is_some, Text, ◌==◌, ==_iff, ==_refl, ◌≡◌, ◌≢◌, refl, sym, ap, subst, ◌∙◌, ℕ, zero,
  suc, ◌-◌, nat_eq, Bool, true, false, ◌&&◌, ◌||◌, Option, none, some, List, [], ◌∷◌, ◌++◌, arith,
  contains, contains-snoc, lookup, insert, lookup-insert, NoRepeat, NoRepeat-snoc, if◌then◌else◌,
  Bool-cases, Option-cases, inl, inr,
}
use agent_teams_mcp.Error.{ok}
use agent_teams_mcp.Task.Graph.Sort.{Kahn, lower, lower_all}

abbrev pub pred : Option ℕ → Option ℕ
pred none = none
pred (some k) = some (k - 1)

abbrev pub is_one : Option ℕ → Bool
is_one (some (suc zero)) = true
is_one _ = false

keys-insert :
    (k : Text) (v : ℕ) (m : List (Text × ℕ)) → has_key k m ≡ true → keys (insert k v m) ≡ keys m
unfolding insert lookup
keys-insert k v [] h = cc
keys-insert k v (e ∷ m) h = elim (Bool-cases (e.0 == k)) [
  | inl same ↦ rw same (ap (λ x. x ∷ keys m) (sym ((==_iff e.0 k).0 same)))
  | inr other ↦ rw other (ap (λ xs. e.0 ∷ xs) (keys-insert k v m (ground arith)))
]

-- What the loop over `ws` makes of a state.
pub record IsLowered (ws : List Text) (s s' : Kahn) : Type 0 where
  pub same_result : s'.result ≡ s.result
  pub same_keys : keys s'.in_degree ≡ keys s.in_degree
  pub degree :
      (v : Text)
      → lookup v s'.in_degree
        ≡ (if contains v ws then pred (lookup v s.in_degree) else lookup v s.in_degree)
  pub pushed :
      (v : Text)
      → contains v s'.queue ≡ (contains v s.queue || contains v ws && is_one (lookup v s.in_degree))
  pub once : NoRepeat s'.queue

abbrev lowered : Text → ℕ → Kahn → Kahn
lowered w k s = record s {
  in_degree = insert w k s.in_degree;
  queue = if nat_eq k 0 then s.queue ++ w ∷ [] else s.queue;
}

lowered-once :
    (w : Text) (k : ℕ) (s : Kahn)
    → NoRepeat s.queue
    → contains w s.queue ≡ false
    → NoRepeat (lowered w k s).queue
lowered-once w k s once new = elim (Bool-cases (nat_eq k 0)) [
  | inl free ↦ rw free (NoRepeat-snoc s.queue w once new)
  | inr other ↦ rw other once
]

lowered-queue :
    (w v : Text) (k : ℕ) (s : Kahn)
    → contains v (lowered w k s).queue ≡ (contains v s.queue || nat_eq k 0 && w == v)
lowered-queue w v k s = ground (arith, contains-snoc v w s.queue)

lower_all-absent :
    (w : Text) (ws : List Text) (s : Kahn)
    → lookup w s.in_degree ≡ none
    → lower_all (w ∷ ws) s ≡ lower_all ws s
unfolding lower_all lower
lower_all-absent w ws s h = ground arith

lower_all-suc :
    (w : Text) (ws : List Text) (s : Kahn) (k : ℕ)
    → lookup w s.in_degree ≡ some (suc k)
    → lower_all (w ∷ ws) s ≡ lower_all ws (lowered w k s)
unfolding lower_all lower
lower_all-suc w ws s k h = ground arith

-- What is left of the loop does not meet `w` again.
ne_of_later :
    (w v : Text) (ws : List Text) → contains w ws ≡ false → contains v ws ≡ true → w == v ≡ false
ne_of_later w v ws h k = elim (Bool-cases (w == v)) [
  | inl same ↦ cc (ap (λ x. contains x ws) ((==_iff w v).0 same))
  | inr other ↦ other
]

pub lower_all-IsLowered :
    (ws : List Text) (s : Kahn)
    → NoRepeat ws
    → NoRepeat s.queue
    → ((v : Text) → contains v ws ≡ true → lookup v s.in_degree ≢ some 0)
    → ((v : Text) → contains v ws ≡ true → contains v s.queue ≡ false)
    → (s' : Kahn) × (lower_all ws s ≡ ok s') × IsLowered ws s s'
unfolding lower_all contains
lower_all-IsLowered [] s ws_once once pos apart = (
  s,
  refl,
  record {
    same_result = refl;
    same_keys = refl;
    degree = λ v. refl;
    pushed = λ v. ground arith;
    once = once;
  },
)
lower_all-IsLowered (w ∷ ws) s ws_once once pos apart = elim (Option-cases (lookup w s.in_degree)) [
  | inl absent ↦
      let (s', ran, h) =
        lower_all-IsLowered ws s ws_once.1 once (λ v m. pos v (ground arith))
          (λ v m. apart v (ground arith)) in
      (
        s',
        lower_all-absent w ws s absent ∙ ran,
        record {
          same_result = h.same_result;
          same_keys = h.same_keys;
          degree = λ v. ground (arith, h.degree v, ==_iff w v, absent);
          pushed = λ v. ground (arith, h.pushed v, ==_iff w v, absent);
          once = h.once;
        },
      )
  | inr (zero, there) ↦ absurd (pos w (ground (arith, ==_refl w)) there)
  | inr (suc k, there) ↦
      let s1 = lowered w k s in
      let free = apart w (ground (arith, ==_refl w)) in
      let (s', ran, h) =
        lower_all-IsLowered ws s1 ws_once.1 (lowered-once w k s once free)
          (λ v m.
            subst (λ o. o ≢ some 0)
              (sym
                (lookup-insert w v k s.in_degree ∙ ground (arith, ne_of_later w v ws ws_once.0 m)))
              (pos v (ground arith)))
          (λ v m.
            lowered-queue w v k s ∙ ground (arith, ne_of_later w v ws ws_once.0 m, apart v)) in
      (
        s',
        lower_all-suc w ws s k there ∙ ran,
        record {
          same_result = h.same_result;
          same_keys = h.same_keys ∙ keys-insert w k s.in_degree (ap is_some there);
          degree =
              λ v. ground (arith, h.degree v, ==_iff w v, there, lookup-insert w v k s.in_degree);
          pushed = λ v. ground (
            arith,
            h.pushed v,
            ==_iff w v,
            there,
            lookup-insert w v k s.in_degree,
            lowered-queue w v k s,
          );
          once = h.once;
        },
      )
]
