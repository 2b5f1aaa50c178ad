-- ===== src/TeamMode/Pending/Truncation.antt =====
-- What is left of a long body in the queue.
use agent_teams_mcp.Base.{
  Text, ◌≡◌, refl, sym, ap, subst, ◌∙◌, ◌⊎◌, ℕ, zero, suc, ◌+◌, ◌-◌, ◌<◌, ◌≤◌, leb, nat_eq, len,
  utf8_width, true, Option, none, some, [], ◌∷◌, ◌++◌, arith, Bool-cases, Option-cases, inl, inr,
}
use agent_teams_mcp.Error.{ok}
use agent_teams_mcp.Names.{byte_prefix}
use agent_teams_mcp.TeamMode.Pending.{
  truncation_marker, is_char_boundary, step_back, truncate_at, truncate_body_for_pending,
}

utf8_width-bounds : (c : ℕ) → (0 < utf8_width c) × (utf8_width c ≤ 4)
utf8_width-bounds c = (ground arith, ground arith)

abbrev or_empty : Option Text → Text
or_empty none = []
or_empty (some t) = t

-- A cut that succeeds gives the front of the text, of just that many bytes.
byte_prefix-front :
    (n : ℕ) (s p : Text) → byte_prefix n s ≡ some p → (rest : Text) × (s ≡ p ++ rest) × (len p ≡ n)
unfolding byte_prefix len
byte_prefix-front n [] p h = elim (Bool-cases (nat_eq n 0)) [
  | inl start ↦
      let e : some [] ≡ some p = ground (arith, h) in
      let nothing : [] ≡ p = ap or_empty e in
      ([], ap (λ t. t ++ []) nothing, sym (ap len nothing) ∙ ground (arith, start))
  | inr later ↦ absurd (ground (arith, h))
]
byte_prefix-front n (c ∷ s) p h = elim (Bool-cases (nat_eq n 0)) [
  | inl start ↦
      let e : some [] ≡ some p = ground (arith, h) in
      let nothing : [] ≡ p = ap or_empty e in
      (c ∷ s, ap (λ t. t ++ c ∷ s) nothing, sym (ap len nothing) ∙ ground (arith, start))
  | inr later ↦ elim (Bool-cases (leb (utf8_width c) n)) [
    | inl fits ↦ elim (Option-cases (byte_prefix (n - utf8_width c) s)) [
      | inl broken ↦ absurd (ground (arith, h))
      | inr (t, found) ↦
          let (rest, front, size) = byte_prefix-front (n - utf8_width c) s t found in
          let e : some (c ∷ t) ≡ some p = ground (arith, h) in
          let whole : c ∷ t ≡ p = ap or_empty e in
          (
            rest,
            ap (λ x. c ∷ x) front ∙ ap (λ x. x ++ rest) whole,
            sym (ap len whole) ∙ ground (arith, size),
          )
    ]
    | inr splits ↦ absurd (ground (arith, h))
  ]
]

is_char_boundary-cons :
    (b c : ℕ) (s : Text)
    → is_char_boundary b s ≡ true
    → is_char_boundary (b + utf8_width c) (c ∷ s) ≡ true
unfolding byte_prefix is_char_boundary
is_char_boundary-cons b c s h =
    let back : b + utf8_width c - utf8_width c ≡ b = omega arith in
    let there : is_char_boundary (b + utf8_width c - utf8_width c) s ≡ true =
      ap (λ n. is_char_boundary n s) back ∙ h in
    ground (arith, there, utf8_width-bounds c)

-- Some character starts or ends less than four bytes before any place in the text.
near_boundary :
    (n : ℕ) (s : Text) → n ≤ len s → (b : ℕ) × (is_char_boundary b s ≡ true) × (b ≤ n) × (n < b + 4)
unfolding byte_prefix is_char_boundary len
near_boundary n [] h = (0, refl, ground arith, ground arith)
near_boundary n (c ∷ s) h = elim (Bool-cases (leb (utf8_width c) n)) [
  | inl beyond ↦
      let (b, there, below, near) = near_boundary (n - utf8_width c) s (ground arith) in
      (b + utf8_width c, is_char_boundary-cons b c s there, ground arith, ground arith)
  | inr inside ↦ (0, refl, omega arith, ground (arith, utf8_width-bounds c))
]

step_back-finds :
    (n b : ℕ) (s : Text)
    → is_char_boundary b s ≡ true
    → b ≤ n
    → (is_char_boundary (step_back n s) s ≡ true) × (b ≤ step_back n s) × (step_back n s ≤ n)
unfolding step_back
step_back-finds zero b s there below =
    let start : b ≡ 0 = omega arith in
    (subst (λ n. is_char_boundary n s ≡ true) start there, omega arith, omega arith)
step_back-finds (suc n) b s there below = elim (Bool-cases (is_char_boundary (suc n) s)) [
  | inl here ↦ rw here (here, below, omega arith)
  | inr not_here ↦
      let lower : b ≤ n = elim (Bool-cases (nat_eq b (suc n))) [
        | inl same ↦
            let e : b ≡ suc n = ground (arith, same) in
            let bad = subst (λ k. is_char_boundary k s ≡ true) e there in cc
        | inr apart ↦ ground (arith, apart)
      ] in
      let (found, above, under) = step_back-finds n b s there lower in
      rw not_here (found, above, omega arith)
]

is_char_boundary-cut :
    (n : ℕ) (s : Text) → is_char_boundary n s ≡ true → (p : Text) × (byte_prefix n s ≡ some p)
unfolding is_char_boundary
is_char_boundary-cut n s h = elim (Option-cases (byte_prefix n s)) [
  | inl broken ↦ absurd (ground (arith, h))
  | inr found ↦ found
]

truncate_at-long :
    (max : ℕ) (body kept : Text)
    → max < len body
    → byte_prefix (step_back max body) body ≡ some kept
    → truncate_at max body ≡ ok (kept ++ truncation_marker)
unfolding truncate_at
truncate_at-long max body kept long cut = ground (arith, cut)

truncate_at-short : (max : ℕ) (body : Text) → len body ≤ max → truncate_at max body ≡ ok body
unfolding truncate_at
truncate_at-short max body short = ground arith

-- A body of at most `max` bytes stays as it is; of a longer one the result is a front of whole
-- characters, of at most `max` bytes and at least `max` less three, and behind it the marker.
-- It never panics.
pub truncate_at-bounds :
    (max : ℕ) (body : Text)
    → (len body ≤ max) × (truncate_at max body ≡ ok body)
      ⊎ (kept rest : Text) × (truncate_at max body ≡ ok (kept ++ truncation_marker))
        × (body ≡ kept ++ rest)
        × (len kept ≤ max)
        × (max < len kept + 4)
truncate_at-bounds max body = elim (Bool-cases (leb (len body) max)) [
  | inl short ↦ inl (ground (arith, short), truncate_at-short max body (ground (arith, short)))
  | inr long ↦
      let (b, there, below, near) = near_boundary max body (ground (arith, long)) in
      let (found, above, under) = step_back-finds max b body there below in
      let (kept, cut) = is_char_boundary-cut (step_back max body) body found in
      let (rest, front, size) = byte_prefix-front (step_back max body) body kept cut in
      inr (
        kept,
        rest,
        truncate_at-long max body kept (ground (arith, long)) cut,
        front,
        omega (arith, size),
        omega (arith, size),
      )
]

-- The text of an entry in the queue of the lead is the whole body of the message, if that has at
-- most 16,384 bytes; else it is a front of whole characters of the body, of 16,381 to 16,384 bytes,
-- with the marker behind it. The truncation never panics.
pub truncate_body_for_pending-bounds :
    (body : Text)
    → (len body ≤ 16384) × (truncate_body_for_pending body ≡ ok body)
      ⊎ (kept rest : Text) × (truncate_body_for_pending body ≡ ok (kept ++ truncation_marker))
        × (body ≡ kept ++ rest)
        × (len kept ≤ 16384)
        × (16384 < len kept + 4)
unfolding truncate_body_for_pending
truncate_body_for_pending-bounds body = truncate_at-bounds 16384 body
