-- ===== src/Decimal/RoundTrip.antt =====
-- Every `u64` is read back from its decimal text.
use native.Mathlib.Nat.{pow-suc}
use agent_teams_mcp.Base.{
  Text, ◌≡◌, sym, ap, ◌∙◌, inl, inr, ℕ, zero, suc, ◌+◌, ◌-◌, ◌*◌, ◌/◌, ◌%◌, ◌^◌, ◌≤◌, ◌<◌, ltb,
  some, [], ◌∷◌, ◌++◌, append_assoc, append-nil, arith, Bool-cases,
}
use agent_teams_mcp.Decimal.{u64_mod, digits_go, to_string, parse_digits, parse_u64}

parse_digits-step :
    (acc d : ℕ) (rest : Text)
    → d < 10
    → acc * 10 + d < u64_mod
    → parse_digits acc ((48 + d) ∷ rest) ≡ parse_digits (acc * 10 + d) rest
unfolding parse_digits
parse_digits-step acc d rest small fits =
    let same : acc * 10 + (48 + d - 48) ≡ acc * 10 + d = omega arith in rw same (ground arith)

parse_digits-digits_go :
    (fuel n : ℕ) (rest : Text)
    → n < 10 ^ fuel
    → n < u64_mod
    → parse_digits 0 (digits_go fuel n ++ rest) ≡ parse_digits n rest
unfolding digits_go
parse_digits-digits_go zero n rest h fits = let zero_n : n ≡ 0 = omega arith in rw zero_n
parse_digits-digits_go (suc fuel) n rest h fits = elim (Bool-cases (ltb n 10)) [
  | inl one ↦
      let same : 0 * 10 + n ≡ n = omega arith in
      rw one (
        parse_digits-step 0 n rest (ground arith) (omega arith)
        ∙ ap (λ m. parse_digits m rest) same)
  | inr more ↦
      let bound = pow-suc 10 fuel in
      let whole : n / 10 * 10 + n % 10 ≡ n = omega arith in
      rw (more, append_assoc)
        (parse_digits-digits_go fuel (n / 10) ((48 + n % 10) ∷ rest) (omega (arith, bound))
            (omega arith)
          ∙ parse_digits-step (n / 10) (n % 10) rest (omega arith) (omega arith)
          ∙ ap (λ m. parse_digits m rest) whole)
]

digits_go-head : (fuel n : ℕ) → (c : ℕ) × (s : Text) × (digits_go (suc fuel) n ≡ c ∷ s) × (48 ≤ c)
unfolding digits_go
digits_go-head zero n = elim (Bool-cases (ltb n 10)) [
  | inl one ↦ (48 + n, [], rw one, omega arith)
  | inr more ↦ (48 + n % 10, [], rw more, omega arith)
]
digits_go-head (suc fuel) n = elim (Bool-cases (ltb n 10)) [
  | inl one ↦ (48 + n, [], rw one, omega arith)
  | inr more ↦
      let (c, s, e, h) = digits_go-head fuel (n / 10) in
      (c, s ++ (48 + n % 10) ∷ [], rw more (ap (λ t. t ++ (48 + n % 10) ∷ []) e), h)
]

parse_u64-plain : (c : ℕ) (s : Text) → 48 ≤ c → parse_u64 (c ∷ s) ≡ parse_digits 0 (c ∷ s)
unfolding parse_u64
parse_u64-plain c s h = ground arith

-- Printing a number below 2^64 and parsing the text gives the number back.
pub parse_u64-to_string : (n : ℕ) → n < u64_mod → parse_u64 (to_string n) ≡ some n
unfolding to_string parse_digits
parse_u64-to_string n fits =
    let (c, s, e, h) = digits_go-head 19 n in
    rw e (
      parse_u64-plain c s h
      ∙ ap (parse_digits 0) (sym e ∙ sym (append-nil (digits_go 20 n)))
      ∙ parse_digits-digits_go 20 n [] (omega arith) fits)
