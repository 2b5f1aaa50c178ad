-- ===== src/Decimal.antt =====
-- `u64` as decimal text: `to_string` and `parse::<u64>`, as the program uses them for task ids.
pub mod RoundTrip
use agent_teams_mcp.Base.{
  Text, ℕ, zero, suc, ◌+◌, ◌-◌, ◌*◌, ◌/◌, ◌%◌, ◌^◌, ltb, leb, nat_eq, Bool, ◌&&◌, Option, none,
  some, [], ◌∷◌, ◌++◌, if◌then◌else◌,
}

abbrev pub u64_mod : ℕ
u64_mod = 2 ^ 64

-- The digits of a number, with fuel for as many.
unfoldable pub digits_go : ℕ → ℕ → Text
digits_go zero n = []
digits_go (suc fuel) n =
    let front = digits_go fuel (n / 10) in
    if ltb n 10 then (48 + n) ∷ [] else front ++ (48 + n % 10) ∷ []

unfoldable pub to_string : ℕ → Text
unfolding digits_go
to_string n = digits_go 20 n

unfoldable pub is_digit : ℕ → Bool
is_digit c = leb 48 c && leb c 57

-- The value of digits behind those that gave `acc`; `none` on another character or past the range.
unfoldable pub parse_digits : ℕ → Text → Option ℕ
unfolding is_digit
parse_digits acc [] = some acc
parse_digits acc (c ∷ s) =
    let next = acc * 10 + (c - 48) in
    let rest = parse_digits next s in
    if is_digit c then (if ltb next u64_mod then rest else none) else none

unfoldable pub parse_nonempty : Text → Option ℕ
unfolding parse_digits
parse_nonempty [] = none
parse_nonempty (c ∷ s) = parse_digits 0 (c ∷ s)

-- One leading `+` is allowed.
unfoldable pub parse_u64 : Text → Option ℕ
unfolding parse_nonempty
parse_u64 [] = none
parse_u64 (c ∷ s) = if nat_eq c b'+' then parse_nonempty s else parse_nonempty (c ∷ s)
