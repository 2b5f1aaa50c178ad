-- ===== src/Tokens/Summaries.antt =====
-- Where the cutting of a summary fails.
use agent_teams_mcp.Base.{
  Text, ◌≡◌, ap, ◌∙◌, ℕ, suc, ◌+◌, ◌-◌, ◌*◌, ◌<◌, len, utf8_width, length, none, ◌∷◌, arith,
}
use agent_teams_mcp.Error.{panic}
use agent_teams_mcp.Names.{byte_prefix}
use agent_teams_mcp.Names.Accepted.{IsWide, len-IsWide, byte_prefix-IsWide}
use agent_teams_mcp.Tokens.{smaller, truncate_string}

truncate_string-cut :
    (s : Text) (max : ℕ)
    → max < len s
    → byte_prefix (smaller (max - 3) (len s - 1) + 1) s ≡ none
    → truncate_string s max ≡ panic
unfolding truncate_string
truncate_string-cut s max long h = ground (arith, h)

byte_prefix-one :
    (n c : ℕ) (s : Text)
    → utf8_width c ≡ 1
    → byte_prefix n s ≡ none
    → byte_prefix (suc n) (c ∷ s) ≡ none
unfolding byte_prefix
byte_prefix-one n c s one h =
    let back : suc n - utf8_width c ≡ n = omega (arith, one) in
    let there = ap (λ k. byte_prefix k s) back ∙ h in ground (arith, there, one)

-- A text of one character of one byte and then characters of three bytes panics, where it is longer
-- than the limit and the limit is two more than a multiple of three: the slice up to the limit less
-- two bytes ends inside a character. The limits of the program, 200 and 2000, are such.
pub truncate_string-IsWide :
    (k c : ℕ) (s : Text)
    → utf8_width c ≡ 1
    → IsWide s
    → suc k < length s
    → truncate_string (c ∷ s) (3 * k + 5) ≡ panic
unfolding len
truncate_string-IsWide k c s one wide long =
    let size : len (c ∷ s) ≡ 1 + 3 * length s = omega (arith, one, len-IsWide s wide) in
    let place : smaller (3 * k + 5 - 3) (len (c ∷ s) - 1) + 1 ≡ suc (3 * k + 2) =
      ground (arith, size) in
    truncate_string-cut (c ∷ s) (3 * k + 5) (omega (arith, size)) (
      ap (λ n. byte_prefix n (c ∷ s)) place
      ∙ byte_prefix-one (3 * k + 2) c s one (byte_prefix-IsWide k s wide (omega arith)))
