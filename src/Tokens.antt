-- ===== src/Tokens.antt =====
-- models/token.rs: counts of tokens, and the summaries that are cut to a length. The sums wrap
-- around, as `u64` does in a release build; the prices are floats and stay out.
pub mod Summaries
use agent_teams_mcp.Base.{
  Text, text, ℕ, ◌+◌, ◌-◌, ◌%◌, ltb, leb, len, utf8_width, Option, none, some, List, [], ◌∷◌, ◌++◌,
  if◌then◌else◌,
}
use agent_teams_mcp.Error.{Result, ok, err, panic}
use agent_teams_mcp.Decimal.{u64_mod}
use agent_teams_mcp.Names.{byte_prefix}

pub record TokenUsage : Type 0 where
  pub input_tokens : ℕ
  pub output_tokens : ℕ
  pub cache_read_tokens : Option ℕ
  pub cache_write_tokens : Option ℕ

unfoldable pub total : TokenUsage → ℕ
total u = (u.input_tokens + u.output_tokens) % u64_mod

-- The match on the two optional counts.
unfoldable pub merge_cache : Option ℕ → Option ℕ → Option ℕ
merge_cache (some a) (some b) = some ((a + b) % u64_mod)
merge_cache none (some b) = some b
merge_cache a none = a

unfoldable pub merge : TokenUsage → TokenUsage → TokenUsage
unfolding merge_cache
merge u other = record {
  input_tokens = (u.input_tokens + other.input_tokens) % u64_mod;
  output_tokens = (u.output_tokens + other.output_tokens) % u64_mod;
  cache_read_tokens = merge_cache u.cache_read_tokens other.cache_read_tokens;
  cache_write_tokens = merge_cache u.cache_write_tokens other.cache_write_tokens;
}

-- `char_indices().map(|(i, _)| i).next_back().unwrap_or(0)`: where the last character starts.
unfoldable pub last_index : Text → ℕ
last_index [] = 0
last_index (c ∷ s) = elim s [ [] ↦ 0 | _ ∷ _ ↦ utf8_width c + last_index s ]

abbrev pub smaller : ℕ → ℕ → ℕ
smaller a b = if leb a b then a else b

-- `s[..=end]` and then `s[..boundary]`, either of which panics inside a character.
unfoldable pub truncate_string : Text → ℕ → Result Text
unfolding last_index
truncate_string s max_len =
    if leb (len s) max_len
    then ok s
    else elim (byte_prefix (smaller (max_len - 3) (len s - 1) + 1) s) [
      | none ↦ panic
      | some front ↦ elim (byte_prefix (last_index front) s) [
        | none ↦ panic
        | some truncated ↦ ok (truncated ++ text "...")
      ]
    ]
