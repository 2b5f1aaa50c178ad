-- ===== src/TeamMode/Mentions.antt =====
-- team_mode/service/message_service.rs: the mentions in a text, and lists without repetition.
pub mod Found
use agent_teams_mcp.Base.{
  Text, ◌==◌, ℕ, leb, nat_eq, Bool, false, not, ◌&&◌, ◌||◌, List, [], ◌∷◌, ◌++◌, any, contains,
  if◌then◌else◌,
}
use agent_teams_mcp.Names.{is_ascii_lowercase, is_ascii_digit}
use agent_teams_mcp.TeamMode.Lines.{trim, is_blank}

pub record MentionCandidate : Type 0 where
  pub raw : Text
  pub handle : Text

-- `is_ascii_alphanumeric() || matches!(ch, '_' | '-' | '.')`
unfoldable pub is_handle_char : ℕ → Bool
unfolding is_ascii_lowercase is_ascii_digit
is_handle_char c =
    is_ascii_lowercase c
    || leb b'A' c && leb c b'Z'
    || is_ascii_digit c
    || nat_eq c b'_'
    || nat_eq c b'-'
    || nat_eq c b'.'

-- `trim_start_matches('@')`
unfoldable pub trim_at : Text → Text
trim_at [] = []
trim_at (c ∷ s) = let rest = trim_at s in if nat_eq c b'@' then rest else c ∷ s

unfoldable pub normalize_mention : Text → Text
unfolding trim_at
normalize_mention value = trim_at (trim value)

unfoldable pub push_unique : List Text → Text → List Text
push_unique items value =
    if is_blank value || contains value items then items else items ++ value ∷ []

unfoldable pub has_handle : Text → List MentionCandidate → Bool
has_handle handle items = any (λ item. item.handle == handle) items

unfoldable pub push_unique_candidate :
    List MentionCandidate → MentionCandidate → List MentionCandidate
unfolding has_handle
push_unique_candidate items candidate =
    if is_blank candidate.handle || has_handle candidate.handle items
    then items
    else items ++ candidate ∷ []

-- Where `parse_mentions_from_body` is in the text: outside a mention, with whether the character
-- before is one of a handle; or in the inner loop, with the `handle` so far.
pub data Position : Type 0 where
  outside : (behind_handle : Bool) → Position
  inside : (handle : Text) → Position

-- `is_handle_char(chars[index - 1])`. Before the first character of a handle stands its `@`.
unfoldable pub behind_handle : Position → Bool
behind_handle (outside b) = b
behind_handle (inside handle) = not (is_blank handle)

-- What follows the inner loop.
unfoldable pub close : Position → List MentionCandidate → List MentionCandidate
unfolding push_unique_candidate
close (outside b) found = found
close (inside handle) found =
    push_unique_candidate found (record { raw = b'@' ∷ handle; handle = handle })

-- A character that the inner loop does not take.
unfoldable pub outer : ℕ → Position → Position
unfolding behind_handle
outer c p = if nat_eq c b'@' && not (behind_handle p) then inside [] else outside (is_handle_char c)

unfoldable pub next : ℕ → Position → Position
unfolding outer
next c (outside b) = outer c (outside b)
next c (inside handle) =
    if is_handle_char c then inside (handle ++ c ∷ []) else outer c (inside handle)

unfoldable pub found_at : ℕ → Position → List MentionCandidate → List MentionCandidate
unfolding close
found_at c (outside b) found = found
found_at c (inside handle) found = if is_handle_char c then found else close (inside handle) found

unfoldable pub parse_from : Text → Position → List MentionCandidate → List MentionCandidate
unfolding next found_at
parse_from [] p found = close p found
parse_from (c ∷ s) p found = parse_from s (next c p) (found_at c p found)

unfoldable pub parse_mentions_from_body : Text → List MentionCandidate
unfolding parse_from
parse_mentions_from_body body = parse_from body (outside false) []
