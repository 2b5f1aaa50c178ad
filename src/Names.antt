-- ===== src/Names.antt =====
-- util/mod.rs: the checks of names that become parts of paths and `@mention` handles.
pub mod Accepted
use agent_teams_mcp.Base.{
  Text, text, ◌==◌, ℕ, ◌-◌, len, has_char, utf8_width, nat_eq, leb, ltb, Bool, not, ◌&&◌, ◌||◌,
  Option, none, some, [], ◌∷◌, retain, take, if◌then◌else◌,
}
use agent_teams_mcp.Error.{
  empty_name, has_separator, only_dots, too_long, bad_start, bad_characters, invalid_name, Result,
  ok, err, panic, ◌>>◌,
}

-- `&s[..n]`: `none` is the panic of a cut inside a character or behind the end.
unfoldable pub byte_prefix : ℕ → Text → Option Text
byte_prefix n [] = if nat_eq n 0 then some [] else none
byte_prefix n (c ∷ s) =
    let rest = byte_prefix (n - utf8_width c) s in
    if nat_eq n 0
    then some []
    else if leb (utf8_width c) n
    then elim rest [ none ↦ none | some t ↦ some (c ∷ t) ]
    else none

-- `name.contains(['/', '\\', '\0'])`
unfoldable pub contains_separator : Text → Bool
contains_separator name = has_char b'/' name || has_char b'\\' name || has_char 0 name

unfoldable pub is_dots : Text → Bool
is_dots name = name == text "." || name == text ".."

-- `name[..32].to_string()` in the error for a long name.
unfoldable pub too_long_error : Text → Result (Unit {0})
unfolding byte_prefix
too_long_error name = elim (byte_prefix 32 name) [
  | none ↦ panic
  | some shown ↦ err (invalid_name shown (too_long (len name) 255))
]

unfoldable pub validate_name : Text → Result (Unit {0})
unfolding contains_separator is_dots too_long_error
validate_name name =
    if name == []
    then err (invalid_name name empty_name)
    else if ltb 255 (len name)
    then too_long_error name
    else if contains_separator name
    then err (invalid_name name has_separator)
    else if is_dots name
    then err (invalid_name name only_dots)
    else ok tt

unfoldable pub is_ascii_lowercase : ℕ → Bool
is_ascii_lowercase c = leb b'a' c && leb c b'z'

unfoldable pub is_ascii_digit : ℕ → Bool
is_ascii_digit c = leb b'0' c && leb c b'9'

-- A character that a slug may hold.
unfoldable pub is_slug_char : ℕ → Bool
unfolding is_ascii_lowercase is_ascii_digit
is_slug_char c =
    is_ascii_lowercase c || is_ascii_digit c || (nat_eq c b'_' || nat_eq c b'-' || nat_eq c b'.')

unfoldable pub bad_of : Text → Text
unfolding is_slug_char
bad_of name = retain (λ c. not (is_slug_char c)) name

-- The checks of the characters of `name`; `expect` panics on the empty name.
unfoldable pub check_slug_chars : Text → Text → Result (Unit {0})
unfolding is_ascii_lowercase is_ascii_digit bad_of
check_slug_chars name [] = panic
check_slug_chars name (first ∷ _) =
    if not (is_ascii_lowercase first) && not (is_ascii_digit first)
    then err (invalid_name name (bad_start first))
    else if not (bad_of name == [])
    then err (invalid_name name (bad_characters (take 4 (bad_of name))))
    else ok tt

unfoldable pub validate_slug_rest : Text → Result (Unit {0})
unfolding check_slug_chars
validate_slug_rest name =
    if ltb 64 (len name)
    then err (invalid_name name (too_long (len name) 64))
    else check_slug_chars name name

unfoldable pub validate_slug_name : Text → Result (Unit {0})
unfolding validate_name validate_slug_rest
validate_slug_name name = validate_name name >> validate_slug_rest name
