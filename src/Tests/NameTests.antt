-- ===== src/Tests/NameTests.antt =====
-- Names and ids, and what the checks make of them.
use agent_teams_mcp.Base.{
  Text, text, ◌==◌, ◌≡◌, refl, ◌↔◌, len, has_char, [], some, none, arith, replicate,
}
use agent_teams_mcp.Error.{
  invalid_name, empty_name, has_separator, only_dots, bad_start, ok, err, panic,
}
use agent_teams_mcp.Names.{validate_name, validate_slug_name}
use agent_teams_mcp.Names.Accepted.{
  IsComponent, IsSlug, validate_name_iff, validate_name-IsWide, validate_slug_name_iff,
}
use agent_teams_mcp.Decimal.{to_string, parse_u64}

name_runs :
    (validate_name (text "team-1") ≡ ok tt)
    × (validate_name [] ≡ err (invalid_name [] empty_name))
    × (validate_name (text "a/b") ≡ err (invalid_name (text "a/b") has_separator))
    × (validate_name (text "..") ≡ err (invalid_name (text "..") only_dots))
    × (validate_slug_name (text "-foo") ≡ err (invalid_name (text "-foo") (bad_start b'-')))
    × (validate_slug_name (text "alice.2") ≡ ok tt)
unfolding validate_name validate_slug_name ◌==◌ len has_char
name_runs = (refl, refl, refl, refl, refl, refl)

-- 100 times the same character of three bytes.
abbrev wide : Text
wide = replicate 100 0x4e2d

validate_name_iff_example : (validate_name (text "team-1") ≡ ok tt) ↔ IsComponent (text "team-1")
validate_name_iff_example = validate_name_iff (text "team-1")

validate_name-IsWide_example : validate_name wide ≡ panic
validate_name-IsWide_example = validate_name-IsWide wide refl (omega arith)

validate_slug_name_iff_example :
    (validate_slug_name (text "alice.2") ≡ ok tt) ↔ IsSlug (text "alice.2")
validate_slug_name_iff_example = validate_slug_name_iff (text "alice.2")

decimal_runs :
    (to_string 1204 ≡ text "1204")
    × (parse_u64 (text "+007") ≡ some 7)
    × (parse_u64 (text "1x") ≡ none)
unfolding to_string parse_u64
decimal_runs = (refl, refl, refl)
