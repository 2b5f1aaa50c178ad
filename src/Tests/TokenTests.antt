-- ===== src/Tests/TokenTests.antt =====
-- Summaries that are cut.
use agent_teams_mcp.Base.{Text, arith, text, ◌≡◌, refl, len, ◌∷◌, []}
use agent_teams_mcp.Error.{ok, panic}
use agent_teams_mcp.Names.{byte_prefix}
use agent_teams_mcp.Tokens.{last_index, truncate_string}
use agent_teams_mcp.Tokens.Summaries.{truncate_string-IsWide}

cut_runs :
    (truncate_string (text "hello world") 8 ≡ ok (text "hello..."))
    × (truncate_string (text "hello") 10 ≡ ok (text "hello"))
    × (truncate_string (b'a' ∷ 0x4e2d ∷ 0x4e2d ∷ 0x4e2d ∷ []) 5 ≡ panic)
unfolding truncate_string last_index byte_prefix len
cut_runs = (refl, refl, refl)

abbrev wide : Text
wide = 0x4e2d ∷ 0x4e2d ∷ 0x4e2d ∷ []

truncate_string-IsWide_example : truncate_string (b'a' ∷ wide) 8 ≡ panic
truncate_string-IsWide_example = truncate_string-IsWide 1 b'a' wide refl refl (omega arith)
