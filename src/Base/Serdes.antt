-- ===== src/Base/Serdes.antt =====
-- serde_json between a type and its text: what is written is read back as it was.
use mathlib.Core.Path.{◌≡◌}
use mathlib.Core.Option.{Option, some}
use agent_teams_mcp.Base.Texts.{Text}

pub record Serde (A : Type 0) : Type 0 where
  pub encode : A → Text
  pub decode : Text → Option A
  pub decode-encode : (a : A) → decode (encode a) ≡ some a
