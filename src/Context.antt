-- ===== src/Context.antt =====
-- internal/orchestrator/app/agentctx: the window that the model sees, and its compaction.
pub mod Build
pub mod Compaction
pub mod Clearing
pub mod Boundary
pub mod Doubled
mod Examples
use harness_ai.Prelude.{String, Option, none, some, List, [], ◌∷◌}
use harness_ai.Llm.{ContentPart, empty_part, Role, Message}

-- agentctx.go: `Window`
pub record Window : Type 0 where
  pub system : String
  pub messages : List Message

pub record WindowOptions : Type 0 where
  pub cleared_stub : String
  pub compaction_summary : String

abbrev pub default_options : WindowOptions
default_options = record { cleared_stub = ""; compaction_summary = "" }

abbrev pub default_cleared_stub : String
default_cleared_stub =
    "[tool result cleared to reclaim context; re-run the tool if its output is needed again]"

abbrev pub default_compaction_summary : String
default_compaction_summary = "[earlier conversation compacted to reclaim context]"

abbrev pub text_message : String → Message
text_message t = record { role = Role.user; content = record empty_part { text = some t } ∷ [] }
