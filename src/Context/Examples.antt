-- ===== src/Context/Examples.antt =====
-- Tests of the window and its compaction, and the theorem at a session of two messages.
use harness_ai.Prelude.{
  ◌||◌, ◌==◌, true, false, some, ◌≡◌, refl, none, List, [], ◌∷◌, ◌++◌, arith, ℕ,
}
use harness_ai.Domain.{
  tool_result, tool_result_cleared, Event, EventEnvelope, Actor, session_started, message_appended,
  compaction_performed, plan_updated,
}
use harness_ai.Llm.{Role, empty_part}
use harness_ai.Context.{
  default_cleared_stub, default_options, default_compaction_summary, text_message,
}
use harness_ai.Context.Build.{cleared_set, build_window}
use harness_ai.Context.Compaction.{projected_after_window}
use harness_ai.Context.Clearing.{validate_clear, is_cleared, validate_clear-cleared}
use harness_ai.Context.Boundary.{build_window-boundary}

abbrev envelope : ℕ → Event → EventEnvelope
envelope seq e = record {
  seq = seq;
  session_id = "s";
  tenant_id = "";
  request_id = "r";
  schema_version = 1;
  actor = Actor.system;
  created_at = 0;
  event = e;
  payload_canonical = none;
  content_hash = none;
  chain_hash = none;
}

abbrev session : List EventEnvelope
session =
    envelope 1 (session_started "" 0 "prompt")
    ∷ envelope 2 (message_appended (text_message "hi"))
    ∷ envelope 3 (message_appended (text_message "again"))
    ∷ []

abbrev boundary : EventEnvelope
boundary = envelope 4 (compaction_performed 90 10 "approaching-context-window")

window_shown :
    build_window session default_options
    ≡ record { system = "prompt"; messages = text_message "hi" ∷ text_message "again" ∷ [] }
unfolding build_window
window_shown = refl

-- A plan stands behind the boundary too, which the projection does not show.
abbrev plan : EventEnvelope
plan = envelope 4 (plan_updated "t" [])

plan_behind_boundary :
    build_window
      (session ++ (plan ∷ envelope 5 (compaction_performed 90 10 "") ∷ []))
      default_options
    ≡ record {
      system = "prompt";
      messages =
          text_message default_compaction_summary ∷ text_message "[current plan] (no items)" ∷ [];
    }
unfolding build_window
plan_behind_boundary = refl

plan_projected :
    projected_after_window (build_window (session ++ (plan ∷ [])) default_options)
    ≡ record { system = "prompt"; messages = text_message default_compaction_summary ∷ [] }
unfolding projected_after_window build_window
plan_projected = refl

build_window-boundary_example :
    build_window (session ++ (boundary ∷ [])) default_options
    ≡ projected_after_window (build_window session default_options)
build_window-boundary_example =
    build_window-boundary session boundary 90 10 "approaching-context-window" refl (omega arith)
      refl

-- A result, and its clear.
abbrev with_result : List EventEnvelope
with_result = session ++ (envelope 4 (tool_result "c1" "long" false false "") ∷ [])

abbrev clear : EventEnvelope
clear = envelope 5 (tool_result_cleared "s" 4 "old")

cleared_shown :
    (build_window (with_result ++ (clear ∷ [])) default_options).messages
    ≡ text_message "hi"
      ∷ text_message "again"
      ∷ record {
        role = Role.tool;
        content =
            record empty_part {
              tool_result =
                  some
                    (record { call_id = "c1"; content = default_cleared_stub; is_error = false });
            }
            ∷ [];
      }
      ∷ []
unfolding build_window
cleared_shown = refl

validate_clear-cleared_example :
    (is_cleared (with_result ++ (clear ∷ [])) "s" 4 ≡ some true)
    × ((n : ℕ)
        → cleared_set (with_result ++ (clear ∷ [])) n ≡ (cleared_set with_result n || (4 == n)))
unfolding validate_clear
validate_clear-cleared_example = validate_clear-cleared with_result clear "s" "old" 4 refl refl
