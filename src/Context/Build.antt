-- ===== src/Context/Build.antt =====
-- agentctx.go: BuildWindow, from the session's log to the messages for the model.
use Prim.Native.String.{◌++◌ as ◌<>◌}
use harness_ai.Prelude.{
  ℕ, String, Bool, true, false, ◌&&◌, Option, none, some, List, [], ◌∷◌, ◌++◌, any, str_eq, ltb,
  ◌==◌, if◌then◌else◌,
}
use harness_ai.Llm.{empty_part, Role, Message}
use harness_ai.Domain.{
  Event, PlanItem, session_started, message_appended, assistant_message, tool_result,
  tool_result_cleared, compaction_performed, plan_updated, EventEnvelope,
}
use harness_ai.Context.{
  Window, WindowOptions, default_cleared_stub, default_compaction_summary, text_message,
}

-- The maps of `clearedSet`, as searches through the log.
abbrev pub is_tool_result : Event → Bool
is_tool_result (tool_result _ _ _ _ _) = true
is_tool_result _ = false

abbrev pub is_at : String → ℕ → EventEnvelope → Bool
is_at session seq env = str_eq env.session_id session && env.seq == seq

abbrev pub is_result_at : String → ℕ → EventEnvelope → Bool
is_result_at session seq env = is_tool_result env.event && is_at session seq env

abbrev pub clears_event : List EventEnvelope → ℕ → Event → Bool
clears_event events seq (tool_result_cleared session target _) =
    target == seq && any (is_result_at session target) events
clears_event events seq _ = false

abbrev pub clears : List EventEnvelope → ℕ → EventEnvelope → Bool
clears events seq env = clears_event events seq env.event

-- `clearedSet`: whether the set has a sequence number.
unfoldable pub cleared_set : List EventEnvelope → ℕ → Bool
cleared_set events seq = any (clears events seq) events

-- `renderMessage`
unfoldable pub render_message : EventEnvelope → Bool → String → Option Message
render_message env is_cleared stub = elim env.event [
  | message_appended m ↦ some m
  | assistant_message _ m _ _ _ _ _ ↦ some m
  | tool_result call_id result is_error _ _ ↦ some (record {
    role = Role.tool;
    content =
        record empty_part {
          tool_result = some (record {
            call_id = call_id;
            content = if is_cleared then stub else result;
            is_error = if is_cleared then false else is_error;
          });
        }
        ∷ [];
  })
  | _ ↦ none
]

-- The latest compaction boundary; `none` stands for -1.
abbrev pub later : Option ℕ → ℕ → Option ℕ
later none seq = some seq
later (some last) seq = if ltb last seq then some seq else some last

abbrev pub moved : Option ℕ → EventEnvelope → Option ℕ
moved last env = elim env.event [ compaction_performed _ _ _ ↦ later last env.seq | _ ↦ last ]

unfoldable pub last_compaction : Option ℕ → List EventEnvelope → Option ℕ
last_compaction last [] = last
last_compaction last (env ∷ events) = last_compaction (moved last env) events

-- What the second loop collects.
pub record Collected : Type 0 where
  pub system : String
  pub before : List Message
  pub after : List Message
  pub latest_plan : Option (List PlanItem)

abbrev pub nothing_collected : Collected
nothing_collected = record { system = ""; before = []; after = []; latest_plan = none }

abbrev is_before : Option ℕ → ℕ → Bool
is_before none seq = false
is_before (some boundary) seq = ltb seq boundary

abbrev pub with_message : Option ℕ → ℕ → Option Message → Collected → Collected
with_message boundary seq none s = s
with_message boundary seq (some m) s =
    if is_before boundary seq
    then record s { before = s.before ++ (m ∷ []) }
    else record s { after = s.after ++ (m ∷ []) }

unfoldable pub collect_event :
    (ℕ → Bool) → Option ℕ → String → EventEnvelope → Collected → Collected
unfolding render_message
collect_event cleared boundary stub env s = elim env.event [
  | session_started _ _ system_prompt ↦ record s { system = system_prompt }
  | plan_updated _ items ↦ record s { latest_plan = some items }
  | _ ↦ with_message boundary env.seq (render_message env (cleared env.seq) stub) s
]

unfoldable pub collect : (ℕ → Bool) → Option ℕ → String → List EventEnvelope → Collected → Collected
unfolding collect_event
collect cleared boundary stub [] s = s
collect cleared boundary stub (env ∷ events) s =
    collect cleared boundary stub events (collect_event cleared boundary stub env s)

-- `renderPlanNote`
abbrev plan_lines : List PlanItem → String
plan_lines [] = ""
plan_lines (i ∷ is) = "\n- [" <> (i.status <> ("] " <> (i.content <> plan_lines is)))

unfoldable pub render_plan_note : List PlanItem → String
render_plan_note [] = "[current plan] (no items)"
render_plan_note (i ∷ is) = "[current plan]" <> plan_lines (i ∷ is)

-- The summary in place of the messages before the boundary.
abbrev pub summary_of : String → List Message → List Message
summary_of summary [] = []
summary_of summary (_ ∷ _) = text_message summary ∷ []

unfoldable pub plan_note : Option (List PlanItem) → List Message
unfolding render_plan_note
plan_note none = []
plan_note (some items) = text_message (render_plan_note items) ∷ []

abbrev pub or_default_text : String → String → String
or_default_text given default = if str_eq given "" then default else given

unfoldable pub window_of : String → Collected → Window
unfolding plan_note
window_of summary s = record {
  system = s.system;
  messages = (summary_of summary s.before ++ s.after) ++ plan_note s.latest_plan;
}

-- `BuildWindow`
unfoldable pub build_window : List EventEnvelope → WindowOptions → Window
unfolding cleared_set last_compaction collect window_of
build_window events opts =
    window_of (or_default_text opts.compaction_summary default_compaction_summary) (
      collect (cleared_set events) (last_compaction none events)
        (or_default_text opts.cleared_stub default_cleared_stub) events nothing_collected)
