-- ===== src/Context/Compaction.antt =====
-- compaction.go: when to compact, and the window that is expected behind the boundary.
use harness_ai.Prelude.{
  ℕ, String, Bool, true, false, ◌||◌, Option, none, some, List, [], ◌∷◌, ltb, ◌==◌, if◌then◌else◌,
}
use harness_ai.Llm.{Message, Word}
use harness_ai.Domain.{Event, compaction_performed, EventEnvelope}
use harness_ai.Context.{Window, default_options, default_compaction_summary, text_message}
use harness_ai.Context.Build.{build_window}

pub record CompactionPlan : Type 0 where
  pub should_compact : Bool
  pub event : Option Event
  pub current_tokens : Word

-- `projectedAfterWindow`
unfoldable pub projected_after_window : Window → Window
projected_after_window win = elim win.messages [
  | [] ↦ win
  | _ ∷ _ ↦ record { system = win.system; messages = text_message default_compaction_summary ∷ [] }
]

abbrev reason_approaching_window : String
reason_approaching_window = "window approaching model context budget"

-- The token counter and the threshold in tokens, which is 0 where the configuration disables it.
pub record Manager : Type 0 where
  pub count : List Message → Option Word
  pub threshold : ℕ

-- Behind a count that has reached the threshold.
unfoldable pub plan_boundary : Manager → Window → Word → Option CompactionPlan
unfolding projected_after_window
plan_boundary m win current = elim (m.count (projected_after_window win).messages) [
  | none ↦ none
  | some after ↦ some (record {
    should_compact = true;
    event = some (compaction_performed current after reason_approaching_window);
    current_tokens = current;
  })
]

-- `PlanCompaction`; `none` is an error of the counter.
unfoldable pub plan_compaction : Manager → List EventEnvelope → Option CompactionPlan
unfolding plan_boundary build_window
plan_compaction m events =
    let win = build_window events default_options in
    elim (m.count win.messages) [
      | none ↦ none
      | some current ↦
          if m.threshold == 0 || ltb current m.threshold
          then some (record { should_compact = false; event = none; current_tokens = current })
          else plan_boundary m win current
    ]
