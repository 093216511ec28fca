-- ===== src/Recovery/Spec.antt =====
-- What recovery.go promises of one turn, one tool execution and one approval, read off the log
-- with no state: from the first event that starts it and the events behind that.
use harness_ai.Prelude.{String, Bool, false, not, List, [], ◌∷◌, any, str_eq, if◌then◌else◌}
use harness_ai.Domain.{
  Event, turn_started, assistant_message, turn_aborted, turn_finished, tool_execution_started,
  tool_result,
}

-- The item is started somewhere, and nothing behind its first start finishes it.
abbrev pub unfinished : (Event → Bool) → (Event → Bool) → List Event → Bool
unfinished starts finishes [] = false
unfinished starts finishes (e ∷ es) =
    let rest = unfinished starts finishes es in if starts e then not (any finishes es) else rest

abbrev pub starts_turn : String → Event → Bool
starts_turn t (turn_started u _) = str_eq u t
starts_turn t _ = false

-- The events behind which a turn is no longer open.
abbrev pub closes : String → Event → Bool
closes t (assistant_message u _ _ _ _ _ _) = str_eq u t
closes t (turn_aborted u _ _ _) = str_eq u t
closes t (turn_finished u _ _ _ _) = str_eq u t
closes t _ = false

-- The events behind which a turn can no longer wait for an approval.
abbrev pub terminates : String → Event → Bool
terminates t (turn_aborted u _ _ _) = str_eq u t
terminates t (turn_finished u _ _ _ _) = str_eq u t
terminates t _ = false

abbrev pub starts_exec : String → Event → Bool
starts_exec c (tool_execution_started d _ _) = str_eq d c
starts_exec c _ = false

abbrev pub has_result : String → Event → Bool
has_result c (tool_result d _ _ _ _) = str_eq d c
has_result c _ = false
