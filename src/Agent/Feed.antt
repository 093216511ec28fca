-- ===== src/Agent/Feed.antt =====
-- tools.go: the results of a batch, and the handling of a whole batch.
use harness_ai.Prelude.{String, none, some, List, [], ◌∷◌, ◌++◌, Map, empty_map, if◌then◌else◌}
use harness_ai.Llm.{ToolCall, ContentPart, empty_part, Message, Role}
use harness_ai.Domain.{
  PlanItem, tool_result, plan_updated, message_appended, TerminationReason, success,
  error_doom_loop,
}
use harness_ai.Agent.{
  ToolOutput, empty_output, RunState, World, Res, done, stopped, and_then, append_event,
}
use harness_ai.Agent.Batch.{ScheduledExec, tool_calls_of, detect_doom_loop, gate_calls}
use harness_ai.Agent.Execute.{dispatch_all}

abbrev pub output_at : Map ToolOutput → String → ToolOutput
output_at m id = elim (m id) [ none ↦ empty_output | some o ↦ o ]

abbrev result_part : ToolCall → ToolOutput → ContentPart
result_part c o = record empty_part {
  tool_result = some (record { call_id = c.id; content = o.content; is_error = o.is_error });
}

unfoldable pub append_plan : World → String → Map (List PlanItem) → RunState → Res (Unit {0})
unfolding append_event
append_plan w id plans st = elim (plans id) [
  | none ↦ done tt st
  | some items ↦ append_event w st (plan_updated st.current_turn_id items)
]

-- The loop over the results, which also builds the message for the model.
unfoldable pub feed_results :
    World
    → List ToolCall
    → Map ToolOutput
    → Map (List PlanItem)
    → List ContentPart
    → RunState
    → Res (List ContentPart)
unfolding append_plan append_event
feed_results w [] results plans parts st = done parts st
feed_results w (c ∷ cs) results plans parts st =
    let o = output_at results c.id in
    and_then (append_plan w c.id plans st) (λ _ st.
      and_then (append_event w st (tool_result c.id o.content o.is_error o.truncated o.blob_ref))
        (λ _ st. feed_results w cs results plans (parts ++ (result_part c o ∷ [])) st))

-- How a turn ended for the loop of the run.
pub data TurnOutcome : Type 0 where
  turn_terminal : TerminationReason → TurnOutcome
  turn_continue : TurnOutcome
  aborted : TerminationReason → TurnOutcome

-- The dispatched results stand over the refusals.
abbrev pub merged : Map ToolOutput → Map ToolOutput → Map ToolOutput
merged refused out id = elim (out id) [ some o ↦ some o | none ↦ refused id ]

unfoldable pub feed_batch :
    World → List ToolCall → List ScheduledExec × Map ToolOutput → RunState → Res TurnOutcome
unfolding dispatch_all feed_results append_event
feed_batch w calls (execs, refused) st = elim (dispatch_all w execs empty_map empty_map) [
  | none ↦ stopped st
  | some (out, plans) ↦
      and_then (feed_results w calls (merged refused out) plans [] st) (λ parts st.
        and_then
          (append_event w st (message_appended (record { role = Role.tool; content = parts })))
          (λ _ st. done turn_continue st))
]

unfoldable pub handle_calls : World → List ToolCall → RunState → Res TurnOutcome
unfolding detect_doom_loop gate_calls feed_batch
handle_calls w [] st = done (turn_terminal success) st
handle_calls w (c ∷ cs) st =
    let test = detect_doom_loop w st (c ∷ cs) in
    if test.0
    then done (turn_terminal error_doom_loop) test.1
    else and_then (gate_calls w (c ∷ cs) [] empty_map test.1)
        (λ batch st. feed_batch w (c ∷ cs) batch st)

-- `handleToolCalls`
unfoldable pub handle_tool_calls : World → Message → RunState → Res TurnOutcome
unfolding handle_calls tool_calls_of
handle_tool_calls w msg st = handle_calls w (tool_calls_of msg.content) st
