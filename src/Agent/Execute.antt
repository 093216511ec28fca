-- ===== src/Agent/Execute.antt =====
-- tools.go, virtual_tools.go: the dispatch of the allowed calls of a batch.
use Prim.Native.String.{◌++◌ as ◌<>◌}
use harness_ai.Prelude.{
  String, false, Option, none, some, List, [], ◌∷◌, length, Map, put, str_eq, is_some,
  if◌then◌else◌,
}
use harness_ai.Prelude.Text.{trim_space}
use harness_ai.Llm.{str, other, Args, ToolCall}
use harness_ai.Domain.{PlanItem}
use harness_ai.Policy.Match.{get_arg}
use harness_ai.Agent.{ToolOutput, error_output, ToolEvent, progress, output, World}
use harness_ai.Agent.Batch.{
  ScheduledExec, tool_name_spawn_subagent, tool_name_todo_write, virtual_class_for,
}

-- `parseSpawnArgs`: the task and the model, or the text of the error. A nil prints as `<nil>`.
pub data SpawnArgs : Type 0 where
  parsed : (task model : String) → SpawnArgs
  rejected : (text : String) → SpawnArgs

unfoldable pub model_arg : World → Args → String → SpawnArgs
unfolding get_arg
model_arg w args task = elim (get_arg args "model") [
  | none ↦ parsed task ""
  | some v ↦ elim v [
    | str m ↦ parsed task m
    | other s ↦
        if str_eq s "<nil>"
        then parsed task ""
        else rejected ("spawn_subagent: " <> (w.quote "model" <> " must be a string"))
  ]
]

unfoldable pub parse_spawn_args : World → Args → SpawnArgs
unfolding get_arg model_arg trim_space
parse_spawn_args w args = elim (get_arg args "task") [
  | none ↦ rejected ("spawn_subagent: missing required " <> (w.quote "task" <> " argument"))
  | some v ↦ elim v [
    | other _ ↦ rejected ("spawn_subagent: " <> (w.quote "task" <> " must be a string"))
    | str task ↦
        if str_eq (trim_space task) ""
        then rejected ("spawn_subagent: " <> (w.quote "task" <> " must not be empty"))
        else model_arg w args task
  ]
]

-- `planConfirmation`
unfoldable pub plan_confirmation : World → List PlanItem → String
plan_confirmation w items = "recorded plan: " <> (w.decimal (length items) <> " item(s)")

-- The result of an execution, and the plan that a planning call leaves; `none` is an error.
abbrev pub Executed : Type 0
Executed = Option (ToolOutput × Option (List PlanItem))

unfoldable pub spawn_stage : World → SpawnArgs → Executed
spawn_stage w (rejected text) = some (error_output text, none)
spawn_stage w (parsed task model) = elim w.spawn [
  | none ↦ some (error_output "spawn_subagent: sub-agents are not available", none)
  | some run ↦ elim (run task model) [ none ↦ none | some out ↦ some (out, none) ]
]

-- `execVirtual`
unfoldable pub exec_virtual : World → ToolCall → Executed
unfolding parse_spawn_args spawn_stage plan_confirmation
exec_virtual w c =
    if str_eq c.name tool_name_spawn_subagent
    then spawn_stage w (parse_spawn_args w c.args)
    else if str_eq c.name tool_name_todo_write
    then elim (w.plan_items c.args) [
      | none ↦ some (error_output (w.plan_error c.args), none)
      | some items ↦ some (
        record {
          content = plan_confirmation w items;
          is_error = false;
          truncated = false;
          blob_ref = "";
        },
        some items,
      )
    ]
    else some (error_output ("unknown virtual tool " <> w.quote c.name), none)

-- The last result of a stream.
unfoldable pub last_output : List ToolEvent → Option ToolOutput → Option ToolOutput
last_output [] found = found
last_output (progress ∷ es) found = last_output es found
last_output (output o ∷ es) found = last_output es (some o)

abbrev or_no_result : Option ToolOutput → ToolOutput
or_no_result none = error_output "tool produced no result"
or_no_result (some o) = o

-- `execOne`
unfoldable pub exec_one : World → ScheduledExec → Executed
unfolding exec_virtual last_output virtual_class_for
exec_one w e =
    if is_some (virtual_class_for e.call.name)
    then exec_virtual w e.call
    else elim (w.execute e.call e.idem_key) [
      | none ↦ none
      | some (events, failed) ↦
          if failed then none else some (or_no_result (last_output events none), none)
    ]

abbrev put_plan : Map (List PlanItem) → String → Option (List PlanItem) → Map (List PlanItem)
put_plan m id none = m
put_plan m id (some items) = put m id items

-- `dispatch`. The calls that may run beside one another fill maps by call id, under a lock, so their
-- order does not matter; the model takes them in the emitted order.
unfoldable pub dispatch_all :
    World
    → List ScheduledExec
    → Map ToolOutput
    → Map (List PlanItem)
    → Option (Map ToolOutput × Map (List PlanItem))
unfolding exec_one
dispatch_all w [] out plans = some (out, plans)
dispatch_all w (e ∷ es) out plans = elim (exec_one w e) [
  | none ↦ none
  | some (o, plan) ↦ dispatch_all w es (put out e.call.id o) (put_plan plans e.call.id plan)
]
