-- ===== src/Agent/Gate.antt =====
-- tools.go: the permission pipeline in front of one tool call.
use Prim.Native.String.{◌++◌}
use harness_ai.Prelude.{String, none, some, if◌then◌else◌}
use harness_ai.Llm.{ToolCall}
use harness_ai.Domain.{
  permission_decided, approval_requested, PermissionDecision, AskResolution, unresolved, allowed,
}
use harness_ai.Policy.{Decision, Input, Result}
use harness_ai.Policy.Engine.{result, bypass_forbidden, evaluate}
use harness_ai.Agent.{
  ToolDescriptor, ToolOutput, error_output, RunState, World, Res, done, stopped, and_then,
  append_event,
}

-- The call may be dispatched, or it is answered with an error.
pub data GateAnswer : Type 0 where
  dispatch : GateAnswer
  refuse : ToolOutput → GateAnswer

-- `deniedResult`
unfoldable pub denied_result : World → ToolCall → String → ToolOutput
denied_result w c msg = error_output ("tool " ++ (w.quote c.name ++ (" was not executed: " ++ msg)))

abbrev pub input_of : World → RunState → ToolCall → ToolDescriptor → Input
input_of w st c cls = record {
  session_id = st.session_id;
  call_id = c.id;
  tool_name = c.name;
  tool_args = c.args;
  side_effect = cls.side_effect;
  egress_class = cls.egress_class;
  mode = w.mode;
  tainted = st.tainted;
}

-- Behind the answer of the approval gate.
unfoldable pub resolved_stage :
    World → ToolCall → Result → AskResolution → RunState → Res GateAnswer
unfolding append_event denied_result
resolved_stage w c r answer st =
    and_then
      (append_event w st
        (permission_decided c.id c.name PermissionDecision.ask answer r.rule_id r.reason))
      (λ _ st. elim answer [
        | allowed ↦ done dispatch st
        | _ ↦ done (refuse (denied_result w c "denied by human approval")) st
      ])

-- The default of the switch: the durable request, and the approval gate.
unfoldable pub ask_gate : World → ToolCall → Result → RunState → Res GateAnswer
unfolding append_event resolved_stage
ask_gate w c r st =
    and_then (append_event w st (approval_requested st.current_turn_id c.id c.name r.reason c.args))
      (λ _ st. elim (w.approve c) [
        | none ↦ stopped st
        | some answer ↦ resolved_stage w c r answer st
      ])

-- The switch on the decision of the policy.
unfoldable pub decision_stage : World → ToolCall → Result → RunState → Res GateAnswer
unfolding append_event ask_gate denied_result
decision_stage w c r st = elim r.decision [
  | Decision.deny ↦
      and_then
        (append_event w st
          (permission_decided c.id c.name PermissionDecision.deny unresolved r.rule_id r.reason))
        (λ _ st. done (refuse (denied_result w c ("denied: " ++ r.reason))) st)
  | Decision.allow ↦
      and_then
        (append_event w st
          (permission_decided c.id c.name PermissionDecision.allow unresolved r.rule_id r.reason))
        (λ _ st. done dispatch st)
  | Decision.ask ↦ ask_gate w c r st
]

unfoldable pub policy_stage : World → ToolCall → ToolDescriptor → RunState → Res GateAnswer
unfolding decision_stage evaluate
policy_stage w c cls st = elim (evaluate w.text w.engine (input_of w st c cls)) [
  | bypass_forbidden ↦ stopped st
  | result r ↦ decision_stage w c r st
]

abbrev reason_hook_blocked : String
reason_hook_blocked = "hook_blocked"

-- `gateCall`
unfoldable pub gate_call : World → ToolCall → ToolDescriptor → RunState → Res GateAnswer
unfolding append_event policy_stage denied_result
gate_call w c cls st = elim (w.hook c) [
  | none ↦ stopped st
  | some d ↦
      if d.allow
      then policy_stage w c cls st
      else and_then
          (append_event w st (
            permission_decided c.id c.name PermissionDecision.deny unresolved ""
              reason_hook_blocked))
          (λ _ st. done (refuse (denied_result w c ("blocked by hook: " ++ d.reason))) st)
]
