-- ===== src/Agent/Batch.antt =====
-- tools.go, virtual_tools.go: one batch of tool calls, from the doom-loop test to its results.
use Prim.Native.String.{◌++◌ as ◌<>◌}
use harness_ai.Prelude.{
  ℕ, ◌+◌, String, Bool, true, false, ◌&&◌, not, Option, none, some, List, [], ◌∷◌, ◌++◌, Map,
  empty_map, put, str_eq, leb, if◌then◌else◌,
}
use harness_ai.Prelude.Bytes.{bytes}
use harness_ai.Llm.{Args, ToolCall, ContentPart}
use harness_ai.Domain.{SideEffect, EgressClass, tool_execution_started}
use harness_ai.Agent.{
  ToolDescriptor, ToolOutput, RunState, World, Res, done, and_then, append_event,
}
use harness_ai.Agent.Gate.{GateAnswer, dispatch, refuse, gate_call}

-- `toolCallsOf`
unfoldable pub tool_calls_of : List ContentPart → List ToolCall
tool_calls_of [] = []
tool_calls_of (p ∷ ps) = elim p.tool_call [
  | none ↦ tool_calls_of ps
  | some c ↦ c ∷ tool_calls_of ps
]

-- `toolBatchSignature`
unfoldable pub show_entries : World → Args → String
show_entries w [] = ""
show_entries w ((k, v) ∷ rest) = k <> ("=" <> (w.show_value v <> (";" <> show_entries w rest)))

unfoldable pub tool_batch_signature : World → List ToolCall → String
unfolding show_entries
tool_batch_signature w [] = ""
tool_batch_signature w (c ∷ cs) =
    c.name <> ("(" <> (show_entries w (w.sort_keys c.args) <> (")|" <> tool_batch_signature w cs)))

-- `detectDoomLoop`: whether it trips, and the state behind the test.
abbrev pub with_signature : World → RunState → List ToolCall → RunState
with_signature w st calls =
    if str_eq (tool_batch_signature w calls) st.last_tool_sig
    then record st { repeat_count = st.repeat_count + 1 }
    else record st { last_tool_sig = tool_batch_signature w calls; repeat_count = 1 }

unfoldable pub detect_doom_loop : World → RunState → List ToolCall → Bool × RunState
unfolding tool_batch_signature
detect_doom_loop w st calls = elim w.doom_loop_threshold [
  | none ↦ (false, st)
  | some n ↦ (leb n (with_signature w st calls).repeat_count, with_signature w st calls)
]

abbrev pub tool_name_spawn_subagent : String
tool_name_spawn_subagent = "spawn_subagent"

abbrev pub tool_name_todo_write : String
tool_name_todo_write = "todo_write"

abbrev virtual_class : String → SideEffect → ToolDescriptor
virtual_class name effect = record {
  name = name;
  side_effect = effect;
  egress_class = EgressClass.none;
}

-- `virtualClasses`
unfoldable pub virtual_class_for : String → Option ToolDescriptor
virtual_class_for name =
    if str_eq name tool_name_spawn_subagent
    then some (virtual_class tool_name_spawn_subagent SideEffect.mutating)
    else if str_eq name tool_name_todo_write
    then some (virtual_class tool_name_todo_write SideEffect.read_only)
    else none

-- `toolClasses`: of two descriptors of one name the later stands in the map.
unfoldable pub last_named : List ToolDescriptor → Map ToolDescriptor → Map ToolDescriptor
last_named [] m = m
last_named (d ∷ ds) m = last_named ds (put m d.name d)

unfoldable pub tool_classes : World → Map ToolDescriptor
unfolding last_named
tool_classes w = elim w.list_tools [ none ↦ empty_map | some ds ↦ last_named ds empty_map ]

-- `mergeVirtualClasses`, read at a name; a missing key reads as the zero descriptor.
unfoldable pub class_of : World → String → ToolDescriptor
unfolding virtual_class_for tool_classes
class_of w name = elim (virtual_class_for name) [
  | some d ↦ d
  | none ↦ elim (tool_classes w name) [
    | some d ↦ d
    | none ↦ record { name = ""; side_effect = SideEffect.unset; egress_class = EgressClass.unset }
  ]
]

-- `deriveIdempotencyKey`
unfoldable pub derive_idempotency_key : World → String → ℕ → String
derive_idempotency_key w session seq = w.sha_hex (bytes session ++ (0 ∷ bytes (w.decimal seq)))

pub record ScheduledExec : Type 0 where
  pub call : ToolCall
  pub idem_key : String
  pub parallel : Bool

abbrev is_read_only : SideEffect → Bool
is_read_only SideEffect.read_only = true
is_read_only _ = false

abbrev is_external_class : EgressClass → Bool
is_external_class EgressClass.external = true
is_external_class _ = false

unfoldable pub schedule : World → RunState → ToolCall → ScheduledExec
unfolding class_of derive_idempotency_key
schedule w st c = record {
  call = c;
  idem_key = derive_idempotency_key w st.session_id st.last_assistant_seq;
  parallel =
      is_read_only (class_of w c.name).side_effect
      && not (is_external_class (class_of w c.name).egress_class);
}

abbrev pub Batch : Type 0
Batch = List ScheduledExec × Map ToolOutput

-- Behind the gate: a refusal is kept as a result, and a start is logged before its dispatch.
unfoldable pub after_gate :
    World
    → ToolCall
    → List ScheduledExec
    → Map ToolOutput
    → (List ScheduledExec → Map ToolOutput → RunState → Res Batch)
    → GateAnswer
    → RunState
    → Res Batch
unfolding append_event schedule
after_gate w c execs results next (refuse o) st = next execs (put results c.id o) st
after_gate w c execs results next dispatch st =
    and_then (append_event w st (tool_execution_started c.id c.name (schedule w st c).idem_key))
      (λ _ st. next (execs ++ (schedule w st c ∷ [])) results st)

-- The loop of handleToolCalls that gates the calls, one by one.
unfoldable pub gate_calls :
    World → List ToolCall → List ScheduledExec → Map ToolOutput → RunState → Res Batch
unfolding gate_call class_of after_gate
gate_calls w [] execs results st = done (execs, results) st
gate_calls w (c ∷ cs) execs results st =
    and_then (gate_call w c (class_of w c.name) st)
      (λ answer st. after_gate w c execs results (gate_calls w cs) answer st)
