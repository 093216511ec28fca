-- ===== src/Agent.antt =====
-- internal/orchestrator/app/agent: the state of a run, and what the loop takes from its ports.
pub mod Gate
pub mod Batch
pub mod Execute
pub mod Feed
pub mod Logs
pub mod Guarded
pub mod Permitted
pub mod Results
pub mod Suspends
pub mod Assembler
pub mod Frame
pub mod Walk
pub mod Turned
pub mod Resumed
pub mod Authorized
pub mod Driver
pub mod Turn
pub mod Adjudicate
pub mod Run
pub mod Ends
pub mod Keys
mod Examples
mod RunExamples
use harness_ai.Prelude.{ℕ, String, Bool, true, false, Option, none, some, List, [], ◌∷◌, ◌++◌}
use harness_ai.Llm.{Usage, F64, ToolCall, ArgValue, Args}
use harness_ai.Domain.{TerminationReason, SideEffect, EgressClass, AskResolution, PlanItem, Event}
use harness_ai.Policy.{Mode}
use harness_ai.Policy.Match.{GoText}
use harness_ai.Policy.Engine.{Engine}

-- ports.go: `ToolDescriptor`, without the texts for the model.
pub record ToolDescriptor : Type 0 where
  pub name : String
  pub side_effect : SideEffect
  pub egress_class : EgressClass

-- ports.go: `ToolResult`
pub record ToolOutput : Type 0 where
  pub content : String
  pub is_error : Bool
  pub truncated : Bool
  pub blob_ref : String

abbrev pub empty_output : ToolOutput
empty_output = record { content = ""; is_error = false; truncated = false; blob_ref = "" }

abbrev pub error_output : String → ToolOutput
error_output text = record { content = text; is_error = true; truncated = false; blob_ref = "" }

-- An event of a tool's stream: a progress note, or the result.
pub data ToolEvent : Type 0 where
  progress : ToolEvent
  output : ToolOutput → ToolEvent

pub record HookDecision : Type 0 where
  pub allow : Bool
  pub reason : String

-- `runState`, with the session's log, which the event store keeps, and the numbers of the ids that are minted
-- and of the streams that are opened.
pub record RunState : Type 0 where
  pub session_id : String
  pub head_seq : ℕ
  pub current_turn_id : String
  pub last_assistant_seq : ℕ
  pub tainted : Bool
  pub usage : Usage
  pub cost : F64
  pub num_turns : ℕ
  pub structured_retries : ℕ
  pub minted : ℕ
  pub opened : ℕ
  pub last_tool_sig : String
  pub repeat_count : ℕ
  pub log : List Event

-- The ports and the configuration of the loop, and the functions of the standard library that it
-- uses: the hooks, the approval gate, the event log (the head after an append), the tools and
-- their streams (with whether they end in an error), and the sub-agents; `none` is an error.
-- `doom_loop_threshold` is `none` where the configuration turns the detection off.
pub record World : Type 0 where
  pub text : GoText
  pub engine : Engine
  pub mode : Mode
  pub doom_loop_threshold : Option ℕ
  pub hook : ToolCall → Option HookDecision
  pub approve : ToolCall → Option AskResolution
  pub append : ℕ → Event → Option ℕ
  pub list_tools : Option (List ToolDescriptor)
  pub execute : ToolCall → String → Option (List ToolEvent × Bool)
  pub spawn : Option (String → String → Option ToolOutput)
  pub plan_items : Args → Option (List PlanItem)
  pub plan_error : Args → String
  pub quote : String → String
  pub decimal : ℕ → String
  pub sort_keys : Args → Args
  pub show_value : ArgValue → String
  pub sha_hex : List ℕ → String

-- `Result`, of a run.
pub record RunResult : Type 0 where
  pub reason : TerminationReason
  pub usage : Usage
  pub cost : F64
  pub num_turns : ℕ

-- `result`
abbrev pub result_of : RunState → TerminationReason → RunResult
result_of st reason = record {
  reason = reason;
  usage = st.usage;
  cost = st.cost;
  num_turns = st.num_turns;
}

-- A step of the loop that went through, or stopped with an error; the state is that behind it.
pub data Res {ℓ} (A : Type ℓ) : Type ℓ where
  done : A → RunState → Res A
  stopped : RunState → Res A

abbrev pub state_of {ℓ} : {A : Type ℓ} → Res A → RunState
state_of (done a st) = st
state_of (stopped st) = st

-- The next step, unless there was an error.
abbrev pub and_then {ℓ κ} : {A : Type ℓ} {B : Type κ} → Res A → (A → RunState → Res B) → Res B
and_then (done a st) f = f a st
and_then (stopped st) f = stopped st

-- `append`: one event, and the new head.
unfoldable pub append_event : World → RunState → Event → Res (Unit {0})
append_event w st ev = elim (w.append st.head_seq ev) [
  | none ↦ stopped st
  | some head ↦ done tt (record st { head_seq = head; log = st.log ++ (ev ∷ []) })
]
