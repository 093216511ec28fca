-- ===== src/Agent/Examples.antt =====
-- Tests of a batch of tool calls, and the theorems at a batch of two calls.
use harness_ai.Prelude.{
  ◌+◌, ◌≡◌, refl, String, true, false, Option, none, some, empty_map, List, [], ◌∷◌, take, All,
  elem,
}
use harness_ai.Llm.{zero_usage, ToolCall, Message, ContentPart, empty_part, Role}
use harness_ai.Domain.{
  SideEffect, EgressClass, Event, EventEnvelope, turn_started, tool_execution_started, tool_result,
  permission_decided, approval_requested, Actor, AskResolution, PermissionDecision,
}
use harness_ai.Policy.{Mode, Decision, RuleEffect, Rule}
use harness_ai.Policy.Match.{rule_matches}
use harness_ai.Policy.Engine.{Engine, evaluate, first_match, allow_reason}
use harness_ai.Agent.{ToolDescriptor, ToolEvent, RunState, World, done, state_of, error_output}
use harness_ai.Agent.Gate.{gate_call}
use harness_ai.Agent.Keys.{gate_calls-one_key}
use harness_ai.Agent.Batch.{ScheduledExec, gate_calls, derive_idempotency_key, tool_calls_of}
use harness_ai.Agent.Feed.{turn_continue, handle_tool_calls}
use harness_ai.Agent.Results.{handle_tool_calls-closed}
use harness_ai.Agent.Suspends.{gate_call-suspended}
use harness_ai.Recovery.Collect.{analyze}
use harness_ai.Recovery.Executions.{unknown_call_ids}
use harness_ai.Recovery.Suspended.{suspended_call_ids}

abbrev allow_rule : Rule
allow_rule = record { id = "r1"; effect = RuleEffect.allow; tool_name = "read"; arg_match = "" }

abbrev engine : Engine
engine = record { deny_rules = []; allow_rules = allow_rule ∷ []; edit_tools = "edit" ∷ [] }

abbrev descriptor : String → ToolDescriptor
descriptor name = record {
  name = name;
  side_effect = SideEffect.read_only;
  egress_class = EgressClass.none;
}

-- "read" is allowed by a rule; "bash" asks, and the gate of `asking` gives an answer.
abbrev pub world : Option AskResolution → World
world answer = record {
  text = record { lower = λ c. c; url_hostname = λ s. none };
  engine = engine;
  mode = Mode.default;
  doom_loop_threshold = some 3;
  hook = λ c. some (record { allow = true; reason = "" });
  approve = λ c. answer;
  append = λ n e. some (n + 1);
  list_tools = some (descriptor "read" ∷ descriptor "bash" ∷ []);
  execute = λ c k. some (ToolEvent.progress ∷ ToolEvent.output (error_output c.name) ∷ [], false);
  spawn = none;
  plan_items = λ a. none;
  plan_error = λ a. "";
  quote = λ s. s;
  decimal = λ n. "1";
  sort_keys = λ a. a;
  show_value = λ v. "";
  sha_hex = λ x. "key";
}

abbrev pub call_of : String → String → ToolCall
call_of id name = record { id = id; name = name; args = [] }

abbrev part_of : ToolCall → ContentPart
part_of c = record empty_part { tool_call = some c }

abbrev message : Message
message = record {
  role = Role.assistant;
  content = part_of (call_of "c1" "read") ∷ part_of (call_of "c2" "bash") ∷ [];
}

abbrev pub start : RunState
start = record {
  session_id = "s";
  head_seq = 1;
  current_turn_id = "t";
  last_assistant_seq = 1;
  tainted = false;
  usage = zero_usage;
  cost = 0;
  num_turns = 1;
  structured_retries = 0;
  minted = 1;
  opened = 1;
  last_tool_sig = "";
  repeat_count = 0;
  log = turn_started "t" "m" ∷ [];
}

abbrev pub envelope : Event → EventEnvelope
envelope e = record {
  seq = 0;
  session_id = "s";
  tenant_id = "";
  request_id = "r";
  schema_version = 1;
  actor = Actor.system;
  created_at = 0;
  event = e;
  payload_canonical = none;
  content_hash = none;
  chain_hash = none;
}

abbrev pub envelopes : List Event → List EventEnvelope
envelopes [] = []
envelopes (e ∷ es) = envelope e ∷ envelopes es

abbrev behind : RunState
behind = state_of (handle_tool_calls (world (some AskResolution.allowed)) message start)

behind_ok :
    handle_tool_calls (world (some AskResolution.allowed)) message start ≡ done turn_continue behind
unfolding handle_tool_calls first_match rule_matches
behind_ok = refl

-- Each start behind its decision, and the results in the emitted order.
behind_log :
    take 8 behind.log
    ≡ turn_started "t" "m"
      ∷ permission_decided "c1" "read" PermissionDecision.allow AskResolution.unresolved "r1"
          "allowed by rule r1"
      ∷ tool_execution_started "c1" "read" "key"
      ∷ approval_requested "t" "c2" "bash" "no matching allow rule: action requires approval" []
      ∷ permission_decided "c2" "bash" PermissionDecision.ask AskResolution.allowed ""
          "no matching allow rule: action requires approval"
      ∷ tool_execution_started "c2" "bash" "key"
      ∷ tool_result "c1" "read" true false ""
      ∷ tool_result "c2" "bash" true false ""
      ∷ []
unfolding handle_tool_calls first_match rule_matches allow_reason
behind_log = refl

handle_tool_calls-closed_example :
    All
      (λ (c : ToolCall).
        elem c.id (unknown_call_ids (analyze (envelopes behind.log) none).unknown_executions)
        ≡ false)
      (tool_calls_of message.content)
unfolding handle_tool_calls first_match rule_matches
handle_tool_calls-closed_example =
    handle_tool_calls-closed (world (some AskResolution.allowed)) message start behind
      (envelopes behind.log) none behind_ok refl

-- A call whose ask nobody answers.
abbrev left : RunState
left = state_of (gate_call (world none) (call_of "c2" "bash") (descriptor "bash") start)

gate_call-suspended_example :
    elem "c2" (suspended_call_ids (analyze (envelopes left.log) none).suspended_approvals) ≡ true
unfolding gate_call evaluate first_match rule_matches
gate_call-suspended_example =
    gate_call-suspended (world none) (call_of "c2" "bash") (descriptor "bash") start
      (record { allow = true; reason = "" })
      (record {
        decision = Decision.ask;
        rule_id = "";
        reason = "no matching allow rule: action requires approval";
      })
      2 (envelopes left.log) none refl refl refl refl refl refl refl refl

-- Both calls of the message get the key of the message.
abbrev pub two_calls : List ToolCall
two_calls = call_of "c1" "read" ∷ call_of "c2" "bash" ∷ []

abbrev pub scheduled : List ScheduledExec
scheduled =
    record { call = call_of "c1" "read"; idem_key = "key"; parallel = true }
    ∷ record { call = call_of "c2" "bash"; idem_key = "key"; parallel = true }
    ∷ []

gated :
    gate_calls (world (some AskResolution.allowed)) two_calls [] empty_map start
    ≡ done
        (scheduled, empty_map)
        (state_of (gate_calls (world (some AskResolution.allowed)) two_calls [] empty_map start))
unfolding gate_calls first_match rule_matches
gated = refl

gate_calls-one_key_example :
    All
      (λ e. e.idem_key ≡ derive_idempotency_key (world (some AskResolution.allowed)) "s" 1)
      scheduled
gate_calls-one_key_example =
    gate_calls-one_key (world (some AskResolution.allowed)) two_calls start
      (state_of (gate_calls (world (some AskResolution.allowed)) two_calls [] empty_map start))
      scheduled empty_map gated
