-- ===== src/Recovery/Examples.antt =====
-- Tests of the recovery fold, and its theorems at a log that a crash cut short.
use harness_ai.Prelude.{◌≡◌, refl, not, ◌&&◌, none, some, List, [], ◌∷◌, ◌++◌, elem}
use harness_ai.Llm.{Usage, zero_usage}
use harness_ai.Domain.{
  SideEffect, Event, turn_started, assistant_message_delta, turn_finished, turn_aborted,
  tool_execution_started, approval_requested, success, error_during_execution, Actor, EventEnvelope,
}
use harness_ai.Recovery.Fold.{step, events_of}
use harness_ai.Recovery.Collect.{SideEffectLookup, suspended_turn_ids, analyze}
use harness_ai.Recovery.Spec.{unfinished, starts_turn, closes, starts_exec, has_result}
use harness_ai.Recovery.Turns.{open_turn_ids, elem-open_turns}
use harness_ai.Recovery.Executions.{unknown_call_ids, elem-unknown_executions}
use harness_ai.Recovery.Suspended.{pending_ask, waits, suspended_call_ids, elem-suspended_approvals}
use harness_ai.Recovery.Resume.{close_open_turns, analyze-close_open_turns}

abbrev envelope : Event → EventEnvelope
envelope e = record {
  seq = 0;
  session_id = "s";
  tenant_id = "";
  request_id = "r";
  schema_version = 1;
  actor = Actor.system;
  created_at = 0;
  event = e;
  payload_canonical = none;
  content_hash = none;
  chain_hash = none;
}

abbrev some_usage : Usage
some_usage = record zero_usage { input_tokens = 7; output_tokens = 3 }

-- t1 finished, t2 broke off in its stream, t3 waits for an approval, and a bash call has no result.
abbrev crashed : List EventEnvelope
crashed =
    envelope (turn_started "t1" "m")
    ∷ envelope (turn_finished "t1" success zero_usage 0 1)
    ∷ envelope (turn_started "t2" "m")
    ∷ envelope (assistant_message_delta "t2" "he" some_usage none)
    ∷ envelope (tool_execution_started "c1" "bash" "k1")
    ∷ envelope (turn_started "t3" "m")
    ∷ envelope (approval_requested "t3" "c2" "edit" "ask" [])
    ∷ []

abbrev lookup : SideEffectLookup
lookup = some (λ _. SideEffect.mutating)

abbrev closing : List EventEnvelope
closing = envelope (turn_aborted "t2" error_during_execution some_usage 0) ∷ []

crashed-plan :
    let plan = analyze crashed lookup in
    (open_turn_ids plan.open_turns ≡ "t2" ∷ [])
    × (unknown_call_ids plan.unknown_executions ≡ "c1" ∷ [])
    × (suspended_call_ids plan.suspended_approvals ≡ "c2" ∷ [])
unfolding analyze step
crashed-plan = (refl, refl, refl)

elem-open_turns_example : elem "t2" (open_turn_ids (analyze crashed lookup).open_turns) ≡ (
    unfinished (starts_turn "t2") (closes "t2") (events_of crashed)
    && not (elem "t2" (suspended_turn_ids (analyze crashed lookup).suspended_approvals)))
elem-open_turns_example = elem-open_turns "t2" crashed lookup

elem-unknown_executions_example :
    elem "c1" (unknown_call_ids (analyze crashed lookup).unknown_executions)
    ≡ unfinished (starts_exec "c1") (has_result "c1") (events_of crashed)
elem-unknown_executions_example = elem-unknown_executions "c1" crashed lookup

elem-suspended_approvals_example :
    elem "c2" (suspended_call_ids (analyze crashed lookup).suspended_approvals)
    ≡ waits (events_of crashed) (pending_ask "c2" none (events_of crashed))
elem-suspended_approvals_example = elem-suspended_approvals "c2" crashed lookup

closing_events : events_of closing ≡ close_open_turns (λ _. 0) (analyze crashed lookup)
unfolding close_open_turns analyze step
closing_events = refl

analyze-close_open_turns_example :
    ((analyze (crashed ++ closing) lookup).open_turns ≡ [])
    × ((analyze (crashed ++ closing) lookup).suspended_approvals
        ≡ (analyze crashed lookup).suspended_approvals)
    × ((analyze (crashed ++ closing) lookup).unknown_executions
        ≡ (analyze crashed lookup).unknown_executions)
analyze-close_open_turns_example =
    analyze-close_open_turns (λ _. 0) crashed closing lookup closing_events
