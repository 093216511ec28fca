-- ===== src/Agent/Adjudicate.antt =====
-- loop.go: the adjudication of what a crash has left, on resume.
use harness_ai.Prelude.{
  ℕ, String, Bool, true, false, Option, none, some, List, [], ◌∷◌, empty_map, str_eq, if◌then◌else◌,
}
use harness_ai.Llm.{zero_usage, ToolCall, empty_part, Role}
use harness_ai.Domain.{
  SideEffect, Event, EventEnvelope, AskResolution, allowed, denied, PermissionDecision,
  permission_decided, turn_aborted, tool_execution_started, tool_result, message_appended,
  assistant_message, error_during_execution,
}
use harness_ai.Recovery.{OpenTurn, SuspendedApproval, Plan}
use harness_ai.Recovery.Collect.{SideEffectLookup, analyze}
use harness_ai.Recovery.Resume.{abort}
use harness_ai.Agent.{
  RunResult, result_of, ToolOutput, RunState, World, Res, done, stopped, and_then, append_event,
}
use harness_ai.Agent.Gate.{denied_result}
use harness_ai.Agent.Batch.{last_named, derive_idempotency_key, ScheduledExec}
use harness_ai.Agent.Execute.{exec_one}
use harness_ai.Agent.Driver.{Driver, resolved, unanswered, interrupted, compute_cost, load_log}
use harness_ai.Agent.Turn.{add_to_usage, add_to_cost}

-- `assistantSeqOf`
abbrev is_message_of : String → Event → Bool
is_message_of turn_id (assistant_message t _ _ _ _ _ _) = str_eq t turn_id
is_message_of turn_id _ = false

unfoldable pub assistant_seq_of : List EventEnvelope → String → ℕ
assistant_seq_of [] turn_id = 0
assistant_seq_of (env ∷ events) turn_id =
    if is_message_of turn_id env.event then env.seq else assistant_seq_of events turn_id

-- `sideEffectLookup`
unfoldable pub side_effect_lookup : World → SideEffectLookup
unfolding last_named
side_effect_lookup w = elim w.list_tools [
  | none ↦ none
  | some ds ↦ some (λ name. elim (last_named ds empty_map name) [
    | none ↦ SideEffect.mutating
    | some d ↦ d.side_effect
  ])
]

-- `feedToolResult`
unfoldable pub feed_tool_result : Driver → ToolCall → ToolOutput → RunState → Res (Unit {0})
unfolding append_event
feed_tool_result d c o st =
    and_then
      (append_event d.world st (tool_result c.id o.content o.is_error o.truncated o.blob_ref))
      (λ _ st. append_event d.world st (
        message_appended (record {
          role = Role.tool;
          content =
              record empty_part {
                tool_result =
                    some (record { call_id = c.id; content = o.content; is_error = o.is_error });
              }
              ∷ [];
        })))

abbrev reason_abandoned : String
reason_abandoned = "suspended-approval-abandoned-on-resume"

-- `abandonSuspendedApproval`
unfoldable pub abandon_suspended_approval : Driver → SuspendedApproval → RunState → Res (Unit {0})
unfolding append_event
abandon_suspended_approval d sa st =
    and_then
      (append_event d.world st (
        permission_decided sa.call_id sa.tool_name PermissionDecision.ask denied ""
          reason_abandoned))
      (λ _ st.
        append_event d.world st (turn_aborted sa.turn_id error_during_execution zero_usage 0))

abbrev pub call_of : SuspendedApproval → ToolCall
call_of sa = record { id = sa.call_id; name = sa.tool_name; args = sa.args }

abbrev pub exec_of : World → SuspendedApproval → String → ℕ → ScheduledExec
exec_of w sa session seq = record {
  call = call_of sa;
  idem_key = derive_idempotency_key w session seq;
  parallel = false;
}

-- The dispatch of a call that is allowed on resume.
unfoldable pub dispatch_resumed : Driver → SuspendedApproval → ℕ → RunState → Res Bool
unfolding append_event exec_one feed_tool_result derive_idempotency_key
dispatch_resumed d sa seq st =
    and_then
      (append_event d.world st (
        tool_execution_started sa.call_id sa.tool_name
          (derive_idempotency_key d.world st.session_id seq)))
      (λ _ st. elim (exec_one d.world (exec_of d.world sa st.session_id seq)) [
        | none ↦ stopped st
        | some (o, _) ↦ and_then (feed_tool_result d (call_of sa) o st) (λ _ st. done false st)
      ])

-- Behind the human's answer.
unfoldable pub decide_resumed : Driver → SuspendedApproval → ℕ → AskResolution → RunState → Res Bool
unfolding append_event dispatch_resumed feed_tool_result denied_result
decide_resumed d sa seq answer st =
    and_then
      (append_event d.world st
        (permission_decided sa.call_id sa.tool_name PermissionDecision.ask answer "" sa.reason))
      (λ _ st. elim answer [
        | allowed ↦ dispatch_resumed d sa seq st
        | _ ↦
            and_then
              (feed_tool_result d (call_of sa)
                (denied_result d.world (call_of sa) "denied by human approval") st)
              (λ _ st. done false st)
      ])

abbrev pub with_turn : SuspendedApproval → ℕ → RunState → RunState
with_turn sa seq st = record st { current_turn_id = sa.turn_id; last_assistant_seq = seq }

-- `resumeSuspendedApproval`: whether the ask was abandoned.
unfoldable pub resume_suspended_approval : Driver → SuspendedApproval → ℕ → RunState → Res Bool
unfolding decide_resumed abandon_suspended_approval
resume_suspended_approval d sa seq st = elim (d.reraise sa) [
  | interrupted ↦ stopped (with_turn sa seq st)
  | unanswered ↦
      and_then (abandon_suspended_approval d sa (with_turn sa seq st)) (λ _ st. done true st)
  | resolved answer ↦ decide_resumed d sa seq answer (with_turn sa seq st)
]

abbrev pub unless_abandoned : (RunState → Res Bool) → Bool → RunState → Res Bool
unless_abandoned next true st = done true st
unless_abandoned next false st = next st

-- The loop over the suspended approvals, which ends at an abandoned one.
unfoldable pub resume_all :
    Driver → List EventEnvelope → List SuspendedApproval → RunState → Res Bool
unfolding resume_suspended_approval assistant_seq_of
resume_all d events [] st = done false st
resume_all d events (sa ∷ sas) st =
    and_then (resume_suspended_approval d sa (assistant_seq_of events sa.turn_id) st)
      (unless_abandoned (λ st. resume_all d events sas st))

-- The loop over the open turns.
unfoldable pub close_turns : Driver → List OpenTurn → RunState → Res (Unit {0})
unfolding append_event compute_cost
close_turns d [] st = done tt st
close_turns d (o ∷ os) st =
    let cost = compute_cost d o.recovered_usage in
    and_then
      (append_event d.world (add_to_cost d cost (add_to_usage o.recovered_usage st))
        (abort (compute_cost d) o))
      (λ _ st. close_turns d os st)

-- `adjudicateResume` behind the loop over the suspended approvals: the result, if the run is over.
unfoldable pub if_abandoned : Driver → Plan → Bool → RunState → Res (Option RunResult)
unfolding close_turns
if_abandoned d plan true st = done (some (result_of st error_during_execution)) st
if_abandoned d plan false st = and_then (close_turns d plan.open_turns st) (λ _ st. done none st)

-- `adjudicateResume` on the plan.
unfoldable pub adjudicate : Driver → List EventEnvelope → Plan → RunState → Res (Option RunResult)
unfolding resume_all if_abandoned
adjudicate d events plan st =
    and_then (resume_all d events plan.suspended_approvals st)
      (λ abandoned st. if_abandoned d plan abandoned st)

-- `adjudicateResume` on the log.
unfoldable pub adjudicate_log : Driver → List EventEnvelope → RunState → Res (Option RunResult)
unfolding adjudicate analyze side_effect_lookup
adjudicate_log d [] st = done none st
adjudicate_log d (e ∷ es) st =
    adjudicate d (e ∷ es) (analyze (e ∷ es) (side_effect_lookup d.world)) st

-- `adjudicateResume`
unfoldable pub adjudicate_resume : Driver → RunState → Res (Option RunResult)
unfolding adjudicate_log
adjudicate_resume d st = and_then (load_log d st) (λ events st. adjudicate_log d events st)
