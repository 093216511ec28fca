-- ===== src/Agent/Turn.antt =====
-- turn.go: one round-trip with the model.
use Prim.Native.String.{◌++◌ as ◌<>◌}
use harness_ai.Prelude.{
  ℕ, zero, suc, ◌+◌, String, Bool, true, false, none, some, List, [], ◌∷◌, leb, str_eq,
  if◌then◌else◌,
}
use harness_ai.Llm.{Usage, F64, add_usage, ContentPart, Message, StopReason, refusal, Done}
use harness_ai.Domain.{
  turn_started, assistant_message, turn_aborted, message_appended, TerminationReason, success,
  error_during_execution, error_max_structured_output_retries,
}
use harness_ai.Context.{text_message}
use harness_ai.Agent.{RunState, Res, done, stopped, and_then, append_event}
use harness_ai.Agent.Assembler.{Outcome, outcome_final, needs_tool_execution, needs_continuation}
use harness_ai.Agent.Feed.{TurnOutcome, turn_terminal, turn_continue, aborted, handle_tool_calls}
use harness_ai.Agent.Driver.{
  Driver, compute_cost, price_turn_usage, build_request, Streamed, stream_with_continuations,
  max_pause_continuations, free_form, invalid, compiled, streamed, stream_failed,
}

-- The append of a TurnAborted, and the outcome behind it.
unfoldable pub abort_turn :
    Driver → Usage → F64 → (RunState → RunState) → RunState → Res TurnOutcome
unfolding append_event
abort_turn d usage cost account st =
    and_then
      (append_event d.world st (turn_aborted st.current_turn_id error_during_execution usage cost))
      (λ _ st. done (aborted error_during_execution) (account st))

abbrev pub add_to_usage : Usage → RunState → RunState
add_to_usage u st = record st { usage = add_usage st.usage u }

abbrev pub add_to_cost : Driver → F64 → RunState → RunState
add_to_cost d c st = record st { cost = d.add_cost st.cost c }

abbrev concat_text : List ContentPart → String
concat_text [] = ""
concat_text (p ∷ ps) = elim p.text [ none ↦ concat_text ps | some t ↦ t <> concat_text ps ]

-- `validateStructured`
unfoldable pub validate_structured : (String → Bool) → Message → Bool
validate_structured check m =
    if str_eq (concat_text m.content) "" then false else check (concat_text m.content)

abbrev pub default_structured_retries : ℕ
default_structured_retries = 3

abbrev pub or_number : ℕ → ℕ → ℕ
or_number zero default = default
or_number (suc n) default = suc n

abbrev pub structured_retry_message : Message
structured_retry_message =
    text_message
      "Your previous response did not match the required JSON schema. Respond again with valid JSON that conforms to the schema."

-- An answer that does not fit the schema: another turn, up to the cap.
unfoldable pub retry_structured : Driver → RunState → Res TurnOutcome
unfolding append_event
retry_structured d st =
    if leb (or_number d.max_structured_retries default_structured_retries) st.structured_retries
    then done (turn_terminal error_max_structured_output_retries) st
    else and_then
        (append_event d.world (record st { structured_retries = st.structured_retries + 1 })
          (message_appended structured_retry_message))
        (λ _ st. done turn_continue st)

abbrev pub is_refusal : StopReason → Bool
is_refusal refusal = true
is_refusal _ = false

-- `classifyFinal`
unfoldable pub classify_final : Driver → Message → Done → RunState → Res TurnOutcome
unfolding validate_structured retry_structured
classify_final d m dn st =
    if is_refusal dn.stop_reason
    then done (turn_terminal TerminationReason.refusal) st
    else elim d.schema [
      | invalid ↦ stopped st
      | free_form ↦ done (turn_terminal success) st
      | compiled check ↦
          if validate_structured check m
          then done (turn_terminal success) st
          else retry_structured d st
    ]

-- Behind the append of the assistant's message.
unfoldable pub after_message : Driver → Message → Outcome → Done → RunState → Res TurnOutcome
unfolding handle_tool_calls classify_final abort_turn
after_message d m needs_tool_execution dn st = handle_tool_calls d.world m st
after_message d m outcome_final dn st = classify_final d m dn st
after_message d m needs_continuation dn st = abort_turn d dn.usage 0 (λ st. st) st

-- Behind a stream that was assembled.
unfoldable pub record_message : Driver → Message → Outcome → Done → RunState → Res TurnOutcome
unfolding price_turn_usage append_event after_message abort_turn
record_message d m o dn st = elim (price_turn_usage d dn.usage) [
  | none ↦ abort_turn d dn.usage 0 (add_to_usage dn.usage) st
  | some cost ↦
      let st = add_to_cost d cost (add_to_usage dn.usage st) in
      and_then
        (append_event d.world st (
          assistant_message st.current_turn_id m dn.stop_reason dn.raw_stop_reason dn.usage cost
            dn.provider_raw))
        (λ _ st. after_message d m o dn (record st { last_assistant_seq = st.head_seq }))
]

-- Behind the stream.
unfoldable pub after_stream : Driver → Streamed → RunState → Res TurnOutcome
unfolding compute_cost abort_turn record_message
after_stream d (stream_failed u) st =
    abort_turn d u (compute_cost d u) (λ st. add_to_cost d (compute_cost d u) (add_to_usage u st))
      st
after_stream d (streamed m o dn) st = record_message d m o dn st

abbrev pub begin_turn : Driver → RunState → RunState
begin_turn d st = record st {
  current_turn_id = d.new_id st.minted;
  minted = st.minted + 1;
  num_turns = st.num_turns + 1;
}

-- `runTurn`
unfoldable pub run_turn : Driver → RunState → Res TurnOutcome
unfolding build_request append_event stream_with_continuations after_stream
run_turn d st =
    if d.cancelled st.num_turns
    then done (aborted error_during_execution) st
    else and_then (build_request d st) (λ req st.
      let st = begin_turn d st in
      and_then (append_event d.world st (turn_started st.current_turn_id d.model)) (λ _ st.
        let answer = stream_with_continuations d max_pause_continuations req st in
        after_stream d answer.0 answer.1))
