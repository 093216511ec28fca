-- ===== src/Agent/Run.antt =====
-- loop.go: a whole run, from the adjudication to its result.
use harness_ai.Prelude.{
  ℕ, zero, suc, ◌+◌, String, Bool, Option, none, some, List, [], ◌∷◌, leb, if◌then◌else◌,
}
use harness_ai.Llm.{zero_usage, Message}
use harness_ai.Domain.{
  Event, turn_started, turn_finished, message_appended, TerminationReason, error_max_turns,
  error_max_budget_usd,
}
use harness_ai.Agent.{RunResult, result_of, RunState, Res, done, stopped, and_then, append_event}
use harness_ai.Agent.Feed.{TurnOutcome, turn_terminal, turn_continue, aborted}
use harness_ai.Agent.Driver.{Driver}
use harness_ai.Agent.Turn.{or_number, run_turn}
use harness_ai.Agent.Adjudicate.{adjudicate_resume}

-- `finishTurn`
unfoldable pub finish_turn : Driver → String → TerminationReason → RunState → Res RunResult
unfolding append_event
finish_turn d turn_id reason st =
    and_then (append_event d.world st (turn_finished turn_id reason st.usage st.cost st.num_turns))
      (λ _ st. done (result_of st reason) st)

-- `finish`
unfoldable pub finish : Driver → TerminationReason → RunState → Res RunResult
unfolding finish_turn
finish d reason st = finish_turn d st.current_turn_id reason st

-- `terminate`
unfoldable pub terminate : Driver → TerminationReason → RunState → Res RunResult
unfolding append_event finish_turn
terminate d reason st =
    let turn_id = d.new_id st.minted in
    and_then
      (append_event d.world (record st { minted = st.minted + 1 }) (turn_started turn_id d.model))
      (λ _ st. finish_turn d turn_id reason st)

abbrev pub max_turns_of : Driver → ℕ
max_turns_of d = or_number d.max_turns 32

abbrev pub finished_run : Res RunResult → Res (Option RunResult)
finished_run r = and_then r (λ a st. done (some a) st)

-- The loop's switch on the outcome of a turn; `next` is its next round.
unfoldable pub on_outcome :
    Driver → (RunState → Res (Option RunResult)) → TurnOutcome → RunState → Res (Option RunResult)
unfolding finish
on_outcome d next (turn_terminal reason) st = finished_run (finish d reason st)
on_outcome d next turn_continue st = next st
on_outcome d next (aborted reason) st = done (some (result_of st reason)) st

-- The loop of turns. Its result is `none` where the fuel runs out.
unfoldable pub run_turns : Driver → ℕ → RunState → Res (Option RunResult)
unfolding terminate run_turn on_outcome
run_turns d zero st = done none st
run_turns d (suc fuel) st =
    let next = λ (st : RunState). run_turns d fuel st in
    if d.over_budget st.cost
    then finished_run (terminate d error_max_budget_usd st)
    else if leb (max_turns_of d) st.num_turns
    then finished_run (terminate d error_max_turns st)
    else and_then (run_turn d st) (λ outcome st. on_outcome d next outcome st)

pub record RunInput : Type 0 where
  pub session_id : String
  pub user_message : Message
  pub tainted : Bool

abbrev pub initial_state : RunInput → ℕ → List Event → RunState
initial_state input head log = record {
  session_id = input.session_id;
  head_seq = head;
  current_turn_id = "";
  last_assistant_seq = 0;
  tainted = input.tainted;
  usage = zero_usage;
  cost = 0;
  num_turns = 0;
  structured_retries = 0;
  minted = 0;
  opened = 0;
  last_tool_sig = "";
  repeat_count = 0;
  log = log;
}

-- The user's message, if it has content.
unfoldable pub append_user : Driver → Message → RunState → Res (Unit {0})
unfolding append_event
append_user d m st = elim m.content [
  | [] ↦ done tt st
  | _ ∷ _ ↦ append_event d.world st (message_appended m)
]

-- `Run` behind the adjudication, with fuel for one turn more than the cap.
unfoldable pub go_on : Driver → RunInput → Option RunResult → RunState → Res (Option RunResult)
unfolding append_user run_turns
go_on d input (some r) st = done (some r) st
go_on d input none st =
    and_then (append_user d input.user_message st) (λ _ st. run_turns d (suc (max_turns_of d)) st)

-- `Run` on the log of its session.
unfoldable pub run : Driver → RunInput → List Event → Res (Option RunResult)
unfolding adjudicate_resume go_on
run d input log = elim d.load_session [
  | none ↦ stopped (initial_state input 0 log)
  | some head ↦
      and_then (adjudicate_resume d (initial_state input head log))
        (λ ended st. go_on d input ended st)
]
