-- ===== src/Agent/RunExamples.antt =====
-- Tests of whole runs, and the theorems at a run of two turns.
use harness_ai.Prelude.{
  ◌+◌, ◌*◌, ◌≤◌, ◌≡◌, ◌⊎◌, refl, String, false, none, some, empty_map, List, [], ◌∷◌, ◌++◌, ℕ, zero,
  suc,
}
use harness_ai.Policy.Engine.{first_match}
use harness_ai.Policy.Match.{rule_matches}
use harness_ai.Llm.{
  add_usage, add_word, zero_usage, StopReason, tool_use, end, StreamEvent, text_delta,
  tool_call_delta, finished, Done, ToolCallDelta,
}
use harness_ai.Domain.{TerminationReason, turn_finished, error_during_execution, AskResolution}
use harness_ai.Context.{default_options, text_message}
use harness_ai.Context.Build.{build_window, last_compaction}
use harness_ai.Context.Doubled.{build_window-doubled, results_in, times}
use harness_ai.Agent.{RunResult, RunState, done, state_of}
use harness_ai.Agent.Assembler.{Json, eof, assemble}
use harness_ai.Agent.Assembler.Exact.{assemble-reference, answer_of}
use harness_ai.Agent.Authorized.{run-IsGuarded}
use harness_ai.Agent.Guarded.{IsGuarded, last_event}
use harness_ai.Agent.Ends.{run-bounded, run-finished}
use harness_ai.Agent.Examples.{world, start, envelopes, two_calls, scheduled}
use harness_ai.Agent.Feed.{turn_continue, feed_batch}
use harness_ai.Agent.Driver.{Driver, Schema, Reraised}
use harness_ai.Agent.Run.{RunInput, run}

abbrev json : Json
json = record { marshal = λ kvs. some []; unmarshal = λ bytes. some (some []) }

abbrev done_with : StopReason → Done
done_with reason = record {
  stop_reason = reason;
  raw_stop_reason = "";
  usage = record zero_usage { output_tokens = 2 };
  provider_raw = none;
}

-- The model asks for a tool in two fragments, and then answers.
abbrev fragment : String → List ℕ → ToolCallDelta
fragment name bytes = record {
  call_id = "c1";
  name = name;
  args_path = "";
  args_fragment = some bytes;
}

abbrev asking : List StreamEvent
asking =
    text_delta "I "
    ∷ tool_call_delta (fragment "read" (0x7B ∷ []))
    ∷ text_delta "look"
    ∷ tool_call_delta (fragment "" (0x7D ∷ []))
    ∷ []

abbrev driver : Driver
driver = record {
  world = world (some AskResolution.allowed);
  json = json;
  load_session = some 0;
  load = λ log. some (envelopes log);
  stream = λ n req. elim n [
    | zero ↦ some (asking ++ (finished (done_with tool_use) ∷ []), eof)
    | suc _ ↦ some (text_delta "ok" ∷ finished (done_with end) ∷ [], eof)
  ];
  new_id = λ n. "t";
  manager = none;
  pre_compact = λ t. none;
  cancelled = λ n. false;
  reraise = λ sa. Reraised.unanswered;
  model = "m";
  tool_defs = [];
  advertised = [];
  virtual_defs = [];
  output_schema = none;
  strict = false;
  schema = Schema.free_form;
  max_structured_retries = 0;
  max_turns = 5;
  has_budget = false;
  over_budget = λ c. false;
  cost_func = none;
  add_cost = λ a b. a + b;
}

abbrev input : RunInput
input = record { session_id = "s"; user_message = text_message "hi"; tainted = false }

abbrev outcome : RunResult
outcome = record {
  reason = TerminationReason.success;
  usage = record zero_usage { output_tokens = 4 };
  cost = 0;
  num_turns = 2;
}

abbrev last : RunState
last = state_of (run driver input [])

run_ok : run driver input [] ≡ done (some outcome) last
unfolding run first_match rule_matches add_usage add_word
run_ok = refl

-- Both turns are within the cap, and the log ends with the result.
run-bounded_example : (r : RunResult) × (some outcome ≡ some r) × (r.num_turns ≤ 5)
run-bounded_example = run-bounded driver input [] (some outcome) last run_ok

run-finished_example :
    (TerminationReason.success ≡ error_during_execution)
    ⊎ ((id : String) × (last_event none last.log
          ≡ some (turn_finished id TerminationReason.success outcome.usage 0 2)))
run-finished_example = run-finished driver input [] outcome last run_ok

run-IsGuarded_example : IsGuarded last.log
run-IsGuarded_example = run-IsGuarded driver input [] refl

assemble-reference_example :
    assemble json (asking ++ (finished (done_with tool_use) ∷ text_delta "late" ∷ [])) eof
    ≡ answer_of json asking (done_with tool_use)
assemble-reference_example =
    assemble-reference json asking (text_delta "late" ∷ []) (done_with tool_use) eof refl

-- The batch of two calls, and the windows in front of it and behind.
abbrev fed : RunState
fed =
    state_of
      (feed_batch (world (some AskResolution.allowed)) two_calls (scheduled, empty_map) start)

feed_ok :
    feed_batch (world (some AskResolution.allowed)) two_calls (scheduled, empty_map) start
    ≡ done turn_continue fed
unfolding feed_batch
feed_ok = refl

build_window-doubled_example :
    results_in "c1" (build_window (envelopes fed.log) default_options).messages
    ≡ results_in "c1" (build_window (envelopes start.log) default_options).messages
      + 2 * times "c1" two_calls
unfolding feed_batch last_compaction
build_window-doubled_example =
    build_window-doubled (world (some AskResolution.allowed)) two_calls (scheduled, empty_map) start
      fed turn_continue (envelopes start.log) (envelopes fed.log) "c1" feed_ok refl refl refl refl
