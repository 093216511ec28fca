-- ===== src/Agent/Driver.antt =====
-- turn.go, loop.go: the ports and the settings of a run, the request of a turn, and its stream.
use harness_ai.Prelude.{
  [], ◌∷◌, true, ◌++◌, ℕ, zero, suc, ◌+◌, String, Bool, Option, none, some, List, if◌then◌else◌,
}
use harness_ai.Llm.{
  Request, ToolDef, raw_or_nil, Usage, F64, ProviderRaw, zero_usage, Message, Done, StreamEvent,
}
use harness_ai.Domain.{Event, EventEnvelope, AskResolution}
use harness_ai.Recovery.{SuspendedApproval}
use harness_ai.Context.{Window, default_options}
use harness_ai.Context.Build.{build_window}
use harness_ai.Context.Compaction.{CompactionPlan, Manager, plan_compaction}
use harness_ai.Agent.{HookDecision, RunState, World, Res, done, stopped, and_then, append_event}
use harness_ai.Agent.Assembler.{
  Json, Outcome, needs_continuation, StreamEnd, assembled, broken, assemble,
}

-- The output schema of the configuration: none, one that does not compile, or its check of a text.
pub data Schema : Type 0 where
  free_form invalid : Schema
  compiled : (String → Bool) → Schema

-- What the gate answers to an ask that is raised again on resume: a decision, nothing within the bound (or an
-- error of the gate), or the end of the run's own context.
pub data Reraised : Type 0 where
  resolved : AskResolution → Reraised
  unanswered interrupted : Reraised

-- The ports and the settings of a run: the head of the session, the log as the store returns it, the streams of the model by
-- their number, the minted ids, the context manager and its hook, the definitions
-- of the tools (of the settings, of the runtime, and of the loop), the prices, the caps (0 for the default), and
-- whether the context is cancelled in front of a turn. Costs are floats, which are added and compared by
-- parameters.
pub record Driver : Type 0 where
  pub world : World
  pub json : Json
  pub load_session : Option ℕ
  pub load : List Event → Option (List EventEnvelope)
  pub stream : ℕ → Request → Option (List StreamEvent × StreamEnd)
  pub new_id : ℕ → String
  pub manager : Option Manager
  pub pre_compact : String → Option HookDecision
  pub cancelled : ℕ → Bool
  pub reraise : SuspendedApproval → Reraised
  pub model : String
  pub tool_defs : List ToolDef
  pub advertised : List ToolDef
  pub virtual_defs : List ToolDef
  pub output_schema : ProviderRaw
  pub strict : Bool
  pub schema : Schema
  pub max_structured_retries : ℕ
  pub max_turns : ℕ
  pub has_budget : Bool
  pub over_budget : F64 → Bool
  pub cost_func : Option (Usage → Option F64)
  pub add_cost : F64 → F64 → F64

-- `computeCost`: an unknown price is 0.
unfoldable pub compute_cost : Driver → Usage → F64
compute_cost d u = elim d.cost_func [ none ↦ 0 | some f ↦ elim (f u) [ none ↦ 0 | some c ↦ c ] ]

-- `priceTurnUsage`: with a budget an unknown price is an error.
unfoldable pub price_turn_usage : Driver → Usage → Option F64
price_turn_usage d u = elim d.cost_func [
  | none ↦ some 0
  | some f ↦ elim (f u) [ none ↦ if d.has_budget then none else some 0 | some c ↦ some c ]
]

abbrev pub load_log : Driver → RunState → Res (List EventEnvelope)
load_log d st = elim (d.load st.log) [ none ↦ stopped st | some events ↦ done events st ]

-- Behind a plan that asks for a boundary: the hook may veto it.
unfoldable pub compact_with :
    Driver → CompactionPlan → List EventEnvelope → RunState → Res (List EventEnvelope)
unfolding append_event
compact_with d plan events st = elim (d.pre_compact st.current_turn_id) [
  | none ↦ done events st
  | some dec ↦ elim plan.event [
    | none ↦ done events st
    | some ev ↦
        if dec.allow
        then and_then (append_event d.world st ev) (λ _ st. load_log d st)
        else done events st
  ]
]

-- `maybeCompact`, with the test of `buildRequest` for a context manager.
unfoldable pub maybe_compact : Driver → List EventEnvelope → RunState → Res (List EventEnvelope)
unfolding plan_compaction compact_with
maybe_compact d events st = elim d.manager [
  | none ↦ done events st
  | some m ↦ elim (plan_compaction m events) [
    | none ↦ done events st
    | some plan ↦ if plan.should_compact then compact_with d plan events st else done events st
  ]
]

-- The definitions of the settings, or those that the runtime advertises, with those of the tools inside the loop.
abbrev pub tools_of : Driver → List ToolDef
tools_of d = elim d.tool_defs [
  | [] ↦ d.advertised ++ d.virtual_defs
  | t ∷ ts ↦ (t ∷ ts) ++ d.virtual_defs
]

unfoldable pub request_for : Driver → Window → Request
request_for d win = record {
  model = d.model;
  system = win.system;
  messages = win.messages;
  tools = tools_of d;
  tool_choice = "";
  max_tokens = 0;
  temperature = none;
  stream = true;
  provider_raw = none;
  output_schema = raw_or_nil d.output_schema;
  strict = d.strict;
}

-- `buildRequest`
unfoldable pub build_request : Driver → RunState → Res Request
unfolding maybe_compact build_window request_for
build_request d st = and_then (load_log d st) (λ events st.
    and_then (maybe_compact d events st)
      (λ events st. done (request_for d (build_window events default_options)) st))

-- What a stream with its continuations gives: the assembled generation, or the usage that is known of
-- one that failed.
pub data Streamed : Type 0 where
  streamed : Message → Outcome → Done → Streamed
  stream_failed : (partial_usage : Usage) → Streamed

abbrev usage_of : Option Done → Usage
usage_of none = zero_usage
usage_of (some d) = d.usage

abbrev pub with_opened : RunState → RunState
with_opened st = record st { opened = st.opened + 1 }

-- The loop of `streamWithContinuations` on the continuations that are left.
unfoldable pub stream_with_continuations : Driver → ℕ → Request → RunState → Streamed × RunState
unfolding assemble
stream_with_continuations d zero req st = (stream_failed zero_usage, st)
stream_with_continuations d (suc n) req st = elim (d.stream st.opened req) [
  | none ↦ (stream_failed zero_usage, with_opened st)
  | some (events, end) ↦ elim (assemble d.json events end) [
    | broken _ _ dn ↦ (stream_failed (usage_of dn), with_opened st)
    | assembled m o dn ↦ elim o [
      | needs_continuation ↦
          stream_with_continuations d n (record req { provider_raw = dn.provider_raw })
            (with_opened st)
      | other ↦ (streamed m other dn, with_opened st)
    ]
  ]
]

abbrev pub max_pause_continuations : ℕ
max_pause_continuations = 16
