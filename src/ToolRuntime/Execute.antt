-- ===== src/ToolRuntime/Execute.antt =====
-- app/execute/service.go: one tool call, from its resolution to its record.
use Prim.Native.String.{◌++◌ as ◌<>◌}
use harness_ai.Prelude.{
  ℕ, String, Bool, true, false, Option, none, some, List, [], ◌∷◌, length, leb, str_eq,
  if◌then◌else◌,
}
use harness_ai.Prelude.Bytes.{bytes}
use harness_ai.Prelude.Text.{trim_space}
use harness_ai.Llm.{Args}
use harness_ai.Domain.{EgressClass}
use harness_ai.Policy.Match.{string_arg}
use harness_ai.ToolRuntime.{
  Observation, ExecutionStatus, started, completed, failed, ExecutionRecord, Ledger, Ran, ran,
  crashed, Tool, Resolved, found, not_found, broken, answer, failure, Request, World,
}
use harness_ai.ToolRuntime.Ledger.{begin, complete}

-- `errResult`
abbrev pub err_result : String → Observation
err_result text = record { content = text; is_error = true; truncated = false; blob_ref = "" }

abbrev pub empty_observation : Observation
empty_observation = record { content = ""; is_error = false; truncated = false; blob_ref = "" }

-- What a call leaves: the observation and the blob size (`none` for an error of the
-- infrastructure), the ledger, and whether the tool was run.
pub record Executed : Type 0 where
  pub result : Option (Observation × ℕ)
  pub ledger : Ledger
  pub was_run : Bool

abbrev pub record_of : Request → ExecutionRecord
record_of req = record {
  tenant_id = req.tenant_id;
  session_id = req.session_id;
  idempotency_key = req.idempotency_key;
  status = started;
  result = empty_observation;
}

-- `recordTerminal`
unfoldable pub record_terminal : World → Request → Observation → ExecutionStatus → Ledger → Ledger
unfolding complete
record_terminal w req obs status ledger =
    complete w (record (record_of req) { status = status; result = obs }) ledger

-- The first of the url fields with a host.
unfoldable pub host_from_urls : World → List String → Args → Option String
unfolding string_arg trim_space
host_from_urls w [] args = none
host_from_urls w (key ∷ keys) args =
    let rest = host_from_urls w keys args in
    elim (string_arg args key) [
      | none ↦ rest
      | some raw ↦ elim (w.url_hostname (trim_space raw)) [
        | none ↦ rest
        | some host ↦ if str_eq host "" then rest else some host
      ]
    ]

abbrev url_keys : List String
url_keys = "url" ∷ "endpoint" ∷ "uri" ∷ []

-- `hostFromArgs`
unfoldable pub host_from_args : World → Args → Option String
unfolding string_arg host_from_urls
host_from_args w args = elim (string_arg args "host") [
  | none ↦ host_from_urls w url_keys args
  | some h ↦ if str_eq h "" then host_from_urls w url_keys args else some h
]

-- `egressTarget`
unfoldable pub egress_target : World → Tool → Args → Option String
unfolding host_from_args
egress_target w tool args = elim tool.target [ some f ↦ f args | none ↦ host_from_args w args ]

abbrev denied_host : World → Tool → String → String
denied_host w tool host =
    "tool "
    <> (w.quote tool.name
        <> (": egress denied: host " <> (w.quote host <> " is not on the session allowlist")))

-- `egressGate`: the observation that blocks the call, if it is blocked.
unfoldable pub egress_gate : World → Request → Tool → Option Observation
unfolding egress_target
egress_gate w req tool = elim (egress_target w tool req.args) [
  | none ↦ some (
      err_result
        ("tool " <> (w.quote tool.name <> ": egress denied: cannot determine target host")))
  | some host ↦ elim (w.allow req.session_id host) [
    | failure text ↦ some (
        err_result (
          "tool "
          <> (w.quote tool.name
              <> (": egress denied for host " <> (w.quote host <> (": " <> text))))))
    | answer is_allowed ↦ if is_allowed then none else some (err_result (denied_host w tool host))
  ]
]

-- `descriptor`
unfoldable pub descriptor : World → String → String
descriptor w full =
    w.head_bytes w.threshold full
    <> ("\n…[output truncated: "
        <> (w.decimal (length (bytes full))
            <> " bytes total, full content offloaded to blob store]"))

-- `offload`; `none` where the blob store fails.
unfoldable pub offload : World → Request → Observation → Option (Observation × ℕ)
unfolding descriptor
offload w req obs =
    if leb (length (bytes obs.content)) w.threshold
    then some (obs, 0)
    else elim (w.put_blob req.tenant_id (w.sha_hex obs.content) obs.content) [
      | none ↦ none
      | some size ↦ some (
        record obs {
          content = descriptor w obs.content;
          truncated = true;
          blob_ref = w.sha_hex obs.content;
        },
        size,
      )
    ]

abbrev pub status_of : Observation → ExecutionStatus
status_of obs = if obs.is_error then failed else completed

abbrev pub masked : World → Observation → Observation
masked w obs = record obs { content = w.mask obs.content }

abbrev pub failed_observation : World → Tool → String → Observation
failed_observation w tool text =
    err_result ("tool " <> (w.quote tool.name <> (" failed: " <> text)))

-- Behind the offload: the terminal record.
unfoldable pub offloaded : World → Request → Ledger → Option (Observation × ℕ) → Executed
unfolding record_terminal
offloaded w req ledger none = record { result = none; ledger = ledger; was_run = true }
offloaded w req ledger (some (out, size)) = record {
  result = some (out, size);
  ledger = record_terminal w req out (status_of out) ledger;
  was_run = true;
}

-- Behind the run of the tool: the mask, the offload and the terminal record.
unfoldable pub finish_run : World → Request → Tool → Ran → Ledger → Executed
unfolding record_terminal offload offloaded
finish_run w req tool (crashed text) ledger = record {
  result = some (failed_observation w tool text, 0);
  ledger = record_terminal w req (failed_observation w tool text) failed ledger;
  was_run = true;
}
finish_run w req tool (ran obs) ledger = offloaded w req ledger (offload w req (masked w obs))

unfoldable pub run_stage : World → Request → Tool → Ledger → Executed
unfolding finish_run
run_stage w req tool ledger =
    if w.progress_ok
    then finish_run w req tool (tool.run req.session_id req.args) ledger
    else record { result = none; ledger = ledger; was_run = false }

abbrev pub is_external_class : EgressClass → Bool
is_external_class EgressClass.external = true
is_external_class _ = false

unfoldable pub gate_stage : World → Request → Tool → Ledger → Executed
unfolding egress_gate record_terminal run_stage
gate_stage w req tool ledger =
    if is_external_class tool.egress_class
    then elim (egress_gate w req tool) [
      | some obs ↦ record {
        result = some (obs, 0);
        ledger = record_terminal w req obs failed ledger;
        was_run = false;
      }
      | none ↦ run_stage w req tool ledger
    ]
    else run_stage w req tool ledger

abbrev pub is_completed : ExecutionStatus → Bool
is_completed completed = true
is_completed _ = false

-- Behind `Begin`, with the record and the ledger that it returns.
unfoldable pub begun_stage :
    World → Request → Tool → Ledger → Option (ExecutionRecord × Ledger) → Executed
unfolding gate_stage
begun_stage w req tool ledger none = record { result = none; ledger = ledger; was_run = false }
begun_stage w req tool ledger (some (existing, begun)) =
    if is_completed existing.status
    then record { result = some (existing.result, 0); ledger = begun; was_run = false }
    else gate_stage w req tool begun

unfoldable pub dedup_stage : World → Request → Tool → Ledger → Executed
unfolding begin begun_stage
dedup_stage w req tool ledger = begun_stage w req tool ledger (begin w (record_of req) ledger)

-- On the answer of the registry.
unfoldable pub on_resolved : World → Request → Ledger → Resolved → Executed
unfolding dedup_stage
on_resolved w req ledger not_found = record {
  result = some (err_result ("unknown tool " <> w.quote req.tool_name), 0);
  ledger = ledger;
  was_run = false;
}
on_resolved w req ledger broken = record { result = none; ledger = ledger; was_run = false }
on_resolved w req ledger (found tool) = dedup_stage w req tool ledger

-- `Execute`
unfoldable pub execute : World → Request → Ledger → Executed
unfolding on_resolved
execute w req ledger = on_resolved w req ledger (w.registry req.tool_name)
