-- ===== src/ToolRuntime/Examples.antt =====
-- Tests of the execution service, and the theorems at a search that is executed twice.
use harness_ai.Prelude.{
  List, ◌≡◌, ◌↔◌, refl, String, true, false, none, some, [], ◌∷◌, str_eq, if◌then◌else◌,
}
use harness_ai.Prelude.Bytes.{bytes}
use harness_ai.Llm.{ArgValue}
use harness_ai.Domain.{EgressClass}
use harness_ai.ToolRuntime.{
  Observation, Ledger, ran, Tool, found, not_found, Request, World, answer,
}
use harness_ai.ToolRuntime.Execute.{egress_gate, execute, Executed}
use harness_ai.ToolRuntime.Once.{execute-replay, run_requests}
use harness_ai.ToolRuntime.Egress.{execute-Keeps}
use harness_ai.ToolRuntime.Broker.{Broker, new_broker, answers_of, match_entry}
use harness_ai.ToolRuntime.Listed.{IsListed, execute-IsListed}

abbrev observed : String → Observation
observed text = record { content = text; is_error = false; truncated = false; blob_ref = "" }

-- A tool of the web, which answers with its query.
abbrev fetch : Tool
fetch = record {
  name = "fetch";
  egress_class = EgressClass.external;
  target = none;
  run = λ session args. ran (observed "page");
}

-- A tool that writes a file.
abbrev write : Tool
write = record {
  name = "write";
  egress_class = EgressClass.none;
  target = none;
  run = λ session args. ran (observed "written");
}

abbrev world : World
world = record {
  registry = λ n.
      if str_eq n "fetch" then found fetch else if str_eq n "write" then found write else not_found;
  allow = λ session host. answer (str_eq host "go.dev");
  progress_ok = true;
  begin_up = true;
  complete_up = true;
  mask = λ s. s;
  put_blob = λ t k c. some 0;
  threshold = 100;
  sha_hex = λ s. s;
  head_bytes = λ n s. s;
  decimal = λ n. "1";
  quote = λ s. s;
  url_hostname = λ s. none;
}

abbrev request : String → String → Request
request tool host = record {
  tenant_id = "t";
  session_id = "s";
  call_id = "c";
  tool_name = tool;
  args = ("host", ArgValue.str host) ∷ [];
  idempotency_key = "k";
}

abbrev no_rows : Ledger
no_rows t s k = none

abbrev first : Executed
first = execute world (request "fetch" "go.dev") no_rows

first_result : first.result ≡ some (observed "page", 0)
unfolding execute bytes
first_result = refl

-- A host that the broker does not allow: no run, and a failed record.
blocked_run : (execute world (request "fetch" "evil.dev") no_rows).was_run ≡ false
unfolding execute
blocked_run = refl

abbrev between : List (World × Request)
between = (world, request "write" "go.dev") ∷ (world, request "fetch" "evil.dev") ∷ []

-- Another tool under the key of the first is answered with the page, and nothing is written.
execute-replay_example :
    execute world (request "write" "go.dev") (run_requests between first.ledger) ≡ record {
      result = some (observed "page", 0);
      ledger = run_requests between first.ledger;
      was_run = false;
    }
execute-replay_example =
    execute-replay world world (request "fetch" "go.dev") (request "write" "go.dev") between no_rows
      (observed "page") 0 write refl refl first_result refl refl refl refl refl refl

execute-Keeps_example :
    (execute world (request "fetch" "go.dev") no_rows).ledger "t" "s" "k2" ≡ none
execute-Keeps_example = execute-Keeps world (request "fetch" "go.dev") "t" "s" "k2" refl no_rows

-- The world whose broker answers for a list with a wildcard.
abbrev broker : Broker
broker = new_broker ("*.go.dev" ∷ [])

abbrev guarded : World
guarded = record world { allow = answers_of broker }

host_fetched : (execute guarded (request "fetch" "pkg.go.dev") no_rows).was_run ≡ true
unfolding execute bytes answers_of
host_fetched = refl

host_denied : (execute guarded (request "fetch" "a.pkg.go.dev") no_rows).was_run ≡ false
unfolding execute bytes answers_of
host_denied = refl

-- A wildcard takes the host whose label is empty.
empty_label : match_entry ".example.com" "*.example.com" ≡ true
unfolding match_entry
empty_label = refl

execute-IsListed_example :
    ((egress_gate guarded (request "fetch" "pkg.go.dev") fetch ≡ none)
      ↔ IsListed broker guarded (request "fetch" "pkg.go.dev") fetch)
    × ((execute guarded (request "fetch" "pkg.go.dev") no_rows).was_run ≡ true
        → IsListed broker guarded (request "fetch" "pkg.go.dev") fetch)
execute-IsListed_example =
    execute-IsListed broker guarded (request "fetch" "pkg.go.dev") no_rows fetch refl refl refl

-- A tool that declares no target, and ignores its arguments, passes by a host that only its arguments name.
abbrev remote : Tool
remote = record fetch { name = "remote"; run = λ session args. ran (observed "elsewhere") }

guess_passes : egress_gate guarded (request "remote" "pkg.go.dev") remote ≡ none
unfolding egress_gate bytes answers_of
guess_passes = refl
