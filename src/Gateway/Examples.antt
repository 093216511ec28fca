-- ===== src/Gateway/Examples.antt =====
-- Tests of the model gateway, and the theorems at a request with a call and its result.
use harness_ai.Prelude.{◌≡◌, refl, true, false, none, some, List, [], ◌∷◌, empty_map}
use harness_ai.Llm.{
  Role, ContentPart, empty_part, Request, StopReason, zero_usage, StreamEvent, text_delta,
  thinking_delta, finished, empty, ErrorKind, ProviderError, retryable,
}
use harness_ai.Retry.{provider}
use harness_ai.Context.{text_message}
use harness_ai.Agent.Assembler.{Json, assemble, eof}
use harness_ai.Gateway.{ArgsJson}
use harness_ai.Gateway.Outbound.{no_capabilities, to_generation_params, read_failed}
use harness_ai.Gateway.Inbound.{Opening, opened, ended, recv_failed, to_llm_request}
use harness_ai.Gateway.RoundTrip.{
  IsSendable, text_part, call_part, to_llm_request-to_generation_params,
}
use harness_ai.Gateway.Relay.{
  remote_stream, end_of_read, in_stream, assemble-remote_stream, remote_stream-failed,
}
use harness_ai.Gateway.Registry.{EndpointOverride, resolve_capabilities}

-- The object without entries, `{}`.
abbrev args_json : ArgsJson
args_json = record { marshal = λ args. some (0x7B ∷ 0x7D ∷ []); unmarshal = λ text. some (some []) }

abbrev asked : ContentPart
asked = record empty_part { tool_call = some (record { id = "c1"; name = "read"; args = [] }) }

abbrev request : Request
request = record {
  model = "m";
  system = "prompt";
  messages = text_message "hi" ∷ record { role = Role.assistant; content = asked ∷ [] } ∷ [];
  tools =
      record { name = "read"; description = "reads"; json_schema = some (0x7B ∷ 0x7D ∷ []) } ∷ [];
  tool_choice = "read";
  max_tokens = 0;
  temperature = none;
  stream = true;
  provider_raw = none;
  output_schema = none;
  strict = false;
}

request-IsSendable : IsSendable args_json request
request-IsSendable = record {
  messages = (
    (text_part "hi", tt),
    (
      (call_part (record { id = "c1"; name = "read"; args = [] }) 0x7B (0x7D ∷ []) refl refl, tt),
      tt,
    ),
  );
  tools = (refl, tt);
  provider_raw = refl;
  output_schema = refl;
}

to_llm_request-to_generation_params_example :
    to_llm_request args_json (some (to_generation_params args_json request)) ≡ request
to_llm_request-to_generation_params_example =
    to_llm_request-to_generation_params args_json request request-IsSendable

-- A provider that answers with an empty event among its deltas.
abbrev answer : List StreamEvent
answer =
    thinking_delta "hm" "s"
    ∷ empty
    ∷ text_delta "hello"
    ∷ finished (record {
      stop_reason = StopReason.end;
      raw_stop_reason = "end_turn";
      usage = zero_usage;
      provider_raw = none;
    })
    ∷ []

abbrev answering : Request → Opening
answering req = opened answer ended

abbrev json : Json
json = record { marshal = λ kvs. some []; unmarshal = λ bytes. some (some []) }

assemble-remote_stream_example :
    assemble json
      (remote_stream args_json answering request).events
      (end_of_read (remote_stream args_json answering request).end)
    ≡ assemble json answer eof
assemble-remote_stream_example =
    assemble-remote_stream args_json json answering request answer ended request-IsSendable refl

-- A provider that breaks off.
abbrev overload : ProviderError
overload = record { kind = ErrorKind.overloaded; retry_after = 5 }

abbrev breaking : Request → Opening
breaking req = opened (text_delta "hel" ∷ []) (recv_failed (provider overload))

remote_stream-failed_example :
    (seen : ProviderError) × ((remote_stream args_json breaking request).end ≡ read_failed seen)
    × (retryable seen ≡ retryable overload)
remote_stream-failed_example =
    remote_stream-failed args_json breaking request (breaking request) overload request-IsSendable
      refl (in_stream (text_delta "hel" ∷ []) refl)

-- The table, and an endpoint that turns a model's tools off.
abbrev local : EndpointOverride
local = record { all_models = some no_capabilities; per_model = empty_map }

known_model :
    (resolve_capabilities empty_map "anthropic" "claude-opus-4-0").max_output_tokens ≡ 32000
unfolding resolve_capabilities
known_model = refl
