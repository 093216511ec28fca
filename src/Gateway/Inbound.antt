-- ===== src/Gateway/Inbound.antt =====
-- internal/modelgateway/adapter/inbound/grpc: the gateway's side (map.go, server.go), and app/service.go behind it.
use harness_ai.Prelude.{String, Bool, true, false, Option, none, some, List, [], ◌∷◌, map}
use harness_ai.Llm.{
  Usage, F64, ProviderRaw, raw_or_nil, Args, Role, user, assistant, tool, unset, ContentPart,
  empty_part, Message, ToolDef, ToolChoice, tool_choice_auto, tool_choice_any, tool_choice_required,
  tool_choice_none, Request, Capabilities, StopReason, Done, StreamEvent, text_delta,
  thinking_delta, tool_call_delta, finished, empty, ErrorKind,
}
use harness_ai.Retry.{CallError, provider, other}
use harness_ai.Gateway.{
  JsonText, ArgsJson, GenRole, role_unspecified, role_user, role_assistant, role_tool,
  GenToolChoice, choice_unspecified, choice_auto, choice_any, choice_required, choice_none,
  choice_tool, GenContentPart, gen_text, gen_image, gen_thinking, gen_tool_call, gen_tool_result,
  GenMessage, GenToolDefinition, GenerationParams, GenStopReason, stop_end, stop_max_tokens,
  stop_tool_use, stop_stop_sequence, stop_content_filter, stop_refusal,
  stop_context_window_exceeded, stop_pause, stop_other, GenUsage, GenDone, GenStreamEvent,
  gen_text_delta, gen_thinking_delta, gen_tool_call_delta, gen_done, GenCapabilities, Code,
  unimplemented, resource_exhausted, unauthenticated, invalid_argument, deadline_exceeded,
  unavailable, internal,
}

-- `toLLMRole`
unfoldable pub to_llm_role : GenRole → Role
to_llm_role role_user = user
to_llm_role role_assistant = assistant
to_llm_role role_tool = tool
to_llm_role role_unspecified = unset

-- `parseArgs`
abbrev pub args_or_nil : Option (Option Args) → Args
args_or_nil (some (some args)) = args
args_or_nil _ = []

unfoldable pub parse_args : ArgsJson → JsonText → Args
parse_args json [] = []
parse_args json (b ∷ bs) = args_or_nil (json.unmarshal (b ∷ bs))

-- `toLLMContentPart`, of a pointer.
unfoldable pub to_llm_content_part : ArgsJson → Option GenContentPart → ContentPart
unfolding parse_args
to_llm_content_part json (some (gen_text t)) = record empty_part { text = some t }
to_llm_content_part json (some (gen_image im)) = record empty_part {
  image = some (record {
    media_type = im.media_type;
    bytes = im.bytes;
    url = im.url;
    file_ref = im.file_ref;
  });
}
to_llm_content_part json (some (gen_thinking th)) = record empty_part {
  thinking = some (record { text = th.text; signature = th.signature });
}
to_llm_content_part json (some (gen_tool_call tc)) = record empty_part {
  tool_call = some (record { id = tc.id; name = tc.name; args = parse_args json tc.args_json });
}
to_llm_content_part json (some (gen_tool_result tr)) = record empty_part {
  tool_result =
      some (record { call_id = tr.call_id; content = tr.content; is_error = tr.is_error });
}
to_llm_content_part json _ = empty_part

-- `toLLMMessage`, of a pointer.
unfoldable pub to_llm_message : ArgsJson → Option GenMessage → Message
unfolding to_llm_role to_llm_content_part
to_llm_message json none = record { role = unset; content = [] }
to_llm_message json (some m) = record {
  role = to_llm_role m.role;
  content = map (to_llm_content_part json) m.content;
}

abbrev pub text_or_nil : JsonText → ProviderRaw
text_or_nil b = raw_or_nil (some b)

-- `toLLMToolDef`, of a pointer.
unfoldable pub to_llm_tool_def : Option GenToolDefinition → ToolDef
to_llm_tool_def none = record { name = ""; description = ""; json_schema = none }
to_llm_tool_def (some td) = record {
  name = td.name;
  description = td.description;
  json_schema = text_or_nil td.json_schema;
}

-- `toLLMToolChoice`
unfoldable pub to_llm_tool_choice : GenToolChoice → String → ToolChoice
to_llm_tool_choice choice_auto name = tool_choice_auto
to_llm_tool_choice choice_any name = tool_choice_any
to_llm_tool_choice choice_required name = tool_choice_required
to_llm_tool_choice choice_none name = tool_choice_none
to_llm_tool_choice choice_tool name = name
to_llm_tool_choice choice_unspecified name = ""

abbrev zero_request : Request
zero_request = record {
  model = "";
  system = "";
  messages = [];
  tools = [];
  tool_choice = "";
  max_tokens = 0;
  temperature = none;
  stream = false;
  provider_raw = none;
  output_schema = none;
  strict = false;
}

-- `toLLMRequest`, of a pointer.
unfoldable pub to_llm_request : ArgsJson → Option GenerationParams → Request
unfolding to_llm_message to_llm_tool_def to_llm_tool_choice
to_llm_request json none = zero_request
to_llm_request json (some p) = record {
  model = p.model;
  system = p.system;
  messages = map (to_llm_message json) p.messages;
  tools = map to_llm_tool_def p.tools;
  tool_choice = to_llm_tool_choice p.tool_choice p.tool_name;
  max_tokens = p.max_tokens;
  temperature = p.temperature;
  stream = p.stream;
  provider_raw = raw_or_nil p.provider_raw;
  output_schema = raw_or_nil p.output_schema;
  strict = p.strict;
}

-- `toGenStopReason`
unfoldable pub to_gen_stop_reason : StopReason → GenStopReason
to_gen_stop_reason StopReason.end = stop_end
to_gen_stop_reason StopReason.max_tokens = stop_max_tokens
to_gen_stop_reason StopReason.tool_use = stop_tool_use
to_gen_stop_reason StopReason.stop_sequence = stop_stop_sequence
to_gen_stop_reason StopReason.content_filter = stop_content_filter
to_gen_stop_reason StopReason.refusal = stop_refusal
to_gen_stop_reason StopReason.context_window_exceeded = stop_context_window_exceeded
to_gen_stop_reason StopReason.pause = stop_pause
to_gen_stop_reason _ = stop_other

-- `toGenUsage`
unfoldable pub to_gen_usage : Usage → GenUsage
to_gen_usage u = record {
  input_tokens = u.input_tokens;
  output_tokens = u.output_tokens;
  cache_read_tokens = u.cache_read_tokens;
  cache_write_tokens = u.cache_write_tokens;
  reasoning_tokens = u.reasoning_tokens;
}

-- `toGenDone`
unfoldable pub to_gen_done : Done → GenDone
unfolding to_gen_stop_reason to_gen_usage
to_gen_done d = record {
  stop_reason = to_gen_stop_reason d.stop_reason;
  raw_stop_reason = d.raw_stop_reason;
  usage = some (to_gen_usage d.usage);
  provider_raw = d.provider_raw;
}

-- `toGenStreamEvent`; `none` is nil.
unfoldable pub to_gen_stream_event : StreamEvent → Option GenStreamEvent
unfolding to_gen_done
to_gen_stream_event (text_delta t) = some (gen_text_delta (some t))
to_gen_stream_event (thinking_delta t s) =
    some (gen_thinking_delta (some (record { text = t; signature = s })))
to_gen_stream_event (tool_call_delta d) = some (
    gen_tool_call_delta (
      some (record {
        call_id = d.call_id;
        name = d.name;
        args_path = d.args_path;
        args_fragment = d.args_fragment;
      })))
to_gen_stream_event (finished d) = some (gen_done (some (to_gen_done d)))
to_gen_stream_event empty = none

-- `toGenCapabilities`
unfoldable pub to_gen_capabilities : Capabilities → GenCapabilities
to_gen_capabilities c = record {
  supports_tools = c.supports_tools;
  supports_parallel_tool_calls = c.supports_parallel_tool_calls;
  supports_streaming_tool_calls = c.supports_streaming_tool_calls;
  supports_vision = c.supports_vision;
  supports_system_prompt = c.supports_system_prompt;
  supports_thinking = c.supports_thinking;
  supports_token_counting = c.supports_token_counting;
  supports_json_schema_strict = c.supports_json_schema_strict;
  supports_server_side_tools = false;
  max_output_tokens = c.max_output_tokens;
}

-- The switch of `statusFromError`.
unfoldable pub code_of_kind : ErrorKind → Code
code_of_kind ErrorKind.unsupported = unimplemented
code_of_kind ErrorKind.rate_limited = resource_exhausted
code_of_kind ErrorKind.auth = unauthenticated
code_of_kind ErrorKind.invalid_request = invalid_argument
code_of_kind ErrorKind.timeout = deadline_exceeded
code_of_kind ErrorKind.server = unavailable
code_of_kind ErrorKind.overloaded = unavailable

-- `statusFromError`, of an error.
unfoldable pub status_from_error : CallError → Code
unfolding code_of_kind
status_from_error (provider e) = code_of_kind e.kind
status_from_error (other text) = internal

-- How the provider's stream ends, and what its opening gives.
pub data ProviderEnd : Type 0 where
  ended : ProviderEnd
  recv_failed : CallError → ProviderEnd

pub data Opening : Type 0 where
  not_opened : CallError → Opening
  opened : List StreamEvent → ProviderEnd → Opening

-- The loop of `Server.Generate`: what is sent, of the events that the reader gives.
abbrev sent : Option GenStreamEvent → List (Option GenStreamEvent) → List (Option GenStreamEvent)
sent none gs = gs
sent (some g) gs = some g ∷ gs

unfoldable pub relay : List StreamEvent → List (Option GenStreamEvent)
unfolding to_gen_stream_event
relay [] = []
relay (e ∷ es) = sent (to_gen_stream_event e) (relay es)

unfoldable pub status_of_end : ProviderEnd → Option Code
unfolding status_from_error
status_of_end ended = none
status_of_end (recv_failed e) = some (status_from_error e)

-- `Server.Generate` on the reader that `Service.Stream` opens: the events that are sent, and the status.
unfoldable pub serve_opening : Opening → List (Option GenStreamEvent) × Option Code
unfolding relay status_of_end status_from_error
serve_opening (not_opened e) = ([], some (status_from_error e))
serve_opening (opened es end) = (relay es, status_of_end end)

unfoldable pub serve_generate :
    ArgsJson
    → (Request → Opening)
    → Option GenerationParams
    → List (Option GenStreamEvent) × Option Code
unfolding serve_opening to_llm_request
serve_generate json provide params = serve_opening (provide (to_llm_request json params))

-- service.go: the report of the cost of a stream, for its first Done.
pub record CostReport : Type 0 where
  pub model : String
  pub usage : Usage
  pub cost : F64
  pub failed : Bool

unfoldable pub compute_report : String → Usage → (String → Usage → Option F64) → CostReport
compute_report model u cost = elim (cost model u) [
  | none ↦ record { model = model; usage = u; cost = 0; failed = true }
  | some c ↦ record { model = model; usage = u; cost = c; failed = false }
]

-- `costingReader.Recv` on the events of a stream: what the sink records.
unfoldable pub reported :
    String → (String → Usage → Option F64) → List StreamEvent → List CostReport
unfolding compute_report
reported model cost [] = []
reported model cost (finished d ∷ es) = compute_report model d.usage cost ∷ []
reported model cost (_ ∷ es) = reported model cost es
