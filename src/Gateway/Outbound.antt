-- ===== src/Gateway/Outbound.antt =====
-- internal/orchestrator/adapter/outbound/modelgw: the orchestrator's side of the model gateway (request.go, normalize.go, adapter.go).
use harness_ai.Prelude.{
  String, Bool, true, false, Option, none, some, List, [], ◌∷◌, map, str_eq, if◌then◌else◌,
}
use harness_ai.Llm.{
  Usage, zero_usage, ProviderRaw, Role, user, assistant, tool, unset, ImagePart, ThinkingPart,
  ContentPart, ToolCall, ToolResult, Message, ToolDef, ToolChoice, tool_choice_auto,
  tool_choice_any, tool_choice_required, tool_choice_none, Request, Capabilities, StopReason, Done,
  StreamEvent, text_delta, thinking_delta, tool_call_delta, finished, empty, ErrorKind,
  ProviderError,
}
use harness_ai.Gateway.{
  JsonText, ArgsJson, GenRole, role_unspecified, role_user, role_assistant, role_tool,
  GenToolChoice, choice_unspecified, choice_auto, choice_any, choice_required, choice_none,
  choice_tool, GenContentPart, gen_text, gen_image, gen_thinking, gen_tool_call, gen_tool_result,
  GenMessage, GenToolDefinition, GenerationParams, GenStopReason, stop_end, stop_max_tokens,
  stop_tool_use, stop_stop_sequence, stop_content_filter, stop_refusal,
  stop_context_window_exceeded, stop_pause, GenUsage, GenDone, GenStreamEvent, gen_text_delta,
  gen_thinking_delta, gen_tool_call_delta, gen_done, GenCapabilities, Code, unimplemented,
  resource_exhausted, unauthenticated, permission_denied, invalid_argument, failed_precondition,
  deadline_exceeded,
}

-- `toRole`
unfoldable pub to_role : Role → GenRole
to_role user = role_user
to_role assistant = role_assistant
to_role tool = role_tool
to_role unset = role_unspecified

abbrev pub bytes_of : Option JsonText → JsonText
bytes_of none = []
bytes_of (some b) = b

abbrev pub raw_text : ProviderRaw → JsonText
raw_text none = []
raw_text (some b) = b

-- The switch of `toContentPart`: the first field that is set.
unfoldable pub first_part :
    ArgsJson
    → Option String
    → Option ThinkingPart
    → Option ImagePart
    → Option ToolCall
    → Option ToolResult
    → GenContentPart
first_part json (some t) th im tc tr = gen_text t
first_part json none (some th) im tc tr =
    gen_thinking (record { text = th.text; signature = th.signature })
first_part json none none (some im) tc tr =
    gen_image (record {
      media_type = im.media_type;
      bytes = im.bytes;
      url = im.url;
      file_ref = im.file_ref;
    })
first_part json none none none (some tc) tr =
    gen_tool_call
      (record { id = tc.id; name = tc.name; args_json = bytes_of (json.marshal tc.args) })
first_part json none none none none (some tr) =
    gen_tool_result (record { call_id = tr.call_id; content = tr.content; is_error = tr.is_error })
first_part json none none none none none = gen_text ""

-- `toContentPart`
unfoldable pub to_content_part : ArgsJson → ContentPart → GenContentPart
unfolding first_part
to_content_part json cp = first_part json cp.text cp.thinking cp.image cp.tool_call cp.tool_result

-- `toMessage`
unfoldable pub to_message : ArgsJson → Message → GenMessage
unfolding to_role to_content_part
to_message json m = record {
  role = to_role m.role;
  content = map (λ cp. some (to_content_part json cp)) m.content;
}

-- `toToolDefinition`
unfoldable pub to_tool_definition : ToolDef → GenToolDefinition
to_tool_definition td = record {
  name = td.name;
  description = td.description;
  json_schema = raw_text td.json_schema;
}

-- `toToolChoice`
unfoldable pub to_tool_choice : ToolChoice → GenToolChoice × String
to_tool_choice tc =
    if str_eq tc tool_choice_auto
    then (choice_auto, "")
    else if str_eq tc tool_choice_any
    then (choice_any, "")
    else if str_eq tc tool_choice_required
    then (choice_required, "")
    else if str_eq tc tool_choice_none
    then (choice_none, "")
    else if str_eq tc ""
    then (choice_unspecified, "")
    else (choice_tool, tc)

-- `toGenerationParams`
unfoldable pub to_generation_params : ArgsJson → Request → GenerationParams
unfolding to_message to_tool_definition to_tool_choice
to_generation_params json req = record {
  model = req.model;
  system = req.system;
  messages = map (λ m. some (to_message json m)) req.messages;
  tools = map (λ td. some (to_tool_definition td)) req.tools;
  tool_choice = (to_tool_choice req.tool_choice).0;
  tool_name = (to_tool_choice req.tool_choice).1;
  max_tokens = req.max_tokens;
  temperature = req.temperature;
  stream = req.stream;
  provider_raw = req.provider_raw;
  output_schema = req.output_schema;
  strict = req.strict;
}

-- `normalizeStopReason`
unfoldable pub normalize_stop_reason : GenStopReason → StopReason
normalize_stop_reason stop_end = StopReason.end
normalize_stop_reason stop_max_tokens = StopReason.max_tokens
normalize_stop_reason stop_tool_use = StopReason.tool_use
normalize_stop_reason stop_stop_sequence = StopReason.stop_sequence
normalize_stop_reason stop_content_filter = StopReason.content_filter
normalize_stop_reason stop_refusal = StopReason.refusal
normalize_stop_reason stop_context_window_exceeded = StopReason.context_window_exceeded
normalize_stop_reason stop_pause = StopReason.pause
normalize_stop_reason _ = StopReason.other_reason

-- `normalizeUsage`
unfoldable pub normalize_usage : Option GenUsage → Usage
normalize_usage none = zero_usage
normalize_usage (some u) = record {
  input_tokens = u.input_tokens;
  output_tokens = u.output_tokens;
  cache_read_tokens = u.cache_read_tokens;
  cache_write_tokens = u.cache_write_tokens;
  reasoning_tokens = u.reasoning_tokens;
}

-- `normalizeDone`, of a message that is there.
unfoldable pub normalize_done : GenDone → Done
unfolding normalize_stop_reason normalize_usage
normalize_done d = record {
  stop_reason = normalize_stop_reason d.stop_reason;
  raw_stop_reason = d.raw_stop_reason;
  usage = normalize_usage d.usage;
  provider_raw = d.provider_raw;
}

-- `normalizeEvent`, of a pointer.
unfoldable pub normalize_event : Option GenStreamEvent → StreamEvent
unfolding normalize_done
normalize_event (some (gen_text_delta (some t))) = text_delta t
normalize_event (some (gen_thinking_delta (some th))) = thinking_delta th.text th.signature
normalize_event (some (gen_tool_call_delta (some d))) = tool_call_delta (record {
  call_id = d.call_id;
  name = d.name;
  args_path = d.args_path;
  args_fragment = d.args_fragment;
})
normalize_event (some (gen_done (some d))) = finished (normalize_done d)
normalize_event _ = empty

-- `normalizeCapabilities`
abbrev pub no_capabilities : Capabilities
no_capabilities = record {
  supports_tools = false;
  supports_parallel_tool_calls = false;
  supports_streaming_tool_calls = false;
  supports_vision = false;
  supports_system_prompt = false;
  supports_thinking = false;
  supports_token_counting = false;
  supports_json_schema_strict = false;
  max_output_tokens = 0;
}

unfoldable pub normalize_capabilities : Option GenCapabilities → Capabilities
normalize_capabilities none = no_capabilities
normalize_capabilities (some c) = record {
  supports_tools = c.supports_tools;
  supports_parallel_tool_calls = c.supports_parallel_tool_calls;
  supports_streaming_tool_calls = c.supports_streaming_tool_calls;
  supports_vision = c.supports_vision;
  supports_system_prompt = c.supports_system_prompt;
  supports_thinking = c.supports_thinking;
  supports_token_counting = c.supports_token_counting;
  supports_json_schema_strict = c.supports_json_schema_strict;
  max_output_tokens = c.max_output_tokens;
}

-- The kind of a code.
unfoldable pub kind_of_code : Code → ErrorKind
kind_of_code resource_exhausted = ErrorKind.rate_limited
kind_of_code unauthenticated = ErrorKind.auth
kind_of_code permission_denied = ErrorKind.auth
kind_of_code invalid_argument = ErrorKind.invalid_request
kind_of_code failed_precondition = ErrorKind.invalid_request
kind_of_code unimplemented = ErrorKind.unsupported
kind_of_code deadline_exceeded = ErrorKind.timeout
kind_of_code _ = ErrorKind.server

-- `mapGRPCError`, of an error; `none` is one that has no status.
unfoldable pub map_grpc_error : Option Code → ProviderError
unfolding kind_of_code
map_grpc_error none = record { kind = ErrorKind.server; retry_after = 0 }
map_grpc_error (some c) = record { kind = kind_of_code c; retry_after = 0 }

-- What the orchestrator's reader gives until its end.
pub data ReadEnd : Type 0 where
  read_eof : ReadEnd
  read_failed : ProviderError → ReadEnd

pub record Read : Type 0 where
  pub events : List StreamEvent
  pub end : ReadEnd

abbrev pub cons_read : StreamEvent → Read → Read
cons_read e r = record r { events = e ∷ r.events }

abbrev is_done : StreamEvent → Bool
is_done (finished d) = true
is_done _ = false

-- `streamReader.Recv` called until it ends: behind a Done it is at its end.
unfoldable pub read_stream : List (Option GenStreamEvent) → Option Code → Read
unfolding normalize_event map_grpc_error
read_stream [] none = record { events = []; end = read_eof }
read_stream [] (some c) = record { events = []; end = read_failed (map_grpc_error (some c)) }
read_stream (g ∷ gs) end =
    if is_done (normalize_event g)
    then record { events = normalize_event g ∷ []; end = read_eof }
    else cons_read (normalize_event g) (read_stream gs end)
