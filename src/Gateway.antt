-- ===== src/Gateway.antt =====
-- proto/boltrope/v1: the messages between the orchestrator and the model gateway, and the JSON of a call's arguments.
pub mod Outbound
pub mod Inbound
pub mod Relay
pub mod RoundTrip
pub mod Builtin
pub mod Registry
mod Examples
use harness_ai.Prelude.{ℕ, String, Bool, Option, List}
use harness_ai.Llm.{Word, F64, ProviderRaw, Args}

-- A Go string that holds JSON, as its bytes.
abbrev pub JsonText : Type 0
JsonText = List ℕ

-- encoding/json on a `map[string]any`: the bytes, or an error; and back, where the inner `none` is `null`.
pub record ArgsJson : Type 0 where
  pub marshal : Args → Option JsonText
  pub unmarshal : JsonText → Option (Option Args)

-- common.proto
pub data GenRole : Type 0 where
  role_unspecified role_user role_assistant role_tool : GenRole

pub data GenStopReason : Type 0 where
  stop_unspecified stop_end stop_max_tokens stop_tool_use stop_stop_sequence : GenStopReason
  stop_content_filter stop_refusal stop_context_window_exceeded stop_pause stop_other :
      GenStopReason

pub data GenToolChoice : Type 0 where
  choice_unspecified choice_auto choice_any choice_required choice_none choice_tool : GenToolChoice

pub record GenUsage : Type 0 where
  pub input_tokens : Word
  pub output_tokens : Word
  pub cache_read_tokens : Word
  pub cache_write_tokens : Word
  pub reasoning_tokens : Word

pub record GenThinking : Type 0 where
  pub text : String
  pub signature : String

pub record GenImage : Type 0 where
  pub media_type : String
  pub bytes : List ℕ
  pub url : String
  pub file_ref : String

pub record GenToolCall : Type 0 where
  pub id : String
  pub name : String
  pub args_json : JsonText

pub record GenToolResult : Type 0 where
  pub call_id : String
  pub content : String
  pub is_error : Bool

-- The `oneof` of a content part, which may be unset.
pub data GenContentPart : Type 0 where
  gen_text : String → GenContentPart
  gen_image : GenImage → GenContentPart
  gen_thinking : GenThinking → GenContentPart
  gen_tool_call : GenToolCall → GenContentPart
  gen_tool_result : GenToolResult → GenContentPart
  gen_unset : GenContentPart

-- A repeated message is a slice of pointers, which may be nil.
pub record GenMessage : Type 0 where
  pub role : GenRole
  pub content : List (Option GenContentPart)

pub record GenToolDefinition : Type 0 where
  pub name : String
  pub description : String
  pub json_schema : JsonText

-- model_gateway.proto
pub record GenerationParams : Type 0 where
  pub model : String
  pub system : String
  pub messages : List (Option GenMessage)
  pub tools : List (Option GenToolDefinition)
  pub tool_choice : GenToolChoice
  pub tool_name : String
  pub max_tokens : Word
  pub temperature : Option F64
  pub stream : Bool
  pub provider_raw : ProviderRaw
  pub output_schema : ProviderRaw
  pub strict : Bool

pub record GenToolCallDelta : Type 0 where
  pub call_id : String
  pub name : String
  pub args_path : String
  pub args_fragment : ProviderRaw

pub record GenDone : Type 0 where
  pub stop_reason : GenStopReason
  pub raw_stop_reason : String
  pub usage : Option GenUsage
  pub provider_raw : ProviderRaw

-- The `oneof` of a stream event, whose messages are pointers.
pub data GenStreamEvent : Type 0 where
  gen_text_delta : Option String → GenStreamEvent
  gen_thinking_delta : Option GenThinking → GenStreamEvent
  gen_tool_call_delta : Option GenToolCallDelta → GenStreamEvent
  gen_done : Option GenDone → GenStreamEvent
  gen_no_event : GenStreamEvent

pub record GenCapabilities : Type 0 where
  pub supports_tools : Bool
  pub supports_parallel_tool_calls : Bool
  pub supports_streaming_tool_calls : Bool
  pub supports_vision : Bool
  pub supports_system_prompt : Bool
  pub supports_thinking : Bool
  pub supports_token_counting : Bool
  pub supports_json_schema_strict : Bool
  pub supports_server_side_tools : Bool
  pub max_output_tokens : Word

-- google.golang.org/grpc/codes, as far as the two sides name them.
pub data Code : Type 0 where
  unimplemented resource_exhausted unauthenticated permission_denied invalid_argument : Code
  failed_precondition deadline_exceeded unavailable internal other_code : Code
