-- ===== src/Llm.antt =====
-- The provider-agnostic model types of internal/platform/llm: usage, messages, tool calls, the
-- normalised stop reasons and provider errors.
use harness_ai.Prelude.{ℕ, ◌+◌, ◌%◌, ◌^◌, String, Bool, true, false, Option, List, none, some, ◌∷◌}

-- A Go `int` or `int64`, as its 64-bit pattern.
abbrev pub Word : Type 0
Word = ℕ

unfoldable pub add_word : Word → Word → Word
add_word a b = (a + b) % 2 ^ 64

-- A `float64`, as its bit pattern: the model moves it and computes with it by parameters only.
abbrev pub F64 : Type 0
F64 = ℕ

-- An opaque `json.RawMessage`; `none` is the nil slice.
abbrev pub ProviderRaw : Type 0
ProviderRaw = Option (List ℕ)

-- A slice without elements, as the nil slice.
abbrev pub raw_or_nil : ProviderRaw → ProviderRaw
raw_or_nil (some (b ∷ bs)) = some (b ∷ bs)
raw_or_nil _ = none

pub record Usage : Type 0 where
  pub input_tokens : Word
  pub output_tokens : Word
  pub cache_read_tokens : Word
  pub cache_write_tokens : Word
  pub reasoning_tokens : Word

abbrev pub zero_usage : Usage
zero_usage = record {
  input_tokens = 0;
  output_tokens = 0;
  cache_read_tokens = 0;
  cache_write_tokens = 0;
  reasoning_tokens = 0;
}

unfoldable pub add_usage : Usage → Usage → Usage
add_usage a b = record {
  input_tokens = add_word a.input_tokens b.input_tokens;
  output_tokens = add_word a.output_tokens b.output_tokens;
  cache_read_tokens = add_word a.cache_read_tokens b.cache_read_tokens;
  cache_write_tokens = add_word a.cache_write_tokens b.cache_write_tokens;
  reasoning_tokens = add_word a.reasoning_tokens b.reasoning_tokens;
}

-- A value of a `map[string]any`: a text, or any other value by what `%v` prints of it.
pub data ArgValue : Type 0 where
  str : String → ArgValue
  other : String → ArgValue

-- A `map[string]any`, by its entries; a key stands once.
abbrev pub Args : Type 0
Args = List (String × ArgValue)

-- `unset` is the empty text, the role of a zero message.
pub data Role : Type 0 where
  user assistant tool unset : Role

pub record ToolCall : Type 0 where
  pub id : String
  pub name : String
  pub args : Args

pub record ToolResult : Type 0 where
  pub call_id : String
  pub content : String
  pub is_error : Bool

pub record ImagePart : Type 0 where
  pub media_type : String
  pub bytes : List ℕ
  pub url : String
  pub file_ref : String

pub record ThinkingPart : Type 0 where
  pub text : String
  pub signature : String

-- Five optional pointers, of which the program sets one.
pub record ContentPart : Type 0 where
  pub text : Option String
  pub image : Option ImagePart
  pub thinking : Option ThinkingPart
  pub tool_call : Option ToolCall
  pub tool_result : Option ToolResult

abbrev pub empty_part : ContentPart
empty_part = record {
  text = none;
  image = none;
  thinking = none;
  tool_call = none;
  tool_result = none;
}

pub record Message : Type 0 where
  pub role : Role
  pub content : List ContentPart

pub record ToolDef : Type 0 where
  pub name : String
  pub description : String
  pub json_schema : ProviderRaw

-- `ToolChoice`: one of four words, or the name of a tool; the empty text is the default.
abbrev pub ToolChoice : Type 0
ToolChoice = String

abbrev pub tool_choice_auto : ToolChoice
tool_choice_auto = "auto"

abbrev pub tool_choice_any : ToolChoice
tool_choice_any = "any"

abbrev pub tool_choice_required : ToolChoice
tool_choice_required = "required"

abbrev pub tool_choice_none : ToolChoice
tool_choice_none = "none"

pub record Request : Type 0 where
  pub model : String
  pub system : String
  pub messages : List Message
  pub tools : List ToolDef
  pub tool_choice : ToolChoice
  pub max_tokens : Word
  pub temperature : Option F64
  pub stream : Bool
  pub provider_raw : ProviderRaw
  pub output_schema : ProviderRaw
  pub strict : Bool

pub record Capabilities : Type 0 where
  pub supports_tools : Bool
  pub supports_parallel_tool_calls : Bool
  pub supports_streaming_tool_calls : Bool
  pub supports_vision : Bool
  pub supports_system_prompt : Bool
  pub supports_thinking : Bool
  pub supports_token_counting : Bool
  pub supports_json_schema_strict : Bool
  pub max_output_tokens : Word

pub data StopReason : Type 0 where
  end max_tokens tool_use stop_sequence content_filter refusal : StopReason
  context_window_exceeded pause other_reason : StopReason

-- Everything but `pause` ends the generation.
unfoldable pub is_terminal : StopReason → Bool
is_terminal pause = false
is_terminal _ = true

-- stream.go: one event of a streamed generation. A union: exactly one pointer is set, or none.
pub record ToolCallDelta : Type 0 where
  pub call_id : String
  pub name : String
  pub args_path : String
  pub args_fragment : ProviderRaw

pub record Done : Type 0 where
  pub stop_reason : StopReason
  pub raw_stop_reason : String
  pub usage : Usage
  pub provider_raw : ProviderRaw

pub data StreamEvent : Type 0 where
  text_delta : (text : String) → StreamEvent
  thinking_delta : (text signature : String) → StreamEvent
  tool_call_delta : ToolCallDelta → StreamEvent
  finished : Done → StreamEvent
  empty : StreamEvent

pub data ErrorKind : Type 0 where
  rate_limited invalid_request auth overloaded server timeout unsupported : ErrorKind

-- `retry_after` is a duration in nanoseconds; a provider gives no negative hint.
pub record ProviderError : Type 0 where
  pub kind : ErrorKind
  pub retry_after : ℕ

unfoldable pub retryable : ProviderError → Bool
retryable e = elim e.kind [
  | rate_limited ↦ true
  | overloaded ↦ true
  | server ↦ true
  | timeout ↦ true
  | _ ↦ false
]
