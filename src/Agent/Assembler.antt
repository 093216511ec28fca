-- ===== src/Agent/Assembler.antt =====
-- assembler.go: a stream of deltas becomes the message of the assistant.
pub mod Reference
pub mod Absorb
pub mod Calls
pub mod Exact
use Prim.Native.String.{◌++◌ as ◌<>◌}
use harness_ai.Prelude.{
  ℕ, ◌≡◌, String, Bool, true, false, ◌&&◌, ◌||◌, not, Option, none, some, List, [], ◌∷◌, ◌++◌, any,
  is_some, Map, empty_map, put, str_eq, if◌then◌else◌,
}
use harness_ai.Llm.{
  ProviderRaw, Args, ToolCall, ThinkingPart, ContentPart, empty_part, Role, Message, StopReason,
  tool_use, is_terminal, ToolCallDelta, Done, StreamEvent, text_delta, thinking_delta,
  tool_call_delta, finished, empty,
}

-- How a generation ended for the loop.
pub data Outcome : Type 0 where
  outcome_final needs_tool_execution needs_continuation : Outcome

-- The JSON functions of the standard library: `marshal` of an object with raw values, and
-- `unmarshal` into a map: `none` is an error, and `some none` the nil map of a JSON null.
pub record Json : Type 0 where
  pub marshal : List (String × ProviderRaw) → Option (List ℕ)
  pub unmarshal : List ℕ → Option (Option Args)

-- `callAcc`
pub record CallAcc : Type 0 where
  pub id : String
  pub name : String
  pub append_buf : List ℕ
  pub path_args : Map ProviderRaw
  pub path_order : List String

abbrev pub new_call : String → CallAcc
new_call id = record { id = id; name = ""; append_buf = []; path_args = empty_map; path_order = [] }

-- `accumulator`
pub record Accumulator : Type 0 where
  pub thinking_text : String
  pub thinking_sig : String
  pub text : String
  pub calls : Map CallAcc
  pub call_order : List String

abbrev pub new_accumulator : Accumulator
new_accumulator = record {
  thinking_text = "";
  thinking_sig = "";
  text = "";
  calls = empty_map;
  call_order = [];
}

abbrev pub raw_bytes : ProviderRaw → List ℕ
raw_bytes none = []
raw_bytes (some b) = b

abbrev pub with_path : List String → Map ProviderRaw → String → List String
with_path order m path = elim (m path) [ none ↦ order ++ (path ∷ []) | some _ ↦ order ]

-- `addArgs`
unfoldable pub add_args : CallAcc → String → ProviderRaw → CallAcc
add_args c path frag =
    if str_eq path "" then record c { append_buf = c.append_buf ++ raw_bytes frag } else record c {
      path_order = with_path c.path_order c.path_args path;
      path_args = put c.path_args path frag;
    }

-- The first name that is not empty stays.
abbrev pub with_name : CallAcc → String → CallAcc
with_name c name = record c {
  name = if not (str_eq name "") && str_eq c.name "" then name else c.name;
}

-- What a fragment makes of its call, which is new if there is none yet.
unfoldable pub add_fragment : Option CallAcc → ToolCallDelta → CallAcc
unfolding add_args
add_fragment none d = add_args (with_name (new_call d.call_id) d.name) d.args_path d.args_fragment
add_fragment (some c) d = add_args (with_name c d.name) d.args_path d.args_fragment

-- `addToolCall`
unfoldable pub add_tool_call : Accumulator → ToolCallDelta → Accumulator
unfolding add_fragment
add_tool_call a d = record a {
  calls = put a.calls d.call_id (add_fragment (a.calls d.call_id) d);
  call_order = elim (a.calls d.call_id) [
    | none ↦ a.call_order ++ (d.call_id ∷ [])
    | some _ ↦ a.call_order
  ];
}

-- `decodeObject`: the arguments, or `none` for an error.
unfoldable pub decode_object : Json → List ℕ → Option Args
decode_object json buf = elim (json.unmarshal buf) [
  | none ↦ none
  | some m ↦ elim m [ none ↦ some [] | some args ↦ some args ]
]

abbrev entries : Map ProviderRaw → List String → List (String × ProviderRaw)
entries m [] = []
entries m (k ∷ ks) = (k, elim (m k) [ none ↦ none | some r ↦ r ]) ∷ entries m ks

-- `parseArgs`
unfoldable pub parse_args : Json → CallAcc → Option Args
unfolding decode_object
parse_args json c = elim c.path_order [
  | [] ↦ elim c.append_buf [ [] ↦ some [] | _ ∷ _ ↦ decode_object json c.append_buf ]
  | _ ∷ _ ↦ elim (json.marshal (entries c.path_args c.path_order)) [
    | none ↦ none
    | some buf ↦ decode_object json buf
  ]
]

-- `contentSansTools`
unfoldable pub content_sans_tools : Accumulator → List ContentPart
content_sans_tools a =
    (if str_eq a.thinking_text "" && str_eq a.thinking_sig ""
      then []
      else record empty_part {
        thinking = some (record { text = a.thinking_text; signature = a.thinking_sig });
      }
        ∷ [])
    ++ (if str_eq a.text "" then [] else record empty_part { text = some a.text } ∷ [])

abbrev pub or_empty : Option Args → Args
or_empty none = []
or_empty (some args) = args

abbrev pub call_part : String → String → Args → ContentPart
call_part id name args = record empty_part {
  tool_call = some (record { id = id; name = name; args = args });
}

-- The call of an id; every id of the order has one.
abbrev pub call_at : Map CallAcc → String → CallAcc
call_at m id = elim (m id) [ none ↦ new_call id | some c ↦ c ]

-- The loops over the calls: with no arguments, and with the parsed ones.
unfoldable pub bare_calls : Map CallAcc → List String → List ContentPart
bare_calls m [] = []
bare_calls m (id ∷ ids) = call_part (call_at m id).id (call_at m id).name [] ∷ bare_calls m ids

unfoldable pub parsed_calls : Json → Map CallAcc → List String → List ContentPart
unfolding parse_args
parsed_calls json m [] = []
parsed_calls json m (id ∷ ids) =
    call_part (call_at m id).id (call_at m id).name (or_empty (parse_args json (call_at m id)))
    ∷ parsed_calls json m ids

abbrev assistant_message_of : List ContentPart → Message
assistant_message_of parts = record { role = Role.assistant; content = parts }

-- `message`: the partial message.
unfoldable pub partial_message : Accumulator → Message
unfolding content_sans_tools bare_calls
partial_message a = assistant_message_of (content_sans_tools a ++ bare_calls a.calls a.call_order)

-- Whether some call's arguments do not parse.
unfoldable pub is_malformed : Json → Map CallAcc → List String → Bool
unfolding parse_args
is_malformed json m ids = any (λ id. not (is_some (parse_args json (call_at m id)))) ids

-- `finalize`: the message; its error is `is_malformed`.
unfoldable pub finalize : Json → Accumulator → Message
unfolding content_sans_tools parsed_calls
finalize json a =
    assistant_message_of (content_sans_tools a ++ parsed_calls json a.calls a.call_order)

abbrev pub has_tool_call : List ContentPart → Bool
has_tool_call = any (λ (p : ContentPart). is_some p.tool_call)

abbrev is_tool_use : StopReason → Bool
is_tool_use tool_use = true
is_tool_use _ = false

-- `classify`
unfoldable pub classify : StopReason → Message → Outcome
unfolding is_terminal
classify reason msg =
    if not (is_terminal reason)
    then needs_continuation
    else if is_tool_use reason && has_tool_call msg.content
    then needs_tool_execution
    else outcome_final

-- How a stream ends where no event of it ends the generation: `io.EOF`, or a failure of the provider.
pub data StreamEnd : Type 0 where
  eof failed : StreamEnd

pub data AssembleError : Type 0 where
  stream_recv incomplete_stream malformed_tool_args : AssembleError

-- `Result` with the error of Assemble; in an error `done` is the zero value unless it is given.
pub data Assembled : Type 0 where
  assembled : (message : Message) (outcome : Outcome) (done : Done) → Assembled
  broken : AssembleError → (message : Message) (done : Option Done) → Assembled

-- Behind the first `Done`.
unfoldable pub finish_stream : Json → Accumulator → Done → Assembled
unfolding finalize is_malformed classify
finish_stream json a d =
    if is_malformed json a.calls a.call_order
    then broken malformed_tool_args (finalize json a) (some d)
    else assembled (finalize json a) (classify d.stop_reason (finalize json a)) d

-- The loop of `Assemble`, behind which the reader is closed.
unfoldable pub receive : Json → Accumulator → List StreamEvent → StreamEnd → Assembled
unfolding add_tool_call finish_stream partial_message finalize
receive json a [] failed = broken stream_recv (partial_message a) none
receive json a [] eof = broken incomplete_stream (finalize json a) none
receive json a (finished d ∷ es) end = finish_stream json a d
receive json a (text_delta t ∷ es) end = receive json (record a { text = a.text <> t }) es end
receive json a (thinking_delta t s ∷ es) end =
    receive json
      (record a { thinking_text = a.thinking_text <> t; thinking_sig = a.thinking_sig <> s }) es end
receive json a (tool_call_delta d ∷ es) end = receive json (add_tool_call a d) es end
receive json a (empty ∷ es) end = receive json a es end

-- `Assemble`
unfoldable pub assemble : Json → List StreamEvent → StreamEnd → Assembled
unfolding receive
assemble json es end = receive json new_accumulator es end
