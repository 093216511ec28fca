-- ===== src/Gateway/RoundTrip.antt =====
-- A request, as the gateway reads what the orchestrator has written.
use mathlib.Core.Path.{ap₂}
use harness_ai.Prelude.{
  ◌≡◌, ℕ, refl, sym, ap, ◌∙◌, String, Bool-cases, inl, inr, none, some, List, [], ◌∷◌, map, str_eq,
  eq_iff, if◌then◌else◌, All,
}
use harness_ai.Llm.{
  ProviderRaw, raw_or_nil, Args, Role, user, assistant, tool, unset, ImagePart, ThinkingPart,
  ToolCall, ToolResult, ContentPart, empty_part, Message, ToolDef, ToolChoice, tool_choice_auto,
  tool_choice_any, tool_choice_required, tool_choice_none, Request,
}
use harness_ai.Gateway.{ArgsJson, JsonText, GenToolChoice}
use harness_ai.Gateway.Outbound.{
  to_role, first_part, to_content_part, to_message, to_tool_definition, to_tool_choice,
  to_generation_params, raw_text, bytes_of,
}
use harness_ai.Gateway.Inbound.{
  to_llm_role, parse_args, to_llm_content_part, to_llm_message, to_llm_tool_def, to_llm_tool_choice,
  to_llm_request, text_or_nil, args_or_nil,
}

-- What a message of a request holds: one field in each part, and arguments that encoding/json reads as it has written them.
pub data IsPart (json : ArgsJson) : ContentPart → Type 0 where
  text_part : (t : String) → IsPart json (record empty_part { text = some t })
  thinking_part : (th : ThinkingPart) → IsPart json (record empty_part { thinking = some th })
  image_part : (im : ImagePart) → IsPart json (record empty_part { image = some im })
  result_part : (tr : ToolResult) → IsPart json (record empty_part { tool_result = some tr })
  call_part :
      (tc : ToolCall) (b : ℕ) (bs : JsonText)
      → json.marshal tc.args ≡ some (b ∷ bs)
      → json.unmarshal (b ∷ bs) ≡ some (some tc.args)
      → IsPart json (record empty_part { tool_call = some tc })

-- A slice that is nil where it is empty.
abbrev pub IsRaw : ProviderRaw → Type 0
IsRaw r = raw_or_nil r ≡ r

pub record IsSendable (json : ArgsJson) (req : Request) : Type 0 where
  pub messages : All (λ (m : Message). All (IsPart json) m.content) req.messages
  pub tools : All (λ (td : ToolDef). IsRaw td.json_schema) req.tools
  pub provider_raw : IsRaw req.provider_raw
  pub output_schema : IsRaw req.output_schema

role-back : (r : Role) → to_llm_role (to_role r) ≡ r
unfolding to_llm_role to_role
role-back user = refl
role-back assistant = refl
role-back tool = refl
role-back unset = refl

abbrev choice_of : GenToolChoice × String → ToolChoice
choice_of (c, name) = to_llm_tool_choice c name

-- One test of the switch.
tested :
    (tc word : ToolChoice) (hit miss : GenToolChoice × String)
    → choice_of hit ≡ word
    → choice_of miss ≡ tc
    → choice_of (if str_eq tc word then hit else miss) ≡ tc
tested tc word hit miss f g = elim (Bool-cases (str_eq tc word)) [
  | inl e ↦ rw (e) (f ∙ sym ((eq_iff tc word).0 e))
  | inr e ↦ rw (e) g
]

choice-back : (tc : ToolChoice) → choice_of (to_tool_choice tc) ≡ tc
unfolding to_llm_tool_choice to_tool_choice
choice-back tc = tested tc tool_choice_auto _ _ refl (
    tested tc tool_choice_any _ _ refl (
      tested tc tool_choice_required _ _ refl
        (tested tc tool_choice_none _ _ refl (tested tc "" _ _ refl refl))))

args-back :
    (json : ArgsJson) (args : Args) (b : ℕ) (bs : JsonText)
    → json.marshal args ≡ some (b ∷ bs)
    → json.unmarshal (b ∷ bs) ≡ some (some args)
    → parse_args json (bytes_of (json.marshal args)) ≡ args
unfolding parse_args
args-back json args b bs e f = ap (λ m. parse_args json (bytes_of m)) e ∙ ap args_or_nil f

part-back :
    (json : ArgsJson) (p : ContentPart)
    → IsPart json p
    → to_llm_content_part json (some (to_content_part json p)) ≡ p
unfolding to_llm_content_part to_content_part first_part
part-back json p (text_part t) = refl
part-back json p (thinking_part th) = refl
part-back json p (image_part im) = refl
part-back json p (result_part tr) = refl
part-back json p (call_part tc b bs e f) =
    ap (λ a. record empty_part { tool_call = some (record tc { args = a }) })
      (args-back json tc.args b bs e f)

module _ (json : ArgsJson) where
  parts-back :
      (ps : List ContentPart)
      → All (IsPart json) ps
      → map (to_llm_content_part json) (map (λ cp. some (to_content_part json cp)) ps) ≡ ps
  parts-back [] h = refl
  parts-back (p ∷ ps) (h, hs) = ap₂ (λ x xs. x ∷ xs) (part-back json p h) (parts-back ps hs)

  message-back :
      (m : Message)
      → All (IsPart json) m.content
      → to_llm_message json (some (to_message json m)) ≡ m
  unfolding to_llm_message to_message
  message-back m h = λ i. record { role = role-back m.role i; content = parts-back m.content h i }

  messages-back :
      (ms : List Message)
      → All (λ (m : Message). All (IsPart json) m.content) ms
      → map (to_llm_message json) (map (λ m. some (to_message json m)) ms) ≡ ms
  messages-back [] h = refl
  messages-back (m ∷ ms) (h, hs) = ap₂ (λ x xs. x ∷ xs) (message-back m h) (messages-back ms hs)

raw-back : (r : ProviderRaw) → text_or_nil (raw_text r) ≡ raw_or_nil r
raw-back none = refl
raw-back (some []) = refl
raw-back (some (b ∷ bs)) = refl

tool-back :
    (td : ToolDef) → IsRaw td.json_schema → to_llm_tool_def (some (to_tool_definition td)) ≡ td
unfolding to_llm_tool_def to_tool_definition
tool-back td h = ap (λ r. record td { json_schema = r }) (raw-back td.json_schema ∙ h)

tools-back :
    (tds : List ToolDef)
    → All (λ (td : ToolDef). IsRaw td.json_schema) tds
    → map to_llm_tool_def (map (λ td. some (to_tool_definition td)) tds) ≡ tds
tools-back [] h = refl
tools-back (td ∷ tds) (h, hs) = ap₂ (λ x xs. x ∷ xs) (tool-back td h) (tools-back tds hs)

-- The gateway reads the request that the orchestrator has made: messages with their roles and parts, tools, the
-- choice of a tool whatever its name, and the settings. The request is one in which each part has exactly one
-- field, encoding/json reads the arguments of each call as it has written them, and each raw slice that is
-- empty is nil.
pub to_llm_request-to_generation_params :
    (json : ArgsJson) (req : Request)
    → IsSendable json req
    → to_llm_request json (some (to_generation_params json req)) ≡ req
unfolding to_llm_request to_generation_params
to_llm_request-to_generation_params json req h = λ i. record req {
  messages = messages-back json req.messages h.messages i;
  tools = tools-back req.tools h.tools i;
  tool_choice = choice-back req.tool_choice i;
  provider_raw = h.provider_raw i;
  output_schema = h.output_schema i;
}
