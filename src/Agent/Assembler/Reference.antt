-- ===== src/Agent/Assembler/Reference.antt =====
-- What assembler.go promises: texts in order, and each call from its own fragments alone.
use Prim.Native.String.{◌++◌ as ◌<>◌}
use harness_ai.Prelude.{
  ℕ, String, Bool, true, false, Option, none, some, List, [], ◌∷◌, ◌++◌, map, not, elem, str_eq,
  if◌then◌else◌, ◌&&◌,
}
use harness_ai.Llm.{
  ProviderRaw, ToolCallDelta, StreamEvent, text_delta, thinking_delta, tool_call_delta, finished,
}
use harness_ai.Agent.Assembler.{CallAcc, Accumulator, raw_bytes}

abbrev pub is_finished : StreamEvent → Bool
is_finished (finished d) = true
is_finished _ = false

-- The texts of a stream, in order.
abbrev pub texts : List StreamEvent → String
texts [] = ""
texts (text_delta t ∷ es) = t <> texts es
texts (_ ∷ es) = texts es

abbrev pub thoughts : List StreamEvent → String
thoughts [] = ""
thoughts (thinking_delta t s ∷ es) = t <> thoughts es
thoughts (_ ∷ es) = thoughts es

abbrev pub signatures : List StreamEvent → String
signatures [] = ""
signatures (thinking_delta t s ∷ es) = s <> signatures es
signatures (_ ∷ es) = signatures es

abbrev pub fragments : List StreamEvent → List ToolCallDelta
fragments [] = []
fragments (tool_call_delta d ∷ es) = d ∷ fragments es
fragments (_ ∷ es) = fragments es

-- The fragments of one call.
abbrev pub fragments_of : String → List ToolCallDelta → List ToolCallDelta
fragments_of id [] = []
fragments_of id (d ∷ ds) =
    if str_eq d.call_id id then d ∷ fragments_of id ds else fragments_of id ds

-- The texts of a list that are not yet seen, each where it first appears.
abbrev pub first_of : List String → List String → List String
first_of seen [] = []
first_of seen (k ∷ ks) = if elem k seen then first_of seen ks else k ∷ first_of (k ∷ seen) ks

abbrev pub ids_of : List ToolCallDelta → List String
ids_of ds = map (λ (d : ToolCallDelta). d.call_id) ds

-- Of the fragments of one call: its name, its arguments as one text, its arguments by path.
abbrev pub first_name : List ToolCallDelta → String
first_name [] = ""
first_name (d ∷ ds) = if str_eq d.name "" then first_name ds else d.name

abbrev pub unaddressed : List ToolCallDelta → List ℕ
unaddressed [] = []
unaddressed (d ∷ ds) =
    if str_eq d.args_path "" then raw_bytes d.args_fragment ++ unaddressed ds else unaddressed ds

abbrev pub paths : List ToolCallDelta → List String
paths [] = []
paths (d ∷ ds) = if str_eq d.args_path "" then paths ds else d.args_path ∷ paths ds

abbrev pub last_at : String → Option ProviderRaw → List ToolCallDelta → Option ProviderRaw
last_at k found [] = found
last_at k found (d ∷ ds) =
    last_at k
      (if not (str_eq d.args_path "") && str_eq d.args_path k then some d.args_fragment else found)
      ds

abbrev pub call_of : List ToolCallDelta → String → CallAcc
call_of ds id = record {
  id = id;
  name = first_name (fragments_of id ds);
  append_buf = unaddressed (fragments_of id ds);
  path_args = λ k. last_at k none (fragments_of id ds);
  path_order = first_of [] (paths (fragments_of id ds));
}

-- The accumulator that a stream ought to give.
abbrev pub reference : List StreamEvent → Accumulator
reference es = record {
  thinking_text = thoughts es;
  thinking_sig = signatures es;
  text = texts es;
  calls = λ id. some (call_of (fragments es) id);
  call_order = first_of [] (ids_of (fragments es));
}
