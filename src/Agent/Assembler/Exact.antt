-- ===== src/Agent/Assembler/Exact.antt =====
-- Assemble answers with the reference.
use text.Mathlib.TextLemmas.{nil-append}
use harness_ai.Prelude.{
  ◌≡◌, refl, ap, ◌∙◌, String, false, some, List, [], ◌∷◌, ◌++◌, any, is_some, not, Map,
  if◌then◌else◌, ◌||◌,
}
use harness_ai.Llm.{Role, Done, StreamEvent, finished}
use harness_ai.Agent.Assembler.{
  Json, CallAcc, new_accumulator, parse_args, content_sans_tools, call_part, call_at, parsed_calls,
  is_malformed, finalize, classify, StreamEnd, Assembled, assembled, broken, malformed_tool_args,
  finish_stream, assemble, or_empty,
}
use harness_ai.Agent.Assembler.Reference.{
  is_finished, texts, thoughts, signatures, fragments, first_of, ids_of, reference,
}
use harness_ai.Agent.Assembler.Absorb.{
  absorb, absorb-text, absorb-thinking_text, absorb-thinking_sig, absorb-fragments,
  fold_fragments-order, receive-absorb,
}
use harness_ai.Agent.Assembler.Calls.{call_at-reference}

-- What reads the calls reads them one by one.
parsed_calls-pointwise :
    (json : Json) (m n : Map CallAcc) (ids : List String)
    → ((id : String) → call_at m id ≡ call_at n id)
    → parsed_calls json m ids ≡ parsed_calls json n ids
unfolding parsed_calls
parsed_calls-pointwise json m n [] h = refl
parsed_calls-pointwise json m n (id ∷ ids) h = λ i.
    call_part (h id i).id (h id i).name (or_empty (parse_args json (h id i)))
    ∷ parsed_calls-pointwise json m n ids h i

is_malformed-pointwise :
    (json : Json) (m n : Map CallAcc) (ids : List String)
    → ((id : String) → call_at m id ≡ call_at n id)
    → is_malformed json m ids ≡ is_malformed json n ids
unfolding is_malformed
is_malformed-pointwise json m n [] h = refl
is_malformed-pointwise json m n (id ∷ ids) h =
    λ i. not (is_some (parse_args json (h id i))) || is_malformed-pointwise json m n ids h i

-- The answer, read off the events that stand before the first `Done`.
abbrev pub answer_of : Json → List StreamEvent → Done → Assembled
answer_of json es d = finish_stream json (reference es) d

finalize-reference :
    (json : Json) (es : List StreamEvent)
    → finalize json (absorb new_accumulator es) ≡ finalize json (reference es)
unfolding finalize content_sans_tools
finalize-reference json es =
    let order : (absorb new_accumulator es).call_order ≡ first_of [] (ids_of (fragments es)) =
      (absorb-fragments es new_accumulator new_accumulator (refl, refl)).1
      ∙ fold_fragments-order (fragments es) new_accumulator [] (λ k. refl) in
    λ i. record {
      role = Role.assistant;
      content =
          content_sans_tools (record (reference es) {
            thinking_text = (absorb-thinking_text es new_accumulator ∙ nil-append (thoughts es)) i;
            thinking_sig = (absorb-thinking_sig es new_accumulator ∙ nil-append (signatures es)) i;
            text = (absorb-text es new_accumulator ∙ nil-append (texts es)) i;
          })
          ++ (ap (parsed_calls json (absorb new_accumulator es).calls) order
                ∙ parsed_calls-pointwise json (absorb new_accumulator es).calls (reference es).calls
                    (first_of [] (ids_of (fragments es))) (call_at-reference es))
              i;
    }

is_malformed-reference :
    (json : Json) (es : List StreamEvent)
    → is_malformed json (absorb new_accumulator es).calls (absorb new_accumulator es).call_order
      ≡ is_malformed json (reference es).calls (reference es).call_order
is_malformed-reference json es =
    ap (is_malformed json (absorb new_accumulator es).calls) (
      (absorb-fragments es new_accumulator new_accumulator (refl, refl)).1
      ∙ fold_fragments-order (fragments es) new_accumulator [] (λ k. refl))
    ∙ is_malformed-pointwise json (absorb new_accumulator es).calls (reference es).calls
        (first_of [] (ids_of (fragments es))) (call_at-reference es)

-- Whatever a stream gives behind its first `Done`, and however the fragments of its calls are interleaved, Assemble
-- answers with the reference: the thoughts and the texts in their order, and the calls in the order in which
-- their ids first appear, each with the first name that is not empty and the arguments of its own fragments
-- (joined where they have no path, the last for each path where they have one).
pub assemble-reference :
    (json : Json) (es rest : List StreamEvent) (d : Done) (end : StreamEnd)
    → any is_finished es ≡ false
    → assemble json (es ++ (finished d ∷ rest)) end ≡ answer_of json es d
unfolding assemble finish_stream
assemble-reference json es rest d end h = receive-absorb json d rest end es new_accumulator h ∙ λ i.
    if is_malformed-reference json es i
    then broken malformed_tool_args (finalize-reference json es i) (some d)
    else assembled (finalize-reference json es i)
        (classify d.stop_reason (finalize-reference json es i)) d
