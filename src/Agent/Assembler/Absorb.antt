-- ===== src/Agent/Assembler/Absorb.antt =====
-- The loop of Assemble as a fold: its texts, and the calls by their ids.
use Prim.Native.String.{◌++◌ as ◌<>◌}
use text.Mathlib.TextLemmas.{append_assoc as text_append_assoc, append-nil as text_append-nil}
use mathlib.Core.List.{append_assoc, append-nil}
use harness_ai.Prelude.{
  ◌≡◌, refl, sym, ap, ◌∙◌, String, true, false, Bool-cases, inl, inr, Option, none, some,
  Option-cases, List, [], ◌∷◌, ◌++◌, any, is_some, Map, put, elem, str_eq, eq_iff, arith,
}
use harness_ai.Llm.{
  ToolCallDelta, Done, StreamEvent, text_delta, thinking_delta, tool_call_delta, finished, empty,
}
use harness_ai.Agent.Assembler.{
  Json, CallAcc, Accumulator, add_fragment, add_tool_call, StreamEnd, finish_stream, receive,
}
use harness_ai.Agent.Assembler.Reference.{
  is_finished, texts, thoughts, signatures, fragments, fragments_of, first_of, ids_of,
}

-- The loop of Assemble without its answer.
abbrev pub absorb : Accumulator → List StreamEvent → Accumulator
absorb a [] = a
absorb a (finished d ∷ es) = absorb a es
absorb a (text_delta t ∷ es) = absorb (record a { text = a.text <> t }) es
absorb a (thinking_delta t s ∷ es) =
    absorb (record a { thinking_text = a.thinking_text <> t; thinking_sig = a.thinking_sig <> s })
      es
absorb a (tool_call_delta d ∷ es) = absorb (add_tool_call a d) es
absorb a (empty ∷ es) = absorb a es

module _ (json : Json) (d : Done) (rest : List StreamEvent) (end : StreamEnd) where
  pub receive-absorb :
      (es : List StreamEvent) (a : Accumulator)
      → any is_finished es ≡ false
      → receive json a (es ++ (finished d ∷ rest)) end ≡ finish_stream json (absorb a es) d
  unfolding receive
  receive-absorb [] a h = refl
  receive-absorb (finished d ∷ es) a h = ground arith
  receive-absorb (text_delta t ∷ es) a h = receive-absorb es _ h
  receive-absorb (thinking_delta t s ∷ es) a h = receive-absorb es _ h
  receive-absorb (tool_call_delta d ∷ es) a h = receive-absorb es _ h
  receive-absorb (empty ∷ es) a h = receive-absorb es a h

pub absorb-text :
    (es : List StreamEvent) (a : Accumulator) → (absorb a es).text ≡ a.text <> texts es
unfolding add_tool_call
absorb-text [] a = sym (text_append-nil a.text)
absorb-text (finished d ∷ es) a = absorb-text es a
absorb-text (text_delta t ∷ es) a = absorb-text es _ ∙ text_append_assoc a.text t (texts es)
absorb-text (thinking_delta t s ∷ es) a = absorb-text es _
absorb-text (tool_call_delta d ∷ es) a = absorb-text es _
absorb-text (empty ∷ es) a = absorb-text es a

pub absorb-thinking_text :
    (es : List StreamEvent) (a : Accumulator)
    → (absorb a es).thinking_text ≡ a.thinking_text <> thoughts es
unfolding add_tool_call
absorb-thinking_text [] a = sym (text_append-nil a.thinking_text)
absorb-thinking_text (finished d ∷ es) a = absorb-thinking_text es a
absorb-thinking_text (text_delta t ∷ es) a = absorb-thinking_text es _
absorb-thinking_text (thinking_delta t s ∷ es) a =
    absorb-thinking_text es _ ∙ text_append_assoc a.thinking_text t (thoughts es)
absorb-thinking_text (tool_call_delta d ∷ es) a = absorb-thinking_text es _
absorb-thinking_text (empty ∷ es) a = absorb-thinking_text es a

pub absorb-thinking_sig :
    (es : List StreamEvent) (a : Accumulator)
    → (absorb a es).thinking_sig ≡ a.thinking_sig <> signatures es
unfolding add_tool_call
absorb-thinking_sig [] a = sym (text_append-nil a.thinking_sig)
absorb-thinking_sig (finished d ∷ es) a = absorb-thinking_sig es a
absorb-thinking_sig (text_delta t ∷ es) a = absorb-thinking_sig es _
absorb-thinking_sig (thinking_delta t s ∷ es) a =
    absorb-thinking_sig es _ ∙ text_append_assoc a.thinking_sig s (signatures es)
absorb-thinking_sig (tool_call_delta d ∷ es) a = absorb-thinking_sig es _
absorb-thinking_sig (empty ∷ es) a = absorb-thinking_sig es a

abbrev pub fold_fragments : Accumulator → List ToolCallDelta → Accumulator
fold_fragments a [] = a
fold_fragments a (d ∷ ds) = fold_fragments (add_tool_call a d) ds

-- The calls and their order come from the fragments alone.
abbrev pub SameCalls : Accumulator → Accumulator → Type 0
SameCalls a b = (a.calls ≡ b.calls) × (a.call_order ≡ b.call_order)

add_tool_call-same :
    (a b : Accumulator) (d : ToolCallDelta)
    → SameCalls a b
    → SameCalls (add_tool_call a d) (add_tool_call b d)
unfolding add_tool_call
add_tool_call-same a b d (g, h) = (
  ap (λ m. put m d.call_id (add_fragment (m d.call_id) d)) g,
  λ i. elim (g i d.call_id) [ none ↦ h i ++ (d.call_id ∷ []) | some _ ↦ h i ],
)

pub absorb-fragments :
    (es : List StreamEvent) (a b : Accumulator)
    → SameCalls a b
    → SameCalls (absorb a es) (fold_fragments b (fragments es))
absorb-fragments [] a b h = h
absorb-fragments (finished d ∷ es) a b h = absorb-fragments es a b h
absorb-fragments (text_delta t ∷ es) a b h = absorb-fragments es _ b h
absorb-fragments (thinking_delta t s ∷ es) a b h = absorb-fragments es _ b h
absorb-fragments (tool_call_delta d ∷ es) a b h =
    absorb-fragments es _ _ (add_tool_call-same a b d h)
absorb-fragments (empty ∷ es) a b h = absorb-fragments es a b h

-- What the fragments of a call make of it.
abbrev pub grow : Option CallAcc → List ToolCallDelta → Option CallAcc
grow c [] = c
grow c (d ∷ ds) = grow (some (add_fragment c d)) ds

pub fold_fragments-calls :
    (ds : List ToolCallDelta) (a : Accumulator) (id : String)
    → (fold_fragments a ds).calls id ≡ grow (a.calls id) (fragments_of id ds)
unfolding add_tool_call
fold_fragments-calls [] a id = refl
fold_fragments-calls (d ∷ ds) a id = fold_fragments-calls ds (add_tool_call a d) id ∙ step
  where
    step :
        grow ((add_tool_call a d).calls id) (fragments_of id ds)
        ≡ grow (a.calls id) (fragments_of id (d ∷ ds))
    step = elim (Bool-cases (str_eq d.call_id id)) [
      | inl e ↦ rw (e) (rw ((eq_iff d.call_id id).0 e) refl)
      | inr e ↦ rw (e) refl
    ]

-- The ids that a map knows.
abbrev pub Knows : Map CallAcc → List String → Type 0
Knows m seen = (k : String) → is_some (m k) ≡ elem k seen

pub fold_fragments-order :
    (ds : List ToolCallDelta) (a : Accumulator) (seen : List String)
    → Knows a.calls seen
    → (fold_fragments a ds).call_order ≡ a.call_order ++ first_of seen (ids_of ds)
unfolding add_tool_call
fold_fragments-order [] a seen h = sym (append-nil a.call_order)
fold_fragments-order (d ∷ ds) a seen h = elim (Option-cases (a.calls d.call_id)) [
  | inl e ↦
      let unseen : elem d.call_id seen ≡ false = sym (h d.call_id) ∙ ap is_some e in
      fold_fragments-order ds (add_tool_call a d) (d.call_id ∷ seen)
        (λ k. elim (Bool-cases (str_eq d.call_id k)) [ inl b ↦ rw (b) refl | inr b ↦ rw (b) (h k) ])
      ∙ rw (e, unseen) (append_assoc a.call_order (d.call_id ∷ []) _)
  | inr (c, e) ↦
      let known : elem d.call_id seen ≡ true = sym (h d.call_id) ∙ ap is_some e in
      fold_fragments-order ds (add_tool_call a d) seen (λ k.
        elim (Bool-cases (str_eq d.call_id k)) [
          | inl b ↦ rw (b) (sym known ∙ ap (λ x. elem x seen) ((eq_iff d.call_id k).0 b))
          | inr b ↦ rw (b) (h k)
        ])
      ∙ rw (e, known) refl
]
