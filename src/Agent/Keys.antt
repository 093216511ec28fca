-- ===== src/Agent/Keys.antt =====
-- The idempotency keys of the calls of a batch.
use mathlib.Core.Path.{subst}
use harness_ai.Prelude.{ℕ, ◌≡◌, refl, ap, ◌∙◌, String, List, [], ◌∷◌, ◌++◌, All, Map, empty_map}
use harness_ai.Llm.{ToolCall}
use harness_ai.Domain.{Event}
use harness_ai.Agent.{ToolOutput, RunState, World, Res, done}
use harness_ai.Agent.Gate.{GateAnswer, dispatch, refuse, gate_call}
use harness_ai.Agent.Frame.{Goes, grown, Goes-append_event, Goes-and_then, gate_call-Stays}
use harness_ai.Agent.Batch.{
  ScheduledExec, Batch, schedule, after_gate, gate_calls, class_of, derive_idempotency_key,
}

All-append {ℓ κ} :
    {A : Type ℓ} (P : A → Type κ) (xs ys : List A) → All P xs → All P ys → All P (xs ++ ys)
All-append P [] ys f g = g
All-append P (x ∷ xs) ys f g = (f.0, All-append P xs ys f.1 g)

module _ (w : World) (session : String) (seq : ℕ) where
  -- A state in the session and behind the assistant message of that sequence number.
  abbrev IsAt : RunState → Type 0
  IsAt st = (st.session_id ≡ session) × (st.last_assistant_seq ≡ seq)

  kept : (st : RunState) (n : ℕ) (e : Event) → IsAt st → IsAt (grown st n e)
  kept st n e h = h

  -- The key that every call of the message gets.
  abbrev HasKey : ScheduledExec → Type 0
  HasKey e = e.idem_key ≡ derive_idempotency_key w session seq

  abbrev Keyed : Batch → RunState → Type 0
  Keyed b st = All HasKey b.0

  after_gate-Keyed :
      (c : ToolCall) (execs : List ScheduledExec) (results : Map ToolOutput)
      (next : List ScheduledExec → Map ToolOutput → RunState → Res Batch) (answer : GateAnswer)
      (st : RunState)
      → ((es : List ScheduledExec) (rs : Map ToolOutput) (s : RunState)
          → IsAt s
          → All HasKey es
          → Goes Keyed (next es rs s))
      → IsAt st
      → All HasKey execs
      → Goes Keyed (after_gate w c execs results next answer st)
  unfolding after_gate schedule
  after_gate-Keyed c execs results next (refuse o) st h i k = h execs _ st i k
  after_gate-Keyed c execs results next dispatch st h i k =
      Goes-append_event w IsAt kept Keyed st _ _ i (λ s j. h _ results s j (
        All-append HasKey execs (schedule w s c ∷ []) k (
          ap (λ x. derive_idempotency_key w x s.last_assistant_seq) j.0
              ∙ ap (derive_idempotency_key w session) j.1,
          tt,
        )))

  gate_calls-Keyed :
      (cs : List ToolCall) (execs : List ScheduledExec) (results : Map ToolOutput) (st : RunState)
      → IsAt st
      → All HasKey execs
      → Goes Keyed (gate_calls w cs execs results st)
  unfolding gate_calls
  gate_calls-Keyed [] execs results st i k = k
  gate_calls-Keyed (c ∷ cs) execs results st i k =
      Goes-and_then w IsAt kept Keyed (gate_call w c (class_of w c.name) st) _
        (gate_call-Stays w IsAt kept c (class_of w c.name) st i)
        (λ answer s j.
          after_gate-Keyed c execs results (gate_calls w cs) answer s
            (λ es rs u l m. gate_calls-Keyed cs es rs u l m) j k)

-- One key for a message. Where the gating of the calls of a message goes through, every call that is scheduled
-- has the same idempotency key, that of the session and the sequence number of the message.
pub gate_calls-one_key :
    (w : World) (cs : List ToolCall) (st new : RunState) (execs : List ScheduledExec)
    (results : Map ToolOutput)
    → gate_calls w cs [] empty_map st ≡ done (execs, results) new
    → All (λ e. e.idem_key ≡ derive_idempotency_key w st.session_id st.last_assistant_seq) execs
gate_calls-one_key w cs st new execs results e =
    subst (Goes (Keyed w st.session_id st.last_assistant_seq)) e
      (gate_calls-Keyed w st.session_id st.last_assistant_seq cs [] empty_map st (refl, refl) tt)
