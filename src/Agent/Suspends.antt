-- ===== src/Agent/Suspends.antt =====
-- An ask that a crash cuts off is found by recovery.
use harness_ai.Prelude.{
  ℕ, ◌≡◌, refl, ap, ◌∙◌, String, Bool, true, false, Option, none, some, Bool-cases, inl, inr, List,
  [], ◌∷◌, ◌++◌, any-append, elem, eq_refl, arith,
}
use harness_ai.Llm.{ToolCall, Args}
use harness_ai.Domain.{Event, EventEnvelope, approval_requested, permission_decided}
use harness_ai.Policy.{Decision, Result}
use harness_ai.Policy.Engine.{evaluate, result}
use harness_ai.Agent.{ToolDescriptor, HookDecision, RunState, World, state_of, append_event}
use harness_ai.Agent.Gate.{input_of, gate_call, policy_stage, decision_stage, ask_gate}
use harness_ai.Recovery.{SuspendedApproval}
use harness_ai.Recovery.Fold.{events_of}
use harness_ai.Recovery.Collect.{SideEffectLookup, analyze}
use harness_ai.Recovery.Spec.{unfinished, starts_turn, terminates}
use harness_ai.Recovery.Suspended.{pending_ask, waits, suspended_call_ids, elem-suspended_approvals}

unfinished-open :
    (s f : Event → Bool) (e : Event) (xs : List Event)
    → f e ≡ false
    → unfinished s f xs ≡ true
    → unfinished s f (xs ++ (e ∷ [])) ≡ true
unfinished-open s f e [] g h = ground arith
unfinished-open s f e (x ∷ xs) g h = elim (Bool-cases (s x)) [
  | inl k ↦ ground (arith, any-append f xs (e ∷ []))
  | inr k ↦ ground (arith, unfinished-open s f e xs g (ground arith))
]

pending_ask-append :
    (c t tool reason : String) (args : Args) (xs : List Event) (ask : Option SuspendedApproval)
    → pending_ask c ask (xs ++ (approval_requested t c tool reason args ∷ []))
      ≡ some (record { turn_id = t; call_id = c; tool_name = tool; reason = reason; args = args })
pending_ask-append c t tool reason args [] ask = rw (eq_refl c) refl
pending_ask-append c t tool reason args (approval_requested _ _ _ _ _ ∷ xs) ask =
    pending_ask-append c t tool reason args xs _
pending_ask-append c t tool reason args (permission_decided _ _ _ _ _ _ ∷ xs) ask =
    pending_ask-append c t tool reason args xs _
pending_ask-append c t tool reason args (_ ∷ xs) ask =
    pending_ask-append c t tool reason args xs ask

-- The log of a call whose ask gets no answer.
ask_gate-log :
    (w : World) (c : ToolCall) (r : Result) (st : RunState) (n : ℕ)
    → w.append st.head_seq (approval_requested st.current_turn_id c.id c.name r.reason c.args)
      ≡ some n
    → w.approve c ≡ none
    → (state_of (ask_gate w c r st)).log
      ≡ st.log ++ (approval_requested st.current_turn_id c.id c.name r.reason c.args ∷ [])
unfolding ask_gate append_event
ask_gate-log w c r st n a p = rw (a, p, append_event) refl

gate_call-log :
    (w : World) (c : ToolCall) (cls : ToolDescriptor) (st : RunState) (d : HookDecision)
    (r : Result) (n : ℕ)
    → w.hook c ≡ some d
    → d.allow ≡ true
    → evaluate w.text w.engine (input_of w st c cls) ≡ result r
    → r.decision ≡ Decision.ask
    → w.append st.head_seq (approval_requested st.current_turn_id c.id c.name r.reason c.args)
      ≡ some n
    → w.approve c ≡ none
    → (state_of (gate_call w c cls st)).log
      ≡ st.log ++ (approval_requested st.current_turn_id c.id c.name r.reason c.args ∷ [])
unfolding gate_call policy_stage decision_stage
gate_call-log w c cls st d r n h b e k a p =
    rw (h, gate_call)
      (rw (b, gate_call)
        (rw (e, policy_stage) (rw (k, decision_stage) (ask_gate-log w c r st n a p))))

-- The durable ask. If the hooks let a call through, the policy asks, and the gate is left without an answer
-- (the process ends, or the context is cancelled), then recovery over the log that is left finds the
-- call among the suspended approvals, provided that its turn is started and not aborted or finished.
pub gate_call-suspended :
    (w : World) (c : ToolCall) (cls : ToolDescriptor) (st : RunState) (d : HookDecision)
    (r : Result) (n : ℕ) (envs : List EventEnvelope) (lookup : SideEffectLookup)
    → w.hook c ≡ some d
    → d.allow ≡ true
    → evaluate w.text w.engine (input_of w st c cls) ≡ result r
    → r.decision ≡ Decision.ask
    → w.append st.head_seq (approval_requested st.current_turn_id c.id c.name r.reason c.args)
      ≡ some n
    → w.approve c ≡ none
    → unfinished (starts_turn st.current_turn_id) (terminates st.current_turn_id) st.log ≡ true
    → events_of envs ≡ (state_of (gate_call w c cls st)).log
    → elem c.id (suspended_call_ids (analyze envs lookup).suspended_approvals) ≡ true
gate_call-suspended w c cls st d r n envs lookup h b e k a p u x =
    let log = x ∙ gate_call-log w c cls st d r n h b e k a p in
    elem-suspended_approvals c.id envs lookup
    ∙ ap (λ es. waits es (pending_ask c.id none es)) log
    ∙ ap
        (waits (st.log ++ (approval_requested st.current_turn_id c.id c.name r.reason c.args ∷ [])))
        (pending_ask-append c.id st.current_turn_id c.name r.reason c.args st.log none)
    ∙ unfinished-open (starts_turn st.current_turn_id) (terminates st.current_turn_id) _ st.log refl
        u
