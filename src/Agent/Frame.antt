-- ===== src/Agent/Frame.antt =====
-- internal/orchestrator/app/agent/tools.go: what every step of a batch of tool calls keeps of the state: whatever appending
-- an event and the doom-loop test keep.
use harness_ai.Prelude.{
  ◌+◌, str_eq, ℕ, ◌≡◌, refl, String, Bool-cases, Option-cases, inl, inr, List, [], ◌∷◌, ◌++◌, Map,
  empty_map,
}
use harness_ai.Llm.{ToolCall, ContentPart, Message}
use harness_ai.Domain.{Event, AskResolution, unresolved, allowed, denied, PlanItem, plan_updated}
use harness_ai.Policy.{Decision, Result}
use harness_ai.Policy.Engine.{Evaluation, result, bypass_forbidden, evaluate}
use harness_ai.Agent.{
  ToolDescriptor, ToolOutput, RunState, World, Res, done, stopped, and_then, append_event,
}
use harness_ai.Agent.Gate.{
  GateAnswer, dispatch, refuse, gate_call, policy_stage, decision_stage, ask_gate, resolved_stage,
  input_of,
}
use harness_ai.Agent.Batch.{
  ScheduledExec, Batch, after_gate, gate_calls, class_of, detect_doom_loop, tool_calls_of,
  tool_batch_signature,
}
use harness_ai.Agent.Execute.{dispatch_all}
use harness_ai.Agent.Feed.{append_plan, feed_results, feed_batch, handle_calls, handle_tool_calls}

module _ {A : Type 0} where
  -- The answer and the state of a step that goes through.
  abbrev pub Goes : (A → RunState → Type 0) → Res A → Type 0
  Goes P (done a st) = P a st
  Goes P (stopped st) = Unit

abbrev pub grown : RunState → ℕ → Event → RunState
grown st n e = record st { head_seq = n; log = st.log ++ (e ∷ []) }

abbrev pub signed : RunState → String → ℕ → RunState
signed st sig count = record st { last_tool_sig = sig; repeat_count = count }

module _ (w : World) (I : RunState → Type 0)
    (kept : (st : RunState) (n : ℕ) (e : Event) → I st → I (grown st n e)) where
  module _ {A : Type 0} where
    abbrev pub Stays : Res A → Type 0
    Stays r = Goes (λ a st. I st) r

    pub Goes-append_event :
        (P : A → RunState → Type 0) (st : RunState) (e : Event) (f : Unit {0} → RunState → Res A)
        → I st
        → ((s : RunState) → I s → Goes P (f tt s))
        → Goes P (and_then (append_event w st e) f)
    unfolding append_event
    Goes-append_event P st e f h g = elim (Option-cases (w.append st.head_seq e)) [
      | inl x ↦ rw (x, append_event) tt
      | inr (n, x) ↦ rw (x, append_event) (g (grown st n e) (kept st n e h))
    ]

  module _ {A B : Type 0} where
    pub Goes-and_then :
        (P : B → RunState → Type 0) (r : Res A) (f : A → RunState → Res B)
        → Stays r
        → ((a : A) (st : RunState) → I st → Goes P (f a st))
        → Goes P (and_then r f)
    Goes-and_then P (done a st) f h g = g a st h
    Goes-and_then P (stopped st) f h g = tt

  module _ (c : ToolCall) where
    -- An event, and an answer.
    logged :
        (a : GateAnswer) (st : RunState) (e : Event)
        → I st
        → Stays (and_then (append_event w st e) (λ _ s. done a s))
    logged a st e h = Goes-append_event (λ a st. I st) st e _ h (λ s i. i)

    resolved_stage-Stays :
        (r : Result) (answer : AskResolution) (st : RunState)
        → I st
        → Stays (resolved_stage w c r answer st)
    unfolding resolved_stage
    resolved_stage-Stays r allowed st h = logged _ st _ h
    resolved_stage-Stays r denied st h = logged _ st _ h
    resolved_stage-Stays r unresolved st h = logged _ st _ h

    ask_gate-Stays : (r : Result) (st : RunState) → I st → Stays (ask_gate w c r st)
    unfolding ask_gate
    ask_gate-Stays r st h =
        Goes-append_event (λ a st. I st) st _ _ h
          (λ s i. elim (Option-cases (w.approve c)) [
            | inl e ↦ rw (e) tt
            | inr (answer, e) ↦ rw (e) (resolved_stage-Stays r answer s i)
          ])

    decision_stage-Stays :
        (r : Result) (d : Decision) (st : RunState)
        → r.decision ≡ d
        → I st
        → Stays (decision_stage w c r st)
    unfolding decision_stage
    decision_stage-Stays r Decision.deny st e h = rw (e, decision_stage) (logged _ st _ h)
    decision_stage-Stays r Decision.allow st e h = rw (e, decision_stage) (logged _ st _ h)
    decision_stage-Stays r Decision.ask st e h = rw (e, decision_stage) (ask_gate-Stays r st h)

    policy_stage-Stays :
        (cls : ToolDescriptor) (st : RunState) (v : Evaluation)
        → evaluate w.text w.engine (input_of w st c cls) ≡ v
        → I st
        → Stays (policy_stage w c cls st)
    unfolding policy_stage
    policy_stage-Stays cls st bypass_forbidden e h = rw (e, policy_stage) tt
    policy_stage-Stays cls st (result r) e h =
        rw (e, policy_stage) (decision_stage-Stays r r.decision st refl h)

    pub gate_call-Stays :
        (cls : ToolDescriptor) (st : RunState) → I st → Stays (gate_call w c cls st)
    unfolding gate_call
    gate_call-Stays cls st h = elim (Option-cases (w.hook c)) [
      | inl e ↦ rw (e, gate_call) tt
      | inr (d, e) ↦ elim (Bool-cases d.allow) [
        | inl f ↦ rw (e, gate_call) (rw (f, gate_call) (policy_stage-Stays cls st _ refl h))
        | inr f ↦ rw (e, gate_call) (rw (f, gate_call) (logged _ st _ h))
      ]
    ]

  append_plan-Stays :
      (id : String) (plans : Map (List PlanItem)) (st : RunState)
      → I st
      → Stays (append_plan w id plans st)
  unfolding append_plan append_event
  append_plan-Stays id plans st h = elim (Option-cases (plans id)) [
    | inl e ↦ rw (e, append_plan) h
    | inr (items, e) ↦
        rw (e, append_plan)
          (elim (Option-cases (w.append st.head_seq (plan_updated st.current_turn_id items))) [
            | inl x ↦ rw (x, append_event) tt
            | inr (n, x) ↦
                rw (x, append_event) (kept st n (plan_updated st.current_turn_id items) h)
          ])
  ]

  feed_results-Stays :
      (cs : List ToolCall) (results : Map ToolOutput) (plans : Map (List PlanItem))
      (parts : List ContentPart) (st : RunState)
      → I st
      → Stays (feed_results w cs results plans parts st)
  unfolding feed_results
  feed_results-Stays [] results plans parts st h = h
  feed_results-Stays (c ∷ cs) results plans parts st h =
      Goes-and_then (λ a st. I st) (append_plan w c.id plans st) _
        (append_plan-Stays c.id plans st h)
        (λ u s g.
          Goes-append_event (λ a st. I st) s _ _ g
            (λ t i. feed_results-Stays cs results plans _ t i))

  feed_batch-Stays :
      (calls : List ToolCall) (batch : Batch) (st : RunState)
      → I st
      → Stays (feed_batch w calls batch st)
  unfolding feed_batch
  feed_batch-Stays calls (execs, refused) st h =
      elim (Option-cases (dispatch_all w execs empty_map empty_map)) [
        | inl e ↦ rw (e, feed_batch) tt
        | inr ((out, plans), e) ↦
            rw (e, feed_batch)
              (Goes-and_then (λ a st. I st) _ _ (feed_results-Stays calls _ plans [] st h)
                (λ parts s g. Goes-append_event (λ a st. I st) s _ _ g (λ t i. i)))
      ]

  after_gate-Stays :
      (c : ToolCall) (execs : List ScheduledExec) (results : Map ToolOutput)
      (next : List ScheduledExec → Map ToolOutput → RunState → Res Batch) (answer : GateAnswer)
      (st : RunState)
      → ((es : List ScheduledExec) (rs : Map ToolOutput) (s : RunState)
          → I s
          → Stays (next es rs s))
      → I st
      → Stays (after_gate w c execs results next answer st)
  unfolding after_gate
  after_gate-Stays c execs results next (refuse o) st h i = h execs _ st i
  after_gate-Stays c execs results next dispatch st h i =
      Goes-append_event (λ a st. I st) st _ _ i (λ s j. h _ results s j)

  gate_calls-Stays :
      (cs : List ToolCall) (execs : List ScheduledExec) (results : Map ToolOutput) (st : RunState)
      → I st
      → Stays (gate_calls w cs execs results st)
  unfolding gate_calls
  gate_calls-Stays [] execs results st i = i
  gate_calls-Stays (c ∷ cs) execs results st i =
      Goes-and_then (λ a st. I st) (gate_call w c (class_of w c.name) st) _
        (gate_call-Stays c (class_of w c.name) st i)
        (λ answer s j.
          after_gate-Stays c execs results (gate_calls w cs) answer s (gate_calls-Stays cs) j)

  module _
      (kept_sig : (st : RunState) (sig : String) (count : ℕ) → I st → I (signed st sig count)) where
    detect_doom_loop-Stays :
        (st : RunState) (calls : List ToolCall) → I st → I (detect_doom_loop w st calls).1
    unfolding detect_doom_loop
    detect_doom_loop-Stays st calls h = elim (Option-cases w.doom_loop_threshold) [
      | inl e ↦ rw (e, detect_doom_loop) h
      | inr (n, e) ↦
          rw (e, detect_doom_loop)
            (elim (Bool-cases (str_eq (tool_batch_signature w calls) st.last_tool_sig)) [
              | inl f ↦ rw (f) (kept_sig st st.last_tool_sig (st.repeat_count + 1) h)
              | inr f ↦ rw (f) (kept_sig st (tool_batch_signature w calls) 1 h)
            ])
    ]

    handle_calls-Stays :
        (calls : List ToolCall) (st : RunState) → I st → Stays (handle_calls w calls st)
    unfolding handle_calls
    handle_calls-Stays [] st h = h
    handle_calls-Stays (c ∷ cs) st h =
        let i = detect_doom_loop-Stays st (c ∷ cs) h in
        elim (Bool-cases ((detect_doom_loop w st (c ∷ cs)).0)) [
          | inl e ↦ rw (e, handle_calls) i
          | inr e ↦
              rw (e, handle_calls)
                (Goes-and_then (λ a st. I st) _ _
                  (gate_calls-Stays (c ∷ cs) [] empty_map (detect_doom_loop w st (c ∷ cs)).1 i)
                  (λ batch s g. feed_batch-Stays (c ∷ cs) batch s g))
        ]

    pub handle_tool_calls-Stays :
        (msg : Message) (st : RunState) → I st → Stays (handle_tool_calls w msg st)
    unfolding handle_tool_calls
    handle_tool_calls-Stays msg st h = handle_calls-Stays (tool_calls_of msg.content) st h
