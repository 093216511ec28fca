-- ===== src/Agent/Permitted.antt =====
-- A whole batch of calls keeps the log guarded, where it goes through and where it stops.
use harness_ai.Prelude.{
  ◌≡◌, refl, String, Option-cases, Bool-cases, inl, inr, List, [], ◌∷◌, Map, empty_map, put, arith,
}
use harness_ai.Llm.{ToolCall, ContentPart}
use harness_ai.Domain.{Event, plan_updated, PlanItem}
use harness_ai.Agent.{ToolOutput, RunState, World, Res, append_event}
use harness_ai.Agent.Gate.{GateAnswer, dispatch, refuse, gate_call}
use harness_ai.Agent.Batch.{
  ScheduledExec, Batch, class_of, after_gate, gate_calls, detect_doom_loop,
}
use harness_ai.Agent.Execute.{dispatch_all}
use harness_ai.Agent.Feed.{append_plan, feed_results, feed_batch, handle_calls}
use harness_ai.Agent.Logs.{Holds, Holds-and_then, Holds-append_event}
use harness_ai.Agent.Guarded.{IsGuarded, AtGate, extend, grow, gate_call-AtGate}

abbrev pub AtEnd {ℓ} : {A : Type ℓ} → A → List Event → Type 0
AtEnd a log = IsGuarded log

detect_doom_loop-log :
    (w : World) (st : RunState) (calls : List ToolCall)
    → (detect_doom_loop w st calls).1.log ≡ st.log
unfolding detect_doom_loop
detect_doom_loop-log w st calls = ground arith

module _ (w : World) where
  after_gate-AtEnd :
      (c : ToolCall) (execs : List ScheduledExec) (results : Map ToolOutput)
      (next : List ScheduledExec → Map ToolOutput → RunState → Res Batch) (answer : GateAnswer)
      (st : RunState)
      → ((es : List ScheduledExec) (rs : Map ToolOutput) (s : RunState)
          → IsGuarded s.log
          → Holds AtEnd IsGuarded (next es rs s))
      → AtGate c.id answer st.log
      → Holds AtEnd IsGuarded (after_gate w c execs results next answer st)
  unfolding after_gate
  after_gate-AtEnd c execs results next (refuse o) st h g = h execs (put results c.id o) st g
  after_gate-AtEnd c execs results next dispatch st h (g, p) =
      Holds-append_event AtEnd IsGuarded w st _ _ g
        (λ s x. h _ results s (rw (x) (extend st.log _ g p)))

  gate_calls-AtEnd :
      (cs : List ToolCall) (execs : List ScheduledExec) (results : Map ToolOutput) (st : RunState)
      → IsGuarded st.log
      → Holds AtEnd IsGuarded (gate_calls w cs execs results st)
  unfolding gate_calls
  gate_calls-AtEnd [] execs results st h = h
  gate_calls-AtEnd (c ∷ cs) execs results st h =
      Holds-and_then (AtGate c.id) AtEnd IsGuarded (gate_call w c (class_of w c.name) st) _
        (gate_call-AtGate w c (class_of w c.name) st h)
        (λ answer s g.
          after_gate-AtEnd c execs results (gate_calls w cs) answer s (gate_calls-AtEnd cs) g)

  append_plan-AtEnd :
      (id : String) (plans : Map (List PlanItem)) (st : RunState)
      → IsGuarded st.log
      → Holds AtEnd IsGuarded (append_plan w id plans st)
  unfolding append_plan append_event
  append_plan-AtEnd id plans st h = elim (Option-cases (plans id)) [
    | inl e ↦ rw (e, append_plan) h
    | inr (items, e) ↦
        rw (e, append_plan)
          (elim (Option-cases (w.append st.head_seq (plan_updated st.current_turn_id items))) [
            | inl x ↦ rw (x, append_event) h
            | inr (n, x) ↦
                rw (x, append_event) (extend st.log (plan_updated st.current_turn_id items) h refl)
          ])
  ]

  feed_results-AtEnd :
      (cs : List ToolCall) (results : Map ToolOutput) (plans : Map (List PlanItem))
      (parts : List ContentPart) (st : RunState)
      → IsGuarded st.log
      → Holds AtEnd IsGuarded (feed_results w cs results plans parts st)
  unfolding feed_results
  feed_results-AtEnd [] results plans parts st h = h
  feed_results-AtEnd (c ∷ cs) results plans parts st h =
      Holds-and_then AtEnd AtEnd IsGuarded (append_plan w c.id plans st) _
        (append_plan-AtEnd c.id plans st h)
        (λ u s g.
          Holds-append_event AtEnd IsGuarded w s _ _ g
            (λ t x. feed_results-AtEnd cs results plans _ t (grow s t _ g (λ b. refl) x).0))

  feed_batch-AtEnd :
      (calls : List ToolCall) (batch : List ScheduledExec × Map ToolOutput) (st : RunState)
      → IsGuarded st.log
      → Holds AtEnd IsGuarded (feed_batch w calls batch st)
  unfolding feed_batch
  feed_batch-AtEnd calls (execs, refused) st h =
      elim (Option-cases (dispatch_all w execs empty_map empty_map)) [
        | inl e ↦ rw (e, feed_batch) h
        | inr ((out, plans), e) ↦
            rw (e, feed_batch)
              (Holds-and_then AtEnd AtEnd IsGuarded _ _ (feed_results-AtEnd calls _ plans [] st h)
                (λ parts s g.
                  Holds-append_event AtEnd IsGuarded w s _ _ g
                    (λ t x. (grow s t _ g (λ b. refl) x).0)))
      ]

  pub handle_calls-AtEnd :
      (calls : List ToolCall) (st : RunState)
      → IsGuarded st.log
      → Holds AtEnd IsGuarded (handle_calls w calls st)
  unfolding handle_calls
  handle_calls-AtEnd [] st h = h
  handle_calls-AtEnd (c ∷ cs) st h =
      let test = detect_doom_loop w st (c ∷ cs) in
      let kept : IsGuarded (detect_doom_loop w st (c ∷ cs)).1.log =
        rw (detect_doom_loop-log w st (c ∷ cs)) h in
      elim (Bool-cases ((detect_doom_loop w st (c ∷ cs)).0)) [
        | inl e ↦ rw (e, handle_calls) kept
        | inr e ↦
            rw (e, handle_calls)
              (Holds-and_then AtEnd AtEnd IsGuarded _ _
                (gate_calls-AtEnd (c ∷ cs) [] empty_map (detect_doom_loop w st (c ∷ cs)).1 kept)
                (λ batch s g. feed_batch-AtEnd (c ∷ cs) batch s g))
      ]
