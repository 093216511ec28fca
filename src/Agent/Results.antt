-- ===== src/Agent/Results.antt =====
-- A batch that goes through leaves a result of each of its calls: none is of unknown outcome.
use mathlib.Core.Path.{subst}
use harness_ai.Prelude.{
  ◌≡◌, refl, ap, ◌∙◌, String, Bool, true, false, Option-cases, Bool-cases, inl, inr, List, [], ◌∷◌,
  ◌++◌, Map, empty_map, All, All-map, any-append, elem, eq_refl, arith,
}
use harness_ai.Llm.{ToolCall, ContentPart, Message}
use harness_ai.Domain.{Event, EventEnvelope, plan_updated, PlanItem}
use harness_ai.Agent.{ToolOutput, RunState, World, Res, done, stopped, append_event}
use harness_ai.Agent.Batch.{Batch, gate_calls, tool_calls_of, detect_doom_loop}
use harness_ai.Agent.Execute.{dispatch_all}
use harness_ai.Agent.Feed.{
  append_plan, feed_results, TurnOutcome, turn_terminal, turn_continue, aborted, feed_batch,
  handle_calls, handle_tool_calls,
}
use harness_ai.Agent.Logs.{Holds, Holds-and_then, Holds-append_event, Holds-map}
use harness_ai.Recovery.Fold.{events_of}
use harness_ai.Recovery.Collect.{SideEffectLookup, analyze}
use harness_ai.Recovery.Spec.{unfinished, starts_exec, has_result}
use harness_ai.Recovery.Executions.{unknown_call_ids, elem-unknown_executions}

module _ (s f : Event → Bool) (e : Event) (other : s e ≡ false) where
  unfinished-finish : (xs : List Event) → f e ≡ true → unfinished s f (xs ++ (e ∷ [])) ≡ false
  unfinished-finish [] h = ground (arith, other)
  unfinished-finish (x ∷ xs) h = ground (arith, any-append f xs (e ∷ []), unfinished-finish xs h, h)

  unfinished-keep :
      (xs : List Event) → unfinished s f xs ≡ false → unfinished s f (xs ++ (e ∷ [])) ≡ false
  unfinished-keep [] h = ground (arith, other)
  unfinished-keep (x ∷ xs) h = elim (Bool-cases (s x)) [
    | inl g ↦ ground (arith, any-append f xs (e ∷ []))
    | inr g ↦ ground (arith, unfinished-keep xs (ground arith))
  ]

-- The log holds no start of the call without a result behind it.
abbrev pub Closed : List Event → ToolCall → Type 0
Closed log c = unfinished (starts_exec c.id) (has_result c.id) log ≡ false

abbrev Closes : {A : Type 0} → List ToolCall → A → List Event → Type 0
Closes ds a log = All (Closed log) ds

abbrev Any : List Event → Type 0
Any log = Unit

Closes-grow :
    (ds : List ToolCall) (log new : List Event) (e : Event)
    → ((c : String) → starts_exec c e ≡ false)
    → new ≡ log ++ (e ∷ [])
    → All (Closed log) ds
    → All (Closed new) ds
Closes-grow ds log new e h x =
    All-map (λ c g. rw (x) (unfinished-keep (starts_exec c.id) (has_result c.id) e (h c.id) log g))
      ds

anything : {A : Type 0} (r : Res A) → Holds (λ a log. Unit {0}) Any r
anything (done a st) = tt
anything (stopped st) = tt

module _ (w : World) where
  append_plan-Closes :
      (ds : List ToolCall) (id : String) (plans : Map (List PlanItem)) (st : RunState)
      → All (Closed st.log) ds
      → Holds (Closes ds) Any (append_plan w id plans st)
  unfolding append_plan append_event
  append_plan-Closes ds id plans st h = elim (Option-cases (plans id)) [
    | inl e ↦ rw (e, append_plan) h
    | inr (items, e) ↦
        rw (e, append_plan)
          (elim (Option-cases (w.append st.head_seq (plan_updated st.current_turn_id items))) [
            | inl x ↦ rw (x, append_event) tt
            | inr (n, x) ↦
                rw (x, append_event)
                  (Closes-grow ds st.log _ (plan_updated st.current_turn_id items) (λ c. refl) refl
                    h)
          ])
  ]

  feed_results-Closes :
      (cs ds : List ToolCall) (results : Map ToolOutput) (plans : Map (List PlanItem))
      (parts : List ContentPart) (st : RunState)
      → All (Closed st.log) ds
      → Holds
          (λ a log. All (Closed log) ds × All (Closed log) cs)
          Any
          (feed_results w cs results plans parts st)
  unfolding feed_results
  feed_results-Closes [] ds results plans parts st h = (h, tt)
  feed_results-Closes (c ∷ cs) ds results plans parts st h =
      Holds-and_then (Closes ds) (λ a log. All (Closed log) ds × All (Closed log) (c ∷ cs)) Any
        (append_plan w c.id plans st) _ (append_plan-Closes ds c.id plans st h)
        (λ u s g.
          Holds-append_event (λ a log. All (Closed log) ds × All (Closed log) (c ∷ cs)) Any w s _ _
            tt
            (λ t x.
              Holds-map (λ a log. All (Closed log) (c ∷ ds) × All (Closed log) cs) Any
                (λ a log. All (Closed log) ds × All (Closed log) (c ∷ cs)) _
                (λ a log k. (k.0.1, (k.0.0, k.1)))
                (feed_results-Closes cs (c ∷ ds) results plans _ t (
                  rw (x) (
                      unfinished-finish (starts_exec c.id) (has_result c.id) _ refl s.log
                        (eq_refl c.id)),
                  Closes-grow ds s.log t.log _ (λ d. refl) x g,
                ))))

  abbrev Settles : List ToolCall → TurnOutcome → List Event → Type 0
  Settles cs turn_continue log = All (Closed log) cs
  Settles cs (turn_terminal r) log = Unit
  Settles cs (aborted r) log = Unit

  feed_batch-Settles :
      (calls : List ToolCall) (batch : Batch) (st : RunState)
      → Holds (Settles calls) Any (feed_batch w calls batch st)
  unfolding feed_batch
  feed_batch-Settles calls (execs, refused) st =
      elim (Option-cases (dispatch_all w execs empty_map empty_map)) [
        | inl e ↦ rw (e, feed_batch) tt
        | inr ((out, plans), e) ↦
            rw (e, feed_batch)
              (Holds-and_then (λ a log. All (Closed log) [] × All (Closed log) calls)
                (Settles calls) Any _ _ (feed_results-Closes calls [] _ plans [] st tt)
                (λ parts s g.
                  Holds-append_event (Settles calls) Any w s _ _ tt
                    (λ t x. Closes-grow calls s.log t.log _ (λ d. refl) x g.1)))
      ]

  handle_calls-Settles :
      (calls : List ToolCall) (st : RunState) → Holds (Settles calls) Any (handle_calls w calls st)
  unfolding handle_calls
  handle_calls-Settles [] st = tt
  handle_calls-Settles (c ∷ cs) st = elim (Bool-cases ((detect_doom_loop w st (c ∷ cs)).0)) [
    | inl e ↦ rw (e, handle_calls) tt
    | inr e ↦
        rw (e, handle_calls)
          (Holds-and_then (λ a log. Unit) (Settles (c ∷ cs)) Any _ _
            (anything (gate_calls w (c ∷ cs) [] empty_map (detect_doom_loop w st (c ∷ cs)).1))
            (λ batch s g. feed_batch-Settles (c ∷ cs) batch s))
  ]

  -- If the handling of a message with tool calls goes through, then recovery over a log that ends
  -- there finds none of its calls among the executions of unknown outcome: each call that was started
  -- has its result behind the start.
  pub handle_tool_calls-closed :
      (msg : Message) (st new : RunState) (envs : List EventEnvelope) (lookup : SideEffectLookup)
      → handle_tool_calls w msg st ≡ done turn_continue new
      → events_of envs ≡ new.log
      → All
          (λ c. elem c.id (unknown_call_ids (analyze envs lookup).unknown_executions) ≡ false)
          (tool_calls_of msg.content)
  unfolding handle_tool_calls
  handle_tool_calls-closed msg st new envs lookup h x =
      All-map
        (λ c g.
          elem-unknown_executions c.id envs lookup
          ∙ ap (unfinished (starts_exec c.id) (has_result c.id)) x
          ∙ g)
        (tool_calls_of msg.content)
        (subst (Holds (Settles (tool_calls_of msg.content)) Any) h
          (handle_calls-Settles (tool_calls_of msg.content) st))
