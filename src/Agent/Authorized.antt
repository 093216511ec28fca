-- ===== src/Agent/Authorized.antt =====
-- internal/orchestrator/app/agent/loop.go: the permissions of a whole run.
use harness_ai.Prelude.{
  ℕ, zero, suc, ◌+◌, ◌≡◌, refl, ap, ◌∙◌, String, true, false, Bool-cases, Option-cases, inl, inr,
  Option, List, [], ◌∷◌, ◌++◌, none, some, leb, arith, eq_refl,
}
use harness_ai.Llm.{Message}
use harness_ai.Domain.{
  Event, tool_execution_started, permission_decided, PermissionDecision, allowed, turn_started,
  turn_finished, TerminationReason, error_max_turns, error_max_budget_usd,
}
use harness_ai.Agent.{RunResult, RunState, Res, done, stopped, and_then, state_of, append_event}
use harness_ai.Agent.Batch.{tool_calls_of}
use harness_ai.Agent.Feed.{
  TurnOutcome, turn_terminal, turn_continue, aborted, handle_calls, handle_tool_calls,
}
use harness_ai.Agent.Guarded.{
  IsGuarded, in_order, last_event, last_event-append, extend, permits_some,
}
use harness_ai.Agent.Permitted.{AtEnd, handle_calls-AtEnd}
use harness_ai.Agent.Logs.{Holds}
use harness_ai.Agent.Frame.{Goes}
use harness_ai.Agent.Walk.{starts, After, After-and_then}
use harness_ai.Agent.Turned.{Clean, Turned, run_turn-Turned}
use harness_ai.Agent.Resumed.{Over, adjudicate_resume-Over, append_user-Keeps, last-Keeps}
use harness_ai.Agent.Ends.{handle_calls-Clean}
use harness_ai.Agent.Driver.{Driver}
use harness_ai.Agent.Turn.{run_turn}
use harness_ai.Agent.Adjudicate.{adjudicate_resume}
use harness_ai.Agent.Run.{
  finish_turn, finish, terminate, on_outcome, run_turns, max_turns_of, RunInput, initial_state,
  append_user, go_on, run,
}

-- A guarded log, after any number of turns.
abbrev Safe : ℕ → List Event → Type 0
Safe n log = IsGuarded log

in_order-quiet : (b : Option Event) (e : Event) → starts e ≡ false → in_order b e ≡ true
in_order-quiet b e h = ground arith

quiet :
    (n : ℕ) (log : List Event) (e : Event)
    → starts e ≡ false
    → Safe n log
    → Safe n (log ++ (e ∷ []))
quiet n log e q h = extend log e h (in_order-quiet (last_event none log) e q)

granted :
    (n : ℕ) (log : List Event) (c name rule reason key : String)
    → Safe n log
    → Safe n (
        (log ++ (permission_decided c name PermissionDecision.ask allowed rule reason ∷ []))
        ++ (tool_execution_started c name key ∷ []))
granted n log c name rule reason key h =
    let p = permission_decided c name PermissionDecision.ask allowed rule reason in
    extend (log ++ (p ∷ [])) (tool_execution_started c name key) (quiet n log p refl h)
      (ap (permits_some c) (last_event-append none log p) ∙ eq_refl c)

module _ (d : Driver) where
  both :
      (r : Res TurnOutcome)
      → Holds AtEnd IsGuarded r
      → Goes (λ o s. Clean o) r
      → After IsGuarded (λ o s. IsGuarded s.log × Clean o) r
  both (done o s) f g = (f, g)
  both (stopped s) f g = f

  handled-Safe :
      (m : Message) (st : RunState)
      → IsGuarded st.log
      → After IsGuarded (λ o s. IsGuarded s.log × Clean o) (handle_tool_calls d.world m st)
  unfolding handle_tool_calls
  handled-Safe m st h =
      both (handle_calls d.world (tool_calls_of m.content) st)
        (handle_calls-AtEnd d.world (tool_calls_of m.content) st h)
        (handle_calls-Clean d.world (tool_calls_of m.content) st)

  module _ {A : Type 0} where
    abbrev Guards : Res A → Type 0
    Guards r = After IsGuarded (λ a s. IsGuarded s.log) r

  module _ {A B : Type 0} where
    step :
        (R : A → RunState → Type 0) (r : Res A) (f : A → RunState → Res B)
        → After IsGuarded R r
        → ((a : A) (st : RunState) → R a st → Guards (f a st))
        → Guards (and_then r f)
    step R r f h g =
        After-and_then d Safe IsGuarded (λ n log h. h) quiet R (λ a s. IsGuarded s.log) r f h g

  at_state : (r : Res (Option RunResult)) → Guards r → IsGuarded (state_of r).log
  at_state (done a s) h = h
  at_state (stopped s) h = h

  event-Guards :
      (st : RunState) (e : Event)
      → starts e ≡ false
      → IsGuarded st.log
      → Guards (append_event d.world st e)
  event-Guards st e q h = last-Keeps d Safe IsGuarded (λ n log h. h) quiet granted st e q h

  finish_turn-Guards :
      (id : String) (reason : TerminationReason) (st : RunState)
      → IsGuarded st.log
      → Guards (and_then (finish_turn d id reason st) (λ a s. done (some a) s))
  unfolding finish_turn
  finish_turn-Guards id reason st h =
      step (λ _ s. IsGuarded s.log) _ _
        (step (λ _ s. IsGuarded s.log) _ _ (event-Guards st _ refl h) (λ _ s g. g)) (λ a s g. g)

  terminate-Guards :
      (reason : TerminationReason) (st : RunState)
      → IsGuarded st.log
      → Guards (and_then (terminate d reason st) (λ a s. done (some a) s))
  unfolding terminate
  terminate-Guards reason st h =
      step (λ _ s. IsGuarded s.log) _ _
        (step (λ _ s. IsGuarded s.log)
          (append_event d.world (record st { minted = st.minted + 1 })
            (turn_started (d.new_id st.minted) d.model))
          _ (event-Guards (record st { minted = st.minted + 1 }) _ refl h)
          (λ _ s g.
            step (λ _ s. IsGuarded s.log)
              (append_event d.world s
                (turn_finished (d.new_id st.minted) reason s.usage s.cost s.num_turns))
              _ (event-Guards s _ refl g) (λ _ t i. i)))
        (λ a s g. g)

  on_outcome-Guards :
      (next : RunState → Res (Option RunResult)) (o : TurnOutcome) (st : RunState)
      → Turned Safe Safe o st
      → ((s : RunState) → IsGuarded s.log → Guards (next s))
      → Guards (on_outcome d next o st)
  unfolding on_outcome finish
  on_outcome-Guards next (turn_terminal reason) st h g =
      finish_turn-Guards st.current_turn_id reason st h
  on_outcome-Guards next turn_continue st h g = g st h
  on_outcome-Guards next (aborted reason) st (e, inl h) g = h
  on_outcome-Guards next (aborted reason) st (e, inr h) g = h

  run_turns-Guards : (fuel : ℕ) (st : RunState) → IsGuarded st.log → Guards (run_turns d fuel st)
  unfolding run_turns
  run_turns-Guards zero st h = h
  run_turns-Guards (suc fuel) st h = elim (Bool-cases (d.over_budget st.cost)) [
    | inl e ↦ rw (e, run_turns) (terminate-Guards error_max_budget_usd st h)
    | inr e ↦ elim (Bool-cases (leb (max_turns_of d) st.num_turns)) [
      | inl l ↦ rw (e, run_turns) (rw (l) (terminate-Guards error_max_turns st h))
      | inr l ↦
          rw (e, run_turns)
            (rw (l) (
              step (Turned Safe Safe) (run_turn d st) _
                (run_turn-Turned d Safe Safe IsGuarded (λ n log h. h) quiet (λ n log h. h) quiet
                  (λ n log h. h) handled-Safe st h)
                (λ o s t.
                  on_outcome-Guards (λ s. run_turns d fuel s) o s t (run_turns-Guards fuel))))
    ]
  ]

  go_on-Guards :
      (input : RunInput) (ended : Option RunResult) (st : RunState)
      → IsGuarded st.log
      → Guards (go_on d input ended st)
  unfolding go_on
  go_on-Guards input (some r) st h = h
  go_on-Guards input none st h =
      step (λ _ s. IsGuarded s.log) (append_user d input.user_message st) _
        (append_user-Keeps d Safe IsGuarded (λ n log h. h) quiet granted input.user_message st h)
        (λ _ s g. run_turns-Guards (suc (max_turns_of d)) s g)

  run-Guards : (input : RunInput) (log : List Event) → IsGuarded log → Guards (run d input log)
  unfolding run
  run-Guards input log h = elim (Option-cases d.load_session) [
    | inl e ↦ rw (e, run) h
    | inr (head, e) ↦
        rw (e, run)
          (step (λ a s. IsGuarded s.log × Over a s)
            (adjudicate_resume d (initial_state input head log)) _
            (adjudicate_resume-Over d Safe IsGuarded (λ n log h. h) quiet granted
              (initial_state input head log) h)
            (λ ended st g. go_on-Guards input ended st g.0))
  ]

  -- No tool is started without a permission, in a whole run. If each start of a tool in the log of a session stands
  -- directly behind a decision that permits that call (an allow of the policy, or an ask that a human allowed), it is so
  -- behind a run on that log too: behind the resume of what a crash has left, all turns, and the end, whether the
  -- run goes through or stops with an error at any step.
  pub run-IsGuarded :
      (input : RunInput) (log : List Event)
      → IsGuarded log
      → IsGuarded (state_of (run d input log)).log
  run-IsGuarded input log h = at_state (run d input log) (run-Guards input log h)
