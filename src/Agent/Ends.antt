-- ===== src/Agent/Ends.antt =====
-- internal/orchestrator/app/agent/loop.go: how a run ends.
use mathlib.Core.Path.{subst}
use harness_ai.Prelude.{
  ℕ, zero, suc, ◌+◌, ◌≤◌, ◌<◌, ◌≡◌, refl, ap, String, Bool-cases, Option-cases, inl, inr, ◌⊎◌,
  Option, List, [], ◌∷◌, none, some, leb, arith, empty_map,
}
use harness_ai.Llm.{ToolCall, Message, Role}
use harness_ai.Domain.{
  Event, turn_started, turn_finished, message_appended, TerminationReason, error_during_execution,
  error_max_turns, error_max_budget_usd,
}
use harness_ai.Agent.{RunResult, RunState, World, Res, done, stopped, and_then, append_event}
use harness_ai.Agent.Batch.{Batch, detect_doom_loop, tool_calls_of, gate_calls}
use harness_ai.Agent.Execute.{dispatch_all}
use harness_ai.Agent.Feed.{
  TurnOutcome, turn_terminal, turn_continue, aborted, merged, feed_results, feed_batch,
  handle_calls, handle_tool_calls,
}
use harness_ai.Agent.Guarded.{last_event, last_event-append}
use harness_ai.Agent.Frame.{Goes, grown, handle_tool_calls-Stays}
use harness_ai.Agent.Walk.{At, After}
use harness_ai.Agent.Turned.{Clean, Turned, run_turn-Turned}
use harness_ai.Agent.Resumed.{Over, adjudicate_resume-Over, append_user-Keeps}
use harness_ai.Agent.Driver.{Driver}
use harness_ai.Agent.Turn.{run_turn}
use harness_ai.Agent.Adjudicate.{adjudicate_resume}
use harness_ai.Agent.Run.{
  finish_turn, finish, terminate, max_turns_of, on_outcome, run_turns, RunInput, initial_state,
  append_user, go_on, run,
}

module _ {A B : Type 0} where
  Goes-then :
      (P : B → RunState → Type 0) (r : Res A) (f : A → RunState → Res B)
      → ((a : A) (st : RunState) → Goes P (f a st))
      → Goes P (and_then r f)
  Goes-then P (done a st) f g = g a st
  Goes-then P (stopped st) f g = tt

module _ {A B : Type 0} where
  -- The next step, behind one of which nothing is said where it stops.
  After-Goes :
      (R : A → RunState → Type 0) (P : B → RunState → Type 0) (r : Res A) (f : A → RunState → Res B)
      → After (λ log. Unit {0}) R r
      → ((a : A) (st : RunState) → R a st → Goes P (f a st))
      → Goes P (and_then r f)
  After-Goes R P (done a st) f h g = g a st h
  After-Goes R P (stopped st) f h g = tt

module _ (w : World) where
  feed_batch-Clean :
      (calls : List ToolCall) (batch : Batch) (st : RunState)
      → Goes (λ o s. Clean o) (feed_batch w calls batch st)
  unfolding feed_batch
  feed_batch-Clean calls (execs, refused) st =
      elim (Option-cases (dispatch_all w execs empty_map empty_map)) [
        | inl e ↦ rw (e, feed_batch) tt
        | inr ((out, plans), e) ↦
            rw (e, feed_batch)
              (Goes-then (λ o s. Clean o) (feed_results w calls (merged refused out) plans [] st) _
                (λ parts s.
                  Goes-then (λ o s. Clean o)
                    (append_event w s
                      (message_appended (record { role = Role.tool; content = parts })))
                    _ (λ _ t. tt)))
      ]

  pub handle_calls-Clean :
      (calls : List ToolCall) (st : RunState) → Goes (λ o s. Clean o) (handle_calls w calls st)
  unfolding handle_calls
  handle_calls-Clean [] st = tt
  handle_calls-Clean (c ∷ cs) st = elim (Bool-cases ((detect_doom_loop w st (c ∷ cs)).0)) [
    | inl e ↦ rw (e, handle_calls) tt
    | inr e ↦
        rw (e, handle_calls)
          (Goes-then (λ o s. Clean o)
            (gate_calls w (c ∷ cs) [] empty_map (detect_doom_loop w st (c ∷ cs)).1) _
            (λ batch s. feed_batch-Clean (c ∷ cs) batch s))
  ]

-- The number of turns, where nothing is said of the log.
abbrev Counts : ℕ → ℕ → List Event → Type 0
Counts k n log = n ≡ k

both :
    (k : ℕ) (r : Res TurnOutcome)
    → Goes (λ o s. s.num_turns ≡ k) r
    → Goes (λ o s. Clean o) r
    → After (λ log. Unit {0}) (λ o s. At (Counts k) s × Clean o) r
both k (done o s) f g = (f, g)
both k (stopped s) f g = tt

handled-Counts :
    (w : World) (k : ℕ) (m : Message) (st : RunState)
    → st.num_turns ≡ k
    → After (λ log. Unit {0}) (λ o s. At (Counts k) s × Clean o) (handle_tool_calls w m st)
unfolding handle_tool_calls
handled-Counts w k m st h =
    both k (handle_calls w (tool_calls_of m.content) st)
      (handle_tool_calls-Stays w (λ s. s.num_turns ≡ k) (λ s n e i. i) (λ s sig c i. i) m st h)
      (handle_calls-Clean w (tool_calls_of m.content) st)

module _ (d : Driver) where
  -- A result is there, it is within the cap, and the log ends with it where it is no error.
  abbrev Ended : RunResult → RunState → Type 0
  Ended r st =
      (r.num_turns ≤ max_turns_of d)
      × ((r.reason ≡ error_during_execution)
          ⊎ ((id : String) × (last_event none st.log
                ≡ some (turn_finished id r.reason r.usage r.cost r.num_turns))))

  abbrev Answers : Option RunResult → RunState → Type 0
  Answers none st = ⊥
  Answers (some r) st = Ended r st

  finish_turn-Ended :
      (id : String) (reason : TerminationReason) (st : RunState)
      → st.num_turns ≤ max_turns_of d
      → Goes Answers (and_then (finish_turn d id reason st) (λ a s. done (some a) s))
  unfolding finish_turn append_event
  finish_turn-Ended id reason st h =
      let e = turn_finished id reason st.usage st.cost st.num_turns in
      elim (Option-cases
        (d.world.append st.head_seq (turn_finished id reason st.usage st.cost st.num_turns))) [
          | inl x ↦ rw (x, append_event) tt
          | inr (n, x) ↦ rw (x, append_event) (h, inr (id, last_event-append none st.log e))
        ]

  terminate-Ended :
      (reason : TerminationReason) (st : RunState)
      → st.num_turns ≤ max_turns_of d
      → Goes Answers (and_then (terminate d reason st) (λ a s. done (some a) s))
  unfolding terminate append_event
  terminate-Ended reason st h =
      elim (Option-cases (d.world.append st.head_seq (turn_started (d.new_id st.minted) d.model))) [
        | inl x ↦ rw (x, append_event) tt
        | inr (n, x) ↦
            rw (x, append_event)
              (finish_turn-Ended (d.new_id st.minted) reason
                (grown (record st { minted = st.minted + 1 }) n
                  (turn_started (d.new_id st.minted) d.model))
                h)
      ]

  counted :
      (st : RunState)
      → After
          (λ log. Unit {0})
          (Turned (Counts st.num_turns) (Counts (st.num_turns + 1)))
          (run_turn d st)
  counted st =
      run_turn-Turned d (Counts st.num_turns) (Counts (st.num_turns + 1)) (λ log. Unit)
        (λ n log h. tt) (λ n log e q h. h) (λ n log h. tt) (λ n log e q h. h)
        (λ n log h. ap (λ x. x + 1) h) (handled-Counts d.world (st.num_turns + 1)) st refl

  on_outcome-Ended :
      (next : RunState → Res (Option RunResult)) (n : ℕ) (o : TurnOutcome) (st : RunState)
      → n < max_turns_of d
      → Turned (Counts n) (Counts (n + 1)) o st
      → ((s : RunState) → s.num_turns ≡ n + 1 → Goes Answers (next s))
      → Goes Answers (on_outcome d next o st)
  unfolding on_outcome finish
  on_outcome-Ended next n (turn_terminal reason) st l h g =
      finish_turn-Ended st.current_turn_id reason st (omega arith)
  on_outcome-Ended next n turn_continue st l h g = g st h
  on_outcome-Ended next n (aborted reason) st l (e, inl h) g = (omega arith, inl e)
  on_outcome-Ended next n (aborted reason) st l (e, inr h) g = (omega arith, inl e)

  run_turns-Ended :
      (fuel : ℕ) (st : RunState)
      → st.num_turns ≤ max_turns_of d
      → st.num_turns + fuel ≡ suc (max_turns_of d)
      → Goes Answers (run_turns d fuel st)
  unfolding run_turns
  run_turns-Ended zero st h f = absurd (omega arith)
  run_turns-Ended (suc fuel) st h f = elim (Bool-cases (d.over_budget st.cost)) [
    | inl e ↦ rw (e, run_turns) (terminate-Ended error_max_budget_usd st h)
    | inr e ↦ elim (Bool-cases (leb (max_turns_of d) st.num_turns)) [
      | inl l ↦ rw (e, run_turns) (rw (l) (terminate-Ended error_max_turns st h))
      | inr l ↦
          rw (e, run_turns)
            (rw (l) (
              After-Goes (Turned (Counts st.num_turns) (Counts (st.num_turns + 1))) Answers
                (run_turn d st) _ (counted st)
                (λ o s t.
                  on_outcome-Ended (λ s. run_turns d fuel s) st.num_turns o s (ground arith) t
                    (λ s i. run_turns-Ended fuel s (ground arith) (omega arith)))))
    ]
  ]

  go_on-Ended :
      (input : RunInput) (ended : Option RunResult) (st : RunState)
      → st.num_turns ≡ 0
      → Over ended st
      → Goes Answers (go_on d input ended st)
  unfolding go_on
  go_on-Ended input (some r) st h o =
      (rw (ap (λ r. r.num_turns) o) (omega arith), inl (ap (λ r. r.reason) o))
  go_on-Ended input none st h o =
      After-Goes (λ _ s. s.num_turns ≡ 0) Answers (append_user d input.user_message st) _
        (append_user-Keeps d (Counts 0) (λ log. Unit) (λ n log h. tt) (λ n log e q h. h)
          (λ n log c name rule reason key h. h) input.user_message st h)
        (λ _ s g. run_turns-Ended (suc (max_turns_of d)) s (omega arith) (omega arith))

  run-Ended : (input : RunInput) (log : List Event) → Goes Answers (run d input log)
  unfolding run
  run-Ended input log = elim (Option-cases d.load_session) [
    | inl e ↦ rw (e, run) tt
    | inr (head, e) ↦
        rw (e, run)
          (After-Goes (λ a s. (s.num_turns ≡ 0) × Over a s) Answers
            (adjudicate_resume d (initial_state input head log)) _
            (adjudicate_resume-Over d (Counts 0) (λ log. Unit) (λ n log h. tt) (λ n log e q h. h)
              (λ n log c name rule reason key h. h) (initial_state input head log) refl)
            (λ ended st h. go_on-Ended input ended st h.0 h.1))
  ]

-- The loop of turns ends. Where a run goes through without an error of a port, it has a result, whatever the model answers and however
-- often it asks for tools, and the result counts no more turns than the cap of the settings.
pub run-bounded :
    (d : Driver) (input : RunInput) (log : List Event) (answer : Option RunResult) (st : RunState)
    → run d input log ≡ done answer st
    → (r : RunResult) × (answer ≡ some r) × (r.num_turns ≤ max_turns_of d)
run-bounded d input log none st e = absurd (subst (Goes (Answers d)) e (run-Ended d input log))
run-bounded d input log (some r) st e =
    (r, refl, (subst (Goes (Answers d)) e (run-Ended d input log)).0)

-- The log ends with the result. The last event behind a run that has a result whose reason is not
-- error_during_execution is the TurnFinished with the reason, the usage, the cost and the number of turns
-- of that result.
pub run-finished :
    (d : Driver) (input : RunInput) (log : List Event) (r : RunResult) (st : RunState)
    → run d input log ≡ done (some r) st
    → (r.reason ≡ error_during_execution)
      ⊎ ((id : String) × (last_event none st.log
            ≡ some (turn_finished id r.reason r.usage r.cost r.num_turns)))
run-finished d input log r st e = (subst (Goes (Answers d)) e (run-Ended d input log)).1
