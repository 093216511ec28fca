-- ===== src/Agent/Resumed.antt =====
-- internal/orchestrator/app/agent/loop.go: what the adjudication of a crashed run keeps of the number of turns and of the log.
use harness_ai.Prelude.{
  ℕ, ◌≡◌, refl, String, Bool, true, false, Option-cases, inl, inr, Option, List, [], ◌∷◌, ◌++◌,
  none, some,
}
use harness_ai.Llm.{ToolCall, Message, ContentPart}
use harness_ai.Domain.{
  Event, EventEnvelope, tool_execution_started, AskResolution, allowed, denied, unresolved,
  PermissionDecision, permission_decided, error_during_execution,
}
use harness_ai.Recovery.{SuspendedApproval, OpenTurn, Plan}
use harness_ai.Recovery.Collect.{analyze}
use harness_ai.Agent.{
  RunResult, result_of, ToolOutput, RunState, Res, done, stopped, and_then, append_event,
}
use harness_ai.Agent.Batch.{derive_idempotency_key}
use harness_ai.Agent.Execute.{exec_one}
use harness_ai.Agent.Frame.{grown}
use harness_ai.Agent.Walk.{starts, At, After, After-append_event, After-and_then, load_log-Keeps}
use harness_ai.Agent.Driver.{
  Driver, Reraised, resolved, unanswered, interrupted, load_log, compute_cost,
}
use harness_ai.Agent.Turn.{add_to_cost, add_to_usage}
use harness_ai.Agent.Adjudicate.{
  feed_tool_result, abandon_suspended_approval, dispatch_resumed, decide_resumed, exec_of, call_of,
  with_turn, assistant_seq_of, resume_suspended_approval, unless_abandoned, resume_all, close_turns,
  if_abandoned, adjudicate, adjudicate_log, adjudicate_resume, side_effect_lookup,
}
use harness_ai.Agent.Run.{append_user}

-- The answer of a run that is over is an error, with the counts of its state.
abbrev pub Over : Option RunResult → RunState → Type 0
Over none st = Unit
Over (some r) st = r ≡ result_of st error_during_execution

module _ (d : Driver) (I : ℕ → List Event → Type 0) (S : List Event → Type 0)
    (quits : (n : ℕ) (log : List Event) → I n log → S log)
    (quiet : (n : ℕ) (log : List Event) (e : Event)
      → starts e ≡ false
      → I n log
      → I n (log ++ (e ∷ [])))
    (granted : (n : ℕ) (log : List Event) (c name rule reason key : String)
      → I n log
      → I n (
          (log ++ (permission_decided c name PermissionDecision.ask allowed rule reason ∷ []))
          ++ (tool_execution_started c name key ∷ []))) where
  module _ {A : Type 0} where
    abbrev pub Keeps : Res A → Type 0
    Keeps r = After S (λ a st. At I st) r

    then_event :
        (P : A → RunState → Type 0) (st : RunState) (e : Event) (f : Unit {0} → RunState → Res A)
        → starts e ≡ false
        → At I st
        → ((n : ℕ) → At I (grown st n e) → After S P (f tt (grown st n e)))
        → After S P (and_then (append_event d.world st e) f)
    then_event P st e f q h g = After-append_event d I S quits quiet P st e f q h g

    -- A start, whose permission is shown apart.
    then_start :
        (st : RunState) (e : Event) (f : Unit {0} → RunState → Res A)
        → S st.log
        → ((n : ℕ) → Keeps (f tt (grown st n e)))
        → Keeps (and_then (append_event d.world st e) f)
    unfolding append_event
    then_start st e f h g = elim (Option-cases (d.world.append st.head_seq e)) [
      | inl x ↦ rw (x, append_event) h
      | inr (n, x) ↦ rw (x, append_event) (g n)
    ]

  -- The last event of a step.
  pub last-Keeps :
      (st : RunState) (e : Event) → starts e ≡ false → At I st → Keeps (append_event d.world st e)
  unfolding append_event
  last-Keeps st e q h = elim (Option-cases (d.world.append st.head_seq e)) [
    | inl x ↦ rw (x, append_event) (quits st.num_turns st.log h)
    | inr (n, x) ↦ rw (x, append_event) (quiet st.num_turns st.log e q h)
  ]

  feed_tool_result-Keeps :
      (c : ToolCall) (o : ToolOutput) (st : RunState) → At I st → Keeps (feed_tool_result d c o st)
  unfolding feed_tool_result
  feed_tool_result-Keeps c o st h =
      then_event (λ _ s. At I s) st _ _ refl h (λ n g. last-Keeps _ _ refl g)

  abandon-Keeps :
      (sa : SuspendedApproval) (st : RunState)
      → At I st
      → Keeps (abandon_suspended_approval d sa st)
  unfolding abandon_suspended_approval
  abandon-Keeps sa st h = then_event (λ _ s. At I s) st _ _ refl h (λ n g. last-Keeps _ _ refl g)

  then_false : (r : Res (Unit {0})) → Keeps r → Keeps (and_then r (λ _ s. done false s))
  then_false (done u s) h = h
  then_false (stopped s) h = h

  -- The start of the call, and its result.
  dispatch_resumed-Keeps :
      (sa : SuspendedApproval) (seq : ℕ) (st : RunState)
      → S st.log
      → ((key : String)
          → I st.num_turns (st.log ++ (tool_execution_started sa.call_id sa.tool_name key ∷ [])))
      → Keeps (dispatch_resumed d sa seq st)
  unfolding dispatch_resumed
  dispatch_resumed-Keeps sa seq st h g = then_start st _ _ h (λ n.
      elim (Option-cases (exec_one d.world (exec_of d.world sa st.session_id seq))) [
        | inl y ↦ rw (y) (quits st.num_turns _ (g _))
        | inr ((o, p), y) ↦ rw (y) (
            then_false
              (feed_tool_result d (call_of sa) o (
                grown st n (
                  tool_execution_started sa.call_id sa.tool_name
                    (derive_idempotency_key d.world st.session_id seq))))
              (feed_tool_result-Keeps (call_of sa) o _ (g _)))
      ])

  decide_resumed-Keeps :
      (sa : SuspendedApproval) (seq : ℕ) (answer : AskResolution) (st : RunState)
      → At I st
      → Keeps (decide_resumed d sa seq answer st)
  unfolding decide_resumed
  decide_resumed-Keeps sa seq allowed st h =
      then_event (λ _ s. At I s) st _ _ refl h
        (λ n g.
          dispatch_resumed-Keeps sa seq (grown st n _) (quits st.num_turns _ g)
            (λ key. granted st.num_turns st.log sa.call_id sa.tool_name "" sa.reason key h))
  decide_resumed-Keeps sa seq denied st h =
      then_event (λ _ s. At I s) st _ _ refl h
        (λ n g. then_false _ (feed_tool_result-Keeps (call_of sa) _ _ g))
  decide_resumed-Keeps sa seq unresolved st h =
      then_event (λ _ s. At I s) st _ _ refl h
        (λ n g. then_false _ (feed_tool_result-Keeps (call_of sa) _ _ g))

  reraised-Keeps :
      (sa : SuspendedApproval) (seq : ℕ) (st : RunState) (answer : Reraised)
      → d.reraise sa ≡ answer
      → At I st
      → Keeps (resume_suspended_approval d sa seq st)
  unfolding resume_suspended_approval
  reraised-Keeps sa seq st interrupted e h =
      rw (e, resume_suspended_approval) (quits st.num_turns st.log h)
  reraised-Keeps sa seq st unanswered e h =
      rw (e, resume_suspended_approval)
        (After-and_then d I S quits quiet (λ _ s. At I s) (λ _ s. At I s) _ _
          (abandon-Keeps sa (with_turn sa seq st) h) (λ _ s g. g))
  reraised-Keeps sa seq st (resolved answer) e h =
      rw (e, resume_suspended_approval) (decide_resumed-Keeps sa seq answer (with_turn sa seq st) h)

  unless_abandoned-Keeps :
      (next : RunState → Res Bool) (abandoned : Bool) (s : RunState)
      → At I s
      → Keeps (next s)
      → Keeps (unless_abandoned next abandoned s)
  unless_abandoned-Keeps next true s h g = h
  unless_abandoned-Keeps next false s h g = g

  resume_all-Keeps :
      (events : List EventEnvelope) (sas : List SuspendedApproval) (st : RunState)
      → At I st
      → Keeps (resume_all d events sas st)
  unfolding resume_all
  resume_all-Keeps events [] st h = h
  resume_all-Keeps events (sa ∷ sas) st h =
      After-and_then d I S quits quiet (λ _ s. At I s) (λ _ s. At I s)
        (resume_suspended_approval d sa (assistant_seq_of events sa.turn_id) st) _
        (reraised-Keeps sa _ st (d.reraise sa) refl h)
        (λ abandoned s g.
          unless_abandoned-Keeps (λ t. resume_all d events sas t) abandoned s g
            (resume_all-Keeps events sas s g))

  close_turns-Keeps : (os : List OpenTurn) (st : RunState) → At I st → Keeps (close_turns d os st)
  unfolding close_turns
  close_turns-Keeps [] st h = h
  close_turns-Keeps (o ∷ os) st h =
      then_event (λ _ s. At I s)
        (add_to_cost d (compute_cost d o.recovered_usage) (add_to_usage o.recovered_usage st)) _ _
        refl h (λ n g. close_turns-Keeps os _ g)

  closed-Over :
      (plan : Plan) (abandoned : Bool) (s : RunState)
      → At I s
      → After S (λ a s. At I s × Over a s) (if_abandoned d plan abandoned s)
  unfolding if_abandoned
  closed-Over plan true s g = (g, refl)
  closed-Over plan false s g =
      After-and_then d I S quits quiet (λ _ s. At I s) (λ a s. At I s × Over a s)
        (close_turns d plan.open_turns s) _ (close_turns-Keeps plan.open_turns s g)
        (λ _ t i. (i, tt))

  adjudicate-Over :
      (events : List EventEnvelope) (plan : Plan) (st : RunState)
      → At I st
      → After S (λ a s. At I s × Over a s) (adjudicate d events plan st)
  unfolding adjudicate
  adjudicate-Over events plan st h =
      After-and_then d I S quits quiet (λ _ s. At I s) (λ a s. At I s × Over a s)
        (resume_all d events plan.suspended_approvals st) _
        (resume_all-Keeps events plan.suspended_approvals st h)
        (λ abandoned s g. closed-Over plan abandoned s g)

  analyzed-Over :
      (events : List EventEnvelope) (st : RunState)
      → At I st
      → After S (λ a s. At I s × Over a s) (adjudicate_log d events st)
  unfolding adjudicate_log
  analyzed-Over [] st h = (h, tt)
  analyzed-Over (e ∷ es) st h =
      adjudicate-Over (e ∷ es) (analyze (e ∷ es) (side_effect_lookup d.world)) st h

  pub adjudicate_resume-Over :
      (st : RunState) → At I st → After S (λ a s. At I s × Over a s) (adjudicate_resume d st)
  unfolding adjudicate_resume
  adjudicate_resume-Over st h =
      After-and_then d I S quits quiet (λ _ s. At I s) (λ a s. At I s × Over a s) (load_log d st) _
        (load_log-Keeps d I S quits quiet st h) (λ events s g. analyzed-Over events s g)

  by_content :
      (m : Message) (parts : List ContentPart) (st : RunState)
      → m.content ≡ parts
      → At I st
      → Keeps (append_user d m st)
  unfolding append_user
  by_content m [] st e h = rw (e, append_user) h
  by_content m (p ∷ ps) st e h = rw (e, append_user) (last-Keeps st _ refl h)

  pub append_user-Keeps : (m : Message) (st : RunState) → At I st → Keeps (append_user d m st)
  append_user-Keeps m st h = by_content m m.content st refl h
