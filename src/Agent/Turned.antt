-- ===== src/Agent/Turned.antt =====
-- internal/orchestrator/app/agent/turn.go: what a turn keeps of the number of turns and of the log, behind its request.
use harness_ai.Prelude.{
  ℕ, zero, suc, ◌+◌, ◌≡◌, refl, String, Bool, false, Bool-cases, Option-cases, inl, inr, ◌⊎◌, List,
  [], ◌∷◌, ◌++◌, some, leb, if◌then◌else◌,
}
use harness_ai.Llm.{Request, Usage, F64, Message, Done, StreamEvent}
use harness_ai.Domain.{Event, message_appended, error_during_execution, success}
use harness_ai.Agent.{RunState, Res, done, stopped}
use harness_ai.Agent.Assembler.{
  Outcome, outcome_final, needs_tool_execution, needs_continuation, StreamEnd, Assembled, assembled,
  broken, assemble,
}
use harness_ai.Agent.Feed.{TurnOutcome, turn_terminal, turn_continue, aborted, handle_tool_calls}
use harness_ai.Agent.Walk.{
  starts, At, After, After-append_event, After-and_then, build_request-Keeps,
}
use harness_ai.Agent.Driver.{
  Driver, Schema, free_form, invalid, compiled, build_request, Streamed, streamed, stream_failed,
  stream_with_continuations, max_pause_continuations, price_turn_usage, compute_cost, with_opened,
}
use harness_ai.Agent.Turn.{
  abort_turn, validate_structured, retry_structured, classify_final, is_refusal, after_message,
  record_message, after_stream, begin_turn, run_turn, structured_retry_message, add_to_cost,
  add_to_usage, or_number, default_structured_retries,
}

-- The outcome of a turn that was aborted is an error.
abbrev pub Clean : TurnOutcome → Type 0
Clean (aborted r) = r ≡ error_during_execution
Clean (turn_terminal r) = Unit
Clean turn_continue = Unit

module _ (d : Driver) (I : ℕ → List Event → Type 0) (S : List Event → Type 0)
    (quits : (n : ℕ) (log : List Event) → I n log → S log)
    (quiet : (n : ℕ) (log : List Event) (e : Event)
      → starts e ≡ false
      → I n log
      → I n (log ++ (e ∷ []))) where
  abbrev pub Answered : TurnOutcome → RunState → Type 0
  Answered o st = At I st × Clean o

  abort_turn-Answered :
      (u : Usage) (cost : F64) (account : RunState → RunState) (st : RunState)
      → ((s : RunState) → At I s → At I (account s))
      → At I st
      → After S Answered (abort_turn d u cost account st)
  unfolding abort_turn
  abort_turn-Answered u cost account st keep h =
      After-append_event d I S quits quiet Answered st _ _ refl h (λ n g. (keep _ g, refl))

  retry_structured-Answered : (st : RunState) → At I st → After S Answered (retry_structured d st)
  unfolding retry_structured
  retry_structured-Answered st h =
      elim (Bool-cases (
        leb (or_number d.max_structured_retries default_structured_retries)
          st.structured_retries)) [
            | inl e ↦ rw (e, retry_structured) (h, tt)
            | inr e ↦
                rw (e, retry_structured)
                  (After-append_event d I S quits quiet Answered
                    (record st { structured_retries = st.structured_retries + 1 })
                    (message_appended structured_retry_message) (λ _ st. done turn_continue st) refl
                    h (λ n g. (g, tt)))
          ]

  checked-Answered :
      (m : Message) (st : RunState) (check : String → Bool)
      → At I st
      → After S Answered (
          if validate_structured check m
          then done (turn_terminal success) st
          else retry_structured d st)
  checked-Answered m st check h = elim (Bool-cases (validate_structured check m)) [
    | inl e ↦ rw (e) (h, tt)
    | inr e ↦ rw (e) (retry_structured-Answered st h)
  ]

  by_schema-Answered :
      (m : Message) (dn : Done) (st : RunState) (schema : Schema)
      → d.schema ≡ schema
      → is_refusal dn.stop_reason ≡ false
      → At I st
      → After S Answered (classify_final d m dn st)
  unfolding classify_final
  by_schema-Answered m dn st free_form e r h = rw (r, classify_final) (rw (e) (h, tt))
  by_schema-Answered m dn st invalid e r h =
      rw (r, classify_final) (rw (e) (quits st.num_turns st.log h))
  by_schema-Answered m dn st (compiled check) e r h =
      rw (r, classify_final) (rw (e) (checked-Answered m st check h))

  classify_final-Answered :
      (m : Message) (dn : Done) (st : RunState)
      → At I st
      → After S Answered (classify_final d m dn st)
  unfolding classify_final
  classify_final-Answered m dn st h = elim (Bool-cases (is_refusal dn.stop_reason)) [
    | inl e ↦ rw (e, classify_final) (h, tt)
    | inr e ↦ by_schema-Answered m dn st d.schema refl e h
  ]

  module _
      (handled : (m : Message) (st : RunState)
        → At I st
        → After S Answered (handle_tool_calls d.world m st)) where
    after_message-Answered :
        (m : Message) (o : Outcome) (dn : Done) (st : RunState)
        → At I st
        → After S Answered (after_message d m o dn st)
    unfolding after_message
    after_message-Answered m needs_tool_execution dn st h = handled m st h
    after_message-Answered m outcome_final dn st h = classify_final-Answered m dn st h
    after_message-Answered m needs_continuation dn st h =
        abort_turn-Answered dn.usage 0 (λ st. st) st (λ s g. g) h

    record_message-Answered :
        (m : Message) (o : Outcome) (dn : Done) (st : RunState)
        → At I st
        → After S Answered (record_message d m o dn st)
    unfolding record_message
    record_message-Answered m o dn st h = elim (Option-cases (price_turn_usage d dn.usage)) [
      | inl e ↦
          rw (e, record_message)
            (abort_turn-Answered dn.usage 0 (add_to_usage dn.usage) st (λ s g. g) h)
      | inr (cost, e) ↦
          rw (e, record_message)
            (After-append_event d I S quits quiet Answered
              (add_to_cost d cost (add_to_usage dn.usage st)) _ _ refl h
              (λ n g. after_message-Answered m o dn _ g))
    ]

    pub after_stream-Answered :
        (r : Streamed) (st : RunState) → At I st → After S Answered (after_stream d r st)
    unfolding after_stream
    after_stream-Answered (stream_failed u) st h =
        abort_turn-Answered u (compute_cost d u)
          (λ st. add_to_cost d (compute_cost d u) (add_to_usage u st)) st (λ s g. g) h
    after_stream-Answered (streamed m o dn) st h = record_message-Answered m o dn st h

-- The stream changes nothing but the number of streams.
module _ (d : Driver) (I : ℕ → List Event → Type 0) where
  opened-At :
      (n : ℕ) (req : Request) (st : RunState) (events : List StreamEvent) (end : StreamEnd)
      (a : Assembled)
      → d.stream st.opened req ≡ some (events, end)
      → assemble d.json events end ≡ a
      → ((again : Request) → At I (stream_with_continuations d n again (with_opened st)).1)
      → At I st
      → At I (stream_with_continuations d (suc n) req st).1
  unfolding stream_with_continuations
  opened-At n req st events end (broken m e dn) f g next h =
      rw (f, stream_with_continuations) (rw (g) h)
  opened-At n req st events end (assembled m outcome_final dn) f g next h =
      rw (f, stream_with_continuations) (rw (g) h)
  opened-At n req st events end (assembled m needs_tool_execution dn) f g next h =
      rw (f, stream_with_continuations) (rw (g) h)
  opened-At n req st events end (assembled m needs_continuation dn) f g next h =
      rw (f, stream_with_continuations) (rw (g) (next _))

  stream-At :
      (n : ℕ) (req : Request) (st : RunState)
      → At I st
      → At I (stream_with_continuations d n req st).1
  unfolding stream_with_continuations
  stream-At zero req st h = h
  stream-At (suc n) req st h = elim (Option-cases (d.stream st.opened req)) [
    | inl e ↦ rw (e, stream_with_continuations) h
    | inr ((events, end), e) ↦
        opened-At n req st events end (assemble d.json events end) e refl
          (λ again. stream-At n again (with_opened st) h) h
  ]

-- What holds behind a turn: I in front of its start, J behind that.
abbrev pub Turned : (I J : ℕ → List Event → Type 0) → TurnOutcome → RunState → Type 0
Turned I J (aborted r) st = (r ≡ error_during_execution) × (At I st ⊎ At J st)
Turned I J (turn_terminal r) st = At J st
Turned I J turn_continue st = At J st

module _ (d : Driver) (I J : ℕ → List Event → Type 0) (S : List Event → Type 0)
    (quits : (n : ℕ) (log : List Event) → I n log → S log)
    (quiet : (n : ℕ) (log : List Event) (e : Event)
      → starts e ≡ false
      → I n log
      → I n (log ++ (e ∷ [])))
    (J-quits : (n : ℕ) (log : List Event) → J n log → S log)
    (J-quiet : (n : ℕ) (log : List Event) (e : Event)
      → starts e ≡ false
      → J n log
      → J n (log ++ (e ∷ [])))
    (begun : (n : ℕ) (log : List Event) → I n log → J (n + 1) log)
    (handled : (m : Message) (st : RunState)
      → At J st
      → After S (λ o s. At J s × Clean o) (handle_tool_calls d.world m st)) where
  closes-Turned :
      (r : Res TurnOutcome) → After S (λ o s. At J s × Clean o) r → After S (Turned I J) r
  closes-Turned (done (aborted r) st) h = (h.1, inr h.0)
  closes-Turned (done (turn_terminal r) st) h = h.0
  closes-Turned (done turn_continue st) h = h.0
  closes-Turned (stopped st) h = h

  pub run_turn-Turned : (st : RunState) → At I st → After S (Turned I J) (run_turn d st)
  unfolding run_turn
  run_turn-Turned st h = elim (Bool-cases (d.cancelled st.num_turns)) [
    | inl e ↦ rw (e, run_turn) (refl, inl h)
    | inr e ↦
        rw (e, run_turn)
          (After-and_then d I S quits quiet (λ _ s. At I s) (Turned I J) (build_request d st) _
            (build_request-Keeps d I S quits quiet st h)
            (λ req s g.
              After-append_event d J S J-quits J-quiet (Turned I J) (begin_turn d s) _ _ refl
                (begun s.num_turns s.log g)
                (λ n k. closes-Turned _ (
                  after_stream-Answered d J S J-quits J-quiet handled _ _
                    (stream-At d J max_pause_continuations req _ k)))))
  ]
