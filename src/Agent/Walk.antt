-- ===== src/Agent/Walk.antt =====
-- internal/orchestrator/app/agent/turn.go: what the making of a request keeps of the number of turns and of the log.
use mathlib.Core.Path.{subst}
use harness_ai.Prelude.{
  ℕ, ◌≡◌, refl, Bool, true, false, Bool-cases, Option-cases, inl, inr, List, [], ◌∷◌, ◌++◌, none,
  some, Option, ◌==◌, ltb, ◌||◌,
}
use harness_ai.Llm.{Word}
use harness_ai.Domain.{Event, EventEnvelope, tool_execution_started}
use harness_ai.Context.{Window, default_options}
use harness_ai.Context.Build.{build_window}
use harness_ai.Context.Compaction.{
  CompactionPlan, Manager, plan_compaction, plan_boundary, projected_after_window,
}
use harness_ai.Agent.{RunState, Res, done, stopped, and_then, append_event}
use harness_ai.Agent.Frame.{grown}
use harness_ai.Agent.Driver.{Driver, load_log, compact_with, maybe_compact, build_request}

-- A start of a tool.
abbrev pub starts : Event → Bool
starts (tool_execution_started _ _ _) = true
starts _ = false

-- What a state has of the number of turns and the log.
abbrev pub At : (ℕ → List Event → Type 0) → RunState → Type 0
At I st = I st.num_turns st.log

module _ {A : Type 0} where
  -- The answer and the state of a step that goes through, and the log of one that stops.
  abbrev pub After : (List Event → Type 0) → (A → RunState → Type 0) → Res A → Type 0
  After S P (done a st) = P a st
  After S P (stopped st) = S st.log

abbrev IsQuietEvent : Option Event → Type 0
IsQuietEvent none = Unit
IsQuietEvent (some e) = starts e ≡ false

-- A plan whose event is no start of a tool.
abbrev IsQuiet : Option CompactionPlan → Type 0
IsQuiet none = Unit
IsQuiet (some plan) = IsQuietEvent plan.event

plan_boundary-IsQuiet :
    (m : Manager) (win : Window) (current : Word) → IsQuiet (plan_boundary m win current)
unfolding plan_boundary
plan_boundary-IsQuiet m win current =
    elim (Option-cases (m.count (projected_after_window win).messages)) [
      | inl e ↦ rw (e, plan_boundary) tt
      | inr (n, e) ↦ rw (e, plan_boundary) refl
    ]

plan_compaction-IsQuiet :
    (m : Manager) (events : List EventEnvelope) → IsQuiet (plan_compaction m events)
unfolding plan_compaction
plan_compaction-IsQuiet m events =
    let win = build_window events default_options in
    elim (Option-cases (m.count (build_window events default_options).messages)) [
      | inl e ↦ rw (e, plan_compaction) tt
      | inr (n, e) ↦ elim (Bool-cases (m.threshold == 0 || ltb n m.threshold)) [
        | inl f ↦ rw (e, plan_compaction) (rw (f) tt)
        | inr f ↦ rw (e, plan_compaction) (rw (f) (plan_boundary-IsQuiet m win n))
      ]
    ]

module _ (d : Driver) (I : ℕ → List Event → Type 0) (S : List Event → Type 0)
    (quits : (n : ℕ) (log : List Event) → I n log → S log)
    (quiet : (n : ℕ) (log : List Event) (e : Event)
      → starts e ≡ false
      → I n log
      → I n (log ++ (e ∷ []))) where
  module _ {A : Type 0} where
    abbrev pub Keeps : Res A → Type 0
    Keeps r = After S (λ a st. At I st) r

    pub After-append_event :
        (P : A → RunState → Type 0) (st : RunState) (e : Event) (f : Unit {0} → RunState → Res A)
        → starts e ≡ false
        → At I st
        → ((n : ℕ) → At I (grown st n e) → After S P (f tt (grown st n e)))
        → After S P (and_then (append_event d.world st e) f)
    unfolding append_event
    After-append_event P st e f q h g = elim (Option-cases (d.world.append st.head_seq e)) [
      | inl x ↦ rw (x, append_event) (quits st.num_turns st.log h)
      | inr (n, x) ↦ rw (x, append_event) (g n (quiet st.num_turns st.log e q h))
    ]

  module _ {A B : Type 0} where
    pub After-and_then :
        (R : A → RunState → Type 0) (P : B → RunState → Type 0) (r : Res A)
        (f : A → RunState → Res B)
        → After S R r
        → ((a : A) (st : RunState) → R a st → After S P (f a st))
        → After S P (and_then r f)
    After-and_then R P (done a st) f h g = g a st h
    After-and_then R P (stopped st) f h g = h

  pub load_log-Keeps : (st : RunState) → At I st → Keeps (load_log d st)
  load_log-Keeps st h = elim (Option-cases (d.load st.log)) [
    | inl e ↦ rw (e, load_log) (quits st.num_turns st.log h)
    | inr (events, e) ↦ rw (e, load_log) h
  ]

  compact_with-Keeps :
      (events : List EventEnvelope) (plan : CompactionPlan) (st : RunState)
      → IsQuiet (some plan)
      → At I st
      → Keeps (compact_with d plan events st)
  unfolding compact_with
  compact_with-Keeps events plan st q h = elim (Option-cases (d.pre_compact st.current_turn_id)) [
    | inl e ↦ rw (e, compact_with) h
    | inr (dec, e) ↦ elim (Option-cases plan.event) [
      | inl f ↦ rw (e, compact_with) (rw (f) h)
      | inr (ev, f) ↦ elim (Bool-cases dec.allow) [
        | inl a ↦
            rw (e, compact_with)
              (rw (f) (
                rw (a) (
                  After-append_event (λ _ st. At I st) st ev _ (subst IsQuietEvent f q) h
                    (λ n g. load_log-Keeps (grown st n ev) g))))
        | inr a ↦ rw (e, compact_with) (rw (f) (rw (a) h))
      ]
    ]
  ]

  maybe_compact-Keeps :
      (events : List EventEnvelope) (st : RunState) → At I st → Keeps (maybe_compact d events st)
  unfolding maybe_compact
  maybe_compact-Keeps events st h = elim (Option-cases d.manager) [
    | inl e ↦ rw (e, maybe_compact) h
    | inr (m, e) ↦ elim (Option-cases (plan_compaction m events)) [
      | inl f ↦ rw (e, maybe_compact) (rw (f) h)
      | inr (plan, f) ↦ elim (Bool-cases plan.should_compact) [
        | inl a ↦
            rw (e, maybe_compact)
              (rw (f) (
                rw (a) (
                  compact_with-Keeps events plan st
                    (subst IsQuiet f (plan_compaction-IsQuiet m events)) h)))
        | inr a ↦ rw (e, maybe_compact) (rw (f) (rw (a) h))
      ]
    ]
  ]

  pub build_request-Keeps : (st : RunState) → At I st → Keeps (build_request d st)
  unfolding build_request
  build_request-Keeps st h =
      After-and_then (λ _ st. At I st) (λ _ st. At I st) (load_log d st) _ (load_log-Keeps st h)
        (λ events st g.
          After-and_then (λ _ st. At I st) (λ _ st. At I st) (maybe_compact d events st) _
            (maybe_compact-Keeps events st g) (λ _ st g. g))
