-- ===== src/Context/Boundary.antt =====
-- The window behind a compaction boundary, and what a window shows of the results of a call.
use harness_ai.Prelude.{
  ℕ, ◌<◌, ◌≡◌, refl, sym, ap, ◌∙◌, String, Bool, true, false, ◌&&◌, Bool-cases, inl, inr, Option,
  none, some, List, [], ◌∷◌, ◌++◌, any, ltb, lt→ltb, All, is_some, arith,
}
use harness_ai.Llm.{Message, Word}
use harness_ai.Domain.{
  Event, session_started, message_appended, assistant_message, tool_result, compaction_performed,
  plan_updated, EventEnvelope,
}
use harness_ai.Context.{default_options, default_cleared_stub, default_compaction_summary}
use harness_ai.Context.Build.{
  cleared_set, render_message, last_compaction, moved, Collected, nothing_collected, with_message,
  collect_event, collect, plan_note, window_of, build_window,
}
use harness_ai.Context.Compaction.{projected_after_window}

abbrev is_empty : List Message → Bool
is_empty [] = true
is_empty (_ ∷ _) = false

abbrev is_plan : EventEnvelope → Bool
is_plan env = elim env.event [ plan_updated _ _ ↦ true | _ ↦ false ]

abbrev pub has_plan : List EventEnvelope → Bool
has_plan = any is_plan

abbrev pub AllBefore : ℕ → List EventEnvelope → Type 0
AllBefore n = All (λ (e : EventEnvelope). e.seq < n)

-- Two collections of one log: `s` with everything before the boundary, `t` with any boundary.
record Alike (s t : Collected) : Type 0 where
  system : s.system ≡ t.system
  after : s.after ≡ []
  plan : s.latest_plan ≡ none
  old_plan : t.latest_plan ≡ none
  empty : is_empty s.before ≡ (is_empty t.before && is_empty t.after)

is_empty-snoc : (xs : List Message) (m : Message) → is_empty (xs ++ (m ∷ [])) ≡ false
is_empty-snoc [] m = refl
is_empty-snoc (x ∷ xs) m = refl

with_message-Alike :
    (n : ℕ) (b : Option ℕ) (seq : ℕ) (m k : Option Message) (s t : Collected)
    → seq < n
    → is_some m ≡ is_some k
    → Alike s t
    → Alike (with_message (some n) seq m s) (with_message b seq k t)
with_message-Alike n b seq none none s t h e a = a
with_message-Alike n b seq none (some k) s t h e a = ground arith
with_message-Alike n b seq (some m) none s t h e a = ground arith
with_message-Alike n none seq (some m) (some k) s t h e a = rw (lt→ltb seq n h) (record {
  system = a.system;
  after = a.after;
  plan = a.plan;
  old_plan = a.old_plan;
  empty = is_empty-snoc s.before m ∙ sym (rw (is_empty-snoc t.after k) (ground arith));
})
with_message-Alike n (some b) seq (some m) (some k) s t h e a =
    rw (lt→ltb seq n h) (elim (Bool-cases (ltb seq b)) [
      | inl g ↦ rw (g) (record {
        system = a.system;
        after = a.after;
        plan = a.plan;
        old_plan = a.old_plan;
        empty = is_empty-snoc s.before m ∙ sym (rw (is_empty-snoc t.before k) refl);
      })
      | inr g ↦ rw (g) (record {
        system = a.system;
        after = a.after;
        plan = a.plan;
        old_plan = a.old_plan;
        empty = is_empty-snoc s.before m ∙ sym (rw (is_empty-snoc t.after k) (ground arith));
      })
    ])

-- Whether an event renders to a message does not depend on what is cleared.
is_some-render_message :
    (env : EventEnvelope) (x y : Bool) (stub : String)
    → is_some (render_message env x stub) ≡ is_some (render_message env y stub)
unfolding render_message
is_some-render_message env x y stub =
    elim env.event
      as (λ ev.
        is_some (render_message (record env { event = ev }) x stub)
        ≡ is_some (render_message (record env { event = ev }) y stub)) [
          | message_appended m ↦ refl
          | assistant_message _ m _ _ _ _ _ ↦ refl
          | tool_result _ _ _ _ _ ↦ refl
          | _ ↦ refl
        ]

module _ (x y : ℕ → Bool) (n : ℕ) (b : Option ℕ) (stub : String) where
  collect_event-Alike :
      (env : EventEnvelope) (ev : Event) (s t : Collected)
      → env.event ≡ ev
      → env.seq < n
      → is_plan env ≡ false
      → Alike s t
      → Alike (collect_event x (some n) stub env s) (collect_event y b stub env t)
  unfolding collect_event
  collect_event-Alike env (session_started p f system_prompt) s t g h q a =
      rw (g, collect_event)
        (record {
          system = refl;
          after = a.after;
          plan = a.plan;
          old_plan = a.old_plan;
          empty = a.empty;
        })
  collect_event-Alike env (plan_updated _ _) s t g h q a = ground arith
  collect_event-Alike env _ s t g h q a =
      rw (g, collect_event)
        (with_message-Alike n b env.seq (render_message env (x env.seq) stub)
          (render_message env (y env.seq) stub) s t h
          (is_some-render_message env (x env.seq) (y env.seq) stub) a)

  collect-Alike :
      (events : List EventEnvelope) (s t : Collected)
      → AllBefore n events
      → has_plan events ≡ false
      → Alike s t
      → Alike (collect x (some n) stub events s) (collect y b stub events t)
  unfolding collect
  collect-Alike [] s t h q a = a
  collect-Alike (e ∷ es) s t h q a =
      collect-Alike es (collect_event x (some n) stub e s) (collect_event y b stub e t) h.1
        (ground arith) (collect_event-Alike e e.event s t refl h.0 (ground arith) a)

collect-append :
    (x : ℕ → Bool) (b : Option ℕ) (stub : String) (xs ys : List EventEnvelope) (s : Collected)
    → collect x b stub (xs ++ ys) s ≡ collect x b stub ys (collect x b stub xs s)
unfolding collect
collect-append x b stub [] ys s = refl
collect-append x b stub (e ∷ xs) ys s = collect-append x b stub xs ys (collect_event x b stub e s)

abbrev Below : ℕ → Option ℕ → Type 0
Below n none = Unit
Below n (some b) = b < n

moved-Below :
    (n : ℕ) (last : Option ℕ) (env : EventEnvelope) (ev : Event)
    → env.event ≡ ev
    → env.seq < n
    → Below n last
    → Below n (moved last env)
moved-Below n none env (compaction_performed _ _ _) e h k = rw (e, moved) h
moved-Below n (some b) env (compaction_performed _ _ _) e h k =
    rw (e, moved) (elim (Bool-cases (ltb b env.seq)) [ inl g ↦ rw (g) h | inr g ↦ rw (g) k ])
moved-Below n last env _ e h k = rw (e, moved) k

-- A boundary behind all events is the latest one.
last_compaction-boundary :
    (xs : List EventEnvelope) (env : EventEnvelope) (last : Option ℕ) (before after : Word)
    (reason : String)
    → env.event ≡ compaction_performed before after reason
    → AllBefore env.seq xs
    → Below env.seq last
    → last_compaction last (xs ++ (env ∷ [])) ≡ some env.seq
unfolding last_compaction
last_compaction-boundary [] env none before after reason e h k = rw (e, moved) refl
last_compaction-boundary [] env (some b) before after reason e h k =
    rw (e, moved) (rw (lt→ltb b env.seq k) refl)
last_compaction-boundary (x ∷ xs) env last before after reason e h k =
    last_compaction-boundary xs env (moved last x) before after reason e h.1
      (moved-Below env.seq last x x.event refl h.0 k)

collapsed :
    (system : String) (sb tb ta : List Message)
    → is_empty sb ≡ (is_empty tb && is_empty ta)
    → window_of default_compaction_summary
        (record { system = system; before = sb; after = []; latest_plan = none })
      ≡ projected_after_window (
          window_of default_compaction_summary
            (record { system = system; before = tb; after = ta; latest_plan = none }))
unfolding window_of projected_after_window plan_note
collapsed system [] [] [] h = refl
collapsed system [] [] (y ∷ ys) h = ground arith
collapsed system [] (y ∷ ys) ta h = ground arith
collapsed system (x ∷ xs) [] [] h = ground arith
collapsed system (x ∷ xs) [] (y ∷ ys) h = refl
collapsed system (x ∷ xs) (y ∷ ys) ta h = refl

-- The window of a collection in which everything stands before the boundary.
window_of-Alike :
    (s t : Collected)
    → Alike s t
    → window_of default_compaction_summary s
      ≡ projected_after_window (window_of default_compaction_summary t)
window_of-Alike s t a =
    (λ i. window_of default_compaction_summary (record {
      system = a.system i;
      before = s.before;
      after = a.after i;
      latest_plan = a.plan i;
    }))
    ∙ collapsed t.system s.before t.before t.after a.empty
    ∙ ap
        (λ p.
          projected_after_window
            (window_of default_compaction_summary (record t { latest_plan = p })))
        (sym a.old_plan)

boundary-message :
    (x : ℕ → Bool) (b : Option ℕ) (stub : String) (env : EventEnvelope) (before after : Word)
    (reason : String) (s : Collected)
    → env.event ≡ compaction_performed before after reason
    → collect x b stub (env ∷ []) s ≡ s
unfolding collect collect_event render_message
boundary-message x b stub env before after reason s e =
    rw (e, collect_event) (rw (e, render_message) refl)

-- The compaction does what it projects. If a session has no plan, the window behind a boundary that stands behind all
-- its events is the one that PlanCompaction has measured for it: the system prompt and, where there was
-- any message, the summary alone.
pub build_window-boundary :
    (events : List EventEnvelope) (env : EventEnvelope) (before after : Word) (reason : String)
    → env.event ≡ compaction_performed before after reason
    → AllBefore env.seq events
    → has_plan events ≡ false
    → build_window (events ++ (env ∷ [])) default_options
      ≡ projected_after_window (build_window events default_options)
unfolding build_window
build_window-boundary events env before after reason e h q =
    let cleared = cleared_set (events ++ (env ∷ [])) in
    ap
      (λ b.
        window_of default_compaction_summary
          (collect cleared b default_cleared_stub (events ++ (env ∷ [])) nothing_collected))
      (last_compaction-boundary events env none before after reason e h tt)
    ∙ ap (window_of default_compaction_summary) (
        collect-append cleared (some env.seq) default_cleared_stub events (env ∷ [])
          nothing_collected
        ∙ boundary-message cleared (some env.seq) default_cleared_stub env before after reason _ e)
    ∙ window_of-Alike _ _ (
        collect-Alike cleared (cleared_set events) env.seq (last_compaction none events)
          default_cleared_stub events nothing_collected nothing_collected h q
          (record { system = refl; after = refl; plan = refl; old_plan = refl; empty = refl }))
