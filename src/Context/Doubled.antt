-- ===== src/Context/Doubled.antt =====
-- How often the window shows the result of a call: tools.go appends it twice.
use mathlib.Core.Path.{subst}
use harness_ai.Prelude.{
  ℕ, ◌+◌, ◌*◌, ◌≡◌, refl, ap, ◌∙◌, String, Bool, true, false, inl, inr, Option, none, some,
  Option-cases, List, [], ◌∷◌, ◌++◌, Map, empty_map, str_eq, arith,
}
use harness_ai.Llm.{ToolCall, ContentPart, Message}
use harness_ai.Domain.{
  Event, session_started, message_appended, assistant_message, tool_result, plan_updated, PlanItem,
  EventEnvelope,
}
use harness_ai.Recovery.Fold.{events_of}
use harness_ai.Agent.{ToolOutput, RunState, World, Res, done, append_event}
use harness_ai.Agent.Batch.{Batch}
use harness_ai.Agent.Execute.{dispatch_all}
use harness_ai.Agent.Feed.{append_plan, feed_results, TurnOutcome, feed_batch}
use harness_ai.Agent.Logs.{Holds, Holds-and_then, Holds-append_event, Holds-map}
use harness_ai.Context.{default_options, default_cleared_stub, default_compaction_summary}
use harness_ai.Context.Build.{
  cleared_set, render_message, last_compaction, Collected, nothing_collected, with_message,
  collect_event, collect, summary_of, plan_note, window_of, build_window,
}

abbrev one_if : Bool → ℕ
one_if true = 1
one_if false = 0

-- Whether a part is the result of a call.
abbrev answers : String → ContentPart → Bool
answers c p = elim p.tool_result [ none ↦ false | some r ↦ str_eq r.call_id c ]

abbrev in_parts : String → List ContentPart → ℕ
in_parts c [] = 0
in_parts c (p ∷ ps) = one_if (answers c p) + in_parts c ps

-- The results of a call in a window.
abbrev pub results_in : String → List Message → ℕ
results_in c [] = 0
results_in c (m ∷ ms) = in_parts c m.content + results_in c ms

-- The calls of a message with an id.
abbrev pub times : String → List ToolCall → ℕ
times c [] = 0
times c (d ∷ ds) = one_if (str_eq d.id c) + times c ds

-- What an event adds to the window.
abbrev shown : String → Event → ℕ
shown c (message_appended m) = in_parts c m.content
shown c (assistant_message _ m _ _ _ _ _) = in_parts c m.content
shown c (tool_result d _ _ _ _) = one_if (str_eq d c)
shown c _ = 0

abbrev total : String → List Event → ℕ
total c [] = 0
total c (e ∷ es) = shown c e + total c es

total-snoc :
    (c : String) (xs : List Event) (e : Event) → total c (xs ++ (e ∷ [])) ≡ total c xs + shown c e
total-snoc c [] e = omega arith
total-snoc c (x ∷ xs) e = omega (arith, total-snoc c xs e)

in_parts-snoc :
    (c : String) (xs : List ContentPart) (p : ContentPart)
    → in_parts c (xs ++ (p ∷ [])) ≡ in_parts c xs + one_if (answers c p)
in_parts-snoc c [] p = omega arith
in_parts-snoc c (x ∷ xs) p = omega (arith, in_parts-snoc c xs p)

results_in-append :
    (c : String) (xs ys : List Message)
    → results_in c (xs ++ ys) ≡ results_in c xs + results_in c ys
results_in-append c [] ys = omega arith
results_in-append c (x ∷ xs) ys = omega (arith, results_in-append c xs ys)

abbrev Always : List Event → Type 0
Always log = Unit

module _ (w : World) (c : String) where
  append_plan-total :
      (id : String) (plans : Map (List PlanItem)) (st : RunState)
      → Holds (λ a log. total c log ≡ total c st.log) Always (append_plan w id plans st)
  unfolding append_plan append_event
  append_plan-total id plans st = elim (Option-cases (plans id)) [
    | inl e ↦ rw (e, append_plan) refl
    | inr (items, e) ↦
        rw (e, append_plan)
          (elim (Option-cases (w.append st.head_seq (plan_updated st.current_turn_id items))) [
            | inl x ↦ rw (x, append_event) tt
            | inr (n, x) ↦
                rw (x, append_event)
                  (let step = total-snoc c st.log (plan_updated st.current_turn_id items) in
                    omega arith)
          ])
  ]

  -- Behind the loop: one result of each call in the log, and one in the message.
  abbrev Fed : ℕ → ℕ → List ToolCall → List ContentPart → List Event → Type 0
  Fed n k cs parts log = (total c log ≡ n + times c cs) × (in_parts c parts ≡ k + times c cs)

  feed_results-Fed :
      (cs : List ToolCall) (results : Map ToolOutput) (plans : Map (List PlanItem))
      (parts : List ContentPart) (st : RunState) (n k : ℕ)
      → total c st.log ≡ n
      → in_parts c parts ≡ k
      → Holds (Fed n k cs) Always (feed_results w cs results plans parts st)
  unfolding feed_results
  feed_results-Fed [] results plans parts st n k g h = (omega arith, omega arith)
  feed_results-Fed (d ∷ ds) results plans parts st n k g h =
      Holds-and_then (λ a log. total c log ≡ total c st.log) (Fed n k (d ∷ ds)) Always
        (append_plan w d.id plans st) _ (append_plan-total d.id plans st)
        (λ u s x. Holds-append_event (Fed n k (d ∷ ds)) Always w s _ _ tt (λ t y.
          let o = one_if (str_eq d.id c) in
          Holds-map (Fed (n + o) (k + o) ds) Always (Fed n k (d ∷ ds)) _
            (λ a log f. (omega (arith, f.0), omega (arith, f.1)))
            (feed_results-Fed ds results plans _ t (n + o) (k + o)
              (ap (total c) y ∙ total-snoc c s.log _ ∙ omega (arith, x, g))
              (in_parts-snoc c parts _ ∙ omega (arith, h)))))

  -- A batch that goes through shows each result twice.
  feed_batch-Twice :
      (calls : List ToolCall) (batch : Batch) (st : RunState)
      → Holds
          (λ (o : TurnOutcome) log. total c log ≡ total c st.log + 2 * times c calls)
          Always
          (feed_batch w calls batch st)
  unfolding feed_batch
  feed_batch-Twice calls (execs, refused) st =
      elim (Option-cases (dispatch_all w execs empty_map empty_map)) [
        | inl e ↦ rw (e, feed_batch) tt
        | inr ((out, plans), e) ↦
            rw (e, feed_batch)
              (Holds-and_then (Fed (total c st.log) 0 calls) _ Always _ _
                (feed_results-Fed calls _ plans [] st (total c st.log) 0 refl refl)
                (λ parts s f.
                  Holds-append_event _ Always w s _ _ tt
                    (λ t y. ap (total c) y ∙ total-snoc c s.log _ ∙ omega (arith, f.0, f.1))))
      ]

in_parts_of : String → Option Message → ℕ
in_parts_of c none = 0
in_parts_of c (some m) = in_parts c m.content

render_message-shown :
    (c : String) (env : EventEnvelope) (x : Bool) (stub : String) (ev : Event)
    → env.event ≡ ev
    → in_parts_of c (render_message env x stub) ≡ shown c ev
unfolding render_message in_parts_of
render_message-shown c env x stub (message_appended m) e = rw (e, render_message) refl
render_message-shown c env x stub (assistant_message t m a b u f r) e = rw (e, render_message) refl
render_message-shown c env x stub (tool_result d r a b f) e = rw (e, render_message) (omega arith)
render_message-shown c env x stub _ e = rw (e, render_message) refl

-- A collection with no boundary that shows so many results.
record Shows (c : String) (n : ℕ) (s : Collected) : Type 0 where
  before : s.before ≡ []
  count : results_in c s.after ≡ n

with_message-Shows :
    (c : String) (n seq : ℕ) (m : Option Message) (s : Collected)
    → Shows c n s
    → Shows c (n + in_parts_of c m) (with_message none seq m s)
unfolding in_parts_of
with_message-Shows c n seq none s h = record { before = h.before; count = omega (arith, h.count) }
with_message-Shows c n seq (some m) s h = record {
  before = h.before;
  count = results_in-append c s.after (m ∷ []) ∙ omega (arith, h.count);
}

module _ (x : ℕ → Bool) (stub c : String) where
  collect_event-Shows :
      (env : EventEnvelope) (ev : Event) (n : ℕ) (s : Collected)
      → env.event ≡ ev
      → Shows c n s
      → Shows c (n + shown c ev) (collect_event x none stub env s)
  unfolding collect_event
  collect_event-Shows env (session_started a b p) n s e h =
      rw (e, collect_event) (record { before = h.before; count = omega (arith, h.count) })
  collect_event-Shows env (plan_updated a p) n s e h =
      rw (e, collect_event) (record { before = h.before; count = omega (arith, h.count) })
  collect_event-Shows env ev n s e h =
      rw (e, collect_event)
        (subst
          (λ k. Shows c (n + k) (with_message none env.seq (render_message env (x env.seq) stub) s))
          (render_message-shown c env (x env.seq) stub ev e)
          (with_message-Shows c n env.seq (render_message env (x env.seq) stub) s h))

  collect-Shows :
      (es : List EventEnvelope) (n : ℕ) (s : Collected)
      → Shows c n s
      → Shows c (n + total c (events_of es)) (collect x none stub es s)
  unfolding collect
  collect-Shows [] n s h = record { before = h.before; count = omega (arith, h.count) }
  collect-Shows (e ∷ es) n s h =
      let ih =
        collect-Shows es (n + shown c e.event) (collect_event x none stub e s)
          (collect_event-Shows e e.event n s refl h) in
      record { before = ih.before; count = omega (arith, ih.count) }

plan_note-results_in :
    (c : String) (plan : Option (List PlanItem)) → results_in c (plan_note plan) ≡ 0
unfolding plan_note
plan_note-results_in c none = refl
plan_note-results_in c (some items) = refl

window_of-Shows :
    (c summary : String) (n : ℕ) (s : Collected)
    → Shows c n s
    → results_in c (window_of summary s).messages ≡ n
unfolding window_of
window_of-Shows c summary n s h =
    ap
      (λ (b : List Message).
        results_in c ((summary_of summary b ++ s.after) ++ plan_note s.latest_plan))
      h.before
    ∙ results_in-append c s.after (plan_note s.latest_plan)
    ∙ omega (arith, h.count, plan_note-results_in c s.latest_plan)

build_window-total :
    (c : String) (es : List EventEnvelope)
    → last_compaction none es ≡ none
    → results_in c (build_window es default_options).messages ≡ total c (events_of es)
unfolding build_window
build_window-total c es h =
    ap
      (λ (b : Option ℕ).
        results_in c
          (window_of default_compaction_summary
            (collect (cleared_set es) b default_cleared_stub es nothing_collected)).messages)
      h
    ∙ window_of-Shows c _ (0 + total c (events_of es)) _ (
        collect-Shows (cleared_set es) _ c es 0 nothing_collected
          (record { before = refl; count = refl }))
    ∙ omega arith

Holds-done {κ} :
    {A : Type 0} (P : A → List Event → Type κ) (Q : List Event → Type κ) (r : Res A) (a : A)
    (s : RunState)
    → r ≡ done a s
    → Holds P Q r
    → P a s.log
Holds-done P Q r a s e h = subst (Holds P Q) e h

-- Where the results of a batch are fed back and the log has no compaction boundary, the next window shows
-- the result of each call of the batch twice: once for its ToolResult event, and once in the
-- tool message that is appended behind the results.
pub build_window-doubled :
    (w : World) (calls : List ToolCall) (batch : Batch) (st new : RunState) (o : TurnOutcome)
    (before after : List EventEnvelope) (c : String)
    → feed_batch w calls batch st ≡ done o new
    → events_of before ≡ st.log
    → events_of after ≡ new.log
    → last_compaction none before ≡ none
    → last_compaction none after ≡ none
    → results_in c (build_window after default_options).messages
      ≡ results_in c (build_window before default_options).messages + 2 * times c calls
build_window-doubled w calls batch st new o before after c e x y g h =
    build_window-total c after h
    ∙ ap (total c) y
    ∙ Holds-done _ Always _ o new e (feed_batch-Twice w c calls batch st)
    ∙ omega (arith, build_window-total c before g, ap (total c) x)
