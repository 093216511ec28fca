-- ===== src/Recovery/Executions.antt =====
-- The tool executions of unknown outcome in a plan of recovery.go.
use harness_ai.Prelude.{
  String, ◌≡◌, refl, Bool, false, not, ◌&&◌, Option, none, some, Option-cases, inl, inr, List, [],
  ◌∷◌, any, elem, eq_iff, arith,
}
use harness_ai.Domain.{Event, tool_execution_started, tool_result, EventEnvelope}
use harness_ai.Recovery.{UnknownExecution, ExecState, FoldState}
use harness_ai.Recovery.Fold.{empty_fold, step, fold, events_of}
use harness_ai.Recovery.Collect.{SideEffectLookup, unknown_from, plan_of, analyze}
use harness_ai.Recovery.Spec.{unfinished, starts_exec, has_result}
use harness_ai.Recovery.Keys.{exec_step, execs-step}
use harness_ai.Recovery.Order.{Ordered, fold-IsWellKeyed}

abbrev is_running : Option ExecState → Bool
is_running none = false
is_running (some es) = not es.closed

abbrev after : String → Option ExecState → List Event → Bool
after c none es = unfinished (starts_exec c) (has_result c) es
after c (some st) es = not st.closed && not (any (has_result c) es)

exec_step-running :
    (c : String) (o : Option ExecState) (e : Event) (es : List Event)
    → after c (exec_step c o e) es ≡ after c o (e ∷ es)
exec_step-running c none (tool_execution_started d _ _) es = ground arith
exec_step-running c none _ es = refl
exec_step-running c (some st) (tool_execution_started d _ _) es = refl
exec_step-running c (some st) (tool_result d _ _ _ _) es = ground arith
exec_step-running c (some st) _ es = refl

is_running-fold :
    (c : String) (s : FoldState) (es : List Event)
    → is_running ((fold s es).execs c) ≡ after c (s.execs c) es
unfolding fold
is_running-fold c s [] = ground arith
is_running-fold c s (e ∷ es) =
    rw (is_running-fold c (step s e) es, execs-step c s e) (exec_step-running c (s.execs c) e es)

abbrev started : Option ExecState → Option (String × String)
started none = none
started (some st) = some (st.tool_name, st.idempotency_key)

abbrev pub unknown_call_ids : List UnknownExecution → List String
unknown_call_ids [] = []
unknown_call_ids (x ∷ xs) = x.call_id ∷ unknown_call_ids xs

module _ (s : FoldState) (lookup : SideEffectLookup)
    (keyed : Ordered (λ v. v.call_id) s.execs s.exec_order) where
  elem-unknown_from :
      (c : String) (order : List String)
      → elem c (unknown_call_ids (unknown_from s lookup order))
        ≡ (elem c order && is_running (s.execs c))
  unfolding unknown_from
  elem-unknown_from c [] = refl
  elem-unknown_from c (d ∷ ds) = elim (Option-cases (s.execs d)) [
    | inl e ↦ ground (arith, elem-unknown_from c ds, eq_iff d c)
    | inr (v, e) ↦ ground (arith, elem-unknown_from c ds, keyed.named d v e, eq_iff d c)
  ]

-- A call is among the plan's unknown executions exactly if the log starts its execution and holds
-- no result of it behind the first start.
pub elem-unknown_executions :
    (c : String) (envs : List EventEnvelope) (lookup : SideEffectLookup)
    → elem c (unknown_call_ids (analyze envs lookup).unknown_executions)
      ≡ unfinished (starts_exec c) (has_result c) (events_of envs)
unfolding analyze plan_of
elem-unknown_executions c envs lookup =
    let s = fold empty_fold (events_of envs) in
    let keyed = (fold-IsWellKeyed (events_of envs)).execs in
    ground (
      arith,
      elem-unknown_from s lookup keyed c s.exec_order,
      keyed.covers c,
      is_running-fold c empty_fold (events_of envs),
    )
