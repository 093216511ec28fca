-- ===== src/Recovery/Collect.antt =====
-- The three loops of `Analyze` that collect the plan, and `Analyze` itself.
use harness_ai.Prelude.{
  String, Bool, true, false, Option, none, some, List, [], ◌∷◌, elem, if◌then◌else◌,
}
use harness_ai.Domain.{SideEffect, EventEnvelope}
use harness_ai.Recovery.{
  OpenTurn, UnknownExecution, SuspendedApproval, Plan, ApprovalState, FoldState,
}
use harness_ai.Recovery.Fold.{empty_fold, fold, events_of}

-- `none` is the nil lookup; the answer may be the empty text.
abbrev pub SideEffectLookup : Type 0
SideEffectLookup = Option (String → SideEffect)

abbrev fail_safe : SideEffect → SideEffect
fail_safe SideEffect.unset = SideEffect.mutating
fail_safe se = se

unfoldable pub resolve_side_effect : String → SideEffectLookup → SideEffect
resolve_side_effect tool none = SideEffect.mutating
resolve_side_effect tool (some lookup) = fail_safe (lookup tool)

abbrev pub is_read_only : SideEffect → Bool
is_read_only SideEffect.read_only = true
is_read_only _ = false

-- The test of the first loop: unresolved, and the turn started and is not terminated.
abbrev pub is_suspension : FoldState → ApprovalState → Bool
is_suspension s st = if st.resolved then false else elim (s.turns st.turn_id) [
  | none ↦ false
  | some ts ↦ if ts.terminated then false else true
]

-- A key of an order list is in its map (`Keys`), so `none` stands for no run of the program.
unfoldable pub suspended_from : FoldState → List String → List SuspendedApproval
suspended_from s [] = []
suspended_from s (c ∷ cs) =
    let rest = suspended_from s cs in
    elim (s.approvals c) [
      | none ↦ rest
      | some st ↦
          if is_suspension s st
          then record {
            turn_id = st.turn_id;
            call_id = st.call_id;
            tool_name = st.tool_name;
            reason = st.reason;
            args = st.args;
          }
            ∷ rest
          else rest
    ]

-- The keys of `suspendedTurns`
abbrev pub suspended_turn_ids : List SuspendedApproval → List String
suspended_turn_ids [] = []
suspended_turn_ids (a ∷ as') = a.turn_id ∷ suspended_turn_ids as'

unfoldable pub open_from : FoldState → List String → List String → List OpenTurn
open_from s suspended [] = []
open_from s suspended (t ∷ ts) =
    let rest = open_from s suspended ts in
    elim (s.turns t) [
      | none ↦ rest
      | some st ↦
          if st.closed
          then rest
          else if elem t suspended
          then rest
          else record {
            turn_id = st.turn_id;
            recovered_usage = st.recovered_usage;
            last_provider_raw = st.last_provider_raw;
          }
            ∷ rest
    ]

unfoldable pub unknown_from : FoldState → SideEffectLookup → List String → List UnknownExecution
unfolding resolve_side_effect
unknown_from s lookup [] = []
unknown_from s lookup (c ∷ cs) =
    let rest = unknown_from s lookup cs in
    elim (s.execs c) [
      | none ↦ rest
      | some es ↦
          if es.closed
          then rest
          else let se = resolve_side_effect es.tool_name lookup in
            record {
              call_id = es.call_id;
              tool_name = es.tool_name;
              idempotency_key = es.idempotency_key;
              side_effect = se;
              re_dispatchable = is_read_only se;
            }
            ∷ rest
    ]

unfoldable pub plan_of : FoldState → SideEffectLookup → Plan
unfolding suspended_from open_from unknown_from
plan_of s lookup =
    let suspended = suspended_from s s.approval_order in
    record {
      open_turns = open_from s (suspended_turn_ids suspended) s.turn_order;
      unknown_executions = unknown_from s lookup s.exec_order;
      suspended_approvals = suspended;
    }

-- `Analyze`; its error result is always nil.
unfoldable pub analyze : List EventEnvelope → SideEffectLookup → Plan
unfolding fold plan_of
analyze envs lookup = plan_of (fold empty_fold (events_of envs)) lookup
