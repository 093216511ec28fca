-- ===== src/Recovery/Keys.antt =====
-- The maps of the fold of recovery.go: what one event does at one key, and the order lists.
use harness_ai.Prelude.{
  String, ◌≡◌, refl, Bool, false, Option, none, some, str_eq, eq_iff, if◌then◌else◌, arith,
}
use harness_ai.Llm.{Args}
use harness_ai.Domain.{
  Event, turn_started, assistant_message_delta, assistant_message, turn_aborted, turn_finished,
  tool_execution_started, tool_result, approval_requested, permission_decided,
}
use harness_ai.Recovery.{TurnState, ExecState, ApprovalState, FoldState}
use harness_ai.Recovery.Fold.{
  new_turn, checkpoint, close_turn, terminate_turn, close_exec, resolve, step,
}

abbrev pub change {ℓ} : {V : Type ℓ} → Bool → (V → V) → Option V → Option V
change b f none = none
change b f (some v) = if b then some (f v) else some v

abbrev pub or_new {ℓ} : {V : Type ℓ} → Bool → V → Option V → Option V
or_new b v none = if b then some v else none
or_new b v (some w) = some w

-- One turn's state under one event.
abbrev pub turn_step : String → Option TurnState → Event → Option TurnState
turn_step t o (turn_started u _) = or_new (str_eq u t) (new_turn u) o
turn_step t o (assistant_message_delta u _ use' raw) = change (str_eq u t) (checkpoint use' raw) o
turn_step t o (assistant_message u _ _ _ _ _ _) = change (str_eq u t) close_turn o
turn_step t o (turn_aborted u _ _ _) = change (str_eq u t) terminate_turn o
turn_step t o (turn_finished u _ _ _ _) = change (str_eq u t) terminate_turn o
turn_step t o _ = o

abbrev pub exec_step : String → Option ExecState → Event → Option ExecState
exec_step c o (tool_execution_started d tool key) =
    or_new (str_eq d c)
      (record { call_id = d; tool_name = tool; idempotency_key = key; closed = false }) o
exec_step c o (tool_result d _ _ _ _) = change (str_eq d c) close_exec o
exec_step c o _ = o

abbrev pub ask : String → String → String → String → Args → ApprovalState
ask t c tool reason args = record {
  turn_id = t;
  call_id = c;
  tool_name = tool;
  reason = reason;
  args = args;
  resolved = false;
}

abbrev pub approval_step : String → Option ApprovalState → Event → Option ApprovalState
approval_step c o (approval_requested t d tool reason args) =
    if str_eq d c
    then elim o [
      | none ↦ some (ask t d tool reason args)
      | some st ↦ some (ask t st.call_id tool reason args)
    ]
    else o
approval_step c o (permission_decided d _ _ _ _ _) = change (str_eq d c) resolve o
approval_step c o _ = o

pub turns-step :
    (t : String) (s : FoldState) (e : Event) → (step s e).turns t ≡ turn_step t (s.turns t) e
unfolding step
turns-step t s (turn_started u m) = ground (arith, eq_iff u t)
turns-step t s (assistant_message_delta u _ _ _) = ground (arith, eq_iff u t)
turns-step t s (assistant_message u _ _ _ _ _ _) = ground (arith, eq_iff u t)
turns-step t s (turn_aborted u _ _ _) = ground (arith, eq_iff u t)
turns-step t s (turn_finished u _ _ _ _) = ground (arith, eq_iff u t)
turns-step t s (tool_execution_started c _ _) = ground arith
turns-step t s (approval_requested _ c _ _ _) = ground arith
turns-step t s _ = refl

pub execs-step :
    (c : String) (s : FoldState) (e : Event) → (step s e).execs c ≡ exec_step c (s.execs c) e
unfolding step
execs-step c s (turn_started u m) = ground arith
execs-step c s (tool_execution_started d _ _) = ground (arith, eq_iff d c)
execs-step c s (tool_result d _ _ _ _) = ground (arith, eq_iff d c)
execs-step c s (approval_requested _ d _ _ _) = ground arith
execs-step c s _ = refl

pub approvals-step :
    (c : String) (s : FoldState) (e : Event)
    → (step s e).approvals c ≡ approval_step c (s.approvals c) e
unfolding step
approvals-step c s (turn_started u m) = ground arith
approvals-step c s (tool_execution_started d _ _) = ground arith
approvals-step c s (approval_requested t d _ _ _) = ground (arith, eq_iff d c)
approvals-step c s (permission_decided d _ _ _ _ _) = ground (arith, eq_iff d c)
approvals-step c s _ = refl
