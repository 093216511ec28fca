-- ===== src/Recovery/Fold.antt =====
-- The loop of `Analyze` over the events.
use harness_ai.Prelude.{
  String, true, false, none, some, List, [], ◌∷◌, ◌++◌, Map, empty_map, put, if◌then◌else◌,
}
use harness_ai.Llm.{Usage, ProviderRaw, zero_usage}
use harness_ai.Domain.{
  Event, turn_started, assistant_message_delta, assistant_message, turn_aborted, turn_finished,
  tool_execution_started, tool_result, approval_requested, permission_decided, EventEnvelope,
}
use harness_ai.Recovery.{TurnState, ExecState, ApprovalState, FoldState}

abbrev pub empty_fold : FoldState
empty_fold = record {
  turns = empty_map;
  turn_order = [];
  execs = empty_map;
  exec_order = [];
  approvals = empty_map;
  approval_order = [];
}

-- `if v, ok := m[k]; ok { change v }` for a map of pointers
abbrev pub modify {ℓ} : {V : Type ℓ} → Map V → String → (V → V) → Map V
modify m k f = elim (m k) [ none ↦ m | some v ↦ put m k (f v) ]

abbrev pub new_turn : String → TurnState
new_turn t = record {
  turn_id = t;
  recovered_usage = zero_usage;
  last_provider_raw = none;
  closed = false;
  terminated = false;
}

abbrev pub checkpoint : Usage → ProviderRaw → TurnState → TurnState
checkpoint u raw ts =
    if ts.closed then ts else record ts { recovered_usage = u; last_provider_raw = raw }

abbrev pub close_turn : TurnState → TurnState
close_turn ts = record ts { closed = true }

abbrev pub terminate_turn : TurnState → TurnState
terminate_turn ts = record ts { closed = true; terminated = true }

abbrev pub close_exec : ExecState → ExecState
close_exec es = record es { closed = true }

abbrev pub resolve : ApprovalState → ApprovalState
resolve st = record st { resolved = true }

-- The switch on the event's type.
unfoldable pub step : FoldState → Event → FoldState
step s (turn_started t model) = elim (s.turns t) [
  | some _ ↦ s
  | none ↦ record s { turns = put s.turns t (new_turn t); turn_order = s.turn_order ++ t ∷ [] }
]
step s (assistant_message_delta t text u raw) = record s {
  turns = modify s.turns t (checkpoint u raw);
}
step s (assistant_message t msg stop raw_stop u cost raw) = record s {
  turns = modify s.turns t close_turn;
}
step s (turn_aborted t reason u cost) = record s { turns = modify s.turns t terminate_turn }
step s (turn_finished t reason u cost n) = record s { turns = modify s.turns t terminate_turn }
step s (tool_execution_started c tool key) = elim (s.execs c) [
  | some _ ↦ s
  | none ↦ record s {
    execs =
        put s.execs c
          (record { call_id = c; tool_name = tool; idempotency_key = key; closed = false });
    exec_order = s.exec_order ++ c ∷ [];
  }
]
step s (tool_result c result is_error truncated blob) = record s {
  execs = modify s.execs c close_exec;
}
step s (approval_requested t c tool reason args) = elim (s.approvals c) [
  | some st ↦ record s {
    approvals = put s.approvals c (record st {
      turn_id = t;
      tool_name = tool;
      reason = reason;
      args = args;
      resolved = false;
    });
  }
  | none ↦ record s {
    approvals = put s.approvals c (record {
      turn_id = t;
      call_id = c;
      tool_name = tool;
      reason = reason;
      args = args;
      resolved = false;
    });
    approval_order = s.approval_order ++ c ∷ [];
  }
]
step s (permission_decided c tool decision answer rule reason) = record s {
  approvals = modify s.approvals c resolve;
}
step s _ = s

unfoldable pub fold : FoldState → List Event → FoldState
fold s [] = s
fold s (e ∷ es) = fold (step s e) es

abbrev pub events_of : List EventEnvelope → List Event
events_of [] = []
events_of (env ∷ envs) = env.event ∷ events_of envs
