-- ===== src/ToolRuntime/Once.antt =====
-- A key whose execution has an answer is not run again.
use harness_ai.Prelude.{
  ℕ, ◌≡◌, refl, ap, ◌∙◌, true, false, some, str_eq, eq_iff, Bool-cases, inl, inr, List, [], ◌∷◌,
  arith,
}
use harness_ai.ToolRuntime.{
  Observation, completed, ExecutionRecord, Ledger, Tool, Resolved, found, not_found, broken,
  Request, World,
}
use harness_ai.ToolRuntime.Ledger.{begin}
use harness_ai.ToolRuntime.Execute.{execute, on_resolved, begun_stage, dedup_stage}
use harness_ai.ToolRuntime.Answered.{
  IsAnswered, held, held-again, begin-existing, on_resolved-Answers,
}
use harness_ai.ToolRuntime.Egress.{is_key, execute-Keeps}

-- A request whose key is completed, for a tool that the registry has, is answered with the recorded observation:
-- no tool is run, and the ledger is unchanged, whatever the arguments, the egress policy and the tool.
execute-completed :
    (w : World) (req : Request) (l : Ledger) (tool : Tool) (row : ExecutionRecord)
    → w.registry req.tool_name ≡ found tool
    → str_eq req.tenant_id "" ≡ false
    → w.begin_up ≡ true
    → held l req ≡ some row
    → row.status ≡ completed
    → execute w req l ≡ record { result = some (row.result, 0); ledger = l; was_run = false }
unfolding execute on_resolved dedup_stage begun_stage
execute-completed w req l tool row f t u h c =
    rw (f, execute) (rw (begin-existing w req l row t u h, dedup_stage) (rw (c) refl))

on_resolved-unchanged :
    (w : World) (req : Request) (l : Ledger) (row : ExecutionRecord)
    → str_eq req.tenant_id "" ≡ false
    → held l req ≡ some row
    → row.status ≡ completed
    → (r : Resolved) → (on_resolved w req l r).ledger ≡ l
unfolding on_resolved dedup_stage begin begun_stage
on_resolved-unchanged w req l row t h c not_found = refl
on_resolved-unchanged w req l row t h c broken = refl
on_resolved-unchanged w req l row t h c (found tool) = elim (Bool-cases w.begin_up) [
  | inl u ↦ rw (t, u, h) (rw (c) refl)
  | inr u ↦ rw (t, u) refl
]

is_key-same :
    (r req : Request)
    → is_key r req.tenant_id req.session_id req.idempotency_key ≡ true
    → (r.tenant_id ≡ req.tenant_id)
      × ((r.session_id ≡ req.session_id) × (r.idempotency_key ≡ req.idempotency_key))
is_key-same r req k = (
  (eq_iff r.tenant_id req.tenant_id).0 (ground arith),
  (
    (eq_iff r.session_id req.session_id).0 (ground arith),
    (eq_iff r.idempotency_key req.idempotency_key).0 (ground arith),
  ),
)

-- The first execution leaves its answer.
execute-first :
    (w : World) (req : Request) (l : Ledger) (obs : Observation) (size : ℕ)
    → str_eq req.tenant_id "" ≡ false
    → w.complete_up ≡ true
    → (execute w req l).result ≡ some (obs, size)
    → obs.is_error ≡ false
    → IsAnswered (execute w req l).ledger req obs
unfolding execute
execute-first w req l obs size t u e ok =
    on_resolved-Answers w req obs size ok t u l (w.registry req.tool_name) e

-- An execution under a completed key changes nothing, also where it fails.
execute-unchanged :
    (w : World) (req : Request) (l : Ledger) (row : ExecutionRecord)
    → str_eq req.tenant_id "" ≡ false
    → held l req ≡ some row
    → row.status ≡ completed
    → (execute w req l).ledger ≡ l
unfolding execute
execute-unchanged w req l row t h c =
    on_resolved-unchanged w req l row t h c (w.registry req.tool_name)

-- What a key has been answered stays, whatever is executed.
execute-IsAnswered :
    (w : World) (r req : Request) (l : Ledger) (obs : Observation)
    → str_eq req.tenant_id "" ≡ false
    → IsAnswered l req obs
    → IsAnswered (execute w r l).ledger req obs
execute-IsAnswered w r req l obs t a = record {
  row = a.row;
  is_held = elim (Bool-cases (is_key r req.tenant_id req.session_id req.idempotency_key)) [
    | inr k ↦ execute-Keeps w r req.tenant_id req.session_id req.idempotency_key k l ∙ a.is_held
    | inl k ↦
        let (f, (g, h)) = is_key-same r req k in
        ap (λ m. held m req)
          (execute-unchanged w r l a.row (ap (λ x. str_eq x "") f ∙ t)
            (held-again l req r f g h ∙ a.is_held) a.is_completed)
        ∙ a.is_held
  ];
  is_completed = a.is_completed;
  is_observed = a.is_observed;
}

-- The ledger behind a run of executions, each with what its collaborators answer.
unfoldable pub run_requests : List (World × Request) → Ledger → Ledger
unfolding execute
run_requests [] l = l
run_requests ((w, r) ∷ rs) l = run_requests rs (execute w r l).ledger

run_requests-IsAnswered :
    (rs : List (World × Request)) (req : Request) (l : Ledger) (obs : Observation)
    → str_eq req.tenant_id "" ≡ false
    → IsAnswered l req obs
    → IsAnswered (run_requests rs l) req obs
unfolding run_requests
run_requests-IsAnswered [] req l obs t a = a
run_requests-IsAnswered ((w, r) ∷ rs) req l obs t a =
    run_requests-IsAnswered rs req (execute w r l).ledger obs t
      (execute-IsAnswered w r req l obs t a)

-- At most once. If a request is answered with an observation that is no error, and the ledger can be written, then
-- after any run of further executions every request of the same tenant and session with the same key, whatever its
-- tool and arguments, for a tool that the registry has, is answered with the same observation; no tool
-- is run, and the ledger stays as it is.
pub execute-replay :
    (w w2 : World) (req again : Request) (rs : List (World × Request)) (l : Ledger)
    (obs : Observation) (size : ℕ) (tool : Tool)
    → str_eq req.tenant_id "" ≡ false
    → w.complete_up ≡ true
    → (execute w req l).result ≡ some (obs, size)
    → obs.is_error ≡ false
    → again.tenant_id ≡ req.tenant_id
    → again.session_id ≡ req.session_id
    → again.idempotency_key ≡ req.idempotency_key
    → w2.registry again.tool_name ≡ found tool
    → w2.begin_up ≡ true
    → execute w2 again (run_requests rs (execute w req l).ledger) ≡ record {
      result = some (obs, 0);
      ledger = run_requests rs (execute w req l).ledger;
      was_run = false;
    }
execute-replay w w2 req again rs l obs size tool t u e ok same_tenant same_session same_key f b =
    let last = run_requests rs (execute w req l).ledger in
    let answered =
      run_requests-IsAnswered rs req (execute w req l).ledger obs t
        (execute-first w req l obs size t u e ok) in
    execute-completed w2 again last tool answered.row f (ap (λ x. str_eq x "") same_tenant ∙ t) b
      (held-again last req again same_tenant same_session same_key ∙ answered.is_held)
      answered.is_completed
    ∙ ap (λ x. record { result = some (x, 0); ledger = last; was_run = false }) answered.is_observed
