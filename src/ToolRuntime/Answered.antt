-- ===== src/ToolRuntime/Answered.antt =====
-- Behind an execution that is answered with no error, the ledger has the answer.
use mathlib.Core.Path.{subst}
use mathlib.Core.Option.{some-injective}
use harness_ai.Prelude.{
  ℕ, ◌≡◌, refl, sym, ◌∙◌, Bool, true, false, Option, none, some, inl, inr, Bool-cases, Option-cases,
  str_eq, eq_refl, arith, if◌then◌else◌,
}
use harness_ai.ToolRuntime.{
  Observation, ExecutionStatus, started, completed, failed, unknown, ExecutionRecord, Ledger, Ran,
  ran, crashed, Tool, Resolved, found, not_found, broken, Request, World,
}
use harness_ai.ToolRuntime.Ledger.{begin, complete, put_record}
use harness_ai.ToolRuntime.Execute.{
  Executed, on_resolved, begun_stage, is_completed, dedup_stage, gate_stage, run_stage, finish_run,
  record_of, record_terminal, offload, offloaded, masked, egress_gate, egress_target,
  is_external_class, status_of,
}

put_record-same :
    (l : Ledger) (r : ExecutionRecord)
    → put_record l r r.tenant_id r.session_id r.idempotency_key ≡ some r
put_record-same l r = rw (eq_refl r.tenant_id, eq_refl r.session_id, eq_refl r.idempotency_key) refl

-- The record of a request's key.
abbrev pub held : Ledger → Request → Option ExecutionRecord
held l req = l req.tenant_id req.session_id req.idempotency_key

-- A ledger that answers a key: its execution is completed with that observation.
pub record IsAnswered (l : Ledger) (req : Request) (obs : Observation) : Type 0 where
  pub row : ExecutionRecord
  pub is_held : held l req ≡ some row
  pub is_completed : row.status ≡ completed
  pub is_observed : row.result ≡ obs

pub held-again :
    (l : Ledger) (req again : Request)
    → again.tenant_id ≡ req.tenant_id
    → again.session_id ≡ req.session_id
    → again.idempotency_key ≡ req.idempotency_key
    → held l again ≡ held l req
held-again l req again f g h = rw (f, g, h) refl

pub begin-existing :
    (w : World) (req : Request) (l : Ledger) (row : ExecutionRecord)
    → str_eq req.tenant_id "" ≡ false
    → w.begin_up ≡ true
    → held l req ≡ some row
    → begin w (record_of req) l ≡ some (row, l)
unfolding begin
begin-existing w req l row t u h = rw (t, u, h) refl

record_terminal-held :
    (w : World) (req : Request) (obs : Observation) (s : ExecutionStatus) (l : Ledger)
    (row : ExecutionRecord)
    → str_eq req.tenant_id "" ≡ false
    → w.complete_up ≡ true
    → held l req ≡ some row
    → held (record_terminal w req obs s l) req
      ≡ some (record (record_of req) { status = s; result = obs })
unfolding record_terminal complete
record_terminal-held w req obs s l row t u h =
    rw (t, u, h) (put_record-same l (record (record_of req) { status = s; result = obs }))

is_completed-completed : (s : ExecutionStatus) → is_completed s ≡ true → s ≡ completed
is_completed-completed completed h = refl
is_completed-completed started h = ground arith
is_completed-completed failed h = ground arith
is_completed-completed unknown h = ground arith

pair-held :
    (req : Request) (row : ExecutionRecord) (l : Ledger) (p : ExecutionRecord × Ledger)
    → held l req ≡ some row
    → ◌≡◌ {A = Option (ExecutionRecord × Ledger)} (some (row, l)) (some p)
    → held p.1 req ≡ some p.0
pair-held req row l p h e = subst (λ q. held q.1 req ≡ some q.0) (some-injective (row, l) p e) h

-- Behind `begin`, the key holds the record that it returns.
begin-held :
    (w : World) (req : Request) (l : Ledger) (p : ExecutionRecord × Ledger)
    → str_eq req.tenant_id "" ≡ false
    → begin w (record_of req) l ≡ some p
    → held p.1 req ≡ some p.0
unfolding begin
begin-held w req l p t e = elim (Bool-cases w.begin_up) [
  | inl u ↦ elim (Option-cases (held l req)) [
    | inl h ↦
        pair-held req (record_of req) (put_record l (record_of req)) p
          (put_record-same l (record_of req)) (sym (rw (t, u, h) refl) ∙ e)
    | inr (row, h) ↦ pair-held req row l p h (sym (rw (t, u, h) refl) ∙ e)
  ]
  | inr u ↦ ground arith
]

egress_gate-is_error :
    (w : World) (req : Request) (tool : Tool) (b : Observation)
    → egress_gate w req tool ≡ some b
    → b.is_error ≡ true
unfolding egress_gate
egress_gate-is_error w req tool b e = elim (egress_target w tool req.args) [
  | none ↦ ground arith
  | some host ↦ ground arith
]

answered-eq :
    {o p : Observation} {m n : ℕ}
    → ◌≡◌ {A = Option (Observation × ℕ)} (some (o, m)) (some (p, n))
    → o ≡ p
answered-eq h = ground arith

module _ (w : World) (req : Request) (obs : Observation) (size : ℕ) (is_ok : obs.is_error ≡ false)
    (t : str_eq req.tenant_id "" ≡ false) (u : w.complete_up ≡ true) where
  offloaded-IsAnswered :
      (l : Ledger) (row : ExecutionRecord) (out : Option (Observation × ℕ))
      → held l req ≡ some row
      → (offloaded w req l out).result ≡ some (obs, size)
      → IsAnswered (offloaded w req l out).ledger req obs
  unfolding offloaded
  offloaded-IsAnswered l row none h e = ground arith
  offloaded-IsAnswered l row (some (p, n)) h e = record {
    row = record (record_of req) { status = status_of p; result = p };
    is_held = record_terminal-held w req p (status_of p) l row t u h;
    is_completed = rw (answered-eq e, is_ok) refl;
    is_observed = answered-eq e;
  }

  finish_run-IsAnswered :
      (tool : Tool) (r : Ran) (l : Ledger) (row : ExecutionRecord)
      → held l req ≡ some row
      → (finish_run w req tool r l).result ≡ some (obs, size)
      → IsAnswered (finish_run w req tool r l).ledger req obs
  unfolding finish_run
  finish_run-IsAnswered tool (crashed text) l row h e = let k = answered-eq e in ground arith
  finish_run-IsAnswered tool (ran o) l row h e =
      offloaded-IsAnswered l row (offload w req (masked w o)) h e

  -- What a stage keeps: if it answers the observation, its ledger has it.
  abbrev Answers : Executed → Type 0
  Answers x = x.result ≡ some (obs, size) → IsAnswered x.ledger req obs

  if-Answers :
      (b : Bool) (x y : Executed)
      → (b ≡ true → Answers x)
      → (b ≡ false → Answers y)
      → Answers (if b then x else y)
  if-Answers true x y f g = f refl
  if-Answers false x y f g = g refl

  run_stage-Answers :
      (tool : Tool) (l : Ledger) (row : ExecutionRecord)
      → held l req ≡ some row
      → Answers (run_stage w req tool l)
  unfolding run_stage
  run_stage-Answers tool l row h =
      if-Answers w.progress_ok _ _
        (λ _. finish_run-IsAnswered tool (tool.run req.session_id req.args) l row h)
        (λ _ e. ground arith)

  blocked-Answers :
      (tool : Tool) (l : Ledger) (o : Option Observation)
      → ((b : Observation) → o ≡ some b → b.is_error ≡ true)
      → Answers (run_stage w req tool l)
      → Answers (elim o [
        | some b ↦ record {
          result = some (b, 0);
          ledger = record_terminal w req b failed l;
          was_run = false;
        }
        | none ↦ run_stage w req tool l
      ])
  blocked-Answers tool l none f g e = g e
  blocked-Answers tool l (some b) f g e = let k = answered-eq e in let i = f b refl in ground arith

  gate_stage-Answers :
      (tool : Tool) (l : Ledger) (row : ExecutionRecord)
      → held l req ≡ some row
      → Answers (gate_stage w req tool l)
  unfolding gate_stage
  gate_stage-Answers tool l row h =
      if-Answers (is_external_class tool.egress_class) _ _
        (λ _.
          blocked-Answers tool l (egress_gate w req tool) (egress_gate-is_error w req tool)
            (run_stage-Answers tool l row h))
        (λ _. run_stage-Answers tool l row h)

  existing-Answers :
      (row : ExecutionRecord) (l : Ledger)
      → is_completed row.status ≡ true
      → held l req ≡ some row
      → Answers (record { result = some (row.result, 0); ledger = l; was_run = false })
  existing-Answers row l c h e = record {
    row = row;
    is_held = h;
    is_completed = is_completed-completed row.status c;
    is_observed = answered-eq e;
  }

  begun_stage-Answers :
      (tool : Tool) (l : Ledger) (o : Option (ExecutionRecord × Ledger))
      → ((p : ExecutionRecord × Ledger) → o ≡ some p → held p.1 req ≡ some p.0)
      → Answers (begun_stage w req tool l o)
  unfolding begun_stage
  begun_stage-Answers tool l none f = λ e. ground arith
  begun_stage-Answers tool l (some (row, m)) f =
      let h : held m req ≡ some row = f (row, m) refl in
      if-Answers (is_completed row.status) _ _ (λ c. existing-Answers row m c h)
        (λ _. gate_stage-Answers tool m row h)

  pub on_resolved-Answers : (l : Ledger) (r : Resolved) → Answers (on_resolved w req l r)
  unfolding on_resolved dedup_stage
  on_resolved-Answers l not_found e = let k = answered-eq e in ground arith
  on_resolved-Answers l broken e = ground arith
  on_resolved-Answers l (found tool) e =
      begun_stage-Answers tool l (begin w (record_of req) l) (λ p. begin-held w req l p t) e
