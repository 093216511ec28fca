-- ===== src/ToolRuntime/Egress.antt =====
-- Which external calls are run, by what the broker answers for the resolved host, and which record an execution may change.
use mathlib.Core.Path.{subst}
use mathlib.Core.Option.{some-injective}
use harness_ai.Prelude.{
  ℕ, ◌≡◌, refl, sym, ap, ◌∙◌, String, Bool, true, false, Option, none, some, inl, inr, ◌⊎◌,
  Bool-cases, Option-cases, ◌&&◌, str_eq, arith, if◌then◌else◌,
}
use harness_ai.ToolRuntime.{
  Observation, ExecutionStatus, failed, ExecutionRecord, Ledger, Ran, ran, crashed, Tool, Resolved,
  found, not_found, broken, Request, World, EgressAnswer, answer, failure,
}
use harness_ai.ToolRuntime.Ledger.{begin, complete, put_record, read}
use harness_ai.ToolRuntime.Execute.{
  Executed, execute, on_resolved, dedup_stage, begun_stage, gate_stage, run_stage, finish_run,
  offloaded, record_of, record_terminal, offload, masked, egress_gate, egress_target,
  is_external_class, is_completed,
}

-- The service resolves a host for the call, and the broker allows it for the session.
pub record IsAllowed (w : World) (req : Request) (tool : Tool) : Type 0 where
  pub host : String
  pub is_target : egress_target w tool req.args ≡ some host
  pub is_answer : w.allow req.session_id host ≡ answer true

EgressAnswer-cases :
    (a : EgressAnswer)
    → (a ≡ answer true) ⊎ ((a ≡ answer false) ⊎ ((text : String) × (a ≡ failure text)))
EgressAnswer-cases (answer true) = inl refl
EgressAnswer-cases (answer false) = inr (inl refl)
EgressAnswer-cases (failure text) = inr (inr (text, refl))

pub egress_gate-IsAllowed :
    (w : World) (req : Request) (tool : Tool) → egress_gate w req tool ≡ none → IsAllowed w req tool
unfolding egress_gate
egress_gate-IsAllowed w req tool e = elim (Option-cases (egress_target w tool req.args)) [
  | inl h ↦ ground arith
  | inr (host, h) ↦ elim (EgressAnswer-cases (w.allow req.session_id host)) [
    | inl a ↦ record { host = host; is_target = h; is_answer = a }
    | inr (inl a) ↦ ground arith
    | inr (inr (text, a)) ↦ ground arith
  ]
]

gate_stage-IsAllowed :
    (w : World) (req : Request) (tool : Tool) (l : Ledger)
    → is_external_class tool.egress_class ≡ true
    → (gate_stage w req tool l).was_run ≡ true
    → IsAllowed w req tool
unfolding gate_stage
gate_stage-IsAllowed w req tool l x r = elim (Option-cases (egress_gate w req tool)) [
  | inl g ↦ egress_gate-IsAllowed w req tool g
  | inr (o, g) ↦ ground arith
]

begun_stage-IsAllowed :
    (w : World) (req : Request) (tool : Tool) (l : Ledger) (o : Option (ExecutionRecord × Ledger))
    → is_external_class tool.egress_class ≡ true
    → (begun_stage w req tool l o).was_run ≡ true
    → IsAllowed w req tool
unfolding begun_stage
begun_stage-IsAllowed w req tool l none x r = ground arith
begun_stage-IsAllowed w req tool l (some (row, m)) x r =
    elim (Bool-cases (is_completed row.status)) [
      | inl c ↦ ground arith
      | inr c ↦ gate_stage-IsAllowed w req tool m x (ground arith)
    ]

-- If a request for an external tool, by whatever ledger, has run the tool, then the service had resolved a
-- host for the call and the egress broker had allowed it for the session.
pub execute-IsAllowed :
    (w : World) (req : Request) (l : Ledger) (tool : Tool)
    → w.registry req.tool_name ≡ found tool
    → is_external_class tool.egress_class ≡ true
    → (execute w req l).was_run ≡ true
    → IsAllowed w req tool
unfolding execute on_resolved dedup_stage
execute-IsAllowed w req l tool f x r =
    begun_stage-IsAllowed w req tool l (begin w (record_of req) l) x
      (sym (ap (λ a. (on_resolved w req l a).was_run) f) ∙ r)

-- Whether a request's key is that of a row.
abbrev pub is_key : Request → String → String → String → Bool
is_key req t s k = str_eq req.tenant_id t && str_eq req.session_id s && str_eq req.idempotency_key k

module _ (w : World) (req : Request) (t s k : String) (other : is_key req t s k ≡ false) where
  -- A ledger that has the row of the other key as another has it.
  abbrev Keeps : Ledger → Ledger → Type 0
  Keeps l m = m t s k ≡ l t s k

  pair-Keeps :
      (l : Ledger) (row : ExecutionRecord) (m : Ledger) (p : ExecutionRecord × Ledger)
      → Keeps l m
      → ◌≡◌ {A = Option (ExecutionRecord × Ledger)} (some (row, m)) (some p)
      → Keeps l p.1
  pair-Keeps l row m p h e = subst (λ q. Keeps l q.1) (some-injective (row, m) p e) h

  record_terminal-Keeps :
      (o : Observation) (status : ExecutionStatus) (l : Ledger)
      → Keeps l (record_terminal w req o status l)
  unfolding record_terminal complete
  record_terminal-Keeps o status l = elim (Bool-cases (str_eq req.tenant_id "")) [
    | inl e ↦ rw (e) refl
    | inr e ↦ elim (Bool-cases w.complete_up) [
      | inl u ↦ elim (Option-cases (read l (record_of req))) [
        | inl r ↦ rw (e, u, r) refl
        | inr (row, r) ↦ rw (e, u, r) (rw (other) refl)
      ]
      | inr u ↦ rw (e, u) refl
    ]
  ]

  begin-Keeps :
      (l : Ledger) (p : ExecutionRecord × Ledger) → begin w (record_of req) l ≡ some p → Keeps l p.1
  unfolding begin
  begin-Keeps l p b = elim (Bool-cases (str_eq req.tenant_id "")) [
    | inl e ↦ ground arith
    | inr e ↦ elim (Bool-cases w.begin_up) [
      | inl u ↦ elim (Option-cases (read l (record_of req))) [
        | inl r ↦
            pair-Keeps l (record_of req) (put_record l (record_of req)) p (rw (other) refl)
              (sym (rw (e, u, r) refl) ∙ b)
        | inr (row, r) ↦ pair-Keeps l row l p refl (sym (rw (e, u, r) refl) ∙ b)
      ]
      | inr u ↦ ground arith
    ]
  ]

  offloaded-Keeps :
      (l : Ledger) (o : Option (Observation × ℕ)) → Keeps l (offloaded w req l o).ledger
  unfolding offloaded
  offloaded-Keeps l none = refl
  offloaded-Keeps l (some (out, size)) = record_terminal-Keeps out _ l

  finish_run-Keeps :
      (tool : Tool) (r : Ran) (l : Ledger) → Keeps l (finish_run w req tool r l).ledger
  unfolding finish_run
  finish_run-Keeps tool (crashed text) l = record_terminal-Keeps _ failed l
  finish_run-Keeps tool (ran o) l = offloaded-Keeps l (offload w req (masked w o))

  if-Keeps :
      (l : Ledger) (b : Bool) (x y : Executed)
      → Keeps l x.ledger
      → Keeps l y.ledger
      → Keeps l (if b then x else y).ledger
  if-Keeps l true x y f g = f
  if-Keeps l false x y f g = g

  run_stage-Keeps : (tool : Tool) (l : Ledger) → Keeps l (run_stage w req tool l).ledger
  unfolding run_stage
  run_stage-Keeps tool l =
      if-Keeps l w.progress_ok _ _ (finish_run-Keeps tool (tool.run req.session_id req.args) l) refl

  gate_stage-Keeps : (tool : Tool) (l : Ledger) → Keeps l (gate_stage w req tool l).ledger
  unfolding gate_stage
  gate_stage-Keeps tool l = elim (Bool-cases (is_external_class tool.egress_class)) [
    | inl x ↦ elim (Option-cases (egress_gate w req tool)) [
      | inl g ↦ rw (x, g) (run_stage-Keeps tool l)
      | inr (o, g) ↦ rw (x, g) (record_terminal-Keeps o failed l)
    ]
    | inr x ↦ rw (x) (run_stage-Keeps tool l)
  ]

  begun_stage-Keeps :
      (tool : Tool) (l : Ledger) (o : Option (ExecutionRecord × Ledger))
      → ((p : ExecutionRecord × Ledger) → o ≡ some p → Keeps l p.1)
      → Keeps l (begun_stage w req tool l o).ledger
  unfolding begun_stage
  begun_stage-Keeps tool l none f = refl
  begun_stage-Keeps tool l (some (row, m)) f =
      let kept : Keeps l m = f (row, m) refl in
      if-Keeps l (is_completed row.status) _ _ kept (gate_stage-Keeps tool m ∙ kept)

  on_resolved-Keeps : (l : Ledger) (r : Resolved) → Keeps l (on_resolved w req l r).ledger
  unfolding on_resolved dedup_stage
  on_resolved-Keeps l not_found = refl
  on_resolved-Keeps l broken = refl
  on_resolved-Keeps l (found tool) =
      begun_stage-Keeps tool l (begin w (record_of req) l) (begin-Keeps l)

  -- Whatever an execution does, and however it fails, the record of every other key (another tenant, another
  -- session or another idempotency key) stays as it was.
  pub execute-Keeps : (l : Ledger) → (execute w req l).ledger t s k ≡ l t s k
  unfolding execute
  execute-Keeps l = on_resolved-Keeps l (w.registry req.tool_name)
