-- ===== src/Agent/Guarded.antt =====
-- No tool is started without a permission: the events in front of a start.
use harness_ai.Prelude.{
  ◌≡◌, refl, ap, ◌∙◌, String, Bool, true, false, ◌&&◌, Option, none, some, Option-cases, Bool-cases,
  inl, inr, List, [], ◌∷◌, ◌++◌, str_eq, eq_refl, arith,
}
use harness_ai.Llm.{ToolCall}
use harness_ai.Domain.{
  Event, tool_execution_started, permission_decided, PermissionDecision, AskResolution, allowed,
  denied, unresolved,
}
use harness_ai.Policy.{Decision, Result}
use harness_ai.Policy.Engine.{result, bypass_forbidden, Evaluation, evaluate}
use harness_ai.Agent.{ToolDescriptor, RunState, World}
use harness_ai.Agent.Gate.{
  GateAnswer, dispatch, refuse, input_of, resolved_stage, ask_gate, decision_stage, policy_stage,
  gate_call,
}
use harness_ai.Agent.Logs.{Holds, Holds-append_event}

-- A decision that lets the call be dispatched: allowed by the policy, or by a human.
abbrev pub permits : String → Event → Bool
permits c (permission_decided d _ PermissionDecision.allow _ _ _) = str_eq d c
permits c (permission_decided d _ PermissionDecision.ask allowed _ _) = str_eq d c
permits c _ = false

abbrev pub permits_some : String → Option Event → Bool
permits_some c none = false
permits_some c (some e) = permits c e

abbrev pub in_order : Option Event → Event → Bool
in_order before (tool_execution_started c _ _) = permits_some c before
in_order before _ = true

-- Each start of a tool in the log stands directly behind a decision that permits its call.
abbrev pub guarded : Option Event → List Event → Bool
guarded before [] = true
guarded before (e ∷ es) = in_order before e && guarded (some e) es

abbrev pub last_event : Option Event → List Event → Option Event
last_event before [] = before
last_event before (e ∷ es) = last_event (some e) es

guarded-append :
    (before : Option Event) (xs : List Event) (e : Event)
    → guarded before (xs ++ (e ∷ [])) ≡ (guarded before xs && in_order (last_event before xs) e)
guarded-append before [] e = ground arith
guarded-append before (x ∷ xs) e = ground (arith, guarded-append (some x) xs e)

pub last_event-append :
    (before : Option Event) (xs : List Event) (e : Event)
    → last_event before (xs ++ (e ∷ [])) ≡ some e
last_event-append before [] e = refl
last_event-append before (x ∷ xs) e = last_event-append (some x) xs e

abbrev pub IsGuarded : List Event → Type 0
IsGuarded log = guarded none log ≡ true

pub extend :
    (log : List Event) (e : Event)
    → IsGuarded log
    → in_order (last_event none log) e ≡ true
    → IsGuarded (log ++ (e ∷ []))
extend log e h g = ground (arith, guarded-append none log e, h, g)

-- Behind the gate of a call.
abbrev pub AtGate : String → GateAnswer → List Event → Type 0
AtGate c dispatch log = IsGuarded log × (permits_some c (last_event none log) ≡ true)
AtGate c (refuse o) log = IsGuarded log

-- An event that is no start leaves the log guarded, and is its last.
pub grow :
    (st s : RunState) (e : Event)
    → IsGuarded st.log
    → ((b : Option Event) → in_order b e ≡ true)
    → s.log ≡ st.log ++ (e ∷ [])
    → IsGuarded s.log × (last_event none s.log ≡ some e)
grow st s e h g x =
    rw (x) (extend st.log e h (g (last_event none st.log)), last_event-append none st.log e)

module _ (w : World) (c : ToolCall) where
  resolved_stage-AtGate :
      (r : Result) (answer : AskResolution) (st : RunState)
      → IsGuarded st.log
      → Holds (AtGate c.id) IsGuarded (resolved_stage w c r answer st)
  unfolding resolved_stage
  resolved_stage-AtGate r allowed st h =
      Holds-append_event (AtGate c.id) IsGuarded w st _ _ h (λ s x.
        let (a, b) = grow st s _ h (λ b. refl) x in (a, ap (permits_some c.id) b ∙ eq_refl c.id))
  resolved_stage-AtGate r denied st h =
      Holds-append_event (AtGate c.id) IsGuarded w st _ _ h (λ s x. (grow st s _ h (λ b. refl) x).0)
  resolved_stage-AtGate r unresolved st h =
      Holds-append_event (AtGate c.id) IsGuarded w st _ _ h (λ s x. (grow st s _ h (λ b. refl) x).0)

  ask_gate-AtGate :
      (r : Result) (st : RunState)
      → IsGuarded st.log
      → Holds (AtGate c.id) IsGuarded (ask_gate w c r st)
  unfolding ask_gate
  ask_gate-AtGate r st h = Holds-append_event (AtGate c.id) IsGuarded w st _ _ h (λ s x.
      let a = (grow st s _ h (λ b. refl) x).0 in
      elim (Option-cases (w.approve c)) [
        | inl e ↦ rw (e) a
        | inr (answer, e) ↦ rw (e) (resolved_stage-AtGate r answer s a)
      ])

  decision_stage-AtGate :
      (r : Result) (d : Decision) (st : RunState)
      → r.decision ≡ d
      → IsGuarded st.log
      → Holds (AtGate c.id) IsGuarded (decision_stage w c r st)
  unfolding decision_stage
  decision_stage-AtGate r Decision.deny st e h =
      rw (e, decision_stage)
        (Holds-append_event (AtGate c.id) IsGuarded w st _ _ h
          (λ s x. (grow st s _ h (λ b. refl) x).0))
  decision_stage-AtGate r Decision.allow st e h =
      rw (e, decision_stage)
        (Holds-append_event (AtGate c.id) IsGuarded w st _ _ h (λ s x.
          let (a, b) = grow st s _ h (λ b. refl) x in (a, ap (permits_some c.id) b ∙ eq_refl c.id)))
  decision_stage-AtGate r Decision.ask st e h = rw (e, decision_stage) (ask_gate-AtGate r st h)

  policy_stage-AtGate :
      (cls : ToolDescriptor) (st : RunState) (v : Evaluation)
      → evaluate w.text w.engine (input_of w st c cls) ≡ v
      → IsGuarded st.log
      → Holds (AtGate c.id) IsGuarded (policy_stage w c cls st)
  unfolding policy_stage
  policy_stage-AtGate cls st bypass_forbidden e h = rw (e, policy_stage) h
  policy_stage-AtGate cls st (result r) e h =
      rw (e, policy_stage) (decision_stage-AtGate r r.decision st refl h)

  pub gate_call-AtGate :
      (cls : ToolDescriptor) (st : RunState)
      → IsGuarded st.log
      → Holds (AtGate c.id) IsGuarded (gate_call w c cls st)
  unfolding gate_call
  gate_call-AtGate cls st h = elim (Option-cases (w.hook c)) [
    | inl e ↦ rw (e, gate_call) h
    | inr (d, e) ↦ elim (Bool-cases d.allow) [
      | inl f ↦ rw (e, gate_call) (rw (f, gate_call) (policy_stage-AtGate cls st _ refl h))
      | inr f ↦
          rw (e, gate_call)
            (rw (f, gate_call)
              (Holds-append_event (AtGate c.id) IsGuarded w st _ _ h
                (λ s x. (grow st s _ h (λ b. refl) x).0)))
    ]
  ]
