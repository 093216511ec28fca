-- ===== src/Recovery/Suspended.antt =====
-- The suspended approvals in a plan of recovery.go.
use harness_ai.Prelude.{
  String, ◌≡◌, refl, ap, ◌∙◌, Bool, false, ◌&&◌, Option, none, some, Option-cases, inl, inr,
  Bool-cases, List, [], ◌∷◌, elem, str_eq, eq_iff, if◌then◌else◌, arith,
}
use harness_ai.Llm.{Args}
use harness_ai.Domain.{Event, approval_requested, permission_decided, EventEnvelope}
use harness_ai.Recovery.{SuspendedApproval, ApprovalState, FoldState}
use harness_ai.Recovery.Fold.{empty_fold, resolve, step, fold, events_of}
use harness_ai.Recovery.Collect.{SideEffectLookup, is_suspension, suspended_from, plan_of, analyze}
use harness_ai.Recovery.Spec.{unfinished, starts_turn, terminates}
use harness_ai.Recovery.Keys.{change, approval_step, approvals-step}
use harness_ai.Recovery.Order.{Ordered, fold-IsWellKeyed}
use harness_ai.Recovery.Turns.{is_live, is_live-fold_empty}

-- The last ask for a call that no decision about the call follows.
abbrev pub pending_ask : String → Option SuspendedApproval → List Event → Option SuspendedApproval
pending_ask c ask [] = ask
pending_ask c ask (approval_requested t d tool reason args ∷ es) =
    pending_ask c
      (if str_eq d c
        then some
            (record { turn_id = t; call_id = c; tool_name = tool; reason = reason; args = args })
        else ask)
      es
pending_ask c ask (permission_decided d _ _ _ _ _ ∷ es) =
    pending_ask c (if str_eq d c then none else ask) es
pending_ask c ask (e ∷ es) = pending_ask c ask es

-- An ask that waits, in a turn that is started and neither aborted nor finished since.
abbrev pub waits : List Event → Option SuspendedApproval → Bool
waits es none = false
waits es (some a) = unfinished (starts_turn a.turn_id) (terminates a.turn_id) es

abbrev pub asked : String → Option ApprovalState → Option SuspendedApproval
asked c none = none
asked c (some st) =
    if st.resolved
    then none
    else some (record {
      turn_id = st.turn_id;
      call_id = c;
      tool_name = st.tool_name;
      reason = st.reason;
      args = st.args;
    })

asked_request :
    (c : String) (o : Option ApprovalState) (t d tool reason : String) (args : Args)
    → asked c (approval_step c o (approval_requested t d tool reason args)) ≡ (
        if str_eq d c
        then some
            (record { turn_id = t; call_id = c; tool_name = tool; reason = reason; args = args })
        else asked c o)
asked_request c none t d tool reason args = ground arith
asked_request c (some st) t d tool reason args = ground arith

asked_decision :
    (c : String) (o : Option ApprovalState) (d : String)
    → asked c (change (str_eq d c) resolve o) ≡ (if str_eq d c then none else asked c o)
asked_decision c none d = ground arith
asked_decision c (some st) d = ground arith

asked-step :
    (c : String) (o : Option ApprovalState) (e : Event) (es : List Event)
    → pending_ask c (asked c (approval_step c o e)) es ≡ pending_ask c (asked c o) (e ∷ es)
asked-step c o (approval_requested t d tool reason args) es =
    ap (λ a. pending_ask c a es) (asked_request c o t d tool reason args)
asked-step c o (permission_decided d _ _ _ _ _) es =
    ap (λ a. pending_ask c a es) (asked_decision c o d)
asked-step c o _ es = refl

asked-fold :
    (c : String) (s : FoldState) (es : List Event)
    → asked c ((fold s es).approvals c) ≡ pending_ask c (asked c (s.approvals c)) es
unfolding fold
asked-fold c s [] = refl
asked-fold c s (e ∷ es) =
    rw (asked-fold c (step s e) es, approvals-step c s e) (asked-step c (s.approvals c) e es)

abbrev pub suspended_call_ids : List SuspendedApproval → List String
suspended_call_ids [] = []
suspended_call_ids (a ∷ rest) = a.call_id ∷ suspended_call_ids rest

-- The test of the program, from what the state holds.
abbrev suspends : FoldState → Option ApprovalState → Bool
suspends s none = false
suspends s (some st) = is_suspension s st

module _ (s : FoldState) (keyed : Ordered (λ v. v.call_id) s.approvals s.approval_order) where
  elem-suspended_from :
      (c : String) (order : List String)
      → elem c (suspended_call_ids (suspended_from s order))
        ≡ (elem c order && suspends s (s.approvals c))
  unfolding suspended_from
  elem-suspended_from c [] = refl
  elem-suspended_from c (d ∷ ds) = elim (Option-cases (s.approvals d)) [
    | inl e ↦ ground (arith, elem-suspended_from c ds, eq_iff d c)
    | inr (v, e) ↦ elim (Bool-cases (is_suspension s v)) [
      | inl h ↦ ground (arith, elem-suspended_from c ds, keyed.named d v e, eq_iff d c)
      | inr h ↦ ground (arith, elem-suspended_from c ds, keyed.named d v e, eq_iff d c)
    ]
  ]

  covered :
      (c : String)
      → (elem c s.approval_order && suspends s (s.approvals c)) ≡ suspends s (s.approvals c)
  covered c = elim (Option-cases (s.approvals c)) [
    | inl e ↦ ground (arith, keyed.covers c)
    | inr (v, e) ↦ ground (arith, keyed.covers c)
  ]

suspends-asked :
    (s : FoldState) (c : String) (o : Option ApprovalState)
    → suspends s o ≡ elim (asked c o) [ none ↦ false | some a ↦ is_live (s.turns a.turn_id) ]
suspends-asked s c none = refl
suspends-asked s c (some st) = ground arith

live-waits :
    (es : List Event) (a : Option SuspendedApproval)
    → elim a [ none ↦ false | some b ↦ is_live ((fold empty_fold es).turns b.turn_id) ] ≡ waits es a
live-waits es none = refl
live-waits es (some a) = is_live-fold_empty a.turn_id es

-- A call is among the plan's suspended approvals exactly if the log's last ask for it is followed
-- by no decision about it, and the turn of that ask is started and not aborted or finished since.
-- An assistant message of the turn does not matter.
pub elem-suspended_approvals :
    (c : String) (envs : List EventEnvelope) (lookup : SideEffectLookup)
    → elem c (suspended_call_ids (analyze envs lookup).suspended_approvals)
      ≡ waits (events_of envs) (pending_ask c none (events_of envs))
unfolding analyze plan_of
elem-suspended_approvals c envs lookup =
    let es = events_of envs in
    let s = fold empty_fold es in
    let keyed = (fold-IsWellKeyed es).approvals in
    elem-suspended_from s keyed c s.approval_order
    ∙ covered s keyed c
    ∙ suspends-asked s c (s.approvals c)
    ∙ ap (λ a. elim a [ none ↦ false | some b ↦ is_live (s.turns b.turn_id) ])
        (asked-fold c empty_fold es)
    ∙ live-waits es (pending_ask c none es)
