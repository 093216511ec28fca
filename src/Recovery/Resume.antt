-- ===== src/Recovery/Resume.antt =====
-- The close of the open turns on resume (the second loop of `adjudicateResume`, loop.go), and what
-- recovery.go makes of the log after it.
use harness_ai.Prelude.{
  String, ◌≡◌, refl, ap, ◌∙◌, true, false, not, ◌&&◌, some, Option-cases, inl, inr, List, [], ◌∷◌,
  ◌++◌, map, elem, eq_iff, arith,
}
use harness_ai.Llm.{Usage, F64}
use harness_ai.Domain.{Event, turn_aborted, TerminationReason, EventEnvelope}
use harness_ai.Recovery.{OpenTurn, Plan, ApprovalState, FoldState}
use harness_ai.Recovery.Fold.{empty_fold, terminate_turn, step, fold, events_of}
use harness_ai.Recovery.Collect.{
  SideEffectLookup, is_suspension, suspended_from, suspended_turn_ids, open_from, unknown_from,
  plan_of, analyze,
}
use harness_ai.Recovery.Keys.{change, turns-step}
use harness_ai.Recovery.Order.{fold-IsWellKeyed}
use harness_ai.Recovery.Turns.{is_open, open_turn_ids, elem-open_from}

-- The event that closes an open turn: the recovered usage, at the price of `computeCost`.
abbrev pub abort : (Usage → F64) → OpenTurn → Event
abort compute_cost o =
    turn_aborted o.turn_id TerminationReason.error_during_execution o.recovered_usage
      (compute_cost o.recovered_usage)

unfoldable pub close_open_turns : (Usage → F64) → Plan → List Event
close_open_turns compute_cost plan = map (abort compute_cost) plan.open_turns

events_of-append :
    (xs ys : List EventEnvelope) → events_of (xs ++ ys) ≡ events_of xs ++ events_of ys
events_of-append [] ys = refl
events_of-append (x ∷ xs) ys = ap (λ t. x.event ∷ t) (events_of-append xs ys)

fold-append : (s : FoldState) (xs ys : List Event) → fold s (xs ++ ys) ≡ fold (fold s xs) ys
unfolding fold
fold-append s [] ys = refl
fold-append s (x ∷ xs) ys = fold-append (step s x) xs ys

-- The states that differ only in what their turns are.
record SameButTurns (a b : FoldState) : Type 0 where
  turn_order : a.turn_order ≡ b.turn_order
  execs : (c : String) → a.execs c ≡ b.execs c
  exec_order : a.exec_order ≡ b.exec_order
  approvals : (c : String) → a.approvals c ≡ b.approvals c
  approval_order : a.approval_order ≡ b.approval_order

module _ (cost : Usage → F64) where
  fold_aborts : (s : FoldState) (os : List OpenTurn) → SameButTurns (fold s (map (abort cost) os)) s
  unfolding fold step
  fold_aborts s [] = record {
    turn_order = refl;
    execs = λ c. refl;
    exec_order = refl;
    approvals = λ c. refl;
    approval_order = refl;
  }
  fold_aborts s (o ∷ os) =
      let rest = fold_aborts (step s (abort cost o)) os in
      record {
        turn_order = rest.turn_order;
        execs = rest.execs;
        exec_order = rest.exec_order;
        approvals = rest.approvals;
        approval_order = rest.approval_order;
      }

  turns-fold_aborts :
      (t : String) (s : FoldState) (os : List OpenTurn)
      → (fold s (map (abort cost) os)).turns t
        ≡ change (elem t (open_turn_ids os)) terminate_turn (s.turns t)
  unfolding fold
  turns-fold_aborts t s [] = ground arith
  turns-fold_aborts t s (o ∷ os) =
      ground (arith, turns-fold_aborts t (step s (abort cost o)) os, turns-step t s (abort cost o))

module _ (s : FoldState) where
  elem-suspended_turns :
      (c : String) (st : ApprovalState) (order : List String)
      → elem c order ≡ true
      → s.approvals c ≡ some st
      → is_suspension s st ≡ true
      → elem st.turn_id (suspended_turn_ids (suspended_from s order)) ≡ true
  unfolding suspended_from
  elem-suspended_turns c st [] h e p = cc
  elem-suspended_turns c st (d ∷ ds) h e p =
      ground (arith, elem-suspended_turns c st ds, eq_iff d c, eq_iff st.turn_id st.turn_id)

module _ (a b : FoldState) (same : SameButTurns a b) where
  suspended_from-same :
      ((c : String) (st : ApprovalState)
        → b.approvals c ≡ some st
        → is_suspension a st ≡ is_suspension b st)
      → (order : List String) → suspended_from a order ≡ suspended_from b order
  unfolding suspended_from
  suspended_from-same h [] = refl
  suspended_from-same h (c ∷ cs) = elim (Option-cases (b.approvals c)) [
    | inl e ↦ ground (arith, same.approvals c, suspended_from-same h cs)
    | inr (st, e) ↦ ground (arith, same.approvals c, h c st e, suspended_from-same h cs)
  ]

  unknown_from-same :
      (lookup : SideEffectLookup) (order : List String)
      → unknown_from a lookup order ≡ unknown_from b lookup order
  unfolding unknown_from
  unknown_from-same lookup [] = refl
  unknown_from-same lookup (c ∷ cs) = ground (arith, same.execs c, unknown_from-same lookup cs)

open_from-nil :
    (s : FoldState) (suspended : List String)
    → ((t : String) → (is_open (s.turns t) && not (elem t suspended)) ≡ false)
    → (order : List String) → open_from s suspended order ≡ []
unfolding open_from
open_from-nil s suspended h [] = refl
open_from-nil s suspended h (t ∷ ts) = ground (arith, h t, open_from-nil s suspended h ts)

-- The state of the fold before and behind the closing events.
module _ (cost : Usage → F64) (es : List Event) (lookup : SideEffectLookup) where
  abbrev before : FoldState
  before = fold empty_fold es

  abbrev plan : Plan
  plan = plan_of before lookup

  abbrev behind : FoldState
  behind = fold before (map (abort cost) plan.open_turns)

  abbrev ids : List String
  ids = open_turn_ids plan.open_turns

  abbrev suspended : List String
  suspended = suspended_turn_ids plan.suspended_approvals

  elem-ids : (t : String) → elem t ids ≡ (is_open (before.turns t) && not (elem t suspended))
  unfolding plan_of
  elem-ids t =
      let keyed = (fold-IsWellKeyed es).turns in
      ground (arith, elem-open_from before keyed suspended t before.turn_order, keyed.covers t)

  is_suspension-behind :
      (c : String) (st : ApprovalState)
      → before.approvals c ≡ some st
      → is_suspension behind st ≡ is_suspension before st
  unfolding plan_of
  is_suspension-behind c st e = ground (
    arith,
    turns-fold_aborts cost st.turn_id before plan.open_turns,
    elem-ids st.turn_id,
    elem-suspended_turns before c st before.approval_order,
    (fold-IsWellKeyed es).approvals.covers c,
  )

  closed_behind : (t : String) → (is_open (behind.turns t) && not (elem t suspended)) ≡ false
  closed_behind t = ground (arith, turns-fold_aborts cost t before plan.open_turns, elem-ids t)

  suspended-behind : (plan_of behind lookup).suspended_approvals ≡ plan.suspended_approvals
  unfolding plan_of
  suspended-behind =
      let same = fold_aborts cost before plan.open_turns in
      ap (λ order. suspended_from behind order) same.approval_order
      ∙ suspended_from-same behind before same is_suspension-behind before.approval_order

  unknown-behind : (plan_of behind lookup).unknown_executions ≡ plan.unknown_executions
  unfolding plan_of
  unknown-behind =
      let same = fold_aborts cost before plan.open_turns in
      ap (λ order. unknown_from behind lookup order) same.exec_order
      ∙ unknown_from-same behind before same lookup before.exec_order

  open-behind : (plan_of behind lookup).open_turns ≡ []
  unfolding plan_of
  open-behind =
      ap (λ suspended_now. open_from behind (suspended_turn_ids suspended_now) behind.turn_order)
        suspended-behind
      ∙ open_from-nil behind suspended closed_behind behind.turn_order

-- If the log is continued by the events that close the plan's open turns, whatever their price,
-- the next analysis finds no open turn, the same suspended approvals and the same unknown
-- executions: one pass closes what a crash left open, and nothing else.
pub analyze-close_open_turns :
    (cost : Usage → F64) (envs new : List EventEnvelope) (lookup : SideEffectLookup)
    → events_of new ≡ close_open_turns cost (analyze envs lookup)
    → ((analyze (envs ++ new) lookup).open_turns ≡ [])
      × ((analyze (envs ++ new) lookup).suspended_approvals
          ≡ (analyze envs lookup).suspended_approvals)
      × ((analyze (envs ++ new) lookup).unknown_executions
          ≡ (analyze envs lookup).unknown_executions)
unfolding analyze close_open_turns
analyze-close_open_turns cost envs new lookup h =
    let es = events_of envs in
    rw (events_of-append envs new, h, fold-append empty_fold es)
      (open-behind cost es lookup, suspended-behind cost es lookup, unknown-behind cost es lookup)
