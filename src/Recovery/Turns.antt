-- ===== src/Recovery/Turns.antt =====
-- The open turns of a plan of recovery.go.
use harness_ai.Prelude.{
  String, ◌≡◌, refl, Bool, false, not, ◌&&◌, Option, none, some, Option-cases, inl, inr, List, [],
  ◌∷◌, any, elem, eq_iff, arith,
}
use harness_ai.Domain.{
  Event, turn_started, assistant_message_delta, assistant_message, turn_aborted, turn_finished,
  EventEnvelope,
}
use harness_ai.Recovery.{OpenTurn, TurnState, FoldState}
use harness_ai.Recovery.Fold.{empty_fold, step, fold, events_of}
use harness_ai.Recovery.Collect.{SideEffectLookup, suspended_turn_ids, open_from, plan_of, analyze}
use harness_ai.Recovery.Spec.{unfinished, starts_turn, closes, terminates}
use harness_ai.Recovery.Keys.{turn_step, turns-step}
use harness_ai.Recovery.Order.{Ordered, fold-IsWellKeyed}

abbrev pub is_open : Option TurnState → Bool
is_open none = false
is_open (some ts) = not ts.closed

abbrev pub is_live : Option TurnState → Bool
is_live none = false
is_live (some ts) = not ts.terminated

-- The rest of the log decides about a turn from the state so far.
abbrev after {ℓ} :
    {A : Type ℓ} → Bool → (Event → Bool) → (Event → Bool) → Option A → List Event → Bool
after going starts finishes none es = unfinished starts finishes es
after going starts finishes (some _) es = going && not (any finishes es)

turn_step-open :
    (t : String) (o : Option TurnState) (e : Event) (es : List Event)
    → after (is_open (turn_step t o e)) (starts_turn t) (closes t) (turn_step t o e) es
      ≡ after (is_open o) (starts_turn t) (closes t) o (e ∷ es)
turn_step-open t none (turn_started u _) es = ground arith
turn_step-open t none _ es = refl
turn_step-open t (some ts) (turn_started u _) es = refl
turn_step-open t (some ts) (assistant_message_delta u _ _ _) es = ground arith
turn_step-open t (some ts) (assistant_message u _ _ _ _ _ _) es = ground arith
turn_step-open t (some ts) (turn_aborted u _ _ _) es = ground arith
turn_step-open t (some ts) (turn_finished u _ _ _ _) es = ground arith
turn_step-open t (some ts) _ es = refl

turn_step-live :
    (t : String) (o : Option TurnState) (e : Event) (es : List Event)
    → after (is_live (turn_step t o e)) (starts_turn t) (terminates t) (turn_step t o e) es
      ≡ after (is_live o) (starts_turn t) (terminates t) o (e ∷ es)
turn_step-live t none (turn_started u _) es = ground arith
turn_step-live t none _ es = refl
turn_step-live t (some ts) (turn_started u _) es = refl
turn_step-live t (some ts) (assistant_message_delta u _ _ _) es = ground arith
turn_step-live t (some ts) (assistant_message u _ _ _ _ _ _) es = ground arith
turn_step-live t (some ts) (turn_aborted u _ _ _) es = ground arith
turn_step-live t (some ts) (turn_finished u _ _ _ _) es = ground arith
turn_step-live t (some ts) _ es = refl

is_open-fold :
    (t : String) (s : FoldState) (es : List Event)
    → is_open ((fold s es).turns t)
      ≡ after (is_open (s.turns t)) (starts_turn t) (closes t) (s.turns t) es
unfolding fold
is_open-fold t s [] = ground arith
is_open-fold t s (e ∷ es) =
    rw (is_open-fold t (step s e) es, turns-step t s e) (turn_step-open t (s.turns t) e es)

is_live-fold :
    (t : String) (s : FoldState) (es : List Event)
    → is_live ((fold s es).turns t)
      ≡ after (is_live (s.turns t)) (starts_turn t) (terminates t) (s.turns t) es
unfolding fold
is_live-fold t s [] = ground arith
is_live-fold t s (e ∷ es) =
    rw (is_live-fold t (step s e) es, turns-step t s e) (turn_step-live t (s.turns t) e es)

-- A turn may still wait for an approval exactly if it was started and nothing behind its first
-- start aborts or finishes it.
pub is_live-fold_empty :
    (t : String) (es : List Event)
    → is_live ((fold empty_fold es).turns t) ≡ unfinished (starts_turn t) (terminates t) es
is_live-fold_empty t es = is_live-fold t empty_fold es

abbrev pub open_turn_ids : List OpenTurn → List String
open_turn_ids [] = []
open_turn_ids (o ∷ os) = o.turn_id ∷ open_turn_ids os

module _ (s : FoldState) (keyed : Ordered (λ v. v.turn_id) s.turns s.turn_order)
    (suspended : List String) where
  pub elem-open_from :
      (t : String) (order : List String)
      → elem t (open_turn_ids (open_from s suspended order))
        ≡ (elem t order && is_open (s.turns t) && not (elem t suspended))
  unfolding open_from
  elem-open_from t [] = refl
  elem-open_from t (u ∷ us) = elim (Option-cases (s.turns u)) [
    | inl e ↦ ground (arith, elem-open_from t us, eq_iff u t)
    | inr (v, e) ↦ ground (arith, elem-open_from t us, keyed.named u v e, eq_iff u t)
  ]

-- A turn is among the plan's open turns exactly if the log starts it, holds no assistant message,
-- abort or finish of it behind its first start, and the plan does not list it as suspended.
pub elem-open_turns :
    (t : String) (envs : List EventEnvelope) (lookup : SideEffectLookup)
    → elem t (open_turn_ids (analyze envs lookup).open_turns) ≡ (
        unfinished (starts_turn t) (closes t) (events_of envs)
        && not (elem t (suspended_turn_ids (analyze envs lookup).suspended_approvals)))
unfolding analyze
elem-open_turns t envs lookup =
    let s = fold empty_fold (events_of envs) in
    let keyed = (fold-IsWellKeyed (events_of envs)).turns in
    ground (
      arith,
      elem-open_from s keyed (suspended_turn_ids (plan_of s lookup).suspended_approvals) t
          s.turn_order,
      keyed.covers t,
      is_open-fold t empty_fold (events_of envs),
    )
