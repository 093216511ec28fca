-- ===== src/Recovery/Order.antt =====
-- The order lists of the fold of recovery.go hold the keys of their maps, each once, and each map
-- holds a state under its own key.
use harness_ai.Prelude.{
  String, ◌≡◌, refl, ◌∙◌, false, none, some, is_some, Option-cases, inl, inr, List, [], ◌∷◌, ◌++◌,
  elem, elem-append, Distinct, eq_iff, Map, put, arith,
}
use harness_ai.Domain.{
  Event, turn_started, assistant_message_delta, assistant_message, turn_aborted, turn_finished,
  tool_execution_started, tool_result, approval_requested, permission_decided,
}
use harness_ai.Recovery.{FoldState}
use harness_ai.Recovery.Fold.{
  empty_fold, modify, new_turn, checkpoint, close_turn, terminate_turn, close_exec, resolve, step,
  fold,
}

pub record Ordered {V : Type 0} (name : V → String) (m : Map V) (order : List String) : Type 0 where
  pub covers : (k : String) → elem k order ≡ is_some (m k)
  pub distinct : Distinct order
  pub named : (k : String) (v : V) → m k ≡ some v → name v ≡ k

Distinct-append :
    (xs : List String) (k : String) → Distinct xs → elem k xs ≡ false → Distinct (xs ++ k ∷ [])
Distinct-append [] k d h = (refl, tt)
Distinct-append (x ∷ xs) k d h = (
  ground (arith, elem-append x xs (k ∷ []), eq_iff k x, eq_iff x k),
  Distinct-append xs k d.1 (ground arith),
)

module _ {V : Type 0} {name : V → String} {m : Map V} {order : List String}
    (o : Ordered name m order) where
  Ordered-new :
      (k : String) (v : V) → m k ≡ none → name v ≡ k → Ordered name (put m k v) (order ++ k ∷ [])
  Ordered-new k v h n = record {
    covers = λ j. ground (arith, elem-append j order (k ∷ []), o.covers j);
    distinct = Distinct-append order k o.distinct (ground (arith, o.covers k));
    named = λ j w p. ground (arith, o.named j w, eq_iff k j);
  }

  Ordered-put : (k : String) (v w : V) → m k ≡ some v → name w ≡ k → Ordered name (put m k w) order
  Ordered-put k v w h n = record {
    covers = λ j. ground (arith, o.covers j, eq_iff k j);
    distinct = o.distinct;
    named = λ j u p. ground (arith, o.named j u, eq_iff k j);
  }

  Ordered-modify :
      (k : String) (f : V → V) → ((v : V) → name (f v) ≡ name v) → Ordered name (modify m k f) order
  Ordered-modify k f keep = elim (Option-cases (m k)) [
    | inl e ↦ rw (e, modify) o
    | inr (v, e) ↦ rw (e, modify) (Ordered-put k v (f v) e (keep v ∙ o.named k v e))
  ]

-- The three maps of the fold.
pub record IsWellKeyed (s : FoldState) : Type 0 where
  pub turns : Ordered (λ v. v.turn_id) s.turns s.turn_order
  pub execs : Ordered (λ v. v.call_id) s.execs s.exec_order
  pub approvals : Ordered (λ v. v.call_id) s.approvals s.approval_order

pub step-IsWellKeyed : (s : FoldState) (e : Event) → IsWellKeyed s → IsWellKeyed (step s e)
unfolding step
step-IsWellKeyed s (turn_started t m) h = elim (Option-cases (s.turns t)) [
  | inl e ↦
      rw (e, step)
        (record {
          turns = Ordered-new h.turns t (new_turn t) e refl;
          execs = h.execs;
          approvals = h.approvals;
        })
  | inr (v, e) ↦ rw (e, step) h
]
step-IsWellKeyed s (assistant_message_delta t _ u raw) h = record {
  turns = Ordered-modify h.turns t (checkpoint u raw) (λ v. ground arith);
  execs = h.execs;
  approvals = h.approvals;
}
step-IsWellKeyed s (assistant_message t _ _ _ _ _ _) h = record {
  turns = Ordered-modify h.turns t close_turn (λ v. refl);
  execs = h.execs;
  approvals = h.approvals;
}
step-IsWellKeyed s (turn_aborted t _ _ _) h = record {
  turns = Ordered-modify h.turns t terminate_turn (λ v. refl);
  execs = h.execs;
  approvals = h.approvals;
}
step-IsWellKeyed s (turn_finished t _ _ _ _) h = record {
  turns = Ordered-modify h.turns t terminate_turn (λ v. refl);
  execs = h.execs;
  approvals = h.approvals;
}
step-IsWellKeyed s (tool_execution_started c tool key) h = elim (Option-cases (s.execs c)) [
  | inl e ↦
      rw (e, step)
        (record {
          turns = h.turns;
          execs = Ordered-new h.execs c _ e refl;
          approvals = h.approvals;
        })
  | inr (v, e) ↦ rw (e, step) h
]
step-IsWellKeyed s (tool_result c _ _ _ _) h = record {
  turns = h.turns;
  execs = Ordered-modify h.execs c close_exec (λ v. refl);
  approvals = h.approvals;
}
step-IsWellKeyed s (approval_requested t c tool reason args) h =
    elim (Option-cases (s.approvals c)) [
      | inl e ↦
          rw (e, step)
            (record {
              turns = h.turns;
              execs = h.execs;
              approvals = Ordered-new h.approvals c _ e refl;
            })
      | inr (v, e) ↦
          rw (e, step)
            (record {
              turns = h.turns;
              execs = h.execs;
              approvals = Ordered-put h.approvals c v _ e (h.approvals.named c v e);
            })
    ]
step-IsWellKeyed s (permission_decided c _ _ _ _ _) h = record {
  turns = h.turns;
  execs = h.execs;
  approvals = Ordered-modify h.approvals c resolve (λ v. refl);
}
step-IsWellKeyed s _ h = h

empty_fold-IsWellKeyed : IsWellKeyed empty_fold
empty_fold-IsWellKeyed = record {
  turns = record { covers = λ k. refl; distinct = tt; named = λ k v p. cc };
  execs = record { covers = λ k. refl; distinct = tt; named = λ k v p. cc };
  approvals = record { covers = λ k. refl; distinct = tt; named = λ k v p. cc };
}

fold-keeps : (s : FoldState) (es : List Event) → IsWellKeyed s → IsWellKeyed (fold s es)
unfolding fold
fold-keeps s [] h = h
fold-keeps s (e ∷ es) h = fold-keeps (step s e) es (step-IsWellKeyed s e h)

-- After any events each order list holds exactly the keys of its map, each once, and each state of
-- a map carries the key under which it stands.
pub fold-IsWellKeyed : (es : List Event) → IsWellKeyed (fold empty_fold es)
fold-IsWellKeyed es = fold-keeps empty_fold es empty_fold-IsWellKeyed
