-- ===== src/Agent/Logs.antt =====
-- Reasoning about the log that a step of the loop leaves.
use harness_ai.Prelude.{◌≡◌, refl, Option-cases, inl, inr, List, [], ◌∷◌, ◌++◌}
use harness_ai.Domain.{Event}
use harness_ai.Agent.{RunState, World, Res, done, stopped, and_then, append_event}

-- What holds of the answer and the log where a step goes through, and of the log where it stops.
module _ {ℓ κ} {A : Type ℓ} where
  abbrev pub Holds : (A → List Event → Type κ) → (List Event → Type κ) → Res A → Type κ
  Holds P Q (done a st) = P a st.log
  Holds P Q (stopped st) = Q st.log

module _ {ℓ κ} {A B : Type ℓ} (P : A → List Event → Type κ) (R : B → List Event → Type κ)
    (Q : List Event → Type κ) where
  pub Holds-and_then :
      (r : Res A) (f : A → RunState → Res B)
      → Holds P Q r
      → ((a : A) (st : RunState) → P a st.log → Holds R Q (f a st))
      → Holds R Q (and_then r f)
  Holds-and_then (done a st) f h g = g a st h
  Holds-and_then (stopped st) f h g = h

-- A step that appends an event, and goes on.
module _ {ℓ κ} {A : Type ℓ} (P : A → List Event → Type κ) (Q : List Event → Type κ) where
  pub Holds-append_event :
      (w : World) (st : RunState) (e : Event) (f : Unit {0} → RunState → Res A)
      → Q st.log
      → ((s : RunState) → s.log ≡ st.log ++ (e ∷ []) → Holds P Q (f tt s))
      → Holds P Q (and_then (append_event w st e) f)
  unfolding append_event
  Holds-append_event w st e f h g = elim (Option-cases (w.append st.head_seq e)) [
    | inl x ↦ rw (x, append_event) h
    | inr (n, x) ↦
        rw (x, append_event) (g (record st { head_seq = n; log = st.log ++ (e ∷ []) }) refl)
  ]

  pub Holds-map :
      (R : A → List Event → Type κ) (r : Res A)
      → ((a : A) (log : List Event) → P a log → R a log)
      → Holds P Q r
      → Holds R Q r
  Holds-map R (done a st) f h = f a st.log h
  Holds-map R (stopped st) f h = h
