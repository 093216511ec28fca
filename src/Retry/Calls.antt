-- ===== src/Retry/Calls.antt =====
-- retry.go: how often the inner provider is called, and which of its answers is returned.
use mathlib.Core.Path.{subst}
use harness_ai.Prelude.{
  ℕ, zero, suc, ◌+◌, ◌≤◌, ◌<◌, ◌≡◌, refl, sym, ap, Bool, true, false, Option, none, some, inl, inr,
  Bool-cases, List, [], ◌∷◌, arith,
}
use harness_ai.Retry.{
  Config, CallError, is_retryable, World, Outcome, Outcome-cases, returned, failed, Action, sleep,
  call, Answer, answered, refused, Run, waited, attempts, with_retry, effective_attempts,
}

abbrev pub call_count : List Action → ℕ
call_count [] = 0
call_count (sleep d ∷ rest) = call_count rest
call_count (call k ∷ rest) = suc (call_count rest)

-- A failure that the policy retries.
abbrev pub is_transient {ℓ} : {A : Type ℓ} → Outcome A → Bool
is_transient (returned a) = false
is_transient (failed e) = is_retryable e

abbrev pub answer_of {ℓ} : {A : Type ℓ} → Outcome A → Answer A
answer_of (returned a) = answered a
answer_of (failed e) = refused e

abbrev pub error_of {ℓ} : {A : Type ℓ} → Outcome A → Option CallError
error_of (returned a) = none
error_of (failed e) = some e

module _ {ℓ} {A : Type ℓ} (cfg : Config) (world : World) (inner : ℕ → Outcome A) where
  waited-count :
      (last : Option CallError) (k : ℕ) (next : Run A)
      → call_count (waited cfg world inner last k next).trace ≤ call_count next.trace
  waited-count last zero next = omega arith
  waited-count last (suc k) next = elim (Bool-cases (world.interrupted (suc k))) [
    | inl e ↦ rw (e) (omega arith)
    | inr e ↦ rw (e) (omega arith)
  ]

  -- The answer and the number of calls of a run.
  abbrev pub Is : Run A → Answer A → ℕ → Type ℓ
  Is r a n = (r.answer ≡ a) × (call_count r.trace ≡ n)

  waited-Is :
      (last : Option CallError) (k : ℕ) (next : Run A) (a : Answer A) (n : ℕ)
      → world.interrupted k ≡ false
      → Is next a n
      → Is (waited cfg world inner last k next) a n
  waited-Is last zero next a n h g = g
  waited-Is last (suc k) next a n h g = rw (h) g

  -- A transient failure is followed by the next attempt.
  attempts-transient :
      (n k : ℕ) (last : Option CallError) (a : Answer A) (m : ℕ)
      → is_transient (inner k) ≡ true
      → world.interrupted k ≡ false
      → Is (attempts cfg world inner n (k + 1) (error_of (inner k))) a m
      → Is (attempts cfg world inner (suc n) k last) a (suc m)
  unfolding attempts
  attempts-transient n k last a m t u h = elim (Outcome-cases (inner k)) [
    | inl (b, e) ↦ ground arith
    | inr (x, e) ↦
        let f : is_retryable x ≡ true = subst (λ o. is_transient o ≡ true) e t in
        let g : Is (attempts cfg world inner n (k + 1) (some x)) a m =
          subst (λ o. Is (attempts cfg world inner n (k + 1) (error_of o)) a m) e h in
        rw (e, attempts) (rw (f, attempts) (waited-Is last k _ a (suc m) u (g.0, ap suc g.1)))
  ]

  -- Any other outcome ends the run.
  attempts-final :
      (n k : ℕ) (last : Option CallError)
      → is_transient (inner k) ≡ false
      → world.interrupted k ≡ false
      → Is (attempts cfg world inner (suc n) k last) (answer_of (inner k)) 1
  unfolding attempts
  attempts-final n k last t u = elim (Outcome-cases (inner k)) [
    | inl (b, e) ↦ rw (e, attempts) (waited-Is last k _ (answered b) 1 u (refl, refl))
    | inr (x, e) ↦
        let f : is_retryable x ≡ false = subst (λ o. is_transient o ≡ false) e t in
        rw (e, attempts) (rw (f, attempts) (waited-Is last k _ (refused x) 1 u (refl, refl)))
  ]

  attempts-settled :
      (m n k i : ℕ) (last : Option CallError)
      → k + m ≡ i
      → m < n
      → ((j : ℕ) → k ≤ j → j < i → is_transient (inner j) ≡ true)
      → is_transient (inner i) ≡ false
      → ((j : ℕ) → k ≤ j → j ≤ i → world.interrupted j ≡ false)
      → Is (attempts cfg world inner n k last) (answer_of (inner i)) (suc m)
  attempts-settled m zero k i last e l t f u = ground arith
  attempts-settled zero (suc n) k i last e l t f u =
      let here : k ≡ i = omega (arith, e) in
      subst (λ x. Is (attempts cfg world inner (suc n) k last) (answer_of (inner x)) 1) here
        (attempts-final n k last (subst (λ x. is_transient (inner x) ≡ false) (sym here) f)
          (u k (omega arith) (omega (arith, e))))
  attempts-settled (suc m) (suc n) k i last e l t f u =
      attempts-transient n k last (answer_of (inner i)) (suc m)
        (t k (omega arith) (omega (arith, e))) (u k (omega arith) (omega (arith, e)))
        (attempts-settled m n (k + 1) i (error_of (inner k)) (omega (arith, e)) (omega (arith, l))
          (λ j g. t j (omega (arith, g))) f (λ j g. u j (omega (arith, g))))

  -- If the first call whose outcome is not a transient failure is the `i`-th, within the allowed
  -- attempts, and no wait before it is interrupted, the run returns that outcome, and calls the
  -- inner provider no more.
  pub with_retry-settled :
      (i : ℕ)
      → i < effective_attempts cfg
      → ((j : ℕ) → j < i → is_transient (inner j) ≡ true)
      → is_transient (inner i) ≡ false
      → ((j : ℕ) → j ≤ i → world.interrupted j ≡ false)
      → Is (with_retry cfg world inner) (answer_of (inner i)) (suc i)
  unfolding with_retry
  with_retry-settled i l t f u =
      attempts-settled i (effective_attempts cfg) 0 i none (omega arith) l (λ j g. t j) f
        (λ j g. u j)
