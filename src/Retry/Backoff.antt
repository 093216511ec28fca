-- ===== src/Retry/Backoff.antt =====
-- retry.go: the bounds of the waits between attempts.
use harness_ai.Prelude.{
  ℕ, zero, suc, ◌+◌, ◌≤◌, ◌≡◌, refl, Option, none, some, ◌⊎◌, inl, inr, Bool-cases, All, ltb, arith,
}
use harness_ai.Llm.{ProviderError}
use harness_ai.Retry.{
  Config, CallError, provider, other, is_retryable, base_or_default, max_or_default, shifted,
  capped, backoff_cap, retry_after_of, World, delay, Outcome, Outcome-cases, failed, Action, sleep,
  call, Run, waited, attempts, with_retry, effective_attempts,
}

capped-bound : (most c : ℕ) → capped most c ≤ most
capped-bound most c = ground arith

backoff_cap-bound :
    (cfg : Config) (attempt : ℕ) → backoff_cap cfg attempt ≤ max_or_default cfg.max_delay
unfolding backoff_cap
backoff_cap-bound cfg attempt =
    capped-bound (max_or_default cfg.max_delay) (shifted (base_or_default cfg.base_delay) attempt)

module _ {ℓ} {A : Type ℓ} (cfg : Config) (world : World) (inner : ℕ → Outcome A) where
  -- A wait is as long as the hint of a failed call says, or within the greatest delay.
  abbrev pub IsHint : ℕ → Type ℓ
  IsHint d = (k : ℕ) × ((e : ProviderError) × (inner k ≡ failed (provider e)) × (d ≡ e.retry_after))

  abbrev pub IsPolite : Action → Type ℓ
  IsPolite (sleep d) = (d ≤ max_or_default cfg.max_delay) ⊎ IsHint d
  IsPolite (call k) = Unit

  -- The error behind the loop is that of some call.
  abbrev IsLast : Option CallError → Type ℓ
  IsLast none = Unit
  IsLast (some e) = (k : ℕ) × (inner k ≡ failed e)

  module _ (within : (k c : ℕ) → world.draw k c ≤ c) where
    delay-IsPolite :
        (last : Option CallError) (k : ℕ) → IsLast last → IsPolite (sleep (delay cfg world last k))
    unfolding delay retry_after_of
    delay-IsPolite none k h =
        inl (omega (arith, within k (backoff_cap cfg k), backoff_cap-bound cfg k))
    delay-IsPolite (some (other s)) k h =
        inl (omega (arith, within k (backoff_cap cfg k), backoff_cap-bound cfg k))
    delay-IsPolite (some (provider e)) k (j, h) = elim (Bool-cases (ltb 0 e.retry_after)) [
      | inl p ↦ inr (j, (e, h, rw (p) refl))
      | inr p ↦ inl (rw (p) (omega (arith, within k (backoff_cap cfg k), backoff_cap-bound cfg k)))
    ]

    waited-IsPolite :
        (last : Option CallError) (k : ℕ) (next : Run A)
        → IsLast last
        → All IsPolite next.trace
        → All IsPolite (waited cfg world inner last k next).trace
    waited-IsPolite last zero next h g = g
    waited-IsPolite last (suc k) next h g = elim (Bool-cases (world.interrupted (suc k))) [
      | inl e ↦ rw (e) (delay-IsPolite last k h, tt)
      | inr e ↦ rw (e) (delay-IsPolite last k h, g)
    ]

    attempts-IsPolite :
        (n k : ℕ) (last : Option CallError)
        → IsLast last
        → All IsPolite (attempts cfg world inner n k last).trace
    unfolding attempts
    attempts-IsPolite zero k last h = tt
    attempts-IsPolite (suc n) k last h = elim (Outcome-cases (inner k)) [
      | inl (a, e) ↦ rw (e, attempts) (waited-IsPolite last k _ h (tt, tt))
      | inr (x, e) ↦ elim (Bool-cases (is_retryable x)) [
        | inl f ↦
            rw (e, attempts)
              (rw (f, attempts)
                (waited-IsPolite last k _ h (tt, attempts-IsPolite n (k + 1) (some x) (k, e))))
        | inr f ↦ rw (e, attempts) (rw (f, attempts) (waited-IsPolite last k _ h (tt, tt)))
      ]
    ]

    -- If a random wait is within its cap, every wait of a run is within the greatest delay of the
    -- policy, or exactly as long as the hint in the error of some call.
    pub All-with_retry : All IsPolite (with_retry cfg world inner).trace
    unfolding with_retry
    All-with_retry = attempts-IsPolite (effective_attempts cfg) 0 none tt
