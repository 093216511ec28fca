-- ===== src/Retry/Examples.antt =====
-- Tests of the retry policy, and its theorems at a provider that fails twice.
use harness_ai.Prelude.{ℕ, zero, suc, ◌≡◌, ◌<◌, refl, true, false, [], ◌∷◌, All, arith}
use harness_ai.Llm.{ErrorKind, retryable}
use harness_ai.Retry.{
  Config, CallError, provider, is_retryable, World, Outcome, returned, failed, sleep, call,
  answered, with_retry, effective_attempts, backoff_cap,
}
use harness_ai.Retry.Backoff.{IsPolite, All-with_retry}
use harness_ai.Retry.Calls.{is_transient, Is, with_retry-settled}

abbrev cfg : Config
cfg = record { max_attempts = 3; base_delay = 100; max_delay = 1000 }

abbrev world : World
world = record { draw = λ k c. c; interrupted = λ k. false }

abbrev overloaded : CallError
overloaded = provider (record { kind = ErrorKind.overloaded; retry_after = 0 })

abbrev limited : CallError
limited = provider (record { kind = ErrorKind.rate_limited; retry_after = 5000 })

-- Overloaded, then limited with a hint, then an answer.
abbrev flaky : ℕ → Outcome ℕ
flaky zero = failed overloaded
flaky (suc zero) = failed limited
flaky (suc (suc k)) = returned 7

abbrev down : ℕ → Outcome ℕ
down k = failed overloaded

flaky_run :
    with_retry cfg world flaky
    ≡ record { trace = call 0 ∷ sleep 100 ∷ call 1 ∷ sleep 5000 ∷ call 2 ∷ []; answer = answered 7 }
unfolding with_retry retryable
flaky_run = refl

-- The 64-bit shift of a base delay of 2^30 + 1 nanoseconds wraps to 2^34 nanoseconds, under the
-- greatest delay.
wrapped_cap :
    backoff_cap (record { max_attempts = 99; base_delay = 1073741825; max_delay = 0 }) 34
    ≡ 17179869184
unfolding backoff_cap
wrapped_cap = refl

flaky_transient : (j : ℕ) → j < 2 → is_transient (flaky j) ≡ true
unfolding is_retryable retryable
flaky_transient zero l = refl
flaky_transient (suc zero) l = refl
flaky_transient (suc (suc j)) l = ground arith

with_retry-settled_example : Is cfg world flaky (with_retry cfg world flaky) (answered 7) 3
unfolding effective_attempts
with_retry-settled_example =
    with_retry-settled cfg world flaky 2 (omega arith) flaky_transient refl (λ j l. refl)

All-with_retry_example : All (IsPolite cfg world flaky) (with_retry cfg world flaky).trace
All-with_retry_example = All-with_retry cfg world flaky (λ k c. omega arith)
