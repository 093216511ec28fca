-- ===== src/Retry.antt =====
-- internal/modelgateway/app/retry/retry.go: the retry policy around a provider of models.
pub mod Backoff
pub mod Calls
mod Examples
use harness_ai.Prelude.{
  ℕ, zero, suc, ◌+◌, ◌-◌, ◌*◌, ◌%◌, ◌^◌, String, Bool, true, false, ◌||◌, Option, none, some, List,
  [], ◌∷◌, ◌==◌, ltb, leb, ◌≡◌, refl, ◌⊎◌, inl, inr, if◌then◌else◌,
}
use harness_ai.Llm.{ProviderError, retryable}

-- Durations in nanoseconds; 0 stands for one that is not positive, which the code replaces.
pub record Config : Type 0 where
  pub max_attempts : ℕ
  pub base_delay : ℕ
  pub max_delay : ℕ

-- `maxAttempts`
unfoldable pub effective_attempts : Config → ℕ
effective_attempts cfg = if ltb cfg.max_attempts 1 then 1 else cfg.max_attempts

-- An error of a call: a `*llm.ProviderError`, wrapped or not, or another.
pub data CallError : Type 0 where
  provider : ProviderError → CallError
  other : String → CallError

-- `isRetryable`
unfoldable pub is_retryable : CallError → Bool
is_retryable (provider e) = retryable e
is_retryable (other s) = false

abbrev pub second : ℕ
second = 1000000000

abbrev pub base_or_default : ℕ → ℕ
base_or_default d = if d == 0 then second else d

abbrev pub max_or_default : ℕ → ℕ
max_or_default d = if d == 0 then 30 * second else d

abbrev pub clamped : ℕ → ℕ
clamped attempt = if ltb 62 attempt then 62 else attempt

-- `int64(base) << shift`, as the word that it leaves.
abbrev pub shifted : ℕ → ℕ → ℕ
shifted base attempt = base * 2 ^ clamped attempt % 2 ^ 64

-- The test of the cap: a word from 2^63 on is a negative duration.
abbrev pub capped : ℕ → ℕ → ℕ
capped most c = if ltb most c || c == 0 || leb (2 ^ 63) c then most else c

unfoldable pub backoff_cap : Config → ℕ → ℕ
backoff_cap cfg attempt =
    capped (max_or_default cfg.max_delay) (shifted (base_or_default cfg.base_delay) attempt)

-- The hint of the provider, if there is one.
unfoldable pub retry_after_of : Option CallError → ℕ
retry_after_of none = 0
retry_after_of (some (provider e)) = e.retry_after
retry_after_of (some (other s)) = 0

-- What the policy takes from outside: the random wait under a cap, at each attempt, and whether
-- the context is done before the wait is over.
pub record World : Type 0 where
  pub draw : ℕ → ℕ → ℕ
  pub interrupted : ℕ → Bool

-- `delay`
unfoldable pub delay : Config → World → Option CallError → ℕ → ℕ
unfolding retry_after_of backoff_cap
delay cfg world last attempt =
    if ltb 0 (retry_after_of last)
    then retry_after_of last
    else world.draw attempt (backoff_cap cfg attempt)

-- The answer of the inner provider to one call.
pub data Outcome {ℓ} (A : Type ℓ) : Type ℓ where
  returned : A → Outcome A
  failed : CallError → Outcome A

pub Outcome-cases {ℓ} :
    {A : Type ℓ} (o : Outcome A) → ((a : A) × (o ≡ returned a)) ⊎ ((e : CallError) × (o ≡ failed e))
Outcome-cases (returned a) = inl (a, refl)
Outcome-cases (failed e) = inr (e, refl)

pub data Action : Type 0 where
  sleep : (nanoseconds : ℕ) → Action
  call : (attempt : ℕ) → Action

-- `cancelled` is the context's error, `gave_up` the last error; a run of no attempts has none.
pub data Answer {ℓ} (A : Type ℓ) : Type ℓ where
  answered : A → Answer A
  refused : CallError → Answer A
  cancelled : Answer A
  gave_up : Option CallError → Answer A

pub record Run {ℓ} (A : Type ℓ) : Type ℓ where
  pub trace : List Action
  pub answer : Answer A

abbrev pub after {ℓ} : {A : Type ℓ} → Action → Run A → Run A
after a r = record { trace = a ∷ r.trace; answer = r.answer }

module _ {ℓ} {A : Type ℓ} (cfg : Config) (world : World) (inner : ℕ → Outcome A) where
  -- The wait before an attempt that is not the first.
  abbrev pub waited : Option CallError → ℕ → Run A → Run A
  waited last zero next = next
  waited last (suc k) next =
      if world.interrupted (suc k)
      then record { trace = sleep (delay cfg world last k) ∷ []; answer = cancelled }
      else after (sleep (delay cfg world last k)) next

  -- The loop: the attempts that are left, and the number of the next one.
  unfoldable pub attempts : ℕ → ℕ → Option CallError → Run A
  unfolding delay is_retryable
  attempts zero k last = record { trace = []; answer = gave_up last }
  attempts (suc n) k last = waited last k (elim (inner k) [
    | returned a ↦ record { trace = call k ∷ []; answer = answered a }
    | failed e ↦
        let rest = attempts n (k + 1) (some e) in
        if is_retryable e
        then after (call k) rest
        else record { trace = call k ∷ []; answer = refused e }
  ])

  unfoldable pub with_retry : Run A
  unfolding attempts effective_attempts
  with_retry = attempts (effective_attempts cfg) 0 none

-- The inner provider: its answer to each call of a method, in the order of the calls.
pub record Provider (Response Reader Capabilities : Type 0) : Type 0 where
  pub on_generate : ℕ → Outcome Response
  pub on_stream : ℕ → Outcome Reader
  pub on_count_tokens : ℕ → Outcome ℕ
  pub on_capabilities : ℕ → Outcome Capabilities

module _ {Response Reader Capabilities : Type 0} (cfg : Config) (world : World)
    (p : Provider Response Reader Capabilities) where
  -- `Generate`
  unfoldable pub generate : Run Response
  unfolding with_retry
  generate = with_retry cfg world p.on_generate

  -- `Stream`
  unfoldable pub stream : Run Reader
  unfolding with_retry
  stream = with_retry cfg world p.on_stream

  -- `CountTokens`
  unfoldable pub count_tokens : Run ℕ
  unfolding with_retry
  count_tokens = with_retry cfg world p.on_count_tokens

  -- `Capabilities`
  unfoldable pub capabilities : Run Capabilities
  unfolding with_retry
  capabilities = with_retry cfg world p.on_capabilities
