-- ===== src/Approval.antt =====
-- internal/orchestrator/adapter/inbound/approval/gate.go: the gate of the human approvals, as steps of its
-- goroutines. A step is what one of them does under the mutex, or on one channel.
pub mod Steps
pub mod Maps
pub mod Once
pub mod Awake
mod Examples
use harness_ai.Prelude.{ℕ, ◌==◌, String, Bool, ◌&&◌, Option, none, some, str_eq, if◌then◌else◌}
use harness_ai.Domain.{AskResolution}

-- What the goroutine of a `Request` does: it waits, it has seen the end of its context, or it has returned.
pub data Phase : Type 0 where
  unused waiting cancelling cancelled : Phase
  resolved : AskResolution → Phase

-- `pendingKey`
pub record PendingKey : Type 0 where
  pub session_id : String
  pub call_id : String

-- `Gate`, with its `Request` calls by their number: the entry of each (its key, the buffer of its channel, its
-- goroutine), and the resolution that a `Resolve` has taken for it and not yet sent.
pub record Gate : Type 0 where
  pub pending : PendingKey → Option ℕ
  pub count : ℕ
  pub key : ℕ → PendingKey
  pub phase : ℕ → Phase
  pub in_flight : ℕ → Option AskResolution
  pub buffer : ℕ → Option AskResolution

abbrev pub is_key : PendingKey → PendingKey → Bool
is_key k j = str_eq k.session_id j.session_id && str_eq k.call_id j.call_id

-- `m[k] = v` and `delete(m, k)`
abbrev pub set_pending : (PendingKey → Option ℕ) → PendingKey → Option ℕ → PendingKey → Option ℕ
set_pending m k v j = if is_key k j then v else m j

-- The part of one request.
abbrev pub set_at {ℓ} : {A : Type ℓ} → (ℕ → A) → ℕ → A → ℕ → A
set_at f n v m = if n == m then v else f m

-- `New`
abbrev pub new_gate : Gate
new_gate = record {
  pending = λ k. none;
  count = 0;
  key = λ n. record { session_id = ""; call_id = "" };
  phase = λ n. Phase.unused;
  in_flight = λ n. none;
  buffer = λ n. none;
}
