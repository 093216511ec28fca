-- ===== src/Approval/Steps.antt =====
-- gate.go: Request and Resolve, step by step, and the runs of the gate.
use harness_ai.Prelude.{
  ℕ, ◌+◌, ◌==◌, ◌≡◌, Bool, false, Option, none, some, List, [], ◌∷◌, if◌then◌else◌,
}
use harness_ai.Domain.{AskResolution}
use harness_ai.Approval.{
  waiting, cancelling, cancelled, resolved, PendingKey, Gate, set_pending, set_at, new_gate,
}

-- What a step did, and for which request.
pub data Label : Type 0 where
  requested : PendingKey → ℕ → Label
  taken : PendingKey → AskResolution → ℕ → Label
  not_pending : PendingKey → Label
  sent returned gave_up cleaned : ℕ → Label

-- `Request`, up to its wait: a new entry in the place of what the key had.
unfoldable pub register : Gate → PendingKey → Gate
register g k = record g {
  pending = set_pending g.pending k (some g.count);
  count = g.count + 1;
  key = set_at g.key g.count k;
  phase = set_at g.phase g.count waiting;
}

-- `Resolve` under the mutex, where the key has an entry.
unfoldable pub take : Gate → PendingKey → AskResolution → ℕ → Gate
take g k r n = record g {
  pending = set_pending g.pending k none;
  in_flight = set_at g.in_flight n (some r);
}

-- The send of `Resolve`.
unfoldable pub send : Gate → ℕ → AskResolution → Gate
send g n r = record g { in_flight = set_at g.in_flight n none; buffer = set_at g.buffer n (some r) }

-- `Request` takes the resolution from its channel.
unfoldable pub receive : Gate → ℕ → AskResolution → Gate
receive g n r = record g { buffer = set_at g.buffer n none; phase = set_at g.phase n (resolved r) }

-- `Request` takes the end of its context instead, and then removes its own entry, if it is still there.
unfoldable pub give_up : Gate → ℕ → Gate
give_up g n = record g { phase = set_at g.phase n cancelling }

abbrev pub holds : Option ℕ → ℕ → Bool
holds none n = false
holds (some m) n = m == n

unfoldable pub clean : Gate → ℕ → Gate
clean g n = record g {
  pending =
      if holds (g.pending (g.key n)) n then set_pending g.pending (g.key n) none else g.pending;
  phase = set_at g.phase n cancelled;
}

pub data Step (g : Gate) : Label → Gate → Type 0 where
  request_step : (k : PendingKey) → Step g (requested k g.count) (register g k)
  take_step :
      (k : PendingKey) (r : AskResolution) (n : ℕ)
      → g.pending k ≡ some n
      → Step g (taken k r n) (take g k r n)
  refuse_step : (k : PendingKey) → g.pending k ≡ none → Step g (not_pending k) g
  send_step : (n : ℕ) (r : AskResolution) → g.in_flight n ≡ some r → Step g (sent n) (send g n r)
  receive_step :
      (n : ℕ) (r : AskResolution)
      → g.phase n ≡ waiting
      → g.buffer n ≡ some r
      → Step g (returned n) (receive g n r)
  give_up_step : (n : ℕ) → g.phase n ≡ waiting → Step g (gave_up n) (give_up g n)
  clean_step : (n : ℕ) → g.phase n ≡ cancelling → Step g (cleaned n) (clean g n)

-- A run from the new gate, with its labels, the last first.
pub data Run : List Label → Gate → Type 0 where
  start : Run [] new_gate
  next : {ls : List Label} {g h : Gate} {l : Label} → Run ls g → Step g l h → Run (l ∷ ls) h

-- The resolutions that a run has accepted for a request, with the key that each named.
unfoldable pub takes : ℕ → List Label → List (PendingKey × AskResolution)
takes n [] = []
takes n (taken k r m ∷ ls) = if m == n then (k, r) ∷ takes n ls else takes n ls
takes n (_ ∷ ls) = takes n ls
