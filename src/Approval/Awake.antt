-- ===== src/Approval/Awake.antt =====
-- gate.go: no answer is lost.
use harness_ai.Prelude.{
  ℕ, ◌==◌, ◌≤◌, ◌<◌, ◌≡◌, refl, sym, ap, ◌∙◌, false, Bool-cases, inl, inr, none, some, List,
  if◌then◌else◌, arith, ltb, ltb→lt, ltb→le,
}
use harness_ai.Domain.{AskResolution}
use harness_ai.Approval.{
  Phase, unused, waiting, cancelling, cancelled, resolved, PendingKey, Gate, is_key, set_pending,
  set_at,
}
use harness_ai.Approval.Maps.{
  unsome, is_eq→≡, eq_self, is_key→≡, true_not_false, set_at-cases, set_at-else, set_at-same,
  set_pending-else, set_pending-same,
}
use harness_ai.Approval.Steps.{
  Label, register, take, send, receive, give_up, clean, holds, Step, request_step, take_step,
  refuse_step, send_step, receive_step, give_up_step, clean_step, Run, start, next,
}

-- Where the answer of a request may come from: the human may still give it, or it is on its way to the channel, or there;
-- or a later request with the same key has taken its place.
pub data Answerable (g : Gate) (n : ℕ) : Type 0 where
  open_ask : g.pending (g.key n) ≡ some n → Answerable g n
  on_its_way : (r : AskResolution) → g.in_flight n ≡ some r → Answerable g n
  at_hand : (r : AskResolution) → g.buffer n ≡ some r → Answerable g n
  superseded : (m : ℕ) → n < m → m < g.count → g.key m ≡ g.key n → Answerable g n

not_waiting : unused ≡ waiting → ⊥
not_waiting e = ground (arith, e)

not_cancelling : unused ≡ cancelling → ⊥
not_cancelling e = ground (arith, e)

record Awake (g : Gate) : Type 0 where
  answerable : (n : ℕ) → g.phase n ≡ waiting → Answerable g n
  unborn : (n : ℕ) → g.count ≤ n → g.phase n ≡ unused

module _ (g : Gate) (s : Awake g) where
  born : (n : ℕ) (v : Phase) → (unused ≡ v → ⊥) → g.phase n ≡ v → n < g.count
  born n v f e = elim (Bool-cases (ltb n g.count)) [
    | inl h ↦ ltb→lt n g.count h
    | inr h ↦ absurd (f (sym (s.unborn n (ltb→le n g.count h)) ∙ e))
  ]

  register-old :
      (k : PendingKey) (n : ℕ) → n < g.count → Answerable g n → Answerable (register g k) n
  unfolding register
  register-old k n l (open_ask e) = elim (Bool-cases (is_key k (g.key n))) [
    | inl h ↦ superseded g.count l (omega arith) (
        set_at-same g.key g.count k
        ∙ is_key→≡ k (g.key n) h
        ∙ sym (set_at-else g.key g.count k n (ground arith)))
    | inr h ↦
        let kept = set_at-else g.key g.count k n (ground arith) in
        open_ask (
          ap (set_pending g.pending k (some g.count)) kept
          ∙ set_pending-else g.pending k (some g.count) (g.key n) h
          ∙ e)
  ]
  register-old k n l (on_its_way r e) = on_its_way r e
  register-old k n l (at_hand r e) = at_hand r e
  register-old k n l (superseded m a b e) = superseded m a (omega (arith, b)) (
      set_at-else g.key g.count k m (ground arith)
      ∙ e
      ∙ sym (set_at-else g.key g.count k n (ground arith)))

  register-Awake : (k : PendingKey) → Awake (register g k)
  unfolding register
  register-Awake k = record {
    answerable = λ n e. elim (set_at-cases g.phase g.count waiting n waiting e) [
      | inl (p, q) ↦ open_ask (
          ap (set_pending g.pending k (some g.count))
            (ap (set_at g.key g.count k) (sym p) ∙ set_at-same g.key g.count k)
          ∙ set_pending-same g.pending k (some g.count)
          ∙ ap some p)
      | inr (p, q) ↦ register-old k n (born n waiting not_waiting q) (s.answerable n q)
    ];
    unborn = λ n e. set_at-else g.phase g.count waiting n (ground arith) ∙ s.unborn n (omega arith);
  }

  take-old :
      (k : PendingKey) (r : AskResolution) (n m : ℕ)
      → g.pending k ≡ some n
      → (n == m) ≡ false
      → Answerable g m
      → Answerable (take g k r n) m
  unfolding take
  take-old k r n m h d (open_ask e) = elim (Bool-cases (is_key k (g.key m))) [
    | inl i ↦ absurd (
        true_not_false (
          sym (eq_self m)
          ∙ ap (λ x. x == m) (unsome (sym e ∙ ap g.pending (sym (is_key→≡ k (g.key m) i)) ∙ h))
          ∙ d))
    | inr i ↦ open_ask (set_pending-else g.pending k none (g.key m) i ∙ e)
  ]
  take-old k r n m h d (on_its_way t e) = on_its_way t (set_at-else g.in_flight n (some r) m d ∙ e)
  take-old k r n m h d (at_hand t e) = at_hand t e
  take-old k r n m h d (superseded i a b e) = superseded i a b e

  take-Awake :
      (k : PendingKey) (r : AskResolution) (n : ℕ) → g.pending k ≡ some n → Awake (take g k r n)
  unfolding take
  take-Awake k r n h = record {
    answerable = λ m e. elim (Bool-cases (n == m)) [
      | inl i ↦ on_its_way r (
          ap (set_at g.in_flight n (some r)) (sym (is_eq→≡ n m i))
          ∙ set_at-same g.in_flight n (some r))
      | inr i ↦ take-old k r n m h i (s.answerable m e)
    ];
    unborn = s.unborn;
  }

  send-old :
      (n : ℕ) (r : AskResolution) (m : ℕ)
      → (n == m) ≡ false
      → Answerable g m
      → Answerable (send g n r) m
  unfolding send
  send-old n r m d (open_ask e) = open_ask e
  send-old n r m d (on_its_way t e) = on_its_way t (set_at-else g.in_flight n none m d ∙ e)
  send-old n r m d (at_hand t e) = at_hand t (set_at-else g.buffer n (some r) m d ∙ e)
  send-old n r m d (superseded i a b e) = superseded i a b e

  send-Awake : (n : ℕ) (r : AskResolution) → Awake (send g n r)
  unfolding send
  send-Awake n r = record {
    answerable = λ m e. elim (Bool-cases (n == m)) [
      | inl i ↦
          at_hand r (
            ap (set_at g.buffer n (some r)) (sym (is_eq→≡ n m i)) ∙ set_at-same g.buffer n (some r))
      | inr i ↦ send-old n r m i (s.answerable m e)
    ];
    unborn = s.unborn;
  }

  receive-old :
      (n : ℕ) (r : AskResolution) (m : ℕ)
      → (n == m) ≡ false
      → Answerable g m
      → Answerable (receive g n r) m
  unfolding receive
  receive-old n r m d (open_ask e) = open_ask e
  receive-old n r m d (on_its_way t e) = on_its_way t e
  receive-old n r m d (at_hand t e) = at_hand t (set_at-else g.buffer n none m d ∙ e)
  receive-old n r m d (superseded i a b e) = superseded i a b e

  -- A phase that is set for a request that is there.
  kept_unborn :
      (n : ℕ) (v : Phase) → n < g.count → (m : ℕ) → g.count ≤ m → set_at g.phase n v m ≡ unused
  kept_unborn n v l m h = set_at-else g.phase n v m (ground arith) ∙ s.unborn m h

  receive-Awake : (n : ℕ) (r : AskResolution) → g.phase n ≡ waiting → Awake (receive g n r)
  unfolding receive
  receive-Awake n r h = record {
    answerable = λ m e. elim (set_at-cases g.phase n (resolved r) m waiting e) [
      | inl (p, q) ↦ ground (arith, q)
      | inr (p, q) ↦ receive-old n r m p (s.answerable m q)
    ];
    unborn = kept_unborn n (resolved r) (born n waiting not_waiting h);
  }

  give_up-old : (n m : ℕ) → Answerable g m → Answerable (give_up g n) m
  unfolding give_up
  give_up-old n m (open_ask e) = open_ask e
  give_up-old n m (on_its_way t e) = on_its_way t e
  give_up-old n m (at_hand t e) = at_hand t e
  give_up-old n m (superseded i a b e) = superseded i a b e

  give_up-Awake : (n : ℕ) → g.phase n ≡ waiting → Awake (give_up g n)
  unfolding give_up
  give_up-Awake n h = record {
    answerable = λ m e. elim (set_at-cases g.phase n cancelling m waiting e) [
      | inl (p, q) ↦ ground (arith, q)
      | inr (p, q) ↦ give_up-old n m (s.answerable m q)
    ];
    unborn = kept_unborn n cancelling (born n waiting not_waiting h);
  }

  -- The removal of an entry leaves that of another request.
  clean-pending :
      (n m : ℕ)
      → (n == m) ≡ false
      → g.pending (g.key m) ≡ some m
      → (clean g n).pending (g.key m) ≡ some m
  unfolding clean
  clean-pending n m d e = elim (Bool-cases (holds (g.pending (g.key n)) n)) [
    | inl h ↦ elim (Bool-cases (is_key (g.key n) (g.key m))) [
      | inl i ↦
          let m_is_n : m ≡ n = is_eq→≡ m n (
            sym (ap (λ o. holds o n) e)
            ∙ ap (λ k. holds (g.pending k) n) (sym (is_key→≡ (g.key n) (g.key m) i))
            ∙ h) in
          absurd (true_not_false (sym (eq_self n) ∙ ap (λ x. n == x) (sym m_is_n) ∙ d))
      | inr i ↦
          ap (λ b. (if b then set_pending g.pending (g.key n) none else g.pending) (g.key m)) h
          ∙ set_pending-else g.pending (g.key n) none (g.key m) i
          ∙ e
    ]
    | inr h ↦
        ap (λ b. (if b then set_pending g.pending (g.key n) none else g.pending) (g.key m)) h ∙ e
  ]

  clean-old : (n m : ℕ) → (n == m) ≡ false → Answerable g m → Answerable (clean g n) m
  unfolding clean
  clean-old n m d (open_ask e) = open_ask (clean-pending n m d e)
  clean-old n m d (on_its_way t e) = on_its_way t e
  clean-old n m d (at_hand t e) = at_hand t e
  clean-old n m d (superseded i a b e) = superseded i a b e

  clean-Awake : (n : ℕ) → g.phase n ≡ cancelling → Awake (clean g n)
  unfolding clean
  clean-Awake n h = record {
    answerable = λ m e. elim (set_at-cases g.phase n cancelled m waiting e) [
      | inl (p, q) ↦ ground (arith, q)
      | inr (p, q) ↦ clean-old n m p (s.answerable m q)
    ];
    unborn = kept_unborn n cancelled (born n cancelling not_cancelling h);
  }

Step-Awake : {g h : Gate} {l : Label} → Awake g → Step g l h → Awake h
Step-Awake s (request_step k) = register-Awake _ s k
Step-Awake s (take_step k r n e) = take-Awake _ s k r n e
Step-Awake s (refuse_step k e) = s
Step-Awake s (send_step n r e) = send-Awake _ s n r
Step-Awake s (receive_step n r e f) = receive-Awake _ s n r e
Step-Awake s (give_up_step n e) = give_up-Awake _ s n e
Step-Awake s (clean_step n e) = clean-Awake _ s n e

Run-Awake : {ls : List Label} {g : Gate} → Run ls g → Awake g
Run-Awake start = record { answerable = λ n e. ground (arith, e); unborn = λ n e. refl }
Run-Awake (next r st) = Step-Awake (Run-Awake r) st

-- No answer is lost. In whatever order the goroutines run, a request that still waits can be answered: a Resolve of its key
-- would find it, or the resolution that was accepted for it is on its way to its channel, or there; unless a
-- later request with the same session and call has taken its place.
pub Run-Answerable :
    {ls : List Label} {g : Gate} (n : ℕ) → Run ls g → g.phase n ≡ waiting → Answerable g n
Run-Answerable n run e = (Run-Awake run).answerable n e
