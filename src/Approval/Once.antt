-- ===== src/Approval/Once.antt =====
-- gate.go: one Resolve for one Request.
use harness_ai.Prelude.{
  ℕ, ◌==◌, ◌≤◌, ◌<◌, ◌≡◌, refl, sym, ap, ◌∙◌, false, Bool-cases, Option-cases, inl, inr, none, some,
  List, [], ◌∷◌, if◌then◌else◌, arith,
}
use harness_ai.Domain.{AskResolution}
use harness_ai.Approval.{
  waiting, cancelling, cancelled, resolved, PendingKey, Gate, is_key, set_pending, set_at,
}
use harness_ai.Approval.Steps.{
  Label, requested, taken, not_pending, sent, returned, gave_up, cleaned, register, take, send,
  receive, give_up, clean, holds, Step, request_step, take_step, refuse_step, send_step,
  receive_step, give_up_step, clean_step, Run, start, next, takes,
}
use harness_ai.Approval.Maps.{
  unsome, resolution, is_eq→≡, eq_self, is_key_self, true_not_false, set_at-cases, set_at-else,
  set_at-same, set_pending-cases,
}

module _ (n : ℕ) (k : PendingKey) (r : AskResolution) (ls : List Label) where
  takes-same : takes n (taken k r n ∷ ls) ≡ (k, r) ∷ takes n ls
  unfolding takes
  takes-same = ap (λ b. if b then (k, r) ∷ takes n ls else takes n ls) (eq_self n)

  takes-else : (m : ℕ) → (m == n) ≡ false → takes n (taken k r m ∷ ls) ≡ takes n ls
  unfolding takes
  takes-else m e = ap (λ b. if b then (k, r) ∷ takes n ls else takes n ls) e

-- What has been accepted for a request, and where it is.
pub record Sound (ls : List Label) (g : Gate) : Type 0 where
  pub hooked :
      (k : PendingKey) (n : ℕ)
      → g.pending k ≡ some n
      → (n < g.count) × (g.key n ≡ k) × (takes n ls ≡ [])
  pub flying :
      (n : ℕ) (r : AskResolution)
      → g.in_flight n ≡ some r
      → (takes n ls ≡ (g.key n, r) ∷ []) × (g.buffer n ≡ none)
  pub stored : (n : ℕ) (r : AskResolution) → g.buffer n ≡ some r → takes n ls ≡ (g.key n, r) ∷ []
  pub told : (n : ℕ) (r : AskResolution) → g.phase n ≡ resolved r → takes n ls ≡ (g.key n, r) ∷ []
  pub unborn : (n : ℕ) → g.count ≤ n → takes n ls ≡ []

not_both {ℓ κ} : {A : Type ℓ} {B : Type κ} (xs : List A) (x : A) → xs ≡ [] → xs ≡ x ∷ [] → B
not_both [] x e f = ground (arith, f)
not_both (y ∷ ys) x e f = ground (arith, e)

module _ (ls : List Label) (g : Gate) (s : Sound ls g) where
  -- A request for which something was accepted is there.
  alive : (n : ℕ) (x : PendingKey × AskResolution) → takes n ls ≡ x ∷ [] → (g.count == n) ≡ false
  alive n x e = elim (Bool-cases (g.count == n)) [
    | inl f ↦ not_both (takes n ls) x (s.unborn n (ground arith)) e
    | inr f ↦ f
  ]

  apart :
      (n m : ℕ) (x : PendingKey × AskResolution)
      → takes n ls ≡ []
      → takes m ls ≡ x ∷ []
      → (n == m) ≡ false
  apart n m x e f = elim (Bool-cases (n == m)) [
    | inl p ↦ not_both (takes n ls) x e (ap (λ i. takes i ls) (is_eq→≡ n m p) ∙ f)
    | inr p ↦ p
  ]

  empty_buffer : (n : ℕ) → takes n ls ≡ [] → g.buffer n ≡ none
  empty_buffer n e = elim (Option-cases (g.buffer n)) [
    | inl f ↦ f
    | inr (r, f) ↦ not_both (takes n ls) (g.key n, r) e (s.stored n r f)
  ]

  other_entry :
      (k j : PendingKey) (n m : ℕ)
      → g.key n ≡ k
      → g.key m ≡ j
      → is_key k j ≡ false
      → (n == m) ≡ false
  other_entry k j n m e f h = elim (Bool-cases (n == m)) [
    | inl p ↦ absurd (
        true_not_false
          (sym (is_key_self k) ∙ ap (is_key k) (sym e ∙ ap g.key (is_eq→≡ n m p) ∙ f) ∙ h))
    | inr p ↦ p
  ]

  register-kept :
      (k : PendingKey) (n : ℕ) (r : AskResolution)
      → takes n ls ≡ (g.key n, r) ∷ []
      → takes n ls ≡ (set_at g.key g.count k n, r) ∷ []
  register-kept k n r e =
      e ∙ ap (λ x. (x, r) ∷ []) (sym (set_at-else g.key g.count k n (alive n _ e)))

  register-Sound : (k : PendingKey) → Sound (requested k g.count ∷ ls) (register g k)
  unfolding register takes
  register-Sound k = record {
    hooked = λ j n e. elim (set_pending-cases g.pending k (some g.count) j (some n) e) [
      | inl (p, q) ↦
          let c = unsome q in
          (
            omega (arith, c),
            ap (set_at g.key g.count k) (sym c) ∙ set_at-same g.key g.count k ∙ p,
            s.unborn n (omega (arith, c)),
          )
      | inr (p, q) ↦
          let (a, b, c) = s.hooked j n q in
          (omega arith, set_at-else g.key g.count k n (ground arith) ∙ b, c)
    ];
    flying = λ n r e. (register-kept k n r (s.flying n r e).0, (s.flying n r e).1);
    stored = λ n r e. register-kept k n r (s.stored n r e);
    told = λ n r e. elim (set_at-cases g.phase g.count waiting n (resolved r) e) [
      | inl (p, q) ↦ ground (arith, q)
      | inr (p, q) ↦ register-kept k n r (s.told n r q)
    ];
    unborn = λ n e. s.unborn n (omega arith);
  }

  take-Sound :
      (k : PendingKey) (r : AskResolution) (n : ℕ)
      → g.pending k ≡ some n
      → Sound (taken k r n ∷ ls) (take g k r n)
  unfolding take
  take-Sound k r n h =
      let (lt, key, nothing) = s.hooked k n h in
      let here : takes n (taken k r n ∷ ls) ≡ (g.key n, r) ∷ [] =
        takes-same n k r ls ∙ ap (λ x. (k, r) ∷ x) nothing ∙ ap (λ x. (x, r) ∷ []) (sym key) in
      record {
        hooked = λ j m e. elim (set_pending-cases g.pending k none j (some m) e) [
          | inl (p, q) ↦ ground (arith, q)
          | inr (p, q) ↦
              let (a, b, c) = s.hooked j m q in
              (a, b, takes-else m k r ls n (other_entry k j n m key b p) ∙ c)
        ];
        flying = λ m t e. elim (set_at-cases g.in_flight n (some r) m (some t) e) [
          | inl (p, q) ↦
              rw (sym p) (here ∙ ap (λ x. (g.key n, x) ∷ []) (unsome q), empty_buffer n nothing)
          | inr (p, q) ↦ (takes-else m k r ls n p ∙ (s.flying m t q).0, (s.flying m t q).1)
        ];
        stored =
            λ m t e. takes-else m k r ls n (apart n m _ nothing (s.stored m t e)) ∙ s.stored m t e;
        told = λ m t e. takes-else m k r ls n (apart n m _ nothing (s.told m t e)) ∙ s.told m t e;
        unborn = λ m e. takes-else m k r ls n (ground arith) ∙ s.unborn m e;
      }

  moved :
      (n m : ℕ) (r t : AskResolution)
      → n ≡ m
      → r ≡ t
      → ◌≡◌ {A = List (PendingKey × AskResolution)} ((g.key n, r) ∷ []) ((g.key m, t) ∷ [])
  moved n m r t p q = λ i. (g.key (p i), q i) ∷ []

  send-Sound :
      (n : ℕ) (r : AskResolution) → g.in_flight n ≡ some r → Sound (sent n ∷ ls) (send g n r)
  unfolding send takes
  send-Sound n r h =
      let (here, free) = s.flying n r h in
      record {
        hooked = s.hooked;
        flying = λ m t e. elim (set_at-cases g.in_flight n none m (some t) e) [
          | inl (p, q) ↦ ground (arith, q)
          | inr (p, q) ↦
              ((s.flying m t q).0, set_at-else g.buffer n (some r) m p ∙ (s.flying m t q).1)
        ];
        stored = λ m t e. elim (set_at-cases g.buffer n (some r) m (some t) e) [
          | inl (p, q) ↦ ap (λ i. takes i ls) (sym p) ∙ here ∙ moved n m r t p (unsome q)
          | inr (p, q) ↦ s.stored m t q
        ];
        told = s.told;
        unborn = s.unborn;
      }

  receive-Sound :
      (n : ℕ) (r : AskResolution) → g.buffer n ≡ some r → Sound (returned n ∷ ls) (receive g n r)
  unfolding receive takes
  receive-Sound n r h = record {
    hooked = s.hooked;
    flying = λ m t e. (
      (s.flying m t e).0,
      elim (set_at-cases g.buffer n none m _ refl) [
        | inl (p, q) ↦ sym q
        | inr (p, q) ↦ sym q ∙ (s.flying m t e).1
      ],
    );
    stored = λ m t e. elim (set_at-cases g.buffer n none m (some t) e) [
      | inl (p, q) ↦ ground (arith, q)
      | inr (p, q) ↦ s.stored m t q
    ];
    told = λ m t e. elim (set_at-cases g.phase n (resolved r) m (resolved t) e) [
      | inl (p, q) ↦
          ap (λ i. takes i ls) (sym p) ∙ s.stored n r h ∙ moved n m r t p (ap (resolution r) q)
      | inr (p, q) ↦ s.told m t q
    ];
    unborn = s.unborn;
  }

  give_up-Sound : (n : ℕ) → Sound (gave_up n ∷ ls) (give_up g n)
  unfolding give_up takes
  give_up-Sound n = record {
    hooked = s.hooked;
    flying = s.flying;
    stored = s.stored;
    told = λ m t e. elim (set_at-cases g.phase n cancelling m (resolved t) e) [
      | inl (p, q) ↦ ground (arith, q)
      | inr (p, q) ↦ s.told m t q
    ];
    unborn = s.unborn;
  }

  -- What is left of the entries behind the removal of one.
  cleaned-hooked :
      (n : ℕ) (j : PendingKey) (m : ℕ) → (clean g n).pending j ≡ some m → g.pending j ≡ some m
  unfolding clean
  cleaned-hooked n j m e = elim (Bool-cases (holds (g.pending (g.key n)) n)) [
    | inl h ↦
        elim (set_pending-cases g.pending (g.key n) none j (some m) (
          sym (ap (λ b. (if b then set_pending g.pending (g.key n) none else g.pending) j) h)
          ∙ e)) [ inl (p, q) ↦ ground (arith, q) | inr (p, q) ↦ q ]
    | inr h ↦
        sym (ap (λ b. (if b then set_pending g.pending (g.key n) none else g.pending) j) h) ∙ e
  ]

  clean-Sound : (n : ℕ) → Sound (cleaned n ∷ ls) (clean g n)
  unfolding clean takes
  clean-Sound n = record {
    hooked = λ j m e. s.hooked j m (cleaned-hooked n j m e);
    flying = s.flying;
    stored = s.stored;
    told = λ m t e. elim (set_at-cases g.phase n cancelled m (resolved t) e) [
      | inl (p, q) ↦ ground (arith, q)
      | inr (p, q) ↦ s.told m t q
    ];
    unborn = s.unborn;
  }

  refuse-Sound : (k : PendingKey) → Sound (not_pending k ∷ ls) g
  unfolding takes
  refuse-Sound k = record {
    hooked = s.hooked;
    flying = s.flying;
    stored = s.stored;
    told = s.told;
    unborn = s.unborn;
  }

pub Step-Sound :
    {ls : List Label} {g h : Gate} {l : Label} → Sound ls g → Step g l h → Sound (l ∷ ls) h
Step-Sound s (request_step k) = register-Sound _ _ s k
Step-Sound s (take_step k r n e) = take-Sound _ _ s k r n e
Step-Sound s (refuse_step k e) = refuse-Sound _ _ s k
Step-Sound s (send_step n r e) = send-Sound _ _ s n r e
Step-Sound s (receive_step n r e f) = receive-Sound _ _ s n r f
Step-Sound s (give_up_step n e) = give_up-Sound _ _ s n
Step-Sound s (clean_step n e) = clean-Sound _ _ s n

pub Run-Sound : {ls : List Label} {g : Gate} → Run ls g → Sound ls g
unfolding takes
Run-Sound start = record {
  hooked = λ k n e. ground (arith, e);
  flying = λ n r e. ground (arith, e);
  stored = λ n r e. ground (arith, e);
  told = λ n r e. ground (arith, e);
  unborn = λ n e. refl;
}
Run-Sound (next r st) = Step-Sound (Run-Sound r) st

-- One Resolve for one Request. Whatever the requests, the resolutions and the ends of contexts, and in whatever order their
-- goroutines run: if a request returns a resolution, then of all calls of Resolve exactly one was accepted for that request,
-- and it named the key of that request and gave that resolution.
pub Run-agreed :
    {ls : List Label} {g : Gate} (n : ℕ) (r : AskResolution)
    → Run ls g
    → g.phase n ≡ resolved r
    → takes n ls ≡ (g.key n, r) ∷ []
Run-agreed n r run e = (Run-Sound run).told n r e
