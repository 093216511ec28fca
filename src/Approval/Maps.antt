-- ===== src/Approval/Maps.antt =====
-- Lemmas on the maps of the gate.
use harness_ai.Prelude.{
  ℕ, ◌==◌, ◌≡◌, refl, sym, ap, ◌∙◌, true, false, Bool-cases, inl, inr, ◌⊎◌, Option, none, some,
  if◌then◌else◌, arith, str_eq, eq_iff, eq_refl,
}
use harness_ai.Domain.{AskResolution}
use harness_ai.Approval.{Phase, resolved, PendingKey, is_key, set_pending, set_at}

pub unsome {ℓ} : {A : Type ℓ} {a b : A} → some a ≡ some b → a ≡ b
unsome {a = a} e = ap (λ o. elim o [ none ↦ a | some x ↦ x ]) e

-- The resolution of a phase that has one.
abbrev pub resolution : AskResolution → Phase → AskResolution
resolution r (resolved t) = t
resolution r _ = r

pub is_eq→≡ : (n m : ℕ) → (n == m) ≡ true → n ≡ m
is_eq→≡ n m e = ground arith

pub eq_self : (n : ℕ) → (n == n) ≡ true
eq_self n = ground arith

pub is_key→≡ : (k j : PendingKey) → is_key k j ≡ true → k ≡ j
is_key→≡ k j h = elim (Bool-cases (str_eq k.session_id j.session_id)) [
  | inl e ↦ elim (Bool-cases (str_eq k.call_id j.call_id)) [
    | inl f ↦ λ i. record {
      session_id = (eq_iff k.session_id j.session_id).0 e i;
      call_id = (eq_iff k.call_id j.call_id).0 f i;
    }
    | inr f ↦ ground arith
  ]
  | inr e ↦ ground arith
]

pub is_key_self : (k : PendingKey) → is_key k k ≡ true
is_key_self k = ground (arith, eq_refl k.session_id, eq_refl k.call_id)

pub true_not_false : true ≡ false → ⊥
true_not_false e = ground (arith, e)

-- What a changed map gives: the new value, or the old one elsewhere.
module _ {ℓ} {A : Type ℓ} where
  pub set_at-cases :
      (f : ℕ → A) (n : ℕ) (v : A) (m : ℕ) (x : A)
      → set_at f n v m ≡ x
      → ((n ≡ m) × (v ≡ x)) ⊎ (((n == m) ≡ false) × (f m ≡ x))
  set_at-cases f n v m x h = elim (Bool-cases (n == m)) [
    | inl e ↦ inl (is_eq→≡ n m e, sym (ap (λ b. if b then v else f m) e) ∙ h)
    | inr e ↦ inr (e, sym (ap (λ b. if b then v else f m) e) ∙ h)
  ]

  pub set_at-else : (f : ℕ → A) (n : ℕ) (v : A) (m : ℕ) → (n == m) ≡ false → set_at f n v m ≡ f m
  set_at-else f n v m e = rw (e) refl

  pub set_at-same : (f : ℕ → A) (n : ℕ) (v : A) → set_at f n v n ≡ v
  set_at-same f n v = ap (λ b. if b then v else f n) (eq_self n)

pub set_pending-cases :
    (f : PendingKey → Option ℕ) (k : PendingKey) (v : Option ℕ) (j : PendingKey) (x : Option ℕ)
    → set_pending f k v j ≡ x
    → ((k ≡ j) × (v ≡ x)) ⊎ ((is_key k j ≡ false) × (f j ≡ x))
set_pending-cases f k v j x h = elim (Bool-cases (is_key k j)) [
  | inl e ↦ inl (is_key→≡ k j e, sym (ap (λ b. if b then v else f j) e) ∙ h)
  | inr e ↦ inr (e, sym (ap (λ b. if b then v else f j) e) ∙ h)
]

pub set_pending-else :
    (f : PendingKey → Option ℕ) (k : PendingKey) (v : Option ℕ) (j : PendingKey)
    → is_key k j ≡ false
    → set_pending f k v j ≡ f j
set_pending-else f k v j e = ap (λ b. if b then v else f j) e

pub set_pending-same :
    (f : PendingKey → Option ℕ) (k : PendingKey) (v : Option ℕ) → set_pending f k v k ≡ v
set_pending-same f k v = ap (λ b. if b then v else f k) (is_key_self k)
