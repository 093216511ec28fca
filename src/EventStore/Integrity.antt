-- ===== src/EventStore/Integrity.antt =====
-- read_range.go: which rows the verification accepts.
use mathlib.Core.Path.{subst}
use harness_ai.Prelude.{
  ℕ, ◌+◌, ◌≡◌, refl, ◌↔◌, Bool-cases, true, some, Option-cases, inl, inr, List, [], ◌∷◌, ◌++◌,
  arith,
}
use harness_ai.Prelude.Bytes.{bytes_equal, bytes_equal→≡, bytes_equal_refl, or_nil}
use harness_ai.Domain.{EventEnvelope}
use harness_ai.Domain.HashChain.{Sha, content_hash, chain_hash}
use harness_ai.EventStore.Verify.{ChainVerification, verify_loop}

-- The stored rows are linked: each payload is there, and its hashes are the stored ones.
abbrev pub Linked : Sha → List ℕ → List EventEnvelope → Type 0
Linked sha prev [] = Unit
Linked sha prev (e ∷ es) =
    ((p : List ℕ) × (e.payload_canonical ≡ some p)
      × (sha p ≡ or_nil e.content_hash)
      × (sha (prev ++ sha p) ≡ or_nil e.chain_hash))
    × Linked sha (or_nil e.chain_hash) es

verify_loop-Linked→ :
    (sha : Sha) (prev : List ℕ) (checked : ℕ) (rows : List EventEnvelope)
    → ChainVerification.valid (verify_loop sha prev checked rows) ≡ true
    → Linked sha prev rows
unfolding verify_loop content_hash chain_hash
verify_loop-Linked→ sha prev checked [] h = tt
verify_loop-Linked→ sha prev checked (e ∷ es) h = elim (Option-cases e.payload_canonical) [
  | inl n ↦ ground arith
  | inr (p, n) ↦ elim (Bool-cases (bytes_equal (sha p) (or_nil e.content_hash))) [
    | inr f ↦ ground arith
    | inl f ↦ elim (Bool-cases (bytes_equal (sha (prev ++ sha p)) (or_nil e.chain_hash))) [
      | inr g ↦ ground arith
      | inl g ↦ (
        (
          p,
          n,
          bytes_equal→≡ (sha p) (or_nil e.content_hash) f,
          bytes_equal→≡ (sha (prev ++ sha p)) (or_nil e.chain_hash) g,
        ),
        verify_loop-Linked→ sha (or_nil e.chain_hash) (checked + 1) es (ground arith),
      )
    ]
  ]
]

verify_loop-Linked← :
    (sha : Sha) (prev : List ℕ) (checked : ℕ) (rows : List EventEnvelope)
    → Linked sha prev rows
    → ChainVerification.valid (verify_loop sha prev checked rows) ≡ true
unfolding verify_loop content_hash chain_hash
verify_loop-Linked← sha prev checked [] h = refl
verify_loop-Linked← sha prev checked (e ∷ es) ((p, n, f, g), h) =
    let same : bytes_equal (sha p) (or_nil e.content_hash) ≡ true =
      subst (λ z. bytes_equal (sha p) z ≡ true) f (bytes_equal_refl (sha p)) in
    let linked : bytes_equal (sha (prev ++ sha p)) (or_nil e.chain_hash) ≡ true =
      subst (λ z. bytes_equal (sha (prev ++ sha p)) z ≡ true) g
        (bytes_equal_refl (sha (prev ++ sha p))) in
    ground (arith, verify_loop-Linked← sha (or_nil e.chain_hash) (checked + 1) es h)

-- The verification accepts a list of rows if, and only if, they are linked from the head that
-- enters them: each has its payload, whose digest is its content hash, and its chain hash is the
-- digest of the head before it and that content hash.
pub verify_loop-Linked :
    (sha : Sha) (prev : List ℕ) (checked : ℕ) (rows : List EventEnvelope)
    → (ChainVerification.valid (verify_loop sha prev checked rows) ≡ true) ↔ Linked sha prev rows
verify_loop-Linked sha prev checked rows =
    (verify_loop-Linked→ sha prev checked rows, verify_loop-Linked← sha prev checked rows)
