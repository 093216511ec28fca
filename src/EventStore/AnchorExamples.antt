-- ===== src/EventStore/AnchorExamples.antt =====
-- The theorems on audit checkpoints at two checkpoints.
use mathlib.Core.Path.{subst}
use harness_ai.Prelude.{
  ℕ, ◌≡◌, refl, Option, none, some, List, [], ◌∷◌, ◌++◌, All, length, ◌%◌, ◌⊎◌, ◌↔◌, arith,
}
use harness_ai.Prelude.Bytes.{bytes, bytes_equal}
use harness_ai.Domain.HashChain.{Sha}
use harness_ai.Domain.Checkpoint.{checkpoint_genesis_prev, leaves_digest, checkpoint_hash}
use harness_ai.EventStore.Checkpoints.{
  AuditCheckpointRow, Verifier, checkpoints_valid, classify_checkpoints,
}
use harness_ai.EventStore.Anchors.{
  Anchored, AgreesOn, HasWidth, classify_checkpoints-Anchored, classify_checkpoints-agree,
}
use harness_ai.EventStore.Commitment.{Collision}

abbrev zeros : List ℕ
zeros = 0 ∷ 0 ∷ 0 ∷ 0 ∷ 0 ∷ 0 ∷ 0 ∷ []

-- A digest of 32 bytes that reads the length of its input.
abbrev toy_sha : Sha
toy_sha x = length x % 256 ∷ 0 ∷ 0 ∷ 0 ∷ zeros ++ (zeros ++ (zeros ++ zeros))

-- Two leaves.
abbrev leaves : List (List ℕ)
leaves = toy_sha [] ∷ toy_sha (1 ∷ []) ∷ []

abbrev checker : Verifier
checker = record {
  sha = toy_sha;
  leaf_lookup = λ from to. some leaves;
  verify = λ h s k. bytes_equal h s;
}

abbrev checkpoint_at : ℕ → Option (List ℕ) → List ℕ → AuditCheckpointRow
checkpoint_at id prev h = record {
  id = id;
  prev_hash = prev;
  checkpoint_hash = h;
  from = id;
  to = id;
  signature = h;
  key_id = "k";
}

abbrev first_hash : List ℕ
first_hash =
    checkpoint_hash toy_sha (checkpoint_genesis_prev toy_sha) (leaves_digest toy_sha leaves)

abbrev second_hash : List ℕ
second_hash = checkpoint_hash toy_sha first_hash (leaves_digest toy_sha leaves)

abbrev checkpoints : List AuditCheckpointRow
checkpoints = checkpoint_at 1 none first_hash ∷ checkpoint_at 2 (some first_hash) second_hash ∷ []

classify_checkpoints-Anchored_example :
    (classify_checkpoints checker checkpoints ≡ some (checkpoints_valid 2))
    ↔ Anchored checker none (checkpoint_genesis_prev toy_sha) checkpoints
classify_checkpoints-Anchored_example = classify_checkpoints-Anchored checker checkpoints

checker-HasWidth : HasWidth checker.leaf_lookup
checker-HasWidth from to ls e =
    let same : leaves ≡ ls = ground arith in
    subst (λ x. All (λ l. length l ≡ 32) x) same (refl, (refl, tt))

classify_checkpoints-agree_example :
    AgreesOn checker.leaf_lookup checker.leaf_lookup checkpoints ⊎ Collision toy_sha
unfolding classify_checkpoints leaves_digest checkpoint_hash checkpoint_genesis_prev bytes
    bytes_equal
classify_checkpoints-agree_example =
    classify_checkpoints-agree checker checker.leaf_lookup checkpoints (λ x. refl) checker-HasWidth
      checker-HasWidth refl refl
