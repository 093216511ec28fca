-- ===== src/EventStore/Checkpoints.antt =====
-- verify_checkpoints.go: the classification of the signed audit checkpoints.
use harness_ai.Prelude.{
  ℕ, ◌+◌, String, Bool, true, false, not, Option, none, some, List, [], ◌∷◌, ◌==◌, length,
  if◌then◌else◌,
}
use harness_ai.Prelude.Bytes.{bytes_equal, or_nil}
use harness_ai.Domain.HashChain.{Sha}
use harness_ai.Domain.Checkpoint.{checkpoint_genesis_prev, leaves_digest, checkpoint_hash}

-- A row of `audit_checkpoints`.
pub record AuditCheckpointRow : Type 0 where
  pub id : ℕ
  pub prev_hash : Option (List ℕ)
  pub checkpoint_hash : List ℕ
  pub from : ℕ
  pub to : ℕ
  pub signature : List ℕ
  pub key_id : String

-- The texts of `Reason`, with what they are formatted with.
pub data CheckpointReason : Type 0 where
  broken_genesis_link : CheckpointReason
  broken_prev_link : (id prior : ℕ) → CheckpointReason
  leaf_mismatch : (id : ℕ) → CheckpointReason
  invalid_signature : (id : ℕ) (key_id : String) → CheckpointReason

pub record CheckpointVerification : Type 0 where
  pub valid : Bool
  pub first_bad_checkpoint_id : ℕ
  pub reason : Option CheckpointReason
  pub checked : ℕ

abbrev pub checkpoint_fail : ℕ → ℕ → CheckpointReason → CheckpointVerification
checkpoint_fail id checked reason = record {
  valid = false;
  first_bad_checkpoint_id = id;
  reason = some reason;
  checked = checked;
}

abbrev pub checkpoints_valid : ℕ → CheckpointVerification
checkpoints_valid n = record {
  valid = true;
  first_bad_checkpoint_id = 0;
  reason = none;
  checked = n;
}

-- What the classification is given: the digest, the leaves that a range covers (`none` for an
-- error of the query), and the check of a signature of a hash under a key.
pub record Verifier : Type 0 where
  pub sha : Sha
  pub leaf_lookup : ℕ → ℕ → Option (List (List ℕ))
  pub verify : List ℕ → List ℕ → String → Bool

-- The link to the row before: its failure, if it fails.
unfoldable pub link_failure :
    Sha → Option AuditCheckpointRow → AuditCheckpointRow → Option CheckpointReason
unfolding bytes_equal checkpoint_genesis_prev
link_failure sha none cp =
    if length (or_nil cp.prev_hash) == 0
    then none
    else if bytes_equal (or_nil cp.prev_hash) (checkpoint_genesis_prev sha)
    then none
    else some broken_genesis_link
link_failure sha (some prior) cp =
    if bytes_equal (or_nil cp.prev_hash) prior.checkpoint_hash
    then none
    else some (broken_prev_link cp.id prior.id)

-- The loop, from the row before and the running hash; `none` for an error of the lookup.
unfoldable pub classify_from :
    Verifier
    → Option AuditCheckpointRow
    → List ℕ
    → ℕ
    → List AuditCheckpointRow
    → Option CheckpointVerification
unfolding link_failure checkpoint_hash leaves_digest bytes_equal
classify_from v prior prev checked [] = some (checkpoints_valid checked)
classify_from v prior prev checked (cp ∷ cps) =
    let rest = classify_from v (some cp) cp.checkpoint_hash (checked + 1) cps in
    elim (link_failure v.sha prior cp) [
      | some reason ↦ some (checkpoint_fail cp.id checked reason)
      | none ↦ elim (v.leaf_lookup cp.from cp.to) [
        | none ↦ none
        | some leaves ↦
            if not (
              bytes_equal (checkpoint_hash v.sha prev (leaves_digest v.sha leaves))
                cp.checkpoint_hash)
            then some (checkpoint_fail cp.id checked (leaf_mismatch cp.id))
            else if not (
                v.verify (checkpoint_hash v.sha prev (leaves_digest v.sha leaves)) cp.signature
                  cp.key_id)
            then some (checkpoint_fail cp.id checked (invalid_signature cp.id cp.key_id))
            else rest
      ]
    ]

-- `classifyCheckpoints`
unfoldable pub classify_checkpoints :
    Verifier → List AuditCheckpointRow → Option CheckpointVerification
unfolding classify_from checkpoint_genesis_prev
classify_checkpoints v checkpoints =
    classify_from v none (checkpoint_genesis_prev v.sha) 0 checkpoints
