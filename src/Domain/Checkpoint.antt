-- ===== src/Domain/Checkpoint.antt =====
-- checkpoint.go: the hash of a signed audit checkpoint.
use harness_ai.Prelude.{ℕ, String, List, [], ◌∷◌, ◌++◌}
use harness_ai.Prelude.Bytes.{bytes}
use harness_ai.Domain.HashChain.{Sha}

abbrev pub checkpoint_genesis_prefix : String
checkpoint_genesis_prefix = "boltrope-audit-checkpoint-genesis-v1:"

unfoldable pub checkpoint_genesis_prev : Sha → List ℕ
checkpoint_genesis_prev sha = sha (bytes checkpoint_genesis_prefix)

-- The appends into one buffer.
unfoldable pub concat : List (List ℕ) → List ℕ
concat [] = []
concat (l ∷ ls) = l ++ concat ls

unfoldable pub leaves_digest : Sha → List (List ℕ) → List ℕ
unfolding concat
leaves_digest sha leaves = sha (concat leaves)

unfoldable pub checkpoint_hash : Sha → List ℕ → List ℕ → List ℕ
checkpoint_hash sha prev digest = sha (prev ++ digest)
