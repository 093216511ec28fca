-- ===== src/Domain/HashChain.antt =====
-- hashchain.go: the content hash, the genesis and the fold of the per-session chain.
use harness_ai.Prelude.{ℕ, String, List, ◌++◌}
use harness_ai.Prelude.Bytes.{bytes}

-- `sha256.Sum256` of the standard library, as the slice of its digest.
abbrev pub Sha : Type 0
Sha = List ℕ → List ℕ

abbrev pub genesis_prefix : String
genesis_prefix = "boltrope-audit-genesis-v1:"

unfoldable pub content_hash : Sha → List ℕ → List ℕ
content_hash sha payload = sha payload

unfoldable pub genesis_chain_hash : Sha → String → List ℕ
genesis_chain_hash sha session_id = sha (bytes genesis_prefix ++ bytes session_id)

-- The copy into a fresh buffer, so that the head that the caller holds is never written.
unfoldable pub chain_hash : Sha → List ℕ → List ℕ → List ℕ
chain_hash sha prev content = sha (prev ++ content)
