-- ===== src/EventStore/Verify.antt =====
-- read_range.go: the verification of the stored hash chain of a session.
use harness_ai.Prelude.{
  ℕ, ◌+◌, ◌-◌, String, Bool, true, false, not, ◌&&◌, ◌||◌, Option, none, some, List, [], ◌∷◌, ◌==◌,
  ltb, leb, str_eq, is_some, if◌then◌else◌,
}
use harness_ai.Prelude.Bytes.{bytes_equal, or_nil}
use harness_ai.Domain.{EventEnvelope}
use harness_ai.Domain.HashChain.{Sha, content_hash, genesis_chain_hash, chain_hash}
use harness_ai.EventStore.{Db, no_tenant, Result, err, Env, Tenant, visible}
use harness_ai.EventStore.Append.{select, finish_read}

-- The texts of the field `Reason`, with the sequence number that they are formatted with.
pub data Reason : Type 0 where
  missing_canonical payload_tampered broken_link : (seq : ℕ) → Reason

-- hashchain.go: `ChainVerification`
pub record ChainVerification : Type 0 where
  pub valid : Bool
  pub first_bad_seq : ℕ
  pub reason : Option Reason
  pub checked : ℕ

abbrev pub valid_with : ℕ → ChainVerification
valid_with n = record { valid = true; first_bad_seq = 0; reason = none; checked = n }

abbrev pub invalid_at : ℕ → Reason → ℕ → ChainVerification
invalid_at seq reason n = record {
  valid = false;
  first_bad_seq = seq;
  reason = some reason;
  checked = n;
}

-- The loop over the rows, from the head that enters the first of them.
unfoldable pub verify_loop : Sha → List ℕ → ℕ → List EventEnvelope → ChainVerification
unfolding content_hash chain_hash bytes_equal
verify_loop sha prev checked [] = valid_with checked
verify_loop sha prev checked (e ∷ es) = elim e.payload_canonical [
  | none ↦ invalid_at e.seq (missing_canonical e.seq) checked
  | some payload ↦
      let rest = verify_loop sha (or_nil e.chain_hash) (checked + 1) es in
      if not (bytes_equal (content_hash sha payload) (or_nil e.content_hash))
      then invalid_at e.seq (payload_tampered e.seq) checked
      else if not
          (bytes_equal (chain_hash sha prev (content_hash sha payload)) (or_nil e.chain_hash))
      then invalid_at e.seq (broken_link e.seq) checked
      else rest
]

-- The leading rows without a content hash are skipped.
unfoldable pub skip_unchained : List EventEnvelope → List EventEnvelope
skip_unchained [] = []
skip_unchained (e ∷ es) =
    let rest = skip_unchained es in if is_some e.content_hash then e ∷ es else rest

-- The chain hash of the row with a sequence number: none without such a row or such a hash.
unfoldable pub chain_hash_at : String → List EventEnvelope → ℕ → Option (List ℕ)
chain_hash_at tenant [] seq = none
chain_hash_at tenant (e ∷ es) seq =
    let rest = chain_hash_at tenant es seq in
    if e.seq == seq && str_eq e.tenant_id tenant then e.chain_hash else rest

-- `verifySeedPrev`
unfoldable pub verify_seed_prev : Sha → String → String → List EventEnvelope → ℕ → List ℕ
unfolding genesis_chain_hash chain_hash_at
verify_seed_prev sha tenant session rows seq =
    if leb seq 1
    then genesis_chain_hash sha session
    else elim (chain_hash_at tenant rows (seq - 1)) [
      | none ↦ genesis_chain_hash sha session
      | some h ↦ h
    ]

-- The part behind the query, from the rows of the window.
unfoldable pub verify_window : Sha → (ℕ → List ℕ) → List EventEnvelope → ChainVerification
unfolding verify_loop
verify_window sha seed [] = valid_with 0
verify_window sha seed (e ∷ es) = verify_loop sha (seed e.seq) 0 (e ∷ es)

-- The rows that `selectEventsBetweenSeqSQL` reads.
abbrev pub in_window : String → ℕ → ℕ → EventEnvelope → Bool
in_window tenant from to e = leb from e.seq && leb e.seq to && str_eq e.tenant_id tenant

abbrev pub from_or_first : ℕ → ℕ
from_or_first from = if from == 0 then 1 else from

abbrev pub to_or_head : ℕ → ℕ → ℕ
to_or_head to head = if to == 0 || ltb head to then head else to

unfoldable pub verify_between :
    Sha → String → String → List EventEnvelope → ℕ → ℕ → ChainVerification
unfolding skip_unchained verify_seed_prev verify_window select
verify_between sha tenant session rows from to =
    if ltb to from
    then valid_with 0
    else verify_window sha (verify_seed_prev sha tenant session rows)
        (skip_unchained (select (in_window tenant from to) rows))

-- `VerifyChainIntegrity`; 0 stands for a bound that is not positive.
unfoldable pub verify_chain_integrity :
    Env → Tenant → String → ℕ → ℕ → Db → Result ChainVerification
unfolding visible finish_read verify_between
verify_chain_integrity env none session from to db = err no_tenant
verify_chain_integrity env (some tenant) session from to db =
    elim (visible tenant (db.sessions session)) [
      | none ↦ finish_read env.commit (valid_with 0)
      | some row ↦ finish_read env.commit (
          verify_between env.sha tenant session (db.events session) (from_or_first from)
            (to_or_head to row.head_seq))
    ]
