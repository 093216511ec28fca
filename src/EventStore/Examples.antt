-- ===== src/EventStore/Examples.antt =====
-- Tests of the event store, and its theorems at a session with two appends.
use harness_ai.Prelude.{
  ℕ, ◌≡◌, refl, true, none, some, List, [], ◌∷◌, ◌++◌, length, ◌%◌, ◌⊎◌, ◌↔◌, arith, eq_iff,
}
use harness_ai.Prelude.Bytes.{bytes}
use harness_ai.Domain.{tool_execution_started, PermissionMode, EventEnvelope}
use harness_ai.Domain.HashChain.{Sha, genesis_chain_hash}
use harness_ai.EventStore.{
  commit_failed, finished, Db, SessionRow, AppendInput, fenced, ok, err, Commit, Env,
}
use harness_ai.EventStore.Append.{append_tx, insert_event}
use harness_ai.EventStore.Sessions.{set_session_status, create_session}
use harness_ai.EventStore.Verify.{
  ChainVerification, valid_with, verify_loop, verify_chain_integrity,
}
use harness_ai.EventStore.Ops.{set_status, Op, append, create, run_op, run_ops, empty_db}
use harness_ai.EventStore.Lost.{answering, append_tx-retried}
use harness_ai.EventStore.Invariant.{IsWellFormed}
use harness_ai.EventStore.Steps.{run_ops-IsWellFormed}
use harness_ai.EventStore.Commits.{Committed, append_tx-Committed}
use harness_ai.EventStore.Idempotent.{append_tx-replay}
use harness_ai.EventStore.Conflicts.{refusal, append_tx-stale}
use harness_ai.EventStore.Isolation.{IsUntouched, run_op-IsUntouched}
use harness_ai.EventStore.Verified.{verify_chain_integrity-IsWellFormed}
use harness_ai.EventStore.Integrity.{Linked, verify_loop-Linked}
use harness_ai.EventStore.Commitment.{Collision, payloads, verify_loop-injective}

abbrev zeros : List ℕ
zeros = 0 ∷ 0 ∷ 0 ∷ 0 ∷ 0 ∷ 0 ∷ 0 ∷ []

-- A digest of 32 bytes that reads the length of its input.
abbrev toy_sha : Sha
toy_sha x = length x % 256 ∷ 0 ∷ 0 ∷ 0 ∷ zeros ++ (zeros ++ (zeros ++ zeros))

abbrev env : Env
env = record { sha = toy_sha; marshal = λ e. some (1 ∷ 2 ∷ []); now = 5; commit = Commit.done }

abbrev input : AppendInput
input = record { event = tool_execution_started "c" "bash" "k"; schema_version = 0; actor = none }

abbrev row_of : Db → SessionRow → SessionRow
row_of db default = elim (db.sessions "s") [ none ↦ default | some r ↦ r ]

-- One session, and two events in it.
abbrev creation : List (Env × Op)
creation = (env, create (some "t") "s" PermissionMode.default) ∷ []

abbrev first_append : List (Env × Op)
first_append = (env, append (some "t") "s" 0 0 "r1" none (input ∷ input ∷ [])) ∷ []

abbrev made : Db
made = run_ops toy_sha creation empty_db

abbrev filled : Db
filled = run_ops toy_sha (creation ++ first_append) empty_db

abbrev new_rows : List EventEnvelope
new_rows = filled.events "s"

filled_rows : length new_rows ≡ 2
unfolding run_ops run_op append_tx create_session insert_event
filled_rows = refl

-- The same append, where the commit takes effect and its answer is lost.
append_tx-retried_example :
    (append_tx
        (answering Commit.answer_lost env)
        (some "t")
        "s"
        0
        0
        "r1"
        none
        (input ∷ input ∷ [])
        made
      ≡ (err commit_failed, filled))
    × (append_tx env
          (some "t")
          "s"
          0
          0
          "r1"
          none
          (input ∷ input ∷ [])
          (append_tx
            (answering Commit.answer_lost env)
            (some "t")
            "s"
            0
            0
            "r1"
            none
            (input ∷ input ∷ [])
            made).1
        ≡ (ok new_rows, filled))
unfolding run_ops run_op append_tx create_session insert_event
append_tx-retried_example =
    append_tx-retried env env Commit.answer_lost "t" "s" "r1" none 0 0 input (input ∷ []) made
      filled new_rows refl refl

run_ops-IsWellFormed_example : IsWellFormed toy_sha filled
run_ops-IsWellFormed_example = run_ops-IsWellFormed toy_sha (creation ++ first_append)

append_tx-Committed_example :
    Committed "t" "s" "r1" 0 0 2 made
      ((append_tx env (some "t") "s" 0 0 "r1" none (input ∷ input ∷ []) made).1)
      new_rows
unfolding run_ops run_op append_tx create_session insert_event
append_tx-Committed_example =
    append_tx-Committed env "t" "s" "r1" none 0 0 made (input ∷ input ∷ []) new_rows refl refl

append_tx-replay_example :
    append_tx env
      (some "t")
      "s"
      9
      9
      "r1"
      none
      (input ∷ [])
      ((append_tx env (some "t") "s" 0 0 "r1" none (input ∷ input ∷ []) made).1)
    ≡ (ok new_rows, (append_tx env (some "t") "s" 0 0 "r1" none (input ∷ input ∷ []) made).1)
unfolding run_ops run_op append_tx create_session insert_event
append_tx-replay_example =
    append_tx-replay env env "t" "s" "r1" none none 0 9 0 9 input input (input ∷ []) [] made
      new_rows refl

-- Another append and the end of the session, behind the first append.
abbrev between : List (Env × Op)
between =
    (env, append (some "t") "s" 2 0 "r3" none (input ∷ []))
    ∷ (env, set_status (some "t") "s" 0 finished)
    ∷ []

abbrev closed : Db
closed = run_ops toy_sha between filled

append_tx-stale_example :
    (row : SessionRow) × (closed.sessions "s" ≡ some row)
    × (append_tx env (some "t") "s" 0 1 "r2" none (input ∷ []) closed
        ≡ (err (refusal row.status 0 1), closed))
unfolding run_ops run_op append_tx create_session set_session_status insert_event
append_tx-stale_example =
    append_tx-stale env env "t" "s" "r1" "r2" none none 0 0 1 input input (input ∷ []) [] made
      filled new_rows toy_sha between refl refl refl

-- Where the session is still active, the token decides.
stale_fenced : (append_tx env (some "t") "s" 0 1 "r2" none (input ∷ []) filled).0 ≡ err fenced
unfolding run_ops run_op append_tx create_session insert_event
stale_fenced = refl

run_op-IsUntouched_example :
    IsUntouched "s" filled
      ((run_op env (append (some "u") "s" 2 0 "r2" none (input ∷ [])) filled).1)
unfolding run_ops run_op append_tx create_session insert_event
run_op-IsUntouched_example =
    run_op-IsUntouched env (append (some "u") "s" 2 0 "r2" none (input ∷ [])) "u" "s" _ filled refl
      refl (λ e. ground (arith, (eq_iff "t" "u").1 e))

verify_chain_integrity-IsWellFormed_example :
    verify_chain_integrity env (some "t") "s" 2 0 filled ≡ ok (valid_with 1)
unfolding run_ops run_op append_tx create_session insert_event
verify_chain_integrity-IsWellFormed_example =
    verify_chain_integrity-IsWellFormed env "t" "s" 2 0 _ filled run_ops-IsWellFormed_example refl
      refl

verify_loop-Linked_example :
    (ChainVerification.valid (verify_loop toy_sha (genesis_chain_hash toy_sha "s") 0 new_rows)
      ≡ true)
    ↔ Linked toy_sha (genesis_chain_hash toy_sha "s") new_rows
verify_loop-Linked_example = verify_loop-Linked toy_sha (genesis_chain_hash toy_sha "s") 0 new_rows

verify_loop-injective_example : (payloads new_rows ≡ payloads new_rows) ⊎ Collision toy_sha
unfolding run_ops run_op append_tx create_session insert_event verify_loop bytes
verify_loop-injective_example =
    verify_loop-injective toy_sha "s" 0 0 new_rows new_rows (λ x. refl) (λ e. ground arith) refl
      refl refl
