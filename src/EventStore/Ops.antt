-- ===== src/EventStore/Ops.antt =====
-- The transactions of the store that write, as one type of operations, and runs of them.
use harness_ai.Prelude.{ℕ, String, Option, none, some, List, [], ◌∷◌, empty_map}
use harness_ai.Domain.{PermissionMode}
use harness_ai.EventStore.{
  SessionStatus, Db, AppendInput, BlobUpload, StoreError, Result, ok, err, Env, Tenant,
}
use harness_ai.EventStore.Append.{append_tx}
use harness_ai.EventStore.Sessions.{create_session, set_session_status, fork}

pub data Op : Type 0 where
  append :
      (tenant : Tenant) (session : String) (expected epoch : ℕ) (request : String)
      (blob : Option BlobUpload) (inputs : List AppendInput)
      → Op
  create : (tenant : Tenant) (session : String) (mode : PermissionMode) → Op
  set_status : (tenant : Tenant) (session : String) (epoch : ℕ) (status : SessionStatus) → Op
  fork_at : (tenant : Tenant) (parent : String) (at : ℕ) (child : String) → Op

abbrev pub error_of {ℓ} : {A : Type ℓ} → Result A → Option StoreError
error_of (ok a) = none
error_of (err e) = some e

-- The error of an operation, if it has one, and the tables after it.
unfoldable pub run_op : Env → Op → Db → Option StoreError × Db
run_op env (append tenant session expected epoch request blob inputs) db =
    let r = append_tx env tenant session expected epoch request blob inputs db in
    (error_of r.0, r.1)
run_op env (create tenant session mode) db =
    let r = create_session env tenant session mode db in (error_of r.0, r.1)
run_op env (set_status tenant session epoch status) db =
    let r = set_session_status env tenant session epoch status db in (error_of r.0, r.1)
run_op env (fork_at tenant parent at child) db =
    let r = fork env tenant parent at child db in (error_of r.0, r.1)

abbrev pub empty_db : Db
empty_db = record { sessions = empty_map; events = λ s. []; blobs = [] }

-- A run: each transaction has its own clock, payload encoding and answer to COMMIT, under one hash.
abbrev pub with_sha : (List ℕ → List ℕ) → Env → Env
with_sha sha env = record env { sha = sha }

unfoldable pub run_ops : (List ℕ → List ℕ) → List (Env × Op) → Db → Db
run_ops sha [] db = db
run_ops sha ((env, op) ∷ rest) db = run_ops sha rest (run_op (with_sha sha env) op db).1
