-- ===== src/EventStore.antt =====
-- internal/orchestrator/adapter/outbound/eventstore: the tables behind the event log and the
-- answers of the store. A method is one PostgreSQL transaction: a function of the tables that
-- returns its answer and the tables after it.
pub mod Append
pub mod Sessions
pub mod Verify
pub mod Rows
pub mod Ops
pub mod Heads
pub mod Lost
pub mod Idempotent
pub mod Conflicts
pub mod Invariant
pub mod Window
pub mod Verified
pub mod Commits
pub mod Steps
pub mod Checkpoints
pub mod Anchors
pub mod Isolation
pub mod Integrity
pub mod Commitment
mod Examples
mod AnchorExamples
use harness_ai.Prelude.{ℕ, String, Bool, Option, List, Map, str_eq, ◌≡◌, refl, ◌⊎◌, inl, inr}
use harness_ai.Domain.{Event, Actor, PermissionMode, EventEnvelope}

pub data SessionStatus : Type 0 where
  active finished failed : SessionStatus

-- A row of `sessions`. Its times and its lease owner are not modelled: no answer of the store
-- depends on them.
pub record SessionRow : Type 0 where
  pub tenant_id : String
  pub parent_id : Option String
  pub forked_from_seq : Option ℕ
  pub status : SessionStatus
  pub mode : PermissionMode
  pub head_seq : ℕ
  pub lease_epoch : ℕ
  pub chain_head : Option (List ℕ)

-- A row of `blobs`, by its key.
pub record BlobRow : Type 0 where
  pub tenant_id : String
  pub ref : String

-- The tables: `sessions` by id, the rows of `events` of each session in the order of insertion,
-- and `blobs`.
pub record Db : Type 0 where
  pub sessions : Map SessionRow
  pub events : String → List EventEnvelope
  pub blobs : List BlobRow

-- ports.go: the input of an append. `none` is the empty actor.
pub record AppendInput : Type 0 where
  pub event : Event
  pub schema_version : ℕ
  pub actor : Option Actor

pub record BlobUpload : Type 0 where
  pub ref : String
  pub media_type : String
  pub size_bytes : ℕ
  pub storage_uri : String

pub data StoreError : Type 0 where
  no_events no_tenant session_not_active fenced conflict : StoreError
  marshal_failed dangling_blob empty_blob_ref commit_failed : StoreError
  session_exists status_not_terminal : StoreError

pub data Result {ℓ} (A : Type ℓ) : Type ℓ where
  ok : A → Result A
  err : StoreError → Result A

pub Result-cases {ℓ} :
    {A : Type ℓ} (r : Result A) → ((e : StoreError) × (r ≡ err e)) ⊎ ((a : A) × (r ≡ ok a))
Result-cases (ok a) = inr (a, refl)
Result-cases (err e) = inl (e, refl)

-- What PostgreSQL answers to COMMIT: done, a unique violation, another error of a transaction that is rolled back, or an
-- error of the connection behind a commit that has taken effect.
pub data Commit : Type 0 where
  done unique_violation other_error answer_lost : Commit

-- What the store takes from outside: SHA-256, the JSON encoding of a payload (`none` where it
-- fails), the clock of the database and its answer to COMMIT.
pub record Env : Type 0 where
  pub sha : List ℕ → List ℕ
  pub marshal : Event → Option (List ℕ)
  pub now : ℕ
  pub commit : Commit

-- The tenant of the context; `none` where it carries none.
abbrev pub Tenant : Type 0
Tenant = Option String

-- The row-level security of `sessions`: another tenant's row is not seen.
unfoldable pub visible : String → Option SessionRow → Option SessionRow
visible tenant Option.none = Option.none
visible tenant (Option.some row) = elim (str_eq row.tenant_id tenant) [
  | Bool.true ↦ Option.some row
  | Bool.false ↦ Option.none
]
