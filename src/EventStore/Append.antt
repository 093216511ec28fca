-- ===== src/EventStore/Append.antt =====
-- store.go, rows.go: the append transaction.
use harness_ai.Prelude.{
  ℕ, ◌+◌, String, Bool, true, false, ◌&&◌, Option, none, some, List, [], ◌∷◌, ◌++◌, length, put,
  str_eq, ◌==◌, if◌then◌else◌,
}
use harness_ai.Domain.{Event, tool_result, Actor, EventEnvelope}
use harness_ai.Domain.HashChain.{content_hash, genesis_chain_hash, chain_hash}
use harness_ai.EventStore.{
  SessionStatus, active, SessionRow, BlobRow, Db, AppendInput, BlobUpload, StoreError, no_events,
  no_tenant, session_not_active, fenced, conflict, marshal_failed, dangling_blob, empty_blob_ref,
  commit_failed, Result, ok, err, Commit, done, unique_violation, other_error, answer_lost, Env,
  Tenant, visible,
}

-- The rows of a list of rows that pass a test, in their order: a SELECT with ORDER BY seq.
unfoldable pub select : (EventEnvelope → Bool) → List EventEnvelope → List EventEnvelope
select p [] = []
select p (r ∷ rs) = let rest = select p rs in if p r then r ∷ rest else rest

abbrev pub is_active : SessionStatus → Bool
is_active active = true
is_active _ = false

-- `loadByRequestID`
unfoldable pub load_by_request_id : Db → String → String → String → List EventEnvelope
unfolding select
load_by_request_id db session tenant request =
    select (λ r. str_eq r.request_id request && str_eq r.tenant_id tenant) (db.events session)

-- `classifyAppendFailure`, on the row that the tenant sees.
unfoldable pub classify_append_failure : Option SessionRow → ℕ → StoreError
classify_append_failure none epoch = session_not_active
classify_append_failure (some row) epoch =
    if is_active row.status
    then if row.lease_epoch == epoch then conflict else fenced
    else session_not_active

-- `eventBlobRef`: only a tool result refers to a blob.
unfoldable pub event_blob_ref : Event → String
event_blob_ref (tool_result _ _ _ _ blob) = blob
event_blob_ref _ = ""

-- The reference of the uploaded blob, if there is one.
abbrev pub uploads : Option BlobUpload → String → Bool
uploads none ref = false
uploads (some b) ref = str_eq b.ref ref

abbrev or_system : Option Actor → Actor
or_system none = Actor.system
or_system (some a) = a

abbrev version_or_default : ℕ → ℕ
version_or_default v = if v == 0 then 1 else v

-- `insertEvent`: the row that it inserts, or its error.
unfoldable pub insert_event :
    Env
    → String
    → String
    → ℕ
    → String
    → AppendInput
    → Option BlobUpload
    → List ℕ
    → Result EventEnvelope
unfolding event_blob_ref content_hash chain_hash
insert_event env tenant session seq request inp blob prev = elim (env.marshal inp.event) [
  | none ↦ err marshal_failed
  | some payload ↦
      let row : EventEnvelope = record {
        seq = seq;
        session_id = session;
        tenant_id = tenant;
        request_id = request;
        schema_version = version_or_default inp.schema_version;
        actor = or_system inp.actor;
        created_at = env.now;
        event = inp.event;
        payload_canonical = some payload;
        content_hash = some (content_hash env.sha payload);
        chain_hash = some (chain_hash env.sha prev (content_hash env.sha payload));
      } in
      if str_eq (event_blob_ref inp.event) ""
      then ok row
      else if uploads blob (event_blob_ref inp.event)
      then ok row
      else err dangling_blob
]

-- The head that a row leaves.
abbrev pub head_after : EventEnvelope → List ℕ
head_after row = elim row.chain_hash [ none ↦ [] | some h ↦ h ]

abbrev pub Inserted : Type 0
Inserted = List EventEnvelope × List ℕ

abbrev pub prepend : EventEnvelope → Result Inserted → Result Inserted
prepend row (ok (rows, head)) = ok (row ∷ rows, head)
prepend row (err e) = err e

-- The loop over the inputs, from the first sequence number and the running head.
unfoldable pub insert_events :
    Env
    → String
    → String
    → ℕ
    → String
    → List AppendInput
    → Option BlobUpload
    → List ℕ
    → Result Inserted
insert_events env tenant session seq request [] blob prev = ok ([], prev)
insert_events env tenant session seq request (inp ∷ rest) blob prev =
    elim (insert_event env tenant session seq request inp blob prev) [
      | err e ↦ err e
      | ok row ↦
          prepend row
            (insert_events env tenant session (seq + 1) request rest blob (head_after row))
    ]

-- `insertBlobRow`, with ON CONFLICT DO NOTHING.
abbrev has_blob : List BlobRow → String → String → Bool
has_blob [] tenant ref = false
has_blob (b ∷ bs) tenant ref =
    let rest = has_blob bs tenant ref in
    if str_eq b.tenant_id tenant && str_eq b.ref ref then true else rest

unfoldable pub insert_blob_row : String → Option BlobUpload → List BlobRow → Result (List BlobRow)
insert_blob_row tenant none blobs = ok blobs
insert_blob_row tenant (some b) blobs =
    if str_eq b.ref ""
    then err empty_blob_ref
    else if has_blob blobs tenant b.ref
    then ok blobs
    else ok (record { tenant_id = tenant; ref = b.ref } ∷ blobs)

-- `loadChainHead`
unfoldable pub load_chain_head : Env → String → SessionRow → List ℕ
unfolding genesis_chain_hash
load_chain_head env session row = elim row.chain_head [
  | none ↦ genesis_chain_hash env.sha session
  | some h ↦ h
]

-- The gate of the UPDATE: head, fencing token and status at once.
unfoldable pub gate : SessionRow → ℕ → ℕ → Bool
gate row expected epoch =
    row.head_seq == expected && row.lease_epoch == epoch && is_active row.status

-- `reclassifyCommitError`, and the tables that the answer to COMMIT leaves.
unfoldable pub finish {ℓ} : {A : Type ℓ} → Commit → A → Db → Db → Result A × Db
finish done a new old = (ok a, new)
finish unique_violation a new old = (err conflict, old)
finish other_error a new old = (err commit_failed, old)
finish answer_lost a new old = (err commit_failed, new)

-- The same for a transaction that only reads.
unfoldable pub finish_read {ℓ} : {A : Type ℓ} → Commit → A → Result A
finish_read done a = ok a
finish_read unique_violation a = err commit_failed
finish_read other_error a = err commit_failed
finish_read answer_lost a = err commit_failed

-- The tables with the rows of an append.
abbrev pub with_rows : Db → String → SessionRow → ℕ → List BlobRow → Inserted → Db
with_rows db session row n blobs (rows, head) = record {
  sessions =
      put db.sessions session (record row { head_seq = row.head_seq + n; chain_head = some head });
  events = λ j. if str_eq session j then db.events j ++ rows else db.events j;
  blobs = blobs;
}

-- Steps (b') to (e), behind the gate.
unfoldable pub append_gated :
    Env
    → String
    → String
    → ℕ
    → String
    → Option BlobUpload
    → List AppendInput
    → SessionRow
    → Db
    → Result (List EventEnvelope) × Db
unfolding insert_blob_row insert_events load_chain_head finish
append_gated env tenant session expected request blob inputs row db =
    elim (insert_blob_row tenant blob db.blobs) [
      | err e ↦ (err e, db)
      | ok blobs ↦
          elim (insert_events env tenant session (expected + 1) request inputs blob
            (load_chain_head env session row)) [
              | err e ↦ (err e, db)
              | ok inserted ↦
                  finish env.commit inserted.0
                    (with_rows db session row (length inputs) blobs inserted) db
            ]
    ]

unfoldable pub append_fresh :
    Env
    → String
    → String
    → ℕ
    → ℕ
    → String
    → Option BlobUpload
    → List AppendInput
    → Db
    → Result (List EventEnvelope) × Db
unfolding append_gated classify_append_failure visible gate
append_fresh env tenant session expected epoch request blob inputs db =
    elim (visible tenant (db.sessions session)) [
      | none ↦ (err (classify_append_failure none epoch), db)
      | some row ↦
          if gate row expected epoch
          then append_gated env tenant session expected request blob inputs row db
          else (err (classify_append_failure (some row) epoch), db)
    ]

abbrev pub or_prior :
    List EventEnvelope → Db → Result (List EventEnvelope) × Db → Result (List EventEnvelope) × Db
or_prior [] db fresh = fresh
or_prior (r ∷ rs) db fresh = (ok (r ∷ rs), db)

-- `appendTx`
unfoldable pub append_tx :
    Env
    → Tenant
    → String
    → ℕ
    → ℕ
    → String
    → Option BlobUpload
    → List AppendInput
    → Db
    → Result (List EventEnvelope) × Db
unfolding append_fresh load_by_request_id
append_tx env tenant session expected epoch request blob [] db = (err no_events, db)
append_tx env none session expected epoch request blob (inp ∷ rest) db = (err no_tenant, db)
append_tx env (some tenant) session expected epoch request blob (inp ∷ rest) db =
    or_prior (load_by_request_id db session tenant request) db
      (append_fresh env tenant session expected epoch request blob (inp ∷ rest) db)

-- `Append` and `AppendWithBlob`
unfoldable pub append :
    Env
    → Tenant
    → String
    → ℕ
    → ℕ
    → String
    → List AppendInput
    → Db
    → Result (List EventEnvelope) × Db
unfolding append_tx
append env tenant session expected epoch request inputs db =
    append_tx env tenant session expected epoch request none inputs db

unfoldable pub append_with_blob :
    Env
    → Tenant
    → String
    → ℕ
    → ℕ
    → String
    → BlobUpload
    → List AppendInput
    → Db
    → Result (List EventEnvelope) × Db
unfolding append_tx
append_with_blob env tenant session expected epoch request blob inputs db =
    append_tx env tenant session expected epoch request (some blob) inputs db
