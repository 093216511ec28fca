-- ===== src/EventStore/Conflicts.antt =====
-- Optimistic concurrency: of two appends at the same expected sequence number one commits.
use mathlib.Core.Path.{subst}
use harness_ai.Prelude.{
  ℕ, suc, ◌+◌, ◌≤◌, String, ◌≡◌, refl, ap, false, Option, some, List, [], ◌∷◌, length, ◌==◌, eq_iff,
  if◌then◌else◌, arith,
}
use harness_ai.Domain.{EventEnvelope}
use harness_ai.EventStore.{
  Db, AppendInput, BlobUpload, SessionRow, conflict, fenced, session_not_active, SessionStatus,
  active, finished, failed, ok, err, Env, visible, StoreError,
}
use harness_ai.EventStore.Append.{
  gate, classify_append_failure, append_fresh, append_tx, load_by_request_id,
}
use harness_ai.EventStore.Ops.{Op, run_ops}
use harness_ai.EventStore.Heads.{Held, run_ops-Held}
use harness_ai.EventStore.Commits.{Committed, append_tx-Committed}

-- The error of an append at a sequence number behind the head, by the status of the session, its fencing token and that of
-- the append.
abbrev pub refusal : SessionStatus → ℕ → ℕ → StoreError
refusal active token epoch = if token == epoch then conflict else fenced
refusal _ token epoch = session_not_active

visible-own :
    (tenant : String) (row : SessionRow)
    → row.tenant_id ≡ tenant
    → visible tenant (some row) ≡ some row
unfolding visible
visible-own tenant row h = rw ((eq_iff row.tenant_id tenant).1 h, visible) refl

gate-moved :
    (row : SessionRow) (expected epoch : ℕ)
    → expected + 1 ≤ row.head_seq
    → gate row expected epoch ≡ false
unfolding gate
gate-moved row expected epoch h = ground arith

classify-refusal :
    (status : SessionStatus) (row : SessionRow) (token epoch : ℕ)
    → row.status ≡ status
    → row.lease_epoch ≡ token
    → classify_append_failure (some row) epoch ≡ refusal status token epoch
unfolding classify_append_failure
classify-refusal active row token epoch a t = rw (a, t) refl
classify-refusal finished row token epoch a t = rw (a) refl
classify-refusal failed row token epoch a t = rw (a) refl

module _ (env : Env) (tenant session request : String) (blob : Option BlobUpload)
    (expected epoch : ℕ) (inputs : List AppendInput) (db : Db) where
  append_fresh-refusal :
      (token : ℕ) (h : Held session tenant token (expected + 1) db)
      → append_fresh env tenant session expected epoch request blob inputs db
        ≡ (err (refusal h.row.status token epoch), db)
  unfolding append_fresh
  append_fresh-refusal token h =
      rw (h.at, visible-own tenant h.row h.own, append_fresh)
        (rw (gate-moved h.row expected epoch h.ahead, append_fresh)
          (ap (λ e. (err e, db))
            (classify-refusal h.row.status h.row token epoch refl h.has_token)))

-- What a committed append leaves of the session.
Committed-Held :
    (tenant session request : String) (expected epoch n : ℕ) (db new : Db)
    (rows : List EventEnvelope)
    → Committed tenant session request expected epoch (suc n) db new rows
    → Held session tenant epoch (expected + 1) new
Committed-Held tenant session request expected epoch n db new rows c = record {
  row = record c.row { head_seq = expected + suc n; chain_head = some c.chain };
  at = c.row_after;
  own = c.own;
  has_token = c.token;
  ahead = omega arith;
}

-- Once an append under a new request has been answered with rows, and whatever writing transactions of the store have run behind it, an append
-- at the same expected sequence number, under another request that has no rows yet, is refused and changes no
-- table: where the session is still active, by a conflict if it has the fencing token of the first append and as fenced if it
-- has another, and where it is not, since it is not active.
pub append_tx-stale :
    (env again : Env) (tenant session request request2 : String) (blob blob2 : Option BlobUpload)
    (expected epoch epoch2 : ℕ) (i i2 : AppendInput) (is is2 : List AppendInput) (db new : Db)
    (rows : List EventEnvelope) (sha : List ℕ → List ℕ) (ops : List (Env × Op))
    → load_by_request_id db session tenant request ≡ []
    → append_tx env (some tenant) session expected epoch request blob (i ∷ is) db ≡ (ok rows, new)
    → load_by_request_id (run_ops sha ops new) session tenant request2 ≡ []
    → (row : SessionRow) × ((run_ops sha ops new).sessions session ≡ some row)
      × (append_tx again
            (some tenant)
            session
            expected
            epoch2
            request2
            blob2
            (i2 ∷ is2)
            (run_ops sha ops new)
          ≡ (err (refusal row.status epoch epoch2), run_ops sha ops new))
unfolding append_tx
append_tx-stale env again tenant session request request2 blob blob2 expected epoch epoch2 i i2 is
      is2 db new rows sha ops fresh h fresh2 =
    let c0 =
      append_tx-Committed env tenant session request blob expected epoch db (i ∷ is) rows fresh
        (ap (λ r. r.0) h) in
    let c : Committed tenant session request expected epoch (length (i ∷ is)) db new rows =
      subst (λ r. Committed tenant session request expected epoch (length (i ∷ is)) db (r.1) rows) h
        c0 in
    let held =
      run_ops-Held session tenant epoch (expected + 1) sha ops new
        (Committed-Held tenant session request expected epoch (length is) db new rows c) in
    (
      held.row,
      held.at,
      rw (fresh2) (
          append_fresh-refusal again tenant session request2 blob2 expected epoch2 (i2 ∷ is2)
            (run_ops sha ops new) epoch held),
    )
