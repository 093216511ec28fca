-- ===== src/EventStore/Isolation.antt =====
-- A transaction of one tenant touches no session of another.
use harness_ai.Prelude.{
  ℕ, ◌+◌, String, ◌≡◌, ◌≢◌, refl, sym, ap, ◌∙◌, Bool-cases, false, Option, none, some, Option-cases,
  inl, inr, List, [], ◌∷◌, length, put, ltb, ◌==◌, str_eq, eq_iff, arith,
}
use harness_ai.Domain.{PermissionMode, EventEnvelope}
use harness_ai.EventStore.{
  SessionStatus, active, finished, failed, SessionRow, BlobRow, Db, AppendInput, BlobUpload, Result,
  Result-cases, Commit, Env, Tenant, visible,
}
use harness_ai.EventStore.Append.{
  finish, gate, with_rows, Inserted, or_prior, insert_blob_row, insert_events, load_chain_head,
  append_gated, append_fresh, append_tx, load_by_request_id,
}
use harness_ai.EventStore.Sessions.{
  wrapped, create_session, new_row, set_status_of, set_session_status, child_row, fork,
}
use harness_ai.EventStore.Invariant.{visible-some}
use harness_ai.EventStore.Ops.{Op, append, create, set_status, fork_at, run_op}

-- The tenant of an operation's context.
abbrev pub tenant_of : Op → Tenant
tenant_of (append tenant _ _ _ _ _ _) = tenant
tenant_of (create tenant _ _) = tenant
tenant_of (set_status tenant _ _ _) = tenant
tenant_of (fork_at tenant _ _ _) = tenant

-- The session's row and its events are as they were.
abbrev pub IsUntouched : String → Db → Db → Type 0
IsUntouched s db new = (new.sessions s ≡ db.sessions s) × (new.events s ≡ db.events s)

module _ (s : String) (db : Db) (row : SessionRow) (at : db.sessions s ≡ some row) where
  same : IsUntouched s db db
  same = (refl, refl)

  finish-IsUntouched {ℓ} :
      {A : Type ℓ} (c : Commit) (a : A) (new : Db)
      → IsUntouched s db new
      → IsUntouched s db ((finish c a new db).1)
  unfolding finish
  finish-IsUntouched Commit.done a new h = h
  finish-IsUntouched Commit.unique_violation a new h = same
  finish-IsUntouched Commit.other_error a new h = same
  finish-IsUntouched Commit.answer_lost a new h = h

  put-IsUntouched :
      (k : String) (r : SessionRow)
      → str_eq k s ≡ false
      → IsUntouched s db (record db { sessions = put db.sessions k r })
  put-IsUntouched k r h = (rw (h) refl, refl)

  with_rows-IsUntouched :
      (k : String) (r : SessionRow) (n : ℕ) (blobs : List BlobRow) (ins : Inserted)
      → str_eq k s ≡ false
      → IsUntouched s db (with_rows db k r n blobs ins)
  with_rows-IsUntouched k r n blobs (rows, head) h = (rw (h) refl, rw (h) refl)

  -- A session that has no row, or a row that the tenant sees, is another one.
  free-is_other : (k : String) → db.sessions k ≡ none → str_eq k s ≡ false
  free-is_other k h = elim (Bool-cases (str_eq k s)) [
    | inr e ↦ e
    | inl e ↦
        let both : none ≡ some row = sym h ∙ ap db.sessions ((eq_iff k s).0 e) ∙ at in ground arith
  ]

  seen-is_other :
      (tenant k : String) (r : SessionRow)
      → row.tenant_id ≢ tenant
      → visible tenant (db.sessions k) ≡ some r
      → str_eq k s ≡ false
  seen-is_other tenant k r n v = elim (Bool-cases (str_eq k s)) [
    | inr e ↦ e
    | inl e ↦
        let (found, own) = visible-some tenant (db.sessions k) r v in
        let both : some r ≡ some row = sym found ∙ ap db.sessions ((eq_iff k s).0 e) ∙ at in
        ground (arith, n, own)
  ]

  append_gated-IsUntouched :
      (env : Env) (tenant k : String) (expected : ℕ) (request : String) (blob : Option BlobUpload)
      (inputs : List AppendInput) (r : SessionRow)
      → str_eq k s ≡ false
      → IsUntouched s db ((append_gated env tenant k expected request blob inputs r db).1)
  unfolding append_gated
  append_gated-IsUntouched env tenant k expected request blob inputs r h =
      elim (Result-cases (insert_blob_row tenant blob db.blobs)) [
        | inl (e, f) ↦ rw (f, append_gated) same
        | inr (blobs, f) ↦
            elim (Result-cases (
              insert_events env tenant k (expected + 1) request inputs blob
                (load_chain_head env k r))) [
                  | inl (e, g) ↦ rw (f, append_gated) (rw (g, append_gated) same)
                  | inr (ins, g) ↦
                      rw (f, append_gated)
                        (rw (g, append_gated)
                          (finish-IsUntouched env.commit ins.0
                            (with_rows db k r (length inputs) blobs ins)
                            (with_rows-IsUntouched k r (length inputs) blobs ins h)))
                ]
      ]

  append_fresh-IsUntouched :
      (env : Env) (tenant k : String) (expected epoch : ℕ) (request : String)
      (blob : Option BlobUpload) (inputs : List AppendInput)
      → row.tenant_id ≢ tenant
      → IsUntouched s db ((append_fresh env tenant k expected epoch request blob inputs db).1)
  unfolding append_fresh
  append_fresh-IsUntouched env tenant k expected epoch request blob inputs n =
      elim (Option-cases (visible tenant (db.sessions k))) [
        | inl e ↦ rw (e, append_fresh) same
        | inr (r, e) ↦ elim (Bool-cases (gate r expected epoch)) [
          | inl g ↦
              rw (e, append_fresh)
                (rw (g, append_fresh)
                  (append_gated-IsUntouched env tenant k expected request blob inputs r
                    (seen-is_other tenant k r n e)))
          | inr g ↦ rw (e, append_fresh) (rw (g, append_fresh) same)
        ]
      ]

  or_prior-IsUntouched :
      (prior : List EventEnvelope) (fresh : Result (List EventEnvelope) × Db)
      → IsUntouched s db (fresh.1)
      → IsUntouched s db ((or_prior prior db fresh).1)
  or_prior-IsUntouched [] fresh h = h
  or_prior-IsUntouched (r ∷ rs) fresh h = same

  append_tx-IsUntouched :
      (env : Env) (tenant k : String) (expected epoch : ℕ) (request : String)
      (blob : Option BlobUpload) (inputs : List AppendInput)
      → row.tenant_id ≢ tenant
      → IsUntouched s db ((append_tx env (some tenant) k expected epoch request blob inputs db).1)
  unfolding append_tx
  append_tx-IsUntouched env tenant k expected epoch request blob [] n = same
  append_tx-IsUntouched env tenant k expected epoch request blob (i ∷ is) n =
      or_prior-IsUntouched (load_by_request_id db k tenant request)
        (append_fresh env tenant k expected epoch request blob (i ∷ is) db)
        (append_fresh-IsUntouched env tenant k expected epoch request blob (i ∷ is) n)

  create_session-IsUntouched :
      (env : Env) (tenant k : String) (mode : PermissionMode)
      → IsUntouched s db ((create_session env (some tenant) k mode db).1)
  unfolding create_session
  create_session-IsUntouched env tenant k mode = elim (Option-cases (db.sessions k)) [
    | inl e ↦
        rw (e, create_session)
          (finish-IsUntouched (wrapped env.commit) (new_row tenant mode)
            (record db { sessions = put db.sessions k (new_row tenant mode) })
            (put-IsUntouched k (new_row tenant mode) (free-is_other k e)))
    | inr (r, e) ↦ rw (e, create_session) same
  ]

  set_status_of-IsUntouched :
      (o : Option SessionRow) (env : Env) (k : String) (epoch : ℕ) (status : SessionStatus)
      → ((r : SessionRow) → o ≡ some r → str_eq k s ≡ false)
      → IsUntouched s db ((set_status_of o env k epoch status db).1)
  set_status_of-IsUntouched none env k epoch status h = same
  set_status_of-IsUntouched (some r) env k epoch status h =
      elim (Bool-cases (r.lease_epoch == epoch)) [
        | inl e ↦ rw (e) (
            finish-IsUntouched (wrapped env.commit) tt
              (record db { sessions = put db.sessions k (record r { status = status }) })
              (put-IsUntouched k (record r { status = status }) (h r refl)))
        | inr e ↦ rw (e) same
      ]

  set_session_status-IsUntouched :
      (env : Env) (tenant k : String) (epoch : ℕ) (status : SessionStatus)
      → row.tenant_id ≢ tenant
      → IsUntouched s db ((set_session_status env (some tenant) k epoch status db).1)
  unfolding set_session_status
  set_session_status-IsUntouched env tenant k epoch active n = same
  set_session_status-IsUntouched env tenant k epoch finished n =
      set_status_of-IsUntouched (visible tenant (db.sessions k)) env k epoch finished
        (λ r. seen-is_other tenant k r n)
  set_session_status-IsUntouched env tenant k epoch failed n =
      set_status_of-IsUntouched (visible tenant (db.sessions k)) env k epoch failed
        (λ r. seen-is_other tenant k r n)

  fork-IsUntouched :
      (env : Env) (tenant parent : String) (n : ℕ) (child : String)
      → IsUntouched s db ((fork env (some tenant) parent n child db).1)
  unfolding fork
  fork-IsUntouched env tenant parent n child =
      elim (Option-cases (visible tenant (db.sessions parent))) [
        | inl e ↦ rw (e, fork) same
        | inr (r, e) ↦ elim (Bool-cases (ltb r.head_seq n)) [
          | inl g ↦ rw (e, fork) (rw (g, fork) same)
          | inr g ↦ elim (Option-cases (db.sessions child)) [
            | inr (old, f) ↦ rw (e, fork) (rw (g, f, fork) same)
            | inl f ↦
                rw (e, fork)
                  (rw (g, f, fork)
                    (finish-IsUntouched (wrapped env.commit) (child_row tenant parent n r)
                      (record db { sessions = put db.sessions child (child_row tenant parent n r) })
                      (put-IsUntouched child (child_row tenant parent n r)
                        (free-is_other child f))))
          ]
        ]
      ]

-- Tenant isolation: whatever a transaction of one tenant does, to whatever session it is
-- addressed, the row of a session of another tenant and the events of that session stay as they were.
pub run_op-IsUntouched :
    (env : Env) (op : Op) (tenant s : String) (row : SessionRow) (db : Db)
    → tenant_of op ≡ some tenant
    → db.sessions s ≡ some row
    → row.tenant_id ≢ tenant
    → IsUntouched s db ((run_op env op db).1)
unfolding run_op
run_op-IsUntouched env (append t k expected epoch request blob inputs) tenant s row db e at n =
    rw (e) (append_tx-IsUntouched s db row at env tenant k expected epoch request blob inputs n)
run_op-IsUntouched env (create t k mode) tenant s row db e at n =
    rw (e) (create_session-IsUntouched s db row at env tenant k mode)
run_op-IsUntouched env (set_status t k epoch status) tenant s row db e at n =
    rw (e) (set_session_status-IsUntouched s db row at env tenant k epoch status n)
run_op-IsUntouched env (fork_at t parent m child) tenant s row db e at n =
    rw (e) (fork-IsUntouched s db row at env tenant parent m child)
