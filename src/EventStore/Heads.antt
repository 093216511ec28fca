-- ===== src/EventStore/Heads.antt =====
-- The row of a session through the transactions of the store: its tenant and its fencing token stay, and its
-- head never moves back.
use mathlib.Core.Path.{subst}
use mathlib.Core.Option.{some-injective}
use harness_ai.Prelude.{
  ℕ, ◌+◌, ◌≤◌, String, ◌≡◌, refl, sym, ap, ◌∙◌, Bool-cases, Option, none, some, Option-cases, inl,
  inr, List, [], ◌∷◌, length, put, ltb, ◌==◌, str_eq, eq_iff, arith,
}
use harness_ai.Domain.{PermissionMode, EventEnvelope}
use harness_ai.EventStore.{
  SessionStatus, active, finished, failed, SessionRow, BlobRow, Db, AppendInput, BlobUpload, Result,
  Result-cases, Commit, Env, Tenant, visible,
}
use harness_ai.EventStore.Append.{
  finish, gate, with_rows, Inserted, or_prior, insert_blob_row, insert_events, load_chain_head,
  append_gated, append_fresh, append_tx, load_by_request_id,
}
use harness_ai.EventStore.Sessions.{
  wrapped, create_session, new_row, set_status_of, set_session_status, child_row, fork,
}
use harness_ai.EventStore.Invariant.{visible-some}
use harness_ai.EventStore.Ops.{Op, append, create, set_status, fork_at, run_op, run_ops, with_sha}

-- A session of a tenant with a fencing token, whose head is at or behind a sequence number.
pub record Held (s tenant : String) (token least : ℕ) (db : Db) : Type 0 where
  pub row : SessionRow
  pub at : db.sessions s ≡ some row
  pub own : row.tenant_id ≡ tenant
  pub has_token : row.lease_epoch ≡ token
  pub ahead : least ≤ row.head_seq

module _ (s tenant : String) (token least : ℕ) (db : Db) (h : Held s tenant token least db) where
  finish-Held {ℓ} :
      {A : Type ℓ} (c : Commit) (a : A) (new : Db)
      → Held s tenant token least new
      → Held s tenant token least (finish c a new db).1
  unfolding finish
  finish-Held Commit.done a new g = g
  finish-Held Commit.unique_violation a new g = h
  finish-Held Commit.other_error a new g = h
  finish-Held Commit.answer_lost a new g = g

  -- A write of one row that keeps it, or of a row of another id.
  put-Held :
      (k : String) (r : SessionRow)
      → ((old : SessionRow)
          → db.sessions k ≡ some old
          → (r.tenant_id ≡ old.tenant_id)
            × (r.lease_epoch ≡ old.lease_epoch)
            × (old.head_seq ≤ r.head_seq))
      → Held s tenant token least (record db { sessions = put db.sessions k r })
  put-Held k r f = elim (Bool-cases (str_eq k s)) [
    | inl e ↦
        let (own, same, more) = f h.row (ap db.sessions ((eq_iff k s).0 e) ∙ h.at) in
        let before = h.ahead in
        record {
          row = r;
          at = rw (e) refl;
          own = own ∙ h.own;
          has_token = same ∙ h.has_token;
          ahead = omega (arith, more, before);
        }
    | inr e ↦ record {
      row = h.row;
      at = rw (e) h.at;
      own = h.own;
      has_token = h.has_token;
      ahead = h.ahead;
    }
  ]

  -- An id without a row has none that a write would change.
  free {ℓ} :
      {P : Type ℓ} (k : String) (old : SessionRow)
      → db.sessions k ≡ none
      → db.sessions k ≡ some old
      → P
  free k old e f = ground (arith, e, f)

  with_rows-Held :
      (k : String) (r : SessionRow) (n : ℕ) (blobs : List BlobRow) (ins : Inserted)
      → db.sessions k ≡ some r
      → Held s tenant token least (with_rows db k r n blobs ins)
  with_rows-Held k r n blobs (rows, head) at =
      let g =
        put-Held k (record r { head_seq = r.head_seq + n; chain_head = some head })
          (λ old e.
            let same : r ≡ old = some-injective r old (sym at ∙ e) in
            (
              ap (λ x. x.tenant_id) same,
              ap (λ x. x.lease_epoch) same,
              subst (λ x. x.head_seq ≤ r.head_seq + n) same (omega arith),
            )) in
      record { row = g.row; at = g.at; own = g.own; has_token = g.has_token; ahead = g.ahead }

  append_gated-Held :
      (env : Env) (t k : String) (expected : ℕ) (request : String) (blob : Option BlobUpload)
      (inputs : List AppendInput) (r : SessionRow)
      → db.sessions k ≡ some r
      → Held s tenant token least (append_gated env t k expected request blob inputs r db).1
  unfolding append_gated
  append_gated-Held env t k expected request blob inputs r at =
      elim (Result-cases (insert_blob_row t blob db.blobs)) [
        | inl (e, f) ↦ rw (f, append_gated) h
        | inr (blobs, f) ↦
            elim (Result-cases (
              insert_events env t k (expected + 1) request inputs blob (load_chain_head env k r))) [
                | inl (e, g) ↦ rw (f, append_gated) (rw (g, append_gated) h)
                | inr (ins, g) ↦
                    rw (f, append_gated)
                      (rw (g, append_gated)
                        (finish-Held env.commit ins.0 (with_rows db k r (length inputs) blobs ins)
                          (with_rows-Held k r (length inputs) blobs ins at)))
              ]
      ]

  append_fresh-Held :
      (env : Env) (t k : String) (expected epoch : ℕ) (request : String) (blob : Option BlobUpload)
      (inputs : List AppendInput)
      → Held s tenant token least (append_fresh env t k expected epoch request blob inputs db).1
  unfolding append_fresh
  append_fresh-Held env t k expected epoch request blob inputs =
      elim (Option-cases (visible t (db.sessions k))) [
        | inl e ↦ rw (e, append_fresh) h
        | inr (r, e) ↦ elim (Bool-cases (gate r expected epoch)) [
          | inl g ↦
              rw (e, append_fresh)
                (rw (g, append_fresh)
                  (append_gated-Held env t k expected request blob inputs r
                    (visible-some t (db.sessions k) r e).0))
          | inr g ↦ rw (e, append_fresh) (rw (g, append_fresh) h)
        ]
      ]

  or_prior-Held :
      (prior : List EventEnvelope) (fresh : Result (List EventEnvelope) × Db)
      → Held s tenant token least fresh.1
      → Held s tenant token least (or_prior prior db fresh).1
  or_prior-Held [] fresh g = g
  or_prior-Held (r ∷ rs) fresh g = h

  append_tx-Held :
      (env : Env) (t : Tenant) (k : String) (expected epoch : ℕ) (request : String)
      (blob : Option BlobUpload) (inputs : List AppendInput)
      → Held s tenant token least (append_tx env t k expected epoch request blob inputs db).1
  unfolding append_tx
  append_tx-Held env t k expected epoch request blob [] = h
  append_tx-Held env none k expected epoch request blob (i ∷ is) = h
  append_tx-Held env (some t) k expected epoch request blob (i ∷ is) =
      or_prior-Held (load_by_request_id db k t request)
        (append_fresh env t k expected epoch request blob (i ∷ is) db)
        (append_fresh-Held env t k expected epoch request blob (i ∷ is))

  create_session-Held :
      (env : Env) (t : Tenant) (k : String) (mode : PermissionMode)
      → Held s tenant token least (create_session env t k mode db).1
  unfolding create_session
  create_session-Held env none k mode = h
  create_session-Held env (some t) k mode = elim (Option-cases (db.sessions k)) [
    | inl e ↦
        rw (e, create_session)
          (finish-Held (wrapped env.commit) (new_row t mode) _
            (put-Held k (new_row t mode) (λ old f. free k old e f)))
    | inr (r, e) ↦ rw (e, create_session) h
  ]

  set_status_of-Held :
      (o : Option SessionRow) (env : Env) (k : String) (epoch : ℕ) (status : SessionStatus)
      → ((r : SessionRow) → o ≡ some r → db.sessions k ≡ some r)
      → Held s tenant token least (set_status_of o env k epoch status db).1
  set_status_of-Held none env k epoch status f = h
  set_status_of-Held (some r) env k epoch status f = elim (Bool-cases (r.lease_epoch == epoch)) [
    | inl e ↦ rw (e) (
        finish-Held (wrapped env.commit) tt _ (
          put-Held k (record r { status = status })
            (λ old g.
              let same : r ≡ old = some-injective r old (sym (f r refl) ∙ g) in
              (
                ap (λ x. x.tenant_id) same,
                ap (λ x. x.lease_epoch) same,
                subst (λ x. x.head_seq ≤ r.head_seq) same (omega arith),
              ))))
    | inr e ↦ rw (e) h
  ]

  set_session_status-Held :
      (env : Env) (t : Tenant) (k : String) (epoch : ℕ) (status : SessionStatus)
      → Held s tenant token least (set_session_status env t k epoch status db).1
  unfolding set_session_status
  set_session_status-Held env t k epoch active = h
  set_session_status-Held env none k epoch finished = h
  set_session_status-Held env none k epoch failed = h
  set_session_status-Held env (some t) k epoch finished =
      set_status_of-Held (visible t (db.sessions k)) env k epoch finished
        (λ r e. (visible-some t (db.sessions k) r e).0)
  set_session_status-Held env (some t) k epoch failed =
      set_status_of-Held (visible t (db.sessions k)) env k epoch failed
        (λ r e. (visible-some t (db.sessions k) r e).0)

  fork-Held :
      (env : Env) (t : Tenant) (parent : String) (n : ℕ) (child : String)
      → Held s tenant token least (fork env t parent n child db).1
  unfolding fork
  fork-Held env none parent n child = h
  fork-Held env (some t) parent n child = elim (Option-cases (visible t (db.sessions parent))) [
    | inl e ↦ rw (e, fork) h
    | inr (r, e) ↦ elim (Bool-cases (ltb r.head_seq n)) [
      | inl g ↦ rw (e, fork) (rw (g, fork) h)
      | inr g ↦ elim (Option-cases (db.sessions child)) [
        | inr (old, f) ↦ rw (e, fork) (rw (g, f, fork) h)
        | inl f ↦
            rw (e, fork)
              (rw (g, f, fork)
                (finish-Held (wrapped env.commit) (child_row t parent n r) _
                  (put-Held child (child_row t parent n r) (λ old i. free child old f i))))
      ]
    ]
  ]

  run_op-Held : (env : Env) (op : Op) → Held s tenant token least (run_op env op db).1
  unfolding run_op
  run_op-Held env (append t k expected epoch request blob inputs) =
      append_tx-Held env t k expected epoch request blob inputs
  run_op-Held env (create t k mode) = create_session-Held env t k mode
  run_op-Held env (set_status t k epoch status) = set_session_status-Held env t k epoch status
  run_op-Held env (fork_at t parent n child) = fork-Held env t parent n child

pub run_ops-Held :
    (s tenant : String) (token least : ℕ) (sha : List ℕ → List ℕ) (ops : List (Env × Op)) (db : Db)
    → Held s tenant token least db
    → Held s tenant token least (run_ops sha ops db)
unfolding run_ops
run_ops-Held s tenant token least sha [] db h = h
run_ops-Held s tenant token least sha ((env, op) ∷ ops) db h =
    run_ops-Held s tenant token least sha ops (run_op (with_sha sha env) op db).1
      (run_op-Held s tenant token least db h (with_sha sha env) op)
