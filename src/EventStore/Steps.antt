-- ===== src/EventStore/Steps.antt =====
-- Every transaction keeps the invariant of the tables, so that it holds after any run of them.
use mathlib.Core.Path.{subst}
use harness_ai.Prelude.{
  ℕ, String, ◌≡◌, refl, sym, Bool-cases, Option, none, some, Option-cases, inl, inr, List, [], ◌∷◌,
  put, ltb, ◌==◌,
}
use harness_ai.Domain.{PermissionMode, EventEnvelope}
use harness_ai.EventStore.{
  SessionStatus, active, finished, failed, SessionRow, Db, AppendInput, BlobUpload, Result, Env,
  Tenant, visible,
}
use harness_ai.EventStore.Append.{or_prior, append_fresh, append_tx, load_by_request_id}
use harness_ai.EventStore.Sessions.{
  wrapped, create_session, set_session_status, set_status_of, child_row, new_row, fork,
}
use harness_ai.EventStore.Invariant.{
  IsSound, IsWellFormed, visible-some, finish-keeps, write-keeps, append_fresh-keeps,
}
use harness_ai.EventStore.Ops.{
  Op, append, create, set_status, fork_at, run_op, run_ops, with_sha, empty_db,
}

or_prior-keeps :
    (sha : List ℕ → List ℕ) (prior : List EventEnvelope) (db : Db)
    (fresh : Result (List EventEnvelope) × Db)
    → IsWellFormed sha db
    → IsWellFormed sha (fresh.1)
    → IsWellFormed sha ((or_prior prior db fresh).1)
or_prior-keeps sha [] db fresh h g = g
or_prior-keeps sha (r ∷ rs) db fresh h g = h

module _ (env : Env) where
  append_tx-keeps :
      (tenant : Tenant) (session : String) (expected epoch : ℕ) (request : String)
      (blob : Option BlobUpload) (inputs : List AppendInput) (db : Db)
      → IsWellFormed env.sha db
      → IsWellFormed env.sha
          ((append_tx env tenant session expected epoch request blob inputs db).1)
  unfolding append_tx
  append_tx-keeps tenant session expected epoch request blob [] db h = h
  append_tx-keeps none session expected epoch request blob (i ∷ is) db h = h
  append_tx-keeps (some t) session expected epoch request blob (i ∷ is) db h =
      or_prior-keeps env.sha (load_by_request_id db session t request) db
        (append_fresh env t session expected epoch request blob (i ∷ is) db) h
        (append_fresh-keeps env t session request blob expected epoch (i ∷ is) db h)

  -- A new row, of a session that had none.
  insert-keeps :
      (session : String) (row : SessionRow) (db : Db)
      → IsWellFormed env.sha db
      → db.sessions session ≡ none
      → IsSound env.sha session (some row) []
      → IsWellFormed env.sha (record db { sessions = put db.sessions session row })
  insert-keeps session row db h at g =
      write-keeps env.sha session db (record db { sessions = put db.sessions session row }) row h
        (λ j. refl) (λ j e. refl)
        (subst (IsSound env.sha session (some row))
          (sym (subst (λ o. IsSound env.sha session o (db.events session)) at (h session))) g)

  create_session-keeps :
      (tenant : Tenant) (session : String) (mode : PermissionMode) (db : Db)
      → IsWellFormed env.sha db
      → IsWellFormed env.sha ((create_session env tenant session mode db).1)
  unfolding create_session
  create_session-keeps none session mode db h = h
  create_session-keeps (some t) session mode db h = elim (Option-cases (db.sessions session)) [
    | inl e ↦
        rw (e, create_session)
          (finish-keeps env.sha (wrapped env.commit) (new_row t mode)
            (record db { sessions = put db.sessions session (new_row t mode) }) db
            (insert-keeps session (new_row t mode) db h e (refl, refl)) h)
    | inr (row, e) ↦ rw (e, create_session) h
  ]

  set_status_of-keeps :
      (o : Option SessionRow) (session : String) (epoch : ℕ) (status : SessionStatus) (db : Db)
      → IsWellFormed env.sha db
      → ((row : SessionRow) → o ≡ some row → db.sessions session ≡ some row)
      → IsWellFormed env.sha ((set_status_of o env session epoch status db).1)
  set_status_of-keeps none session epoch status db h at = h
  set_status_of-keeps (some row) session epoch status db h at =
      elim (Bool-cases (row.lease_epoch == epoch)) [
        | inl e ↦
            let new = record row { status = status } in
            rw (e) (
              finish-keeps env.sha (wrapped env.commit) tt
                (record db { sessions = put db.sessions session new }) db
                (write-keeps env.sha session db
                  (record db { sessions = put db.sessions session new }) new h (λ j. refl)
                  (λ j x. refl)
                  (subst (λ o. IsSound env.sha session o (db.events session)) (at row refl)
                    (h session)))
                h)
        | inr e ↦ rw (e) h
      ]

  set_session_status-keeps :
      (tenant : Tenant) (session : String) (epoch : ℕ) (status : SessionStatus) (db : Db)
      → IsWellFormed env.sha db
      → IsWellFormed env.sha ((set_session_status env tenant session epoch status db).1)
  unfolding set_session_status
  set_session_status-keeps tenant session epoch active db h = h
  set_session_status-keeps none session epoch finished db h = h
  set_session_status-keeps none session epoch failed db h = h
  set_session_status-keeps (some t) session epoch finished db h =
      set_status_of-keeps (visible t (db.sessions session)) session epoch finished db h
        (λ row e. (visible-some t (db.sessions session) row e).0)
  set_session_status-keeps (some t) session epoch failed db h =
      set_status_of-keeps (visible t (db.sessions session)) session epoch failed db h
        (λ row e. (visible-some t (db.sessions session) row e).0)

  fork-keeps :
      (tenant : Tenant) (parent : String) (at : ℕ) (child : String) (db : Db)
      → IsWellFormed env.sha db
      → IsWellFormed env.sha ((fork env tenant parent at child db).1)
  unfolding fork
  fork-keeps none parent at child db h = h
  fork-keeps (some t) parent at child db h = elim (Option-cases (visible t (db.sessions parent))) [
    | inl e ↦ rw (e, fork) h
    | inr (row, e) ↦ elim (Bool-cases (ltb row.head_seq at)) [
      | inl g ↦ rw (e, fork) (rw (g, fork) h)
      | inr g ↦ elim (Option-cases (db.sessions child)) [
        | inr (old, f) ↦ rw (e, fork) (rw (g, f, fork) h)
        | inl f ↦
            rw (e, fork)
              (rw (g, f, fork)
                (finish-keeps env.sha (wrapped env.commit) (child_row t parent at row)
                  (record db { sessions = put db.sessions child (child_row t parent at row) }) db
                  (insert-keeps child (child_row t parent at row) db h f (refl, refl)) h))
      ]
    ]
  ]

  -- Every transaction, whatever it answers, keeps the tables well-formed: the rows of each session
  -- are numbered without a gap from its fork point to its head, they are its own and its
  -- tenant's, and their hash chain ends in the stored chain head.
  pub run_op-IsWellFormed :
      (op : Op) (db : Db) → IsWellFormed env.sha db → IsWellFormed env.sha ((run_op env op db).1)
  unfolding run_op
  run_op-IsWellFormed (append tenant session expected epoch request blob inputs) db =
      append_tx-keeps tenant session expected epoch request blob inputs db
  run_op-IsWellFormed (create tenant session mode) db = create_session-keeps tenant session mode db
  run_op-IsWellFormed (set_status tenant session epoch status) db =
      set_session_status-keeps tenant session epoch status db
  run_op-IsWellFormed (fork_at tenant parent at child) db = fork-keeps tenant parent at child db

run_ops-keeps :
    (sha : List ℕ → List ℕ) (ops : List (Env × Op)) (db : Db)
    → IsWellFormed sha db
    → IsWellFormed sha (run_ops sha ops db)
unfolding run_ops
run_ops-keeps sha [] db h = h
run_ops-keeps sha ((env, op) ∷ rest) db h =
    run_ops-keeps sha rest ((run_op (with_sha sha env) op db).1)
      (run_op-IsWellFormed (with_sha sha env) op db h)

-- The tables are well-formed after any run of transactions from empty tables, those that fail and
-- those that are replayed included.
pub run_ops-IsWellFormed :
    (sha : List ℕ → List ℕ) (ops : List (Env × Op)) → IsWellFormed sha (run_ops sha ops empty_db)
run_ops-IsWellFormed sha ops = run_ops-keeps sha ops empty_db (λ j. refl)
