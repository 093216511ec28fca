-- ===== src/EventStore/Commits.antt =====
-- What a committed append of store.go has found in the tables, and what it leaves there.
use mathlib.Core.Path.{subst}
use harness_ai.Prelude.{
  ℕ, ◌+◌, String, ◌≡◌, refl, Bool-cases, true, Option, some, Option-cases, inl, inr, List, [], ◌∷◌,
  ◌++◌, All, length, eq_refl, arith,
}
use harness_ai.Domain.{EventEnvelope}
use harness_ai.EventStore.{
  SessionRow, BlobRow, Db, AppendInput, BlobUpload, Result, ok, err, Result-cases, Commit, Env,
  visible,
}
use harness_ai.EventStore.Append.{
  is_active, gate, finish, with_rows, Inserted, insert_blob_row, insert_events, load_chain_head,
  or_prior, append_gated, append_fresh, append_tx, load_by_request_id,
}
use harness_ai.EventStore.Rows.{Chain, inserted-Chain}
use harness_ai.EventStore.Invariant.{visible-some}

-- An append of `n` inputs, from the tables before it to those after it.
pub record Committed (tenant session request : String) (expected epoch n : ℕ) (db new : Db)
    (rows : List EventEnvelope) : Type 0 where
  pub row : SessionRow
  pub chain : List ℕ
  pub row_before : db.sessions session ≡ some row
  pub own : row.tenant_id ≡ tenant
  pub head : row.head_seq ≡ expected
  pub token : row.lease_epoch ≡ epoch
  pub is_open : is_active row.status ≡ true
  pub row_after :
      new.sessions session ≡ some (record row { head_seq = expected + n; chain_head = some chain })
  pub rows_after : new.events session ≡ db.events session ++ rows
  pub count : length rows ≡ n
  pub owned : All (λ r. r.tenant_id ≡ tenant) rows
  pub requested : All (λ r. r.request_id ≡ request) rows

Chain-length :
    (sha : List ℕ → List ℕ) (tenant session : String) (first : ℕ) (prev : List ℕ)
    (rs : List EventEnvelope) (next : ℕ) (head : List ℕ)
    → Chain sha tenant session first prev rs next head
    → first + length rs ≡ next
Chain-length sha tenant session first prev [] next head h = omega (arith, h.0)
Chain-length sha tenant session first prev (r ∷ rs) next head (a, b, c, (p, l, h)) =
    omega (arith, Chain-length sha tenant session (first + 1) (sha (prev ++ sha p)) rs next head h)

Chain-owned :
    (sha : List ℕ → List ℕ) (tenant session : String) (first : ℕ) (prev : List ℕ)
    (rs : List EventEnvelope) (next : ℕ) (head : List ℕ)
    → Chain sha tenant session first prev rs next head
    → All (λ r. r.tenant_id ≡ tenant) rs
Chain-owned sha tenant session first prev [] next head h = tt
Chain-owned sha tenant session first prev (r ∷ rs) next head (a, b, c, (p, l, h)) =
    (c, Chain-owned sha tenant session (first + 1) (sha (prev ++ sha p)) rs next head h)

gate-conditions :
    (row : SessionRow) (expected epoch : ℕ)
    → gate row expected epoch ≡ true
    → (row.head_seq ≡ expected) × (row.lease_epoch ≡ epoch) × (is_active row.status ≡ true)
unfolding gate
gate-conditions row expected epoch h = (ground arith, ground arith, ground arith)

module _ (env : Env) (tenant session request : String) (blob : Option BlobUpload)
    (expected epoch : ℕ) (db : Db) where
  -- What an answer of the store to this append must mean.
  abbrev IfCommitted : ℕ → Result (List EventEnvelope) × Db → Type 0
  IfCommitted n (ok rows, new) = Committed tenant session request expected epoch n db new rows
  IfCommitted n (err e, new) = Unit

  finish-IfCommitted :
      (n : ℕ) (c : Commit) (rows : List EventEnvelope) (new : Db)
      → Committed tenant session request expected epoch n db new rows
      → IfCommitted n (finish c rows new db)
  unfolding finish
  finish-IfCommitted n Commit.done rows new h = h
  finish-IfCommitted n Commit.unique_violation rows new h = tt
  finish-IfCommitted n Commit.other_error rows new h = tt
  finish-IfCommitted n Commit.answer_lost rows new h = tt

  with_rows-Committed :
      (row : SessionRow) (n : ℕ) (blobs : List BlobRow) (ins : Inserted)
      → db.sessions session ≡ some row
      → row.tenant_id ≡ tenant
      → gate row expected epoch ≡ true
      → (prev : List ℕ)
      → Chain env.sha tenant session (expected + 1) prev ins.0 (expected + n + 1) ins.1
        × All (λ r. r.request_id ≡ request) ins.0
      → Committed tenant session request expected epoch n db
          (with_rows db session row n blobs ins)
          ins.0
  with_rows-Committed row n blobs (rows, head) at own g prev h =
      let (a, b, c) = gate-conditions row expected epoch g in
      record {
        row = row;
        chain = head;
        row_before = at;
        own = own;
        head = a;
        token = b;
        is_open = c;
        row_after = rw (eq_refl session, a) refl;
        rows_after = rw (eq_refl session) refl;
        count = omega (
          arith,
          Chain-length env.sha tenant session (expected + 1) prev rows (expected + n + 1) head h.0,
        );
        owned =
            Chain-owned env.sha tenant session (expected + 1) prev rows (expected + n + 1) head h.0;
        requested = h.1;
      }

  append_gated-IfCommitted :
      (inputs : List AppendInput) (row : SessionRow)
      → db.sessions session ≡ some row
      → row.tenant_id ≡ tenant
      → gate row expected epoch ≡ true
      → IfCommitted
          (length inputs)
          (append_gated env tenant session expected request blob inputs row db)
  unfolding append_gated
  append_gated-IfCommitted inputs row at own g =
      let prev = load_chain_head env session row in
      elim (Result-cases (insert_blob_row tenant blob db.blobs)) [
        | inl (e, f) ↦ rw (f, append_gated) tt
        | inr (blobs, f) ↦
            elim (Result-cases (
              insert_events env tenant session (expected + 1) request inputs blob
                (load_chain_head env session row))) [
                  | inl (e, i) ↦ rw (f, append_gated) (rw (i, append_gated) tt)
                  | inr (ins, i) ↦
                      rw (f, append_gated)
                        (rw (i, append_gated)
                          (finish-IfCommitted (length inputs) env.commit ins.0
                            (with_rows db session row (length inputs) blobs ins)
                            (with_rows-Committed row (length inputs) blobs ins at own g
                              (load_chain_head env session row)
                              (inserted-Chain env tenant session request blob (expected + 1) inputs
                                (load_chain_head env session row) ins (expected + length inputs + 1)
                                (omega arith) i))))
                ]
      ]

  append_fresh-IfCommitted :
      (inputs : List AppendInput)
      → IfCommitted
          (length inputs)
          (append_fresh env tenant session expected epoch request blob inputs db)
  unfolding append_fresh
  append_fresh-IfCommitted inputs = elim (Option-cases (visible tenant (db.sessions session))) [
    | inl e ↦ rw (e, append_fresh) tt
    | inr (row, e) ↦ elim (Bool-cases (gate row expected epoch)) [
      | inl g ↦
          let (at, own) = visible-some tenant (db.sessions session) row e in
          rw (e, append_fresh) (rw (g, append_fresh) (append_gated-IfCommitted inputs row at own g))
      | inr g ↦ rw (e, append_fresh) (rw (g, append_fresh) tt)
    ]
  ]

  IfCommitted-ok :
      (n : ℕ) (rows : List EventEnvelope) (r : Result (List EventEnvelope) × Db)
      → IfCommitted n r
      → r.0 ≡ ok rows
      → Committed tenant session request expected epoch n db (r.1) rows
  IfCommitted-ok n rows (ok xs, new) h e =
      subst (Committed tenant session request expected epoch n db new) (ground arith) h
  IfCommitted-ok n rows (err x, new) h e = ground arith

  -- An append under a request that the session has not seen is only answered with rows if the
  -- tenant's row of the session is active, has the epoch as its fencing token and the expected
  -- sequence number as its head. Then the rows stand behind the old rows of the session, one for
  -- each input, and the head has grown by their number.
  pub append_tx-Committed :
      (inputs : List AppendInput) (rows : List EventEnvelope)
      → load_by_request_id db session tenant request ≡ []
      → (append_tx env (some tenant) session expected epoch request blob inputs db).0 ≡ ok rows
      → Committed tenant session request expected epoch
          (length inputs)
          db
          ((append_tx env (some tenant) session expected epoch request blob inputs db).1)
          rows
  unfolding append_tx
  append_tx-Committed [] rows h e = ground arith
  append_tx-Committed (i ∷ is) rows h e = rw (h) (
      IfCommitted-ok (length (i ∷ is)) rows
        (append_fresh env tenant session expected epoch request blob (i ∷ is) db)
        (append_fresh-IfCommitted (i ∷ is))
        (subst
          (λ p.
            (or_prior p db
              (append_fresh env tenant session expected epoch request blob (i ∷ is) db)).0
            ≡ ok rows)
          h e))
