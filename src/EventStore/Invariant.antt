-- ===== src/EventStore/Invariant.antt =====
-- The invariant of the tables of the event store: the rows of a session are numbered without a gap
-- from its fork point to its head, and the chain over them ends in the stored chain head.
use mathlib.Core.Path.{subst}
use harness_ai.Prelude.{
  ℕ, ◌+◌, String, ◌≡◌, refl, Bool-cases, true, false, Option, none, some, Option-cases, inl, inr,
  List, [], length, put, str_eq, eq_iff, eq_refl, arith,
}
use harness_ai.Domain.{EventEnvelope}
use harness_ai.Domain.HashChain.{genesis_chain_hash}
use harness_ai.EventStore.{
  SessionRow, BlobRow, Db, AppendInput, BlobUpload, ok, Result-cases, Commit, Env, visible,
}
use harness_ai.EventStore.Append.{
  finish, gate, with_rows, Inserted, insert_blob_row, insert_events, load_chain_head, append_gated,
  append_fresh,
}
use harness_ai.EventStore.Rows.{Chain, Chain-append, inserted-Chain}

-- The sequence number before the session's first own row.
abbrev pub fork_point : SessionRow → ℕ
fork_point row = elim row.forked_from_seq [ none ↦ 0 | some at ↦ at ]

-- The stored head of the chain, or the genesis value.
abbrev pub head_or_genesis : (List ℕ → List ℕ) → String → SessionRow → List ℕ
head_or_genesis sha session row = elim row.chain_head [
  | none ↦ genesis_chain_hash sha session
  | some h ↦ h
]

abbrev pub IsSound : (List ℕ → List ℕ) → String → Option SessionRow → List EventEnvelope → Type 0
IsSound sha session none rows = rows ≡ []
IsSound sha session (some row) rows =
    Chain sha row.tenant_id session (fork_point row + 1) (genesis_chain_hash sha session) rows
      (row.head_seq + 1) (head_or_genesis sha session row)

abbrev pub IsWellFormed : (List ℕ → List ℕ) → Db → Type 0
IsWellFormed sha db =
    (session : String) → IsSound sha session (db.sessions session) (db.events session)

pub visible-some :
    (tenant : String) (o : Option SessionRow) (row : SessionRow)
    → visible tenant o ≡ some row
    → (o ≡ some row) × (row.tenant_id ≡ tenant)
unfolding visible
visible-some tenant none row h = ground arith
visible-some tenant (some r) row h = elim (Bool-cases (str_eq r.tenant_id tenant)) [
  | inl e ↦ (ground arith, ground (arith, eq_iff r.tenant_id tenant))
  | inr e ↦ ground arith
]

pub finish-keeps {ℓ} :
    {A : Type ℓ} (sha : List ℕ → List ℕ) (c : Commit) (a : A) (new old : Db)
    → IsWellFormed sha new
    → IsWellFormed sha old
    → IsWellFormed sha ((finish c a new old).1)
unfolding finish
finish-keeps sha Commit.done a new old g h = g
finish-keeps sha Commit.unique_violation a new old g h = h
finish-keeps sha Commit.other_error a new old g h = h
finish-keeps sha Commit.answer_lost a new old g h = g

module _ (sha : List ℕ → List ℕ) (session : String) where
  -- A write of one row of `sessions` with the rows of that session.
  pub write-keeps :
      (db new : Db) (row : SessionRow)
      → IsWellFormed sha db
      → ((j : String) → new.sessions j ≡ put db.sessions session row j)
      → ((j : String) → str_eq session j ≡ false → new.events j ≡ db.events j)
      → IsSound sha session (some row) (new.events session)
      → IsWellFormed sha new
  write-keeps db new row h f g k j = elim (Bool-cases (str_eq session j)) [
    | inl e ↦
        subst (λ x. IsSound sha x (new.sessions x) (new.events x)) ((eq_iff session j).0 e)
          (rw (f session, eq_refl session) k)
    | inr e ↦ rw (f j, e, g j e) (h j)
  ]

  with_rows-keeps :
      (db : Db) (row : SessionRow) (n : ℕ) (blobs : List BlobRow) (ins : Inserted)
      → IsWellFormed sha db
      → db.sessions session ≡ some row
      → Chain sha row.tenant_id session
          (row.head_seq + 1)
          (head_or_genesis sha session row)
          ins.0
          (row.head_seq + n + 1)
          ins.1
      → IsWellFormed sha (with_rows db session row n blobs ins)
  with_rows-keeps db row n blobs (rows, head) h at g =
      write-keeps db (with_rows db session row n blobs (rows, head))
        (record row { head_seq = row.head_seq + n; chain_head = some head }) h (λ j. refl)
        (λ j e. rw (e) refl)
        (rw (eq_refl session) (
          Chain-append sha row.tenant_id session (fork_point row + 1)
            (genesis_chain_hash sha session) (db.events session) (row.head_seq + 1)
            (head_or_genesis sha session row) rows (row.head_seq + n + 1) head
            (subst (λ o. IsSound sha session o (db.events session)) at (h session)) g))

  gate-head :
      (row : SessionRow) (expected epoch : ℕ)
      → gate row expected epoch ≡ true
      → row.head_seq ≡ expected
  unfolding gate
  gate-head row expected epoch h = ground arith

module _ (env : Env) (tenant session : String) (request : String) (blob : Option BlobUpload) where
  grown :
      (expected : ℕ) (inputs : List AppendInput) (row : SessionRow) (db : Db) (blobs : List BlobRow)
      (ins : Inserted)
      → IsWellFormed env.sha db
      → db.sessions session ≡ some row
      → row.tenant_id ≡ tenant
      → row.head_seq ≡ expected
      → insert_events env tenant session
          (expected + 1)
          request
          inputs
          blob
          (load_chain_head env session row)
        ≡ ok ins
      → IsWellFormed env.sha (with_rows db session row (length inputs) blobs ins)
  unfolding load_chain_head
  grown expected inputs row db blobs ins h at own head g =
      with_rows-keeps env.sha session db row (length inputs) blobs ins h at
        (inserted-Chain env row.tenant_id session request blob (row.head_seq + 1) inputs
          (head_or_genesis env.sha session row) ins (row.head_seq + length inputs + 1) (omega arith)
          (rw (own, head) g)).0

  append_gated-keeps :
      (expected : ℕ) (inputs : List AppendInput) (row : SessionRow) (db : Db)
      → IsWellFormed env.sha db
      → db.sessions session ≡ some row
      → row.tenant_id ≡ tenant
      → row.head_seq ≡ expected
      → IsWellFormed env.sha
          ((append_gated env tenant session expected request blob inputs row db).1)
  unfolding append_gated load_chain_head
  append_gated-keeps expected inputs row db h at own head =
      elim (Result-cases (insert_blob_row tenant blob db.blobs)) [
        | inl (e, f) ↦ rw (f, append_gated) h
        | inr (blobs, f) ↦
            elim (Result-cases (
              insert_events env tenant session (expected + 1) request inputs blob
                (load_chain_head env session row))) [
                  | inl (e, g) ↦ rw (f, append_gated) (rw (g, append_gated) h)
                  | inr (ins, g) ↦
                      rw (f, append_gated)
                        (rw (g, append_gated)
                          (finish-keeps env.sha env.commit ins.0
                            (with_rows db session row (length inputs) blobs ins) db
                            (grown expected inputs row db blobs ins h at own head g) h))
                ]
      ]

  pub append_fresh-keeps :
      (expected epoch : ℕ) (inputs : List AppendInput) (db : Db)
      → IsWellFormed env.sha db
      → IsWellFormed env.sha
          ((append_fresh env tenant session expected epoch request blob inputs db).1)
  unfolding append_fresh
  append_fresh-keeps expected epoch inputs db h =
      elim (Option-cases (visible tenant (db.sessions session))) [
        | inl e ↦ rw (e, append_fresh) h
        | inr (row, e) ↦ elim (Bool-cases (gate row expected epoch)) [
          | inl g ↦
              let (at, own) = visible-some tenant (db.sessions session) row e in
              rw (e, append_fresh)
                (rw (g, append_fresh)
                  (append_gated-keeps expected inputs row db h at own
                    (gate-head env.sha session row expected epoch g)))
          | inr g ↦ rw (e, append_fresh) (rw (g, append_fresh) h)
        ]
      ]
