-- ===== src/EventStore/Idempotent.antt =====
-- A retry of a committed append returns the rows that the first call returned.
use mathlib.Core.Path.{subst}
use harness_ai.Prelude.{
  ℕ, suc, ◌&&◌, String, ◌≡◌, refl, sym, ap, ◌∙◌, Bool, Option, some, inl, inr, ◌⊎◌, List, [], ◌∷◌,
  ◌++◌, All, length, str_eq, eq_refl, arith,
}
use harness_ai.Domain.{EventEnvelope}
use harness_ai.EventStore.{Db, AppendInput, BlobUpload, Result, ok, Env}
use harness_ai.EventStore.Append.{select, or_prior, append_fresh, append_tx, load_by_request_id}
use harness_ai.EventStore.Commits.{Committed, append_tx-Committed}

module _ (p : EventEnvelope → Bool) where
  select-append : (xs ys : List EventEnvelope) → select p (xs ++ ys) ≡ select p xs ++ select p ys
  unfolding select
  select-append [] ys = refl
  select-append (x ∷ xs) ys = ground (arith, select-append xs ys)

abbrev requested_by : String → String → EventEnvelope → Bool
requested_by request tenant r = str_eq r.request_id request && str_eq r.tenant_id tenant

select_found :
    (request tenant : String) (xs : List EventEnvelope)
    → All (λ r. r.request_id ≡ request) xs
    → All (λ r. r.tenant_id ≡ tenant) xs
    → select (requested_by request tenant) xs ≡ xs
unfolding select
select_found request tenant [] g h = refl
select_found request tenant (x ∷ xs) g h =
    rw (g.0, h.0, eq_refl request, eq_refl tenant, select_found request tenant xs g.1 h.1) refl

-- The rows of a committed append are those that its request finds.
load_by_request_id-after :
    (tenant session request : String) (expected epoch n : ℕ) (db new : Db)
    (rows : List EventEnvelope)
    → load_by_request_id db session tenant request ≡ []
    → Committed tenant session request expected epoch n db new rows
    → load_by_request_id new session tenant request ≡ rows
unfolding load_by_request_id
load_by_request_id-after tenant session request expected epoch n db new rows h c =
    ap (select (requested_by request tenant)) c.rows_after
    ∙ select-append (requested_by request tenant) (db.events session) rows
    ∙ ap (λ x. x ++ select (requested_by request tenant) rows) h
    ∙ select_found request tenant rows c.requested c.owned

or_prior-found :
    (r : EventEnvelope) (rs prior : List EventEnvelope) (db : Db)
    (fresh : Result (List EventEnvelope) × Db)
    → prior ≡ r ∷ rs
    → or_prior prior db fresh ≡ (ok (r ∷ rs), db)
or_prior-found r rs prior db fresh e = rw (e) refl

List-cases :
    (xs : List EventEnvelope)
    → (xs ≡ []) ⊎ ((y : EventEnvelope) × ((ys : List EventEnvelope) × (xs ≡ y ∷ ys)))
List-cases [] = inl refl
List-cases (x ∷ xs) = inr (x, (xs, refl))

module _ (env : Env) (tenant session request : String) (blob : Option BlobUpload)
    (expected epoch : ℕ) (i : AppendInput) (is : List AppendInput) where
  -- An append whose request has rows answers with them.
  append_tx-found :
      (db : Db) (rows : List EventEnvelope) (n : ℕ)
      → load_by_request_id db session tenant request ≡ rows
      → length rows ≡ suc n
      → append_tx env (some tenant) session expected epoch request blob (i ∷ is) db ≡ (ok rows, db)
  unfolding append_tx
  append_tx-found db [] n h l = ground arith
  append_tx-found db (r ∷ rs) n h l =
      or_prior-found r rs (load_by_request_id db session tenant request) db
        (append_fresh env tenant session expected epoch request blob (i ∷ is) db) h

ok-rows : (xs ys : List EventEnvelope) → ok xs ≡ ok ys → xs ≡ ys
ok-rows xs ys h = ground arith

-- Whatever an append has been answered with rows, the next append to the session, if it has the same
-- tenant and request, whatever its expected sequence number, fencing token, blob and inputs and whatever the
-- environment, is answered with the same rows, and changes no table.
pub append_tx-replay :
    (env again : Env) (tenant session request : String) (blob blob2 : Option BlobUpload)
    (expected expected2 epoch epoch2 : ℕ) (i i2 : AppendInput) (is is2 : List AppendInput) (db : Db)
    (rows : List EventEnvelope)
    → (append_tx env (some tenant) session expected epoch request blob (i ∷ is) db).0 ≡ ok rows
    → append_tx again
        (some tenant)
        session
        expected2
        epoch2
        request
        blob2
        (i2 ∷ is2)
        ((append_tx env (some tenant) session expected epoch request blob (i ∷ is) db).1)
      ≡ (ok rows, (append_tx env (some tenant) session expected epoch request blob (i ∷ is) db).1)
append_tx-replay env again tenant session request blob blob2 expected expected2 epoch epoch2 i i2 is
      is2 db rows h =
    elim (List-cases (load_by_request_id db session tenant request)) [
      | inl e ↦
          let c =
            append_tx-Committed env tenant session request blob expected epoch db (i ∷ is) rows e
              h in
          append_tx-found again tenant session request blob2 expected2 epoch2 i2 is2
            ((append_tx env (some tenant) session expected epoch request blob (i ∷ is) db).1) rows
            (length is)
            (load_by_request_id-after tenant session request expected epoch (length (i ∷ is)) db
              ((append_tx env (some tenant) session expected epoch request blob (i ∷ is) db).1) rows
              e c)
            c.count
      | inr (y, (ys, e)) ↦
          let found =
            append_tx-found env tenant session request blob expected epoch i is db (y ∷ ys)
              (length ys) e refl in
          let same : y ∷ ys ≡ rows = ok-rows (y ∷ ys) rows (subst (λ r. r.0 ≡ ok rows) found h) in
          rw (found, sym same)
            (append_tx-found again tenant session request blob2 expected2 epoch2 i2 is2 db (y ∷ ys)
              (length ys) e refl)
    ]
