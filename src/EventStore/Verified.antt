-- ===== src/EventStore/Verified.antt =====
-- The verification of read_range.go accepts what the append of store.go writes.
use mathlib.Core.Path.{subst}
use harness_ai.Prelude.{
  ℕ, suc, zero, ◌+◌, ◌-◌, ◌≤◌, ◌<◌, String, ◌≡◌, refl, ap, Bool-cases, false, none, some, inl, inr,
  List, [], ◌∷◌, ◌++◌, All, All-map, length, ltb, leb, eq_iff, arith,
}
use harness_ai.Domain.{EventEnvelope}
use harness_ai.Domain.HashChain.{genesis_chain_hash}
use harness_ai.EventStore.{Db, SessionRow, ok, Env, visible, Commit}
use harness_ai.EventStore.Append.{select, finish_read}
use harness_ai.EventStore.Rows.{Chain}
use harness_ai.EventStore.Invariant.{
  IsSound, IsWellFormed, visible-some, fork_point, head_or_genesis,
}
use harness_ai.EventStore.Window.{window, Seeds, skip_unchained-window, verify_window-Chain}
use harness_ai.EventStore.Verify.{
  valid_with, chain_hash_at, verify_seed_prev, in_window, from_or_first, to_or_head, verify_between,
  verify_chain_integrity,
}

module _ (sha : List ℕ → List ℕ) (tenant session : String) where
  chain_hash_at-before :
      (first : ℕ) (prev : List ℕ) (rs : List EventEnvelope) (next : ℕ) (head : List ℕ) (k : ℕ)
      → Chain sha tenant session first prev rs next head
      → k < first
      → chain_hash_at tenant rs k ≡ none
  unfolding chain_hash_at
  chain_hash_at-before first prev [] next head k h g = refl
  chain_hash_at-before first prev (r ∷ rs) next head k (a, b, c, (p, l, h)) g = ground (
    arith,
    a,
    g,
    chain_hash_at-before (first + 1) (sha (prev ++ sha p)) rs next head k h (omega (arith, g)),
  )

  -- Each row of a chain is found by its number.
  abbrev IsFound : ℕ → List EventEnvelope → EventEnvelope → Type 0
  IsFound first rs r =
      (first ≤ r.seq)
      × ((h : List ℕ) × (r.chain_hash ≡ some h) × (chain_hash_at tenant rs r.seq ≡ some h))

  IsFound-Chain :
      (first : ℕ) (prev : List ℕ) (rs : List EventEnvelope) (next : ℕ) (head : List ℕ)
      → Chain sha tenant session first prev rs next head
      → All (IsFound first rs) rs
  unfolding chain_hash_at
  IsFound-Chain first prev [] next head h = tt
  IsFound-Chain first prev (r ∷ rs) next head (a, b, c, (p, l, h)) = (
    (
      omega (arith, a),
      (sha (prev ++ sha p), l.2, ground (arith, a, c, l.2, eq_iff r.tenant_id tenant)),
    ),
    All-map (λ x f. (omega (arith, f.0), (f.1.0, f.1.1, ground (arith, a, f.0, f.1.2)))) rs
        (IsFound-Chain (first + 1) (sha (prev ++ sha p)) rs next head h),
  )

  verify_seed_prev-suc :
      (rs : List EventEnvelope) (k : ℕ)
      → 1 ≤ k
      → verify_seed_prev sha tenant session rs (k + 1)
        ≡ (elim (chain_hash_at tenant rs k) as (λ x. List ℕ) [
          | none ↦ genesis_chain_hash sha session
          | some h ↦ h
        ])
  unfolding verify_seed_prev
  verify_seed_prev-suc rs k g =
      let after_first : leb (k + 1) 1 ≡ false = ground arith in
      let back : k + 1 - 1 ≡ k = omega arith in rw (after_first, back, verify_seed_prev) refl

  verify_seed_prev-first :
      (at : ℕ) (prev : List ℕ) (rs : List EventEnvelope) (next : ℕ) (head : List ℕ)
      → Chain sha tenant session (at + 1) prev rs next head
      → verify_seed_prev sha tenant session rs (at + 1) ≡ genesis_chain_hash sha session
  unfolding verify_seed_prev
  verify_seed_prev-first zero prev rs next head h = refl
  verify_seed_prev-first (suc n) prev rs next head h =
      rw
        (
          verify_seed_prev-suc rs (suc n) (omega arith),
          chain_hash_at-before (suc n + 1) prev rs next head (suc n) h (omega arith),
        )
        refl

  verify_seed_prev-Seeds :
      (at : ℕ) (prev : List ℕ) (rs : List EventEnvelope) (next : ℕ) (head : List ℕ)
      → Chain sha tenant session (at + 1) prev rs next head
      → Seeds sha tenant session 0 0 (verify_seed_prev sha tenant session rs) rs
  verify_seed_prev-Seeds at prev rs next head h =
      All-map (λ x f. rw (verify_seed_prev-suc rs x.seq (omega (arith, f.0)), f.1.2, f.1.1) refl) rs
        (IsFound-Chain (at + 1) prev rs next head h)

module _ (sha : List ℕ → List ℕ) (tenant session : String) (from to : ℕ) where
  window-empty : (rs : List EventEnvelope) → to < from → window sha tenant session from to rs ≡ []
  unfolding select
  window-empty [] g = refl
  window-empty (r ∷ rs) g =
      let out : in_window tenant from to r ≡ false = ground arith in
      rw (out, select) (window-empty rs g)

  verify_between-Chain :
      (at : ℕ) (rs : List EventEnvelope) (next : ℕ) (head : List ℕ)
      → Chain sha tenant session (at + 1) (genesis_chain_hash sha session) rs next head
      → verify_between sha tenant session rs from to
        ≡ valid_with (length (select (in_window tenant from to) rs))
  unfolding verify_between
  verify_between-Chain at rs next head h = elim (Bool-cases (ltb to from)) [
    | inl e ↦ rw (e, window-empty rs (ground arith), verify_between) refl
    | inr e ↦
        rw
          (
            e,
            skip_unchained-window sha tenant session from to (at + 1)
                (genesis_chain_hash sha session) rs next head h,
            verify_between,
          )
          (verify_window-Chain sha tenant session from to (verify_seed_prev sha tenant session rs)
            (at + 1) (genesis_chain_hash sha session) rs next head h
            (verify_seed_prev-first sha tenant session at (genesis_chain_hash sha session) rs next
              head h)
            (verify_seed_prev-Seeds sha tenant session at (genesis_chain_hash sha session) rs next
              head h))
  ]

-- On well-formed tables the verification of a session that the tenant sees accepts every window,
-- wherever it starts and ends, and has checked exactly the rows in it.
pub verify_chain_integrity-IsWellFormed :
    (env : Env) (tenant session : String) (from to : ℕ) (row : SessionRow) (db : Db)
    → IsWellFormed env.sha db
    → env.commit ≡ Commit.done
    → visible tenant (db.sessions session) ≡ some row
    → verify_chain_integrity env (some tenant) session from to db
      ≡ ok (
          valid_with (
            length (
              select
                (in_window tenant (from_or_first from) (to_or_head to row.head_seq))
                (db.events session))))
unfolding verify_chain_integrity finish_read
verify_chain_integrity-IsWellFormed env tenant session from to row db h d v =
    let (at, own) = visible-some tenant (db.sessions session) row v in
    let chain : Chain env.sha tenant session (fork_point row + 1)
        (genesis_chain_hash env.sha session) (db.events session) (row.head_seq + 1)
        (head_or_genesis env.sha session row) =
      subst
        (λ t.
          Chain env.sha t session (fork_point row + 1) (genesis_chain_hash env.sha session)
            (db.events session) (row.head_seq + 1) (head_or_genesis env.sha session row))
        own (subst (λ o. IsSound env.sha session o (db.events session)) at (h session)) in
    rw (v, d, verify_chain_integrity)
      (ap (λ x. finish_read Commit.done x)
        (verify_between-Chain env.sha tenant session (from_or_first from)
          (to_or_head to row.head_seq) (fork_point row) (db.events session) (row.head_seq + 1)
          (head_or_genesis env.sha session row) chain))
