-- ===== src/EventStore/Rows.antt =====
-- The rows that the append of store.go inserts: numbered without a gap, owned by the session and
-- the tenant, and linked in the hash chain.
use mathlib.Core.Path.{subst, subst₂}
use harness_ai.Prelude.{
  ℕ, ◌+◌, String, ◌≡◌, refl, sym, Option, some, Option-cases, inl, inr, List, [], ◌∷◌, ◌++◌, All,
  length, arith,
}
use harness_ai.Domain.{EventEnvelope}
use harness_ai.EventStore.{AppendInput, BlobUpload, Result, ok, err, Result-cases, Env}
use harness_ai.EventStore.Append.{insert_event, head_after, Inserted, prepend, insert_events}

-- One link: the stored payload, its hash, and the fold of that into the running head.
abbrev pub Link : (List ℕ → List ℕ) → List ℕ → EventEnvelope → List ℕ → Type 0
Link sha prev r payload =
    (r.payload_canonical ≡ some payload)
    × (r.content_hash ≡ some (sha payload))
    × (r.chain_hash ≡ some (sha (prev ++ sha payload)))

-- Rows numbered from `first` to `next` (exclusive), and chained from `prev` to `head`.
abbrev pub Chain :
    (List ℕ → List ℕ) → String → String → ℕ → List ℕ → List EventEnvelope → ℕ → List ℕ → Type 0
Chain sha tenant session first prev [] next head = (first ≡ next) × (prev ≡ head)
Chain sha tenant session first prev (r ∷ rs) next head =
    (r.seq ≡ first)
    × (r.session_id ≡ session)
    × (r.tenant_id ≡ tenant)
    × ((payload : List ℕ) × Link sha prev r payload
        × Chain sha tenant session (first + 1) (sha (prev ++ sha payload)) rs next head)

module _ (sha : List ℕ → List ℕ) (tenant session : String) where
  pub Chain-append :
      (first : ℕ) (prev : List ℕ) (rs : List EventEnvelope) (mid : ℕ) (at : List ℕ)
      (ss : List EventEnvelope) (next : ℕ) (head : List ℕ)
      → Chain sha tenant session first prev rs mid at
      → Chain sha tenant session mid at ss next head
      → Chain sha tenant session first prev (rs ++ ss) next head
  Chain-append first prev [] mid at ss next head g h =
      subst₂ (λ n a. Chain sha tenant session n a ss next head) (sym g.0) (sym g.1) h
  Chain-append first prev (r ∷ rs) mid at ss next head (a, b, c, (p, l, g)) h =
      (a, b, c, (p, l, Chain-append (first + 1) (sha (prev ++ sha p)) rs mid at ss next head g h))

-- What a successful insertion must have done.
module _ (sha : List ℕ → List ℕ) (tenant session request : String) where
  abbrev Inserts : ℕ → List ℕ → ℕ → Result Inserted → Type 0
  Inserts first prev next (err e) = Unit
  Inserts first prev next (ok (rows, head)) =
      Chain sha tenant session first prev rows next head × All (λ r. r.request_id ≡ request) rows

  -- The first row, and the rows behind it.
  Inserts-prepend :
      (first : ℕ) (prev payload : List ℕ) (row : EventEnvelope) (next : ℕ) (rest : Result Inserted)
      → row.seq ≡ first
      → row.session_id ≡ session
      → row.tenant_id ≡ tenant
      → row.request_id ≡ request
      → Link sha prev row payload
      → Inserts (first + 1) (sha (prev ++ sha payload)) next rest
      → Inserts first prev next (prepend row rest)
  Inserts-prepend first prev payload row next (err e) a b c d l h = tt
  Inserts-prepend first prev payload row next (ok (rows, head)) a b c d l h =
      ((a, b, c, (payload, l, h.0)), (d, h.1))

module _ (env : Env) (tenant session request : String) (blob : Option BlobUpload) where
  -- One inserted row.
  insert_event_row :
      (seq : ℕ) (inp : AppendInput) (prev : List ℕ) (row : EventEnvelope)
      → insert_event env tenant session seq request inp blob prev ≡ ok row
      → (row.seq ≡ seq)
        × (row.session_id ≡ session)
        × (row.tenant_id ≡ tenant)
        × (row.request_id ≡ request)
        × ((payload : List ℕ) × Link env.sha prev row payload)
  unfolding insert_event
  insert_event_row seq inp prev row h = elim (Option-cases (env.marshal inp.event)) [
    | inl e ↦ ground arith
    | inr (p, e) ↦ (
      ground arith,
      ground arith,
      ground arith,
      ground arith,
      (p, (ground arith, ground arith, ground arith)),
    )
  ]

  Inserts-insert_events :
      (first : ℕ) (inputs : List AppendInput) (prev : List ℕ) (next : ℕ)
      → first + length inputs ≡ next
      → Inserts env.sha tenant session request first prev next
          (insert_events env tenant session first request inputs blob prev)
  unfolding insert_events
  Inserts-insert_events first [] prev next e = ((omega arith, refl), tt)
  Inserts-insert_events first (inp ∷ rest) prev next e =
      elim (Result-cases (insert_event env tenant session first request inp blob prev)) [
        | inl (x, h) ↦ rw (h, insert_events) tt
        | inr (row, h) ↦
            let (a, b, c, d, (p, l)) = insert_event_row first inp prev row h in
            rw (h, insert_events)
              (Inserts-prepend env.sha tenant session request first prev p row next
                (insert_events env tenant session (first + 1) request rest blob (head_after row)) a
                b c d l
                (subst
                  (λ x. Inserts env.sha tenant session request (first + 1) x next (
                    insert_events env tenant session (first + 1) request rest blob
                      (head_after row)))
                  (ground arith)
                  (Inserts-insert_events (first + 1) rest (head_after row) next (omega arith))))
      ]

  -- The rows of a successful insertion.
  pub inserted-Chain :
      (first : ℕ) (inputs : List AppendInput) (prev : List ℕ) (ins : Inserted) (next : ℕ)
      → first + length inputs ≡ next
      → insert_events env tenant session first request inputs blob prev ≡ ok ins
      → Chain env.sha tenant session first prev ins.0 next ins.1
        × All (λ r. r.request_id ≡ request) ins.0
  inserted-Chain first inputs prev ins next e h =
      subst (λ r. Inserts env.sha tenant session request first prev next r) h
        (Inserts-insert_events first inputs prev next e)
