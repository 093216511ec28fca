-- ===== src/EventStore/Lost.antt =====
-- store.go: an append whose COMMIT fails, or takes effect without an answer, and the retry of it.
use mathlib.Core.Path.{subst}
use harness_ai.Prelude.{
  ℕ, ◌+◌, String, ◌≡◌, refl, sym, ap, ◌∙◌, Bool, true, false, Bool-cases, Option, some,
  Option-cases, inl, inr, List, [], ◌∷◌, length, if◌then◌else◌,
}
use harness_ai.Domain.{EventEnvelope}
use harness_ai.EventStore.{
  SessionRow, Db, AppendInput, BlobUpload, conflict, commit_failed, Result, ok, err, Result-cases,
  Commit, done, unique_violation, other_error, answer_lost, Env, visible,
}
use harness_ai.EventStore.Append.{
  finish, gate, with_rows, prepend, or_prior, insert_blob_row, insert_event, insert_events,
  head_after, load_chain_head, append_gated, append_fresh, append_tx, load_by_request_id,
}
use harness_ai.EventStore.Idempotent.{append_tx-replay}

-- The environment with another answer to COMMIT.
abbrev pub answering : Commit → Env → Env
answering c env = record env { commit = c }

-- Whether a commit takes effect, and what its answer makes of an append.
abbrev pub has_landed : Commit → Bool
has_landed done = true
has_landed answer_lost = true
has_landed _ = false

abbrev pub reply : Commit → List EventEnvelope → Result (List EventEnvelope)
reply done rows = ok rows
reply unique_violation rows = err conflict
reply _ rows = err commit_failed

finish-reply :
    (c : Commit) (rows : List EventEnvelope) (new old : Db)
    → finish c rows new old ≡ (reply c rows, if has_landed c then new else old)
unfolding finish
finish-reply done rows new old = refl
finish-reply unique_violation rows new old = refl
finish-reply other_error rows new old = refl
finish-reply answer_lost rows new old = refl

module _ (env : Env) (c : Commit) (tenant session request : String) (blob : Option BlobUpload) where
  -- The rows do not depend on the answer to COMMIT.
  insert_events-answering :
      (seq : ℕ) (inputs : List AppendInput) (prev : List ℕ)
      → insert_events (answering c env) tenant session seq request inputs blob prev
        ≡ insert_events (answering done env) tenant session seq request inputs blob prev
  unfolding insert_events insert_event
  insert_events-answering seq [] prev = refl
  insert_events-answering seq (i ∷ is) prev = λ t.
      elim (insert_event (answering done env) tenant session seq request i blob prev) [
        | err e ↦ err e
        | ok row ↦ prepend row (insert_events-answering (seq + 1) is (head_after row) t)
      ]

  module _ (expected epoch : ℕ) (inputs : List AppendInput) (db : Db) where
    -- Where an append with a good commit is answered with rows, what the same append is answered.
    abbrev IfDone : Result (List EventEnvelope) × Db → Result (List EventEnvelope) × Db → Type 0
    IfDone (ok rows, new) r = r ≡ (reply c rows, if has_landed c then new else db)
    IfDone (err e, new) r = Unit

    finish-IfDone :
        (rows : List EventEnvelope) (new : Db) → IfDone (ok rows, new) (finish c rows new db)
    finish-IfDone rows new = finish-reply c rows new db

    append_gated-IfDone :
        (row : SessionRow)
        → IfDone
            (append_gated (answering done env) tenant session expected request blob inputs row db)
            (append_gated (answering c env) tenant session expected request blob inputs row db)
    unfolding append_gated finish load_chain_head
    append_gated-IfDone row = elim (Result-cases (insert_blob_row tenant blob db.blobs)) [
      | inl (e, f) ↦ rw (f, append_gated) tt
      | inr (blobs, f) ↦
          elim (Result-cases (
            insert_events (answering done env) tenant session (expected + 1) request inputs blob
              (load_chain_head env session row))) [
                | inl (e, g) ↦ rw (f, append_gated) (rw (g, append_gated) tt)
                | inr (ins, g) ↦
                    let g2 =
                      insert_events-answering (expected + 1) inputs
                        (load_chain_head env session row)
                      ∙ g in
                    rw (f, append_gated)
                      (rw (g, g2, append_gated)
                        (finish-IfDone ins.0 (with_rows db session row (length inputs) blobs ins)))
              ]
    ]

    append_fresh-IfDone :
        IfDone
          (append_fresh (answering done env) tenant session expected epoch request blob inputs db)
          (append_fresh (answering c env) tenant session expected epoch request blob inputs db)
    unfolding append_fresh
    append_fresh-IfDone = elim (Option-cases (visible tenant (db.sessions session))) [
      | inl e ↦ rw (e, append_fresh) tt
      | inr (row, e) ↦ elim (Bool-cases (gate row expected epoch)) [
        | inl g ↦ rw (e, append_fresh) (rw (g, append_fresh) (append_gated-IfDone row))
        | inr g ↦ rw (e, append_fresh) (rw (g, append_fresh) tt)
      ]
    ]

first-reply :
    (env : Env) (c : Commit) (tenant session request : String) (blob : Option BlobUpload)
    (expected epoch : ℕ) (i : AppendInput) (is : List AppendInput) (db new : Db)
    (rows : List EventEnvelope)
    → load_by_request_id db session tenant request ≡ []
    → append_tx (answering done env) (some tenant) session expected epoch request blob (i ∷ is) db
      ≡ (ok rows, new)
    → append_tx (answering c env) (some tenant) session expected epoch request blob (i ∷ is) db
      ≡ (reply c rows, if has_landed c then new else db)
unfolding append_tx
first-reply env c tenant session request blob expected epoch i is db new rows fresh h =
    let good : append_fresh (answering done env) tenant session expected epoch request blob (i ∷ is)
          db
        ≡ (ok rows, new) =
      sym (
        ap
          (λ p. or_prior p db (
            append_fresh (answering done env) tenant session expected epoch request blob (i ∷ is)
              db))
          fresh)
      ∙ h in
    ap
      (λ p.
        or_prior p db
          (append_fresh (answering c env) tenant session expected epoch request blob (i ∷ is) db))
      fresh
    ∙ subst
        (λ r.
          IfDone env c tenant session request blob expected epoch (i ∷ is) db r
            (append_fresh (answering c env) tenant session expected epoch request blob (i ∷ is) db))
        good (append_fresh-IfDone env c tenant session request blob expected epoch (i ∷ is) db)

if-landed :
    (c : Commit) (new old : Db) (f : Db → Result (List EventEnvelope) × Db)
    (r : Result (List EventEnvelope) × Db)
    → f new ≡ r
    → f (if has_landed c then new else old) ≡ (if has_landed c then r else f old)
if-landed done new old f r h = h
if-landed unique_violation new old f r h = refl
if-landed other_error new old f r h = refl
if-landed answer_lost new old f r h = h

-- A retry is safe, whatever has become of the COMMIT. Let an append under a new request be one that commits rows where all
-- goes well. Whatever the answer to its COMMIT is, the tables are those with the rows or the old ones, as the commit has
-- taken effect or not, and the caller gets the rows only where it has; and the same append sent again under its
-- request, in any environment, gives those rows and changes nothing where the first commit has taken
-- effect, though the caller was told of an error, and is a first append on the old tables where it has not.
pub append_tx-retried :
    (env again : Env) (c : Commit) (tenant session request : String) (blob : Option BlobUpload)
    (expected epoch : ℕ) (i : AppendInput) (is : List AppendInput) (db new : Db)
    (rows : List EventEnvelope)
    → load_by_request_id db session tenant request ≡ []
    → append_tx (answering done env) (some tenant) session expected epoch request blob (i ∷ is) db
      ≡ (ok rows, new)
    → (append_tx (answering c env) (some tenant) session expected epoch request blob (i ∷ is) db
        ≡ (reply c rows, if has_landed c then new else db))
      × (append_tx again
            (some tenant)
            session
            expected
            epoch
            request
            blob
            (i ∷ is)
            (append_tx
              (answering c env)
              (some tenant)
              session
              expected
              epoch
              request
              blob
              (i ∷ is)
              db).1
          ≡ (if has_landed c
              then (ok rows, new)
              else append_tx again (some tenant) session expected epoch request blob (i ∷ is) db))
append_tx-retried env again c tenant session request blob expected epoch i is db new rows fresh h =
    let first =
      first-reply env c tenant session request blob expected epoch i is db new rows fresh h in
    let replayed =
      append_tx-replay (answering done env) again tenant session request blob blob expected expected
        epoch epoch i i is is db rows (ap (λ r. r.0) h) in
    let retry : Db → Result (List EventEnvelope) × Db =
      append_tx again (some tenant) session expected epoch request blob (i ∷ is) in
    let landed : retry new ≡ (ok rows, new) = subst (λ r. retry r.1 ≡ (ok rows, r.1)) h replayed in
    (first, ap (λ r. retry r.1) first ∙ if-landed c new db retry (ok rows, new) landed)
