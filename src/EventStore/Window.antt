-- ===== src/EventStore/Window.antt =====
-- The window of rows that the verification of read_range.go reads, where the rows are chained.
use harness_ai.Prelude.{
  ℕ, ◌+◌, ◌≤◌, ◌<◌, String, ◌≡◌, refl, ap, ◌∙◌, Bool-cases, true, false, inl, inr, List, [], ◌∷◌,
  ◌++◌, All, length, leb, eq_iff, arith,
}
use harness_ai.Prelude.Bytes.{bytes_equal_refl, or_nil}
use harness_ai.Domain.{EventEnvelope}
use harness_ai.Domain.HashChain.{content_hash, chain_hash}
use harness_ai.EventStore.Append.{select}
use harness_ai.EventStore.Rows.{Chain, Link}
use harness_ai.EventStore.Verify.{valid_with, verify_loop, skip_unchained, verify_window, in_window}

module _ (sha : List ℕ → List ℕ) (tenant session : String) (from to : ℕ) where
  abbrev pub window : List EventEnvelope → List EventEnvelope
  window rs = select (in_window tenant from to) rs

  in_window-inside :
      (r : EventEnvelope)
      → from ≤ r.seq
      → r.seq ≤ to
      → r.tenant_id ≡ tenant
      → in_window tenant from to r ≡ true
  in_window-inside r g h e = ground (arith, eq_iff r.tenant_id tenant)

  in_window-before : (r : EventEnvelope) → r.seq < from → in_window tenant from to r ≡ false
  in_window-before r g = ground arith

  in_window-behind : (r : EventEnvelope) → to < r.seq → in_window tenant from to r ≡ false
  in_window-behind r g = ground arith

  window-behind :
      (first : ℕ) (prev : List ℕ) (rs : List EventEnvelope) (next : ℕ) (head : List ℕ)
      → Chain sha tenant session first prev rs next head
      → to < first
      → window rs ≡ []
  unfolding select
  window-behind first prev [] next head h g = refl
  window-behind first prev (r ∷ rs) next head (a, b, c, (p, l, h)) g =
      rw (in_window-behind r (omega (arith, a, g)), select)
        (window-behind (first + 1) (sha (prev ++ sha p)) rs next head h (omega (arith, g)))

  pub skip_unchained-window :
      (first : ℕ) (prev : List ℕ) (rs : List EventEnvelope) (next : ℕ) (head : List ℕ)
      → Chain sha tenant session first prev rs next head
      → skip_unchained (window rs) ≡ window rs
  unfolding select skip_unchained
  skip_unchained-window first prev [] next head h = refl
  skip_unchained-window first prev (r ∷ rs) next head (a, b, c, (p, l, h)) =
      elim (Bool-cases (in_window tenant from to r)) [
        | inl e ↦ rw (e, select, skip_unchained) (rw (l.1, skip_unchained) refl)
        | inr e ↦
            rw (e, select) (skip_unchained-window (first + 1) (sha (prev ++ sha p)) rs next head h)
      ]

  -- One linked row, and those behind it.
  verify_loop-Link :
      (prev payload : List ℕ) (checked : ℕ) (r : EventEnvelope) (rs : List EventEnvelope)
      → Link sha prev r payload
      → verify_loop sha prev checked (r ∷ rs)
        ≡ verify_loop sha (sha (prev ++ sha payload)) (checked + 1) rs
  unfolding verify_loop content_hash chain_hash
  verify_loop-Link prev payload checked r rs (a, b, c) =
      rw (a, b, c, verify_loop)
        (rw
          (
            bytes_equal_refl (sha payload),
            bytes_equal_refl (sha (prev ++ sha payload)),
            verify_loop,
          )
          refl)

  verify_loop-window :
      (first : ℕ) (prev : List ℕ) (rs : List EventEnvelope) (next : ℕ) (head : List ℕ) (checked : ℕ)
      → Chain sha tenant session first prev rs next head
      → from ≤ first
      → verify_loop sha prev checked (window rs) ≡ valid_with (checked + length (window rs))
  unfolding select verify_loop
  verify_loop-window first prev [] next head checked h g = ap valid_with (omega arith)
  verify_loop-window first prev (r ∷ rs) next head checked (a, b, c, (p, l, h)) g =
      elim (Bool-cases (leb first to)) [
        | inl e ↦
            rw (in_window-inside r (omega (arith, a, g)) (ground arith) c, select)
              (verify_loop-Link prev p checked r (window rs) l
                ∙ verify_loop-window (first + 1) (sha (prev ++ sha p)) rs next head (checked + 1) h
                    (omega (arith, g))
                ∙ ap valid_with (omega arith))
        | inr e ↦
            rw
              (
                window-behind first prev (r ∷ rs) next head (a, b, c, (p, l, h)) (ground arith),
                verify_loop,
              )
              (ap valid_with (omega arith))
      ]

  -- The seeds that the stored rows give: each row's chain hash enters the row behind it.
  abbrev pub Seeds : (ℕ → List ℕ) → List EventEnvelope → Type 0
  Seeds seed rs = All (λ r. seed (r.seq + 1) ≡ or_nil r.chain_hash) rs

  pub verify_window-Chain :
      (seed : ℕ → List ℕ) (first : ℕ) (prev : List ℕ) (rs : List EventEnvelope) (next : ℕ)
      (head : List ℕ)
      → Chain sha tenant session first prev rs next head
      → seed first ≡ prev
      → Seeds seed rs
      → verify_window sha seed (window rs) ≡ valid_with (length (window rs))
  unfolding select verify_window
  verify_window-Chain seed first prev [] next head h s t = refl
  verify_window-Chain seed first prev (r ∷ rs) next head (a, b, c, (p, l, h)) s t =
      elim (Bool-cases (leb from first)) [
        | inl e ↦ elim (Bool-cases (leb first to)) [
          | inl f ↦
              rw (in_window-inside r (ground arith) (ground arith) c, select, verify_window)
                (ap (λ x. verify_loop sha x 0 (r ∷ window rs)) (ap seed a ∙ s)
                  ∙ verify_loop-Link prev p 0 r (window rs) l
                  ∙ verify_loop-window (first + 1) (sha (prev ++ sha p)) rs next head 1 h
                      (ground arith)
                  ∙ ap valid_with (omega arith))
          | inr f ↦
              rw (window-behind first prev (r ∷ rs) next head (a, b, c, (p, l, h)) (ground arith))
                refl
        ]
        | inr e ↦
            rw (in_window-before r (ground arith), select)
              (verify_window-Chain seed (first + 1) (sha (prev ++ sha p)) rs next head h
                (ap seed (omega (arith, a)) ∙ t.0 ∙ ap or_nil l.2) t.1)
      ]
