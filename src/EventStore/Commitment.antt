-- ===== src/EventStore/Commitment.antt =====
-- hashchain.go: the head of a verified chain commits to the payloads of the log.
use mathlib.Core.Path.{subst}
use mathlib.Core.List.{reverse, reverse_aux, reverse-reverse}
use harness_ai.Prelude.{
  ℕ, ◌≢◌, String, ◌≡◌, refl, sym, ap, ◌∙◌, Bool-cases, true, false, inl, inr, ◌⊎◌, List, [], ◌∷◌,
  ◌++◌, length, length-append, arith,
}
use harness_ai.Prelude.Bytes.{bytes, bytes_equal, bytes_equal→≡, bytes_equal_refl, or_nil}
use harness_ai.Domain.{EventEnvelope}
use harness_ai.Domain.HashChain.{Sha, genesis_prefix, genesis_chain_hash}
use harness_ai.EventStore.Integrity.{Linked, verify_loop-Linked}
use harness_ai.EventStore.Verify.{ChainVerification, verify_loop}

-- Two different inputs with one digest.
abbrev pub Collision : Sha → Type 0
Collision sha = (x : List ℕ) × ((y : List ℕ) × (x ≢ y) × (sha x ≡ sha y))

different : (xs ys : List ℕ) → bytes_equal xs ys ≡ false → xs ≢ ys
different xs ys h e =
    let same : bytes_equal xs ys ≡ true =
      subst (λ z. bytes_equal xs z ≡ true) e (bytes_equal_refl xs) in
    ground arith

pub split-append :
    (xs ys us vs : List ℕ) → length xs ≡ length ys → xs ++ us ≡ ys ++ vs → (xs ≡ ys) × (us ≡ vs)
split-append [] [] us vs l h = (refl, h)
split-append [] (y ∷ ys) us vs l h = ground arith
split-append (x ∷ xs) [] us vs l h = ground arith
split-append (x ∷ xs) (y ∷ ys) us vs l h =
    let (a, b) = split-append xs ys us vs (omega (arith, l)) (ground arith) in
    (ground (arith, a), b)

-- The head that the payloads leave, the newest payload first.
abbrev head_of : Sha → List ℕ → List (List ℕ) → List ℕ
head_of sha genesis [] = genesis
head_of sha genesis (p ∷ older) = sha (head_of sha genesis older ++ sha p)

-- The same, the oldest payload first.
abbrev fold_head : Sha → List ℕ → List (List ℕ) → List ℕ
fold_head sha prev [] = prev
fold_head sha prev (p ∷ ps) = fold_head sha (sha (prev ++ sha p)) ps

fold_head-head_of :
    (sha : Sha) (genesis : List ℕ) (ps acc : List (List ℕ))
    → fold_head sha (head_of sha genesis acc) ps ≡ head_of sha genesis (reverse_aux ps acc)
fold_head-head_of sha genesis [] acc = refl
fold_head-head_of sha genesis (p ∷ ps) acc = fold_head-head_of sha genesis ps (p ∷ acc)

module _ (sha : Sha) (width : (x : List ℕ) → length (sha x) ≡ 32) where
  -- Two inputs with one digest are the same, or a collision.
  pub same_input : (x y : List ℕ) → sha x ≡ sha y → (x ≡ y) ⊎ Collision sha
  same_input x y h = elim (Bool-cases (bytes_equal x y)) [
    | inl e ↦ inl (bytes_equal→≡ x y e)
    | inr e ↦ inr (x, (y, different x y e, h))
  ]

  head_of-width :
      (genesis : List ℕ) (ps : List (List ℕ))
      → length genesis ≡ 32
      → length (head_of sha genesis ps) ≡ 32
  head_of-width genesis [] h = h
  head_of-width genesis (p ∷ ps) h = width (head_of sha genesis ps ++ sha p)

  -- A link is never a genesis value, whose input has another length.
  link-genesis :
      (seed head p : List ℕ)
      → length seed ≢ 64
      → length head ≡ 32
      → sha seed ≡ sha (head ++ sha p)
      → Collision sha
  link-genesis seed head p n l h = (
    seed,
    (
      head ++ sha p,
      (λ e. n (ap length e ∙ length-append head (sha p) ∙ omega (arith, l, width p))),
      h,
    ),
  )

  head_of-injective :
      (seed : List ℕ)
      → length seed ≢ 64
      → (ps qs : List (List ℕ)) → head_of sha (sha seed) ps ≡ head_of sha (sha seed) qs
      → (ps ≡ qs) ⊎ Collision sha
  head_of-injective seed n [] [] h = inl refl
  head_of-injective seed n [] (q ∷ qs) h = inr (
      link-genesis seed (head_of sha (sha seed) qs) q n (head_of-width (sha seed) qs (width seed))
        h)
  head_of-injective seed n (p ∷ ps) [] h = inr (
      link-genesis seed (head_of sha (sha seed) ps) p n (head_of-width (sha seed) ps (width seed))
        (sym h))
  head_of-injective seed n (p ∷ ps) (q ∷ qs) h =
      elim (same_input (head_of sha (sha seed) ps ++ sha p) (head_of sha (sha seed) qs ++ sha q)
        h) [
          | inr c ↦ inr c
          | inl e ↦
              let (a, b) =
                split-append (head_of sha (sha seed) ps) (head_of sha (sha seed) qs) (sha p) (sha q)
                  (head_of-width (sha seed) ps (width seed)
                    ∙ sym (head_of-width (sha seed) qs (width seed)))
                  e in
              elim (same_input p q b) [
                | inr c ↦ inr c
                | inl f ↦ elim (head_of-injective seed n ps qs a) [
                  | inr c ↦ inr c
                  | inl g ↦ inl (ap (λ x. x ∷ ps) f ∙ ap (λ xs. q ∷ xs) g)
                ]
              ]
        ]

  fold_head-injective :
      (seed : List ℕ)
      → length seed ≢ 64
      → (ps qs : List (List ℕ)) → fold_head sha (sha seed) ps ≡ fold_head sha (sha seed) qs
      → (ps ≡ qs) ⊎ Collision sha
  fold_head-injective seed n ps qs h =
      elim (head_of-injective seed n (reverse ps) (reverse qs) (
        sym (fold_head-head_of sha (sha seed) ps [])
        ∙ h
        ∙ fold_head-head_of sha (sha seed) qs [])) [
          | inr c ↦ inr c
          | inl e ↦ inl (sym (reverse-reverse ps) ∙ ap reverse e ∙ reverse-reverse qs)
        ]

-- The payloads of rows, and the stored head that the last of them leaves.
abbrev pub payloads : List EventEnvelope → List (List ℕ)
payloads [] = []
payloads (e ∷ es) = or_nil e.payload_canonical ∷ payloads es

abbrev pub stored_head : List ℕ → List EventEnvelope → List ℕ
stored_head prev [] = prev
stored_head prev (e ∷ es) = stored_head (or_nil e.chain_hash) es

Linked-head :
    (sha : Sha) (prev : List ℕ) (rows : List EventEnvelope)
    → Linked sha prev rows
    → stored_head prev rows ≡ fold_head sha prev (payloads rows)
Linked-head sha prev [] h = refl
Linked-head sha prev (e ∷ es) ((p, n, f, g), h) =
    Linked-head sha (or_nil e.chain_hash) es h
    ∙ ap (λ x. fold_head sha x (payloads es))
        (sym g ∙ ap (λ x. sha (prev ++ sha x)) (ap or_nil (sym n)))

-- The stored chain head commits to the log. Where the digest has 32 bytes and the session's id has not
-- 38 bytes (an id is a UUID), two lists of rows of a session that the verification both accepts from the genesis
-- value and that end in the same head have the same payloads, or two different inputs with
-- one digest are found.
pub verify_loop-injective :
    (sha : Sha) (session : String) (n m : ℕ) (rows rows2 : List EventEnvelope)
    → ((x : List ℕ) → length (sha x) ≡ 32)
    → length (bytes session) ≢ 38
    → ChainVerification.valid (verify_loop sha (genesis_chain_hash sha session) n rows) ≡ true
    → ChainVerification.valid (verify_loop sha (genesis_chain_hash sha session) m rows2) ≡ true
    → stored_head (genesis_chain_hash sha session) rows
      ≡ stored_head (genesis_chain_hash sha session) rows2
    → (payloads rows ≡ payloads rows2) ⊎ Collision sha
unfolding genesis_chain_hash bytes
verify_loop-injective sha session n m rows rows2 w l g h e =
    let genesis = genesis_chain_hash sha session in
    fold_head-injective sha w (bytes genesis_prefix ++ bytes session)
      (λ x. l (omega (arith, sym (length-append (bytes genesis_prefix) (bytes session)) ∙ x)))
      (payloads rows) (payloads rows2)
      (sym (Linked-head sha genesis rows ((verify_loop-Linked sha genesis n rows).0 g))
        ∙ e
        ∙ Linked-head sha genesis rows2 ((verify_loop-Linked sha genesis m rows2).0 h))
