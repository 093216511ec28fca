-- ===== src/EventStore/Anchors.antt =====
-- checkpoint.go, verify_checkpoints.go: which checkpoints are accepted, and what they commit to.
use mathlib.Core.Path.{subst}
use harness_ai.Prelude.{
  ℕ, ◌+◌, ◌≡◌, refl, sym, ap, ◌∙◌, ◌↔◌, Bool-cases, true, Option, none, some, Option-cases, inl,
  inr, ◌⊎◌, ◌==◌, List, [], ◌∷◌, ◌++◌, length, length-append, arith, All,
}
use harness_ai.Prelude.Bytes.{bytes, or_nil, bytes_equal, bytes_equal→≡, bytes_equal_refl}
use harness_ai.Domain.HashChain.{Sha}
use harness_ai.Domain.Checkpoint.{
  checkpoint_genesis_prefix, checkpoint_genesis_prev, concat, leaves_digest, checkpoint_hash,
}
use harness_ai.EventStore.Commitment.{Collision, same_input, split-append}
use harness_ai.EventStore.Checkpoints.{
  AuditCheckpointRow, checkpoints_valid, Verifier, link_failure, classify_from,
  classify_checkpoints,
}

-- What a row of the chain says of the row before it: its hash; and where there is none, nothing or the digest of
-- the genesis text.
abbrev pub LinksTo : Sha → Option AuditCheckpointRow → List ℕ → Type 0
LinksTo sha none link = (link ≡ []) ⊎ (link ≡ sha (bytes "boltrope-audit-checkpoint-genesis-v1:"))
LinksTo sha (some before) link = link ≡ before.checkpoint_hash

-- The checkpoints are anchored: each links to the one before, covers leaves that are read, has the
-- hash of them, and has a signature of it.
abbrev pub Anchored :
    Verifier → Option AuditCheckpointRow → List ℕ → List AuditCheckpointRow → Type 0
Anchored v prior prev [] = Unit
Anchored v prior prev (cp ∷ cps) =
    LinksTo v.sha prior (or_nil cp.prev_hash)
    × ((leaves : List (List ℕ)) × (v.leaf_lookup cp.from cp.to ≡ some leaves)
        × (v.sha (prev ++ v.sha (concat leaves)) ≡ cp.checkpoint_hash)
        × (v.verify cp.checkpoint_hash cp.signature cp.key_id ≡ true))
    × Anchored v (some cp) cp.checkpoint_hash cps

no_length : (xs : List ℕ) → (length xs == 0) ≡ true → xs ≡ []
no_length [] h = refl
no_length (x ∷ xs) h = ground (arith, h)

link_failure→LinksTo :
    (sha : Sha) (prior : Option AuditCheckpointRow) (cp : AuditCheckpointRow)
    → link_failure sha prior cp ≡ none
    → LinksTo sha prior (or_nil cp.prev_hash)
unfolding link_failure checkpoint_genesis_prev
link_failure→LinksTo sha none cp h = elim (Bool-cases (length (or_nil cp.prev_hash) == 0)) [
  | inl e ↦ inl (no_length (or_nil cp.prev_hash) e)
  | inr e ↦
      elim (Bool-cases
        (bytes_equal (or_nil cp.prev_hash) (sha (bytes checkpoint_genesis_prefix)))) [
          | inl f ↦ inr (bytes_equal→≡ (or_nil cp.prev_hash) _ f)
          | inr f ↦ ground (arith, e, f, h)
        ]
]
link_failure→LinksTo sha (some before) cp h =
    elim (Bool-cases (bytes_equal (or_nil cp.prev_hash) before.checkpoint_hash)) [
      | inl f ↦ bytes_equal→≡ (or_nil cp.prev_hash) before.checkpoint_hash f
      | inr f ↦ ground (arith, f, h)
    ]

bytes_equal_of : (xs ys : List ℕ) → xs ≡ ys → bytes_equal xs ys ≡ true
bytes_equal_of xs ys e = subst (λ z. bytes_equal xs z ≡ true) e (bytes_equal_refl xs)

LinksTo→link_failure :
    (sha : Sha) (prior : Option AuditCheckpointRow) (cp : AuditCheckpointRow)
    → LinksTo sha prior (or_nil cp.prev_hash)
    → link_failure sha prior cp ≡ none
unfolding link_failure checkpoint_genesis_prev
LinksTo→link_failure sha none cp (inl e) = ground (arith, ap length e)
LinksTo→link_failure sha none cp (inr e) =
    ground (arith, bytes_equal_of (or_nil cp.prev_hash) (sha (bytes checkpoint_genesis_prefix)) e)
LinksTo→link_failure sha (some before) cp e =
    ground (arith, bytes_equal_of (or_nil cp.prev_hash) before.checkpoint_hash e)

Anchored→ :
    (v : Verifier) (prior : Option AuditCheckpointRow) (prev : List ℕ) (checked n : ℕ)
    (cps : List AuditCheckpointRow)
    → classify_from v prior prev checked cps ≡ some (checkpoints_valid n)
    → Anchored v prior prev cps
unfolding classify_from checkpoint_hash leaves_digest
Anchored→ v prior prev checked n [] h = tt
Anchored→ v prior prev checked n (cp ∷ cps) h = elim (Option-cases (link_failure v.sha prior cp)) [
  | inr (r, e) ↦ ground arith
  | inl e ↦ elim (Option-cases (v.leaf_lookup cp.from cp.to)) [
    | inl f ↦ ground arith
    | inr (leaves, f) ↦
        elim (Bool-cases (bytes_equal (v.sha (prev ++ v.sha (concat leaves))) cp.checkpoint_hash)) [
          | inr g ↦ ground arith
          | inl g ↦
              elim (Bool-cases
                (v.verify (v.sha (prev ++ v.sha (concat leaves))) cp.signature cp.key_id)) [
                  | inr k ↦ ground arith
                  | inl k ↦
                      let same =
                        bytes_equal→≡ (v.sha (prev ++ v.sha (concat leaves))) cp.checkpoint_hash
                          g in
                      (
                        link_failure→LinksTo v.sha prior cp e,
                        (
                          leaves,
                          f,
                          same,
                          subst (λ x. v.verify x cp.signature cp.key_id ≡ true) same k,
                        ),
                        Anchored→ v (some cp) cp.checkpoint_hash (checked + 1) n cps (ground arith),
                      )
                ]
        ]
  ]
]

Anchored← :
    (v : Verifier) (prior : Option AuditCheckpointRow) (prev : List ℕ) (checked n : ℕ)
    (cps : List AuditCheckpointRow)
    → n ≡ checked + length cps
    → Anchored v prior prev cps
    → classify_from v prior prev checked cps ≡ some (checkpoints_valid n)
unfolding classify_from checkpoint_hash leaves_digest
Anchored← v prior prev checked n [] l h = ap (λ x. some (checkpoints_valid x)) (omega (arith, l))
Anchored← v prior prev checked n (cp ∷ cps) l (link, (leaves, f, g, k), h) =
    let e = LinksTo→link_failure v.sha prior cp link in
    let same : bytes_equal (v.sha (prev ++ v.sha (concat leaves))) cp.checkpoint_hash ≡ true =
      subst (λ z. bytes_equal (v.sha (prev ++ v.sha (concat leaves))) z ≡ true) g
        (bytes_equal_refl (v.sha (prev ++ v.sha (concat leaves)))) in
    let signed : v.verify (v.sha (prev ++ v.sha (concat leaves))) cp.signature cp.key_id ≡ true =
      subst (λ z. v.verify z cp.signature cp.key_id ≡ true) (sym g) k in
    ground
      (arith, Anchored← v (some cp) cp.checkpoint_hash (checked + 1) n cps (omega (arith, l)) h, e)

-- The classification accepts checkpoints, all of them checked, if and only if each links to the
-- one before it (the first to nothing or to the genesis value), its leaves can be read, its stored
-- hash is that of the running hash and its leaves, and its signature is one of that hash.
pub classify_checkpoints-Anchored :
    (v : Verifier) (cps : List AuditCheckpointRow)
    → (classify_checkpoints v cps ≡ some (checkpoints_valid (length cps)))
      ↔ Anchored v none (checkpoint_genesis_prev v.sha) cps
unfolding classify_checkpoints
classify_checkpoints-Anchored v cps = (
  Anchored→ v none (checkpoint_genesis_prev v.sha) 0 (length cps) cps,
  Anchored← v none (checkpoint_genesis_prev v.sha) 0 (length cps) cps (omega arith),
)

concat-injective :
    (ls ms : List (List ℕ))
    → All (λ l. length l ≡ 32) ls
    → All (λ l. length l ≡ 32) ms
    → concat ls ≡ concat ms
    → ls ≡ ms
unfolding concat
concat-injective [] [] g h e = refl
concat-injective [] (m ∷ ms) g h e = ground (arith, ap length e, length-append m (concat ms), h.0)
concat-injective (l ∷ ls) [] g h e = ground (arith, ap length e, length-append l (concat ls), g.0)
concat-injective (l ∷ ls) (m ∷ ms) g h e =
    let (a, b) = split-append l m (concat ls) (concat ms) (g.0 ∙ sym h.0) e in
    ap (λ x. x ∷ ls) a ∙ ap (λ xs. m ∷ xs) (concat-injective ls ms g.1 h.1 b)

module _ (sha : Sha) (width : (x : List ℕ) → length (sha x) ≡ 32) where
  same_leaves :
      (prev : List ℕ) (ls ms : List (List ℕ))
      → All (λ l. length l ≡ 32) ls
      → All (λ l. length l ≡ 32) ms
      → sha (prev ++ sha (concat ls)) ≡ sha (prev ++ sha (concat ms))
      → (ls ≡ ms) ⊎ Collision sha
  same_leaves prev ls ms g h e =
      elim (same_input sha width (prev ++ sha (concat ls)) (prev ++ sha (concat ms)) e) [
        | inr c ↦ inr c
        | inl f ↦
            let (a, b) = split-append prev prev (sha (concat ls)) (sha (concat ms)) refl f in
            elim (same_input sha width (concat ls) (concat ms) b) [
              | inr c ↦ inr c
              | inl k ↦ inl (concat-injective ls ms g h k)
            ]
      ]

abbrev pub LeafLookup : Type 0
LeafLookup = ℕ → ℕ → Option (List (List ℕ))

abbrev pub HasWidth : LeafLookup → Type 0
HasWidth lookup =
    (from to : ℕ) (leaves : List (List ℕ))
    → lookup from to ≡ some leaves
    → All (λ l. length l ≡ 32) leaves

-- The rows whose leaves two lookups agree on.
abbrev pub AgreesOn : LeafLookup → LeafLookup → List AuditCheckpointRow → Type 0
AgreesOn first second cps = All (λ cp. first cp.from cp.to ≡ second cp.from cp.to) cps

Anchored-agree :
    (v : Verifier) (second : LeafLookup) (prior : Option AuditCheckpointRow) (prev : List ℕ)
    (cps : List AuditCheckpointRow)
    → ((x : List ℕ) → length (v.sha x) ≡ 32)
    → HasWidth v.leaf_lookup
    → HasWidth second
    → Anchored v prior prev cps
    → Anchored (record v { leaf_lookup = second }) prior prev cps
    → AgreesOn v.leaf_lookup second cps ⊎ Collision v.sha
Anchored-agree v second prior prev [] w a b g h = inl tt
Anchored-agree v second prior prev (cp ∷ cps) w a b (e, (ls, f, p, k), g)
      (e2, (ms, f2, p2, k2), h) =
    elim (same_leaves v.sha w prev ls ms (a cp.from cp.to ls f) (b cp.from cp.to ms f2)
      (p ∙ sym p2)) [
        | inr c ↦ inr c
        | inl same ↦ elim (Anchored-agree v second (some cp) cp.checkpoint_hash cps w a b g h) [
          | inr c ↦ inr c
          | inl rest ↦ inl (f ∙ ap (λ x. some x) same ∙ sym f2, rest)
        ]
      ]

-- Checkpoints commit to the content hashes that they cover. If the digest and every leaf have 32
-- bytes, and the same checkpoints are accepted over the leaves of two lookups, before and
-- after a change of the events, then both lookups give each checkpoint the same leaves, or two different
-- inputs with one digest are found.
pub classify_checkpoints-agree :
    (v : Verifier) (second : LeafLookup) (cps : List AuditCheckpointRow)
    → ((x : List ℕ) → length (v.sha x) ≡ 32)
    → HasWidth v.leaf_lookup
    → HasWidth second
    → classify_checkpoints v cps ≡ some (checkpoints_valid (length cps))
    → classify_checkpoints (record v { leaf_lookup = second }) cps
      ≡ some (checkpoints_valid (length cps))
    → AgreesOn v.leaf_lookup second cps ⊎ Collision v.sha
classify_checkpoints-agree v second cps w a b g h =
    Anchored-agree v second none (checkpoint_genesis_prev v.sha) cps w a b
      ((classify_checkpoints-Anchored v cps).0 g)
      ((classify_checkpoints-Anchored (record v { leaf_lookup = second }) cps).0 h)
