-- ===== src/Projection/Order.antt =====
-- source.go: what a read behind the cursor gives.
use mathlib.Core.Path.{subst}
use mathlib.Core.Option.{some-injective}
use harness_ai.Prelude.{
  ℕ, zero, suc, ◌<◌, ◌≡◌, refl, sym, ap, ◌∙◌, ltb, ltb→lt, lt→ltb, true, false, ◌&&◌, Bool-cases,
  Option-cases, inl, inr, ◌⊎◌, Option, none, some, List, [], ◌∷◌, map, last_or, if◌then◌else◌,
  arith,
}
use harness_ai.Projection.{Among, here, there, Cursor, less, advance, EventRow, row_cursor}
use harness_ai.Projection.Runner.{is_settled, lesser, least, fetch_batch}

not_less_trans : (a b c : Cursor) → less a b ≡ false → less b c ≡ false → less a c ≡ false
unfolding less
not_less_trans a b c e f = ground arith

less_not_less : (a b c : Cursor) → less a b ≡ true → less a c ≡ false → less b c ≡ false
unfolding less
less_not_less a b c e f = ground arith

not_less_below : (a b c : Cursor) → less a b ≡ false → less c b ≡ true → less a c ≡ false
unfolding less
not_less_below a b c e f = ground arith

less-not_less : (a b c : Cursor) → less a b ≡ false → less c b ≡ true → less c a ≡ true
unfolding less
less-not_less a b c e f = ground arith

pub self_not_less : (a : Cursor) → less a a ≡ false
unfolding less
self_not_less a = ground arith

pub same_global_id :
    (a b : Cursor) → less a b ≡ false → less b a ≡ false → a.global_id ≡ b.global_id
unfolding less
same_global_id a b e f = ground arith

pub less_or_not : true ≡ false → ⊥
less_or_not e = ground (arith, e)

pub not_less-transaction_id :
    (a b : Cursor) → less a b ≡ false → (n : ℕ) → a.transaction_id < n → b.transaction_id < n
unfolding less
not_less-transaction_id a b e n l = ground arith

-- The cursor behind a batch.
abbrev pub end_of : Cursor → List EventRow → Cursor
end_of c rows = last_or c (map row_cursor rows)

pub advance-end_of :
    (c d : Cursor) (rows : List EventRow)
    → advance c (map row_cursor rows) ≡ some d
    → d ≡ end_of c rows
unfolding advance
advance-end_of c d [] e = sym (some-injective c d e)
advance-end_of c d (r ∷ rows) e = elim (Bool-cases (less c (row_cursor r))) [
  | inl l ↦ advance-end_of (row_cursor r) d rows (ground (arith, l, e))
  | inr l ↦ ground (arith, l, e)
]

module _ (xmin : ℕ) (c : Cursor) where
  least-IsSettled :
      (best : Option EventRow) (events : List EventRow) (f : EventRow)
      → least xmin c best events ≡ some f
      → (best ≡ some f) ⊎ (Among f events × (is_settled xmin c f ≡ true))
  unfolding least
  least-IsSettled best [] f e = inl e
  least-IsSettled best (r ∷ events) f e = elim (Bool-cases (is_settled xmin c r && lesser best r)) [
    | inl s ↦ elim (least-IsSettled (some r) events f (ground (arith, s, e))) [
      | inl p ↦
          let same = some-injective r f p in
          inr (here (sym same), ap (is_settled xmin c) (sym same) ∙ ground (arith, s))
      | inr (m, t) ↦ inr (there m, t)
    ]
    | inr s ↦ elim (least-IsSettled best events f (ground (arith, s, e))) [
      | inl p ↦ inl p
      | inr (m, t) ↦ inr (there m, t)
    ]
  ]

  -- A row that is not less than the result of the search.
  data Above (e : EventRow) (o : Option EventRow) : Type 0 where
    above : (f : EventRow) → o ≡ some f → less (row_cursor e) (row_cursor f) ≡ false → Above e o

  Above-less :
      (e r : EventRow) (o : Option EventRow)
      → less (row_cursor r) (row_cursor e) ≡ true
      → Above r o
      → Above e o
  Above-less e r o l (above f p n) = above f p (less_not_less _ _ _ l n)

  Above-not_less :
      (e b : EventRow) (o : Option EventRow)
      → less (row_cursor e) (row_cursor b) ≡ false
      → Above b o
      → Above e o
  Above-not_less e b o l (above f p n) = above f p (not_less_trans _ _ _ l n)

  best-Above :
      (best : Option EventRow) (events : List EventRow) (e : EventRow)
      → best ≡ some e
      → Above e (least xmin c best events)
  unfolding least
  best-Above best [] e p = above e p (self_not_less (row_cursor e))
  best-Above best (r ∷ events) e p = elim (Bool-cases (is_settled xmin c r && lesser best r)) [
    | inl s ↦
        subst (λ b. Above e (least xmin c (if b then some r else best) events)) (sym s)
          (Above-less e r _ (ground (arith, s, ap (λ o. lesser o r) p))
            (best-Above (some r) events r refl))
    | inr s ↦
        subst (λ b. Above e (least xmin c (if b then some r else best) events)) (sym s)
          (best-Above best events e p)
  ]

  not_lesser-Above :
      (best : Option EventRow) (events : List EventRow) (r : EventRow)
      → lesser best r ≡ false
      → Above r (least xmin c best events)
  not_lesser-Above none events r n = ground (arith, n)
  not_lesser-Above (some b) events r n = Above-not_less r b _ n (best-Above (some b) events b refl)

  -- Every settled row stands at or behind the result.
  least-Above :
      (best : Option EventRow) (events : List EventRow) (e : EventRow)
      → Among e events
      → is_settled xmin c e ≡ true
      → Above e (least xmin c best events)
  unfolding least
  least-Above best [] e m t = elim m [ ]
  least-Above best (r ∷ events) e (there m) t =
      least-Above (if is_settled xmin c r && lesser best r then some r else best) events e m t
  least-Above best (r ∷ events) e (here p) t =
      let settled : is_settled xmin c r ≡ true = sym (ap (is_settled xmin c) p) ∙ t in
      elim (Bool-cases (lesser best r)) [
        | inl l ↦
            let admitted : (is_settled xmin c r && lesser best r) ≡ true =
              ground (arith, settled, l) in
            subst (λ b. Above e (least xmin c (if b then some r else best) events)) (sym admitted)
              (best-Above (some r) events e (ap some (sym p)))
        | inr l ↦
            let passed : (is_settled xmin c r && lesser best r) ≡ false =
              ground (arith, settled, l) in
            subst (λ b. Above e (least xmin c (if b then some r else best) events)) (sym passed)
              (subst (λ x. Above x (least xmin c best events)) (sym p)
                (not_lesser-Above best events r l))
      ]

-- No two rows of the log have one global id.
abbrev pub Unique : List EventRow → Type 0
Unique events =
    (e f : EventRow) → Among e events → Among f events → e.global_id ≡ f.global_id → e ≡ f

module _ (events : List EventRow) (xmin : ℕ) where
  fetch_batch-some :
      (c : Cursor) (n : ℕ) (f : EventRow)
      → least xmin c none events ≡ some f
      → f ∷ fetch_batch events xmin (row_cursor f) n ≡ fetch_batch events xmin c (suc n)
  unfolding fetch_batch
  fetch_batch-some c n f h =
      ap (λ o. elim o [ none ↦ [] | some r ↦ r ∷ fetch_batch events xmin (row_cursor r) n ]) (sym h)

  fetch_batch-none :
      (c : Cursor) (n : ℕ)
      → least xmin c none events ≡ none
      → [] ≡ fetch_batch events xmin c (suc n)
  unfolding fetch_batch
  fetch_batch-none c n h =
      ap (λ o. elim o [ none ↦ [] | some r ↦ r ∷ fetch_batch events xmin (row_cursor r) n ]) (sym h)

  fetched :
      (c : Cursor) (f : EventRow)
      → least xmin c none events ≡ some f
      → Among f events × (is_settled xmin c f ≡ true)
  fetched c f h = elim (least-IsSettled xmin c none events f h) [
    | inl e ↦ ground (arith, e)
    | inr p ↦ p
  ]

  settled_below : (c : Cursor) (f : EventRow) → is_settled xmin c f ≡ true → f.transaction_id < xmin
  unfolding is_settled
  settled_below c f h = ltb→lt f.transaction_id xmin (ground (arith, h))

  -- A read gives rows of the log, and its end stays below the xmin.
  pub fetch_batch-Among :
      (n : ℕ) (c : Cursor) (e : EventRow) → Among e (fetch_batch events xmin c n) → Among e events
  unfolding fetch_batch
  fetch_batch-Among zero c e m = elim m [ ]
  fetch_batch-Among (suc n) c e m = elim (Option-cases (least xmin c none events)) [
    | inl h ↦ elim (subst (Among e) (sym (fetch_batch-none c n h)) m) [ ]
    | inr (f, h) ↦ elim (subst (Among e) (sym (fetch_batch-some c n f h)) m) [
      | here p ↦ subst (λ x. Among x events) (sym p) (fetched c f h).0
      | there k ↦ fetch_batch-Among n (row_cursor f) e k
    ]
  ]

  pub fetch_batch_below :
      (n : ℕ) (c : Cursor)
      → c.transaction_id < xmin
      → (end_of c (fetch_batch events xmin c n)).transaction_id < xmin
  unfolding fetch_batch
  fetch_batch_below zero c l = l
  fetch_batch_below (suc n) c l = elim (Option-cases (least xmin c none events)) [
    | inl h ↦ subst (λ rows. (end_of c rows).transaction_id < xmin) (fetch_batch-none c n h) l
    | inr (f, h) ↦
        subst (λ rows. (end_of c rows).transaction_id < xmin) (fetch_batch-some c n f h)
          (fetch_batch_below n (row_cursor f) (settled_below c f (fetched c f h).1))
  ]

  -- It leaves out no settled row up to its end.
  pub fetch_batch_complete :
      Unique events
      → (n : ℕ) (c : Cursor) (e : EventRow) → Among e events
      → e.transaction_id < xmin
      → less c (row_cursor e) ≡ true
      → less (end_of c (fetch_batch events xmin c n)) (row_cursor e) ≡ false
      → Among e (fetch_batch events xmin c n)
  unfolding fetch_batch is_settled
  fetch_batch_complete u zero c e m b l k = absurd (less_or_not (sym l ∙ k))
  fetch_batch_complete u (suc n) c e m b l k =
      elim (least-Above xmin c none events e m
        (ground (arith, l, lt→ltb e.transaction_id xmin b))) [
          | above f h a ↦
              subst (λ rows. less (end_of c rows) (row_cursor e) ≡ false → Among e rows)
                (fetch_batch-some c n f h)
                (λ j. elim (Bool-cases (less (row_cursor f) (row_cursor e))) [
                  | inl i ↦ there (fetch_batch_complete u n (row_cursor f) e m b i j)
                  | inr i ↦
                      here (
                        u e f m (fetched c f h).0
                          (same_global_id (row_cursor e) (row_cursor f) a i))
                ])
                k
        ]

  -- The cursor never panics on what a read gave.
  pub fetch_batch-advance :
      (n : ℕ) (c : Cursor)
      → advance c (map row_cursor (fetch_batch events xmin c n))
        ≡ some (end_of c (fetch_batch events xmin c n))
  unfolding fetch_batch advance is_settled
  fetch_batch-advance zero c = refl
  fetch_batch-advance (suc n) c = elim (Option-cases (least xmin c none events)) [
    | inl h ↦
        subst (λ rows. advance c (map row_cursor rows) ≡ some (end_of c rows))
          (fetch_batch-none c n h) refl
    | inr (f, h) ↦
        subst (λ rows. advance c (map row_cursor rows) ≡ some (end_of c rows))
          (fetch_batch-some c n f h)
          (ground (arith, (fetched c f h).1, fetch_batch-advance n (row_cursor f)))
  ]

  -- A read moves on, where a row is settled behind the cursor.
  not_behind : (n : ℕ) (c : Cursor) → less (end_of c (fetch_batch events xmin c n)) c ≡ false
  unfolding fetch_batch is_settled
  not_behind zero c = self_not_less c
  not_behind (suc n) c = elim (Option-cases (least xmin c none events)) [
    | inl h ↦
        subst (λ rows. less (end_of c rows) c ≡ false) (fetch_batch-none c n h) (self_not_less c)
    | inr (f, h) ↦
        let settled : (less c (row_cursor f) && ltb f.transaction_id xmin) ≡ true =
          (fetched c f h).1 in
        subst (λ rows. less (end_of c rows) c ≡ false) (fetch_batch-some c n f h)
          (not_less_below _ (row_cursor f) c (not_behind n (row_cursor f))
            (ground (arith, settled)))
  ]

  pub fetch_batch_ahead :
      (n : ℕ) (c : Cursor) (e : EventRow)
      → Among e events
      → is_settled xmin c e ≡ true
      → less c (end_of c (fetch_batch events xmin c (suc n))) ≡ true
  unfolding fetch_batch is_settled
  fetch_batch_ahead n c e m t = elim (least-Above xmin c none events e m t) [
    | above f h a ↦
        let settled : (less c (row_cursor f) && ltb f.transaction_id xmin) ≡ true =
          (fetched c f h).1 in
        subst (λ rows. less c (end_of c rows) ≡ true) (fetch_batch-some c n f h)
          (less-not_less _ (row_cursor f) c (not_behind n (row_cursor f)) (ground (arith, settled)))
  ]
