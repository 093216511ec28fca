-- ===== src/Projection/Written.antt =====
-- cost_projector.go: what Project makes of the cost table.
use mathlib.Core.Path.{subst}
use harness_ai.Prelude.{
  ℕ, ◌==◌, ◌≡◌, refl, sym, ap, ◌∙◌, Bool, true, false, Bool-cases, Option-cases, inl, inr, String,
  Option, none, some, List, [], ◌∷◌, All, if◌then◌else◌, arith,
}
use harness_ai.Projection.{
  Among, here, there, EventRow, TerminalRow, CostRow, Reply, executed, refused, lost, Codec,
  Weather,
}
use harness_ai.Projection.Order.{Unique}
use harness_ai.Projection.Cost.{
  terminal_cost, Models, set_model, record_models, resolve_model, cost_row, has_row,
  insert_cost_event, write_cost_row, write_rows, project,
}

-- A cost row with what an event of the end of a turn carries, and some model.
pub data IsRowOf (w : Codec) (e : EventRow) (c : CostRow) : Type 0 where
  row_of :
      (ct : TerminalRow) (model : String)
      → terminal_cost w e ≡ some (some ct)
      → c ≡ cost_row e model ct
      → IsRowOf w e c

pub data Recorded (w : Codec) (costs : List CostRow) (e : EventRow) : Type 0 where
  recorded : (c : CostRow) → Among c costs → IsRowOf w e c → Recorded w costs e

-- A cost row that stems from an event of the log.
pub data Traced (w : Codec) (events : List EventRow) (c : CostRow) : Type 0 where
  traced : (e : EventRow) → Among e events → IsRowOf w e c → Traced w events c

-- No two cost rows with one global id.
abbrev pub NoTwice : List CostRow → Type 0
NoTwice [] = Unit
NoTwice (c ∷ costs) = (has_row costs c.global_id ≡ false) × NoTwice costs

has_row-Among :
    (costs : List CostRow) (g : ℕ)
    → has_row costs g ≡ true
    → (c : CostRow) × Among c costs × (c.global_id ≡ g)
has_row-Among [] g h = ground (arith, h)
has_row-Among (c ∷ costs) g h = elim (Bool-cases (c.global_id == g)) [
  | inl e ↦ (c, here refl, ground arith)
  | inr e ↦ let (d, m, f) = has_row-Among costs g (ground (arith, e, h)) in (d, there m, f)
]

All-Among {ℓ κ} : {A : Type ℓ} (P : A → Type κ) (xs : List A) (x : A) → All P xs → Among x xs → P x
All-Among P [] x h m = elim m [ ]
All-Among P (y ∷ xs) x h (here p) = subst P (sym p) h.0
All-Among P (y ∷ xs) x h (there m) = All-Among P xs x h.1 m

true_not_false : true ≡ false → ⊥
true_not_false e = ground (arith, e)

none_not_terminal {κ} :
    {P : Type κ} (w : Codec) (r : EventRow) (ct : TerminalRow)
    → terminal_cost w r ≡ some none
    → terminal_cost w r ≡ some (some ct)
    → P
none_not_terminal w r ct n t = ground (arith, n, t)

module _ (w : Codec) (events : List EventRow) (u : Unique events) where
  -- A table whose rows stem from the log, each from another event.
  pub record Sound (costs : List CostRow) : Type 0 where
    pub no_twice : NoTwice costs
    pub all_traced : All (Traced w events) costs

  -- What a change of the table keeps.
  pub record Grown (costs later : List CostRow) : Type 0 where
    pub sound : Sound later
    pub kept : (c : CostRow) → Among c costs → Among c later

  same : (costs : List CostRow) → Sound costs → Grown costs costs
  same costs s = record { sound = s; kept = λ c m. m }

  both : (a b c : List CostRow) → Grown a b → Grown b c → Grown a c
  both a b c g h = record { sound = h.sound; kept = λ x m. h.kept x (g.kept x m) }

  module _ (costs : List CostRow) (s : Sound costs) (e : EventRow) (m : Among e events)
      (ct : TerminalRow) (t : terminal_cost w e ≡ some (some ct)) (model : String) where
    held-Recorded : has_row costs e.global_id ≡ true → Recorded w costs e
    held-Recorded h =
        let (c, k, g) = has_row-Among costs e.global_id h in
        elim (All-Among (Traced w events) costs c s.all_traced k) [
          | traced f n (row_of ft fm fe fc) ↦
              let id : f.global_id ≡ e.global_id = sym (ap (λ x. x.global_id) fc) ∙ g in
              recorded c k (subst (λ x. IsRowOf w x c) (u f e n m id) (row_of ft fm fe fc))
        ]

    insert-Grown : Grown costs (insert_cost_event costs (cost_row e model ct))
    unfolding insert_cost_event
    insert-Grown = elim (Bool-cases (has_row costs e.global_id)) [
      | inl h ↦
          subst (λ b. Grown costs (if b then costs else cost_row e model ct ∷ costs)) (sym h)
            (same costs s)
      | inr h ↦
          subst (λ b. Grown costs (if b then costs else cost_row e model ct ∷ costs)) (sym h)
            (record {
              sound = record {
                no_twice = (h, s.no_twice);
                all_traced = (traced e m (row_of ct model t refl), s.all_traced);
              };
              kept = λ c k. there k;
            })
    ]

    insert-Recorded : Recorded w (insert_cost_event costs (cost_row e model ct)) e
    unfolding insert_cost_event
    insert-Recorded = elim (Bool-cases (has_row costs e.global_id)) [
      | inl h ↦
          subst (λ b. Recorded w (if b then costs else cost_row e model ct ∷ costs) e) (sym h)
            (held-Recorded h)
      | inr h ↦
          subst (λ b. Recorded w (if b then costs else cost_row e model ct ∷ costs) e) (sym h)
            (recorded _ (here refl) (row_of ct model t refl))
    ]

    write-Grown : (reply : Reply) → Grown costs (write_cost_row reply costs (cost_row e model ct)).1
    unfolding write_cost_row
    write-Grown executed = insert-Grown
    write-Grown refused = same costs s
    write-Grown lost = insert-Grown

    write-Recorded :
        (reply : Reply)
        → (write_cost_row reply costs (cost_row e model ct)).0 ≡ true
        → Recorded w (write_cost_row reply costs (cost_row e model ct)).1 e
    unfolding write_cost_row
    write-Recorded executed h = insert-Recorded
    write-Recorded refused h = ground (arith, h)
    write-Recorded lost h = ground (arith, h)

  -- Once recorded, an event stays so.
  pub kept-Recorded :
      (a b : List CostRow) (e : EventRow) → Grown a b → Recorded w a e → Recorded w b e
  kept-Recorded a b e g (recorded c m r) = recorded c (g.kept c m) r

  -- What the writes of a batch give: the table has grown soundly, and if all went through each end of a turn is in it.
  pub record Done (costs : List CostRow) (rows : List EventRow) (res : Bool × Models × List CostRow)
      : Type 0 where
    pub grown : Grown costs res.2
    pub recorded_all :
        res.0 ≡ true
        → (e : EventRow) (ct : TerminalRow) → Among e rows
        → terminal_cost w e ≡ some (some ct)
        → Recorded w res.2 e

  abbrev pub AllIn : List EventRow → Type 0
  AllIn rows = (e : EventRow) → Among e rows → Among e events

  stopped :
      (costs later : List CostRow) (rows : List EventRow) (m : Models)
      → Grown costs later
      → Done costs rows (false, m, later)
  stopped costs later rows m g = record {
    grown = g;
    recorded_all = λ e x ct k t. absurd (true_not_false (sym e));
  }

  passed_over :
      (costs : List CostRow) (r : EventRow) (rows : List EventRow)
      (res : Bool × Models × List CostRow)
      → terminal_cost w r ≡ some none
      → Done costs rows res
      → Done costs (r ∷ rows) res
  passed_over costs r rows res n d = record {
    grown = d.grown;
    recorded_all = λ e x ct k t. elim k [
      | here p ↦ none_not_terminal w r ct n (ap (terminal_cost w) (sym p) ∙ t)
      | there j ↦ d.recorded_all e x ct j t
    ];
  }

  put_in_front :
      (costs middle : List CostRow) (r : EventRow) (rows : List EventRow)
      (res : Bool × Models × List CostRow)
      → Grown costs middle
      → Recorded w middle r
      → Done middle rows res
      → Done costs (r ∷ rows) res
  put_in_front costs middle r rows res g i d = record {
    grown = both costs middle res.2 g d.grown;
    recorded_all = λ e x ct k t. elim k [
      | here p ↦ kept-Recorded middle res.2 x d.grown (subst (Recorded w middle) (sym p) i)
      | there j ↦ d.recorded_all e x ct j t
    ];
  }

  module _ (env : Weather) (m : Models) (costs : List CostRow) (r : EventRow)
      (rows : List EventRow) where
    abbrev written : TerminalRow → Bool × List CostRow
    written ct =
        write_cost_row (env.insert r.global_id) costs
          (cost_row r (resolve_model w env m events r ct.turn_id) ct)

    abbrev rest_of : TerminalRow → Bool × Models × List CostRow
    rest_of ct =
        write_rows w env events (set_model m r.session_id ct.turn_id none) (written ct).1 rows

    -- The writes from a row on, by what the row decodes to.
    abbrev from_row : Option (Option TerminalRow) → Bool × Models × List CostRow
    from_row o = elim o [
      | none ↦ (false, m, costs)
      | some none ↦ write_rows w env events m costs rows
      | some (some ct) ↦ if (written ct).0 then rest_of ct else (false, m, (written ct).1)
    ]

    terminal-Done :
        (ct : TerminalRow)
        → Among r events
        → Sound costs
        → terminal_cost w r ≡ some (some ct)
        → Done (written ct).1 rows (rest_of ct)
        → Done costs (r ∷ rows) (from_row (some (some ct)))
    terminal-Done ct k s t d =
        let model = resolve_model w env m events r ct.turn_id in
        let g = write-Grown costs s r k ct t model (env.insert r.global_id) in
        elim (Bool-cases (written ct).0) [
          | inl h ↦
              subst
                (λ b. Done costs (r ∷ rows) (if b then rest_of ct else (false, m, (written ct).1)))
                (sym h)
                (put_in_front costs (written ct).1 r rows (rest_of ct) g
                  (write-Recorded costs s r k ct t model (env.insert r.global_id) h) d)
          | inr h ↦
              subst
                (λ b. Done costs (r ∷ rows) (if b then rest_of ct else (false, m, (written ct).1)))
                (sym h) (stopped costs (written ct).1 (r ∷ rows) m g)
        ]

  module _ (env : Weather) where
    write_rows-Done :
        (m : Models) (costs : List CostRow) (rows : List EventRow)
        → AllIn rows
        → Sound costs
        → Done costs rows (write_rows w env events m costs rows)
    unfolding write_rows
    write_rows-Done m costs [] a s = record {
      grown = same costs s;
      recorded_all = λ e x ct k t. elim k [ ];
    }
    write_rows-Done m costs (r ∷ rows) a s =
        let behind : AllIn rows = λ e k. a e (there k) in
        elim (Option-cases (terminal_cost w r)) [
          | inl h ↦
              subst (λ o. Done costs (r ∷ rows) (from_row env m costs r rows o)) (sym h)
                (stopped costs costs (r ∷ rows) m (same costs s))
          | inr (none, h) ↦
              subst (λ o. Done costs (r ∷ rows) (from_row env m costs r rows o)) (sym h)
                (passed_over costs r rows _ h (write_rows-Done m costs rows behind s))
          | inr (some ct, h) ↦
              let k = a r (here refl) in
              let g =
                write-Grown costs s r k ct h (resolve_model w env m events r ct.turn_id)
                  (env.insert r.global_id) in
              subst (λ o. Done costs (r ∷ rows) (from_row env m costs r rows o)) (sym h)
                (terminal-Done env m costs r rows ct k s h (
                  write_rows-Done (set_model m r.session_id ct.turn_id none)
                    (written env m costs r rows ct).1 rows behind g.sound))
        ]

    pub project-Done :
        (m : Models) (costs : List CostRow) (rows : List EventRow)
        → AllIn rows
        → Sound costs
        → Done costs rows (project w env events m costs rows)
    unfolding project
    project-Done m costs rows a s = elim (Bool-cases (record_models w m rows).0) [
      | inl h ↦
          subst
            (λ b. Done costs rows (
              if b
              then write_rows w env events (record_models w m rows).1 costs rows
              else (false, (record_models w m rows).1, costs)))
            (sym h) (write_rows-Done (record_models w m rows).1 costs rows a s)
      | inr h ↦
          subst
            (λ b. Done costs rows (
              if b
              then write_rows w env events (record_models w m rows).1 costs rows
              else (false, (record_models w m rows).1, costs)))
            (sym h) (stopped costs costs rows (record_models w m rows).1 (same costs s))
    ]
