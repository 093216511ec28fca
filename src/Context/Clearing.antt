-- ===== src/Context/Clearing.antt =====
-- clearing.go: whether a result may be cleared and is cleared, and what the window makes of it.
use harness_ai.Prelude.{
  ℕ, ◌==◌, ◌≡◌, refl, sym, ap, ◌∙◌, String, Bool, true, false, ◌&&◌, ◌||◌, Bool-cases, inl, inr,
  Option, none, some, List, [], ◌∷◌, ◌++◌, any, str_eq, eq_refl, any-append, if◌then◌else◌, arith,
}
use harness_ai.Domain.{Event, tool_result_cleared, EventEnvelope}
use harness_ai.Context.Build.{
  is_tool_result, is_at, is_result_at, clears_event, clears, cleared_set,
}

-- `findToolResult`: whether it finds one.
unfoldable pub find_tool_result : List EventEnvelope → String → ℕ → Bool
find_tool_result [] session seq = false
find_tool_result (env ∷ events) session seq =
    if is_at session seq env then is_tool_result env.event else find_tool_result events session seq

-- `ValidateClear`: false is ErrFailedPrecondition.
unfoldable pub validate_clear : List EventEnvelope → String → ℕ → Bool
unfolding find_tool_result
validate_clear events session seq = find_tool_result events session seq

abbrev is_clear_of : String → ℕ → EventEnvelope → Bool
is_clear_of session seq env = elim env.event [
  | tool_result_cleared s n _ ↦ str_eq s session && n == seq
  | _ ↦ false
]

-- `alreadyCleared`
unfoldable pub already_cleared : List EventEnvelope → String → ℕ → Bool
already_cleared events session seq = any (is_clear_of session seq) events

-- `IsCleared`: `none` is ErrFailedPrecondition.
unfoldable pub is_cleared : List EventEnvelope → String → ℕ → Option Bool
unfolding find_tool_result already_cleared
is_cleared events session seq =
    if find_tool_result events session seq then some (already_cleared events session seq) else none

module _ {ℓ} {A : Type ℓ} where
  any-cong : (p q : A → Bool) (xs : List A) → ((x : A) → p x ≡ q x) → any p xs ≡ any q xs
  any-cong p q [] h = refl
  any-cong p q (x ∷ xs) h = λ i. h x i || any-cong p q xs h i

or_false : (b : Bool) → (b || false) ≡ b
or_false true = refl
or_false false = refl

and_true : (b : Bool) → (b && true) ≡ b
and_true true = refl
and_true false = refl

at_head :
    (x : EventEnvelope) (s : String) (n : ℕ) (es : List EventEnvelope)
    → is_at s n x ≡ true
    → find_tool_result (x ∷ es) s n ≡ is_tool_result x.event
unfolding find_tool_result
at_head x s n es a = ap (λ b. if b then is_tool_result x.event else find_tool_result es s n) a

behind_head :
    (x : EventEnvelope) (s : String) (n : ℕ) (es : List EventEnvelope)
    → is_at s n x ≡ false
    → find_tool_result (x ∷ es) s n ≡ find_tool_result es s n
unfolding find_tool_result
behind_head x s n es a = ap (λ b. if b then is_tool_result x.event else find_tool_result es s n) a

found-any :
    (events : List EventEnvelope) (session : String) (seq : ℕ)
    → find_tool_result events session seq ≡ true
    → any (is_result_at session seq) events ≡ true
unfolding find_tool_result
found-any [] session seq h = h
found-any (env ∷ events) session seq h = elim (Bool-cases (is_at session seq env)) [
  | inl a ↦ ground (arith, a, sym (at_head env session seq events a) ∙ h)
  | inr a ↦
      ground (arith, found-any events session seq (sym (behind_head env session seq events a) ∙ h))
]

module _ (events : List EventEnvelope) (env : EventEnvelope) (session by : String) (seq : ℕ)
    (e : env.event ≡ tool_result_cleared session seq by) where
  results-kept :
      (s : String) (n : ℕ)
      → any (is_result_at s n) (events ++ (env ∷ [])) ≡ any (is_result_at s n) events
  results-kept s n =
      any-append (is_result_at s n) events (env ∷ [])
      ∙ ap (λ ev. any (is_result_at s n) events || ((is_tool_result ev && is_at s n env) || false))
          e
      ∙ or_false (any (is_result_at s n) events)

  clears_event-kept :
      (n : ℕ) (ev : Event) → clears_event (events ++ (env ∷ [])) n ev ≡ clears_event events n ev
  clears_event-kept n (tool_result_cleared s t r) = ap (λ b. (t == n) && b) (results-kept s t)
  clears_event-kept n _ = refl

  cleared_set-append :
      (n : ℕ)
      → cleared_set (events ++ (env ∷ [])) n
        ≡ (cleared_set events n || ((seq == n) && any (is_result_at session seq) events))
  unfolding cleared_set
  cleared_set-append n =
      any-append (clears (events ++ (env ∷ [])) n) events (env ∷ [])
      ∙ ap (λ b. b || (clears (events ++ (env ∷ [])) n env || false))
          (any-cong _ _ events (λ x. clears_event-kept n x.event))
      ∙ ap (λ b. any (clears events n) events || (b || false)) (clears_event-kept n env.event)
      ∙ ap (λ ev. any (clears events n) events || (clears_event events n ev || false)) e
      ∙ ap (λ b. any (clears events n) events || b) (or_false _)

  find_tool_result-append :
      (es : List EventEnvelope) (s : String) (n : ℕ)
      → find_tool_result es s n ≡ true
      → find_tool_result (es ++ (env ∷ [])) s n ≡ true
  unfolding find_tool_result
  find_tool_result-append [] s n h = ground (arith, h)
  find_tool_result-append (x ∷ es) s n h = elim (Bool-cases (is_at s n x)) [
    | inl a ↦ at_head x s n (es ++ (env ∷ [])) a ∙ sym (at_head x s n es a) ∙ h
    | inr a ↦
        behind_head x s n (es ++ (env ∷ [])) a
        ∙ find_tool_result-append es s n (sym (behind_head x s n es a) ∙ h)
  ]

  already_cleared-append : already_cleared (events ++ (env ∷ [])) session seq ≡ true
  unfolding already_cleared
  already_cleared-append =
      any-append (is_clear_of session seq) events (env ∷ [])
      ∙ rw (e) (ground (arith, eq_refl session))

-- A clear is honoured. If ValidateClear admits the clear of a result, then with the event appended IsCleared reports the
-- result as cleared, and the set of the sequence numbers that BuildWindow renders with the stub has that of the
-- result besides those that it had.
pub validate_clear-cleared :
    (events : List EventEnvelope) (env : EventEnvelope) (session by : String) (seq : ℕ)
    → env.event ≡ tool_result_cleared session seq by
    → validate_clear events session seq ≡ true
    → (is_cleared (events ++ (env ∷ [])) session seq ≡ some true)
      × ((n : ℕ) → cleared_set (events ++ (env ∷ [])) n ≡ (cleared_set events n || (seq == n)))
unfolding validate_clear is_cleared
validate_clear-cleared events env session by seq e h = (
  ap (λ b. if b then some (already_cleared (events ++ (env ∷ [])) session seq) else none)
        (find_tool_result-append events env session by seq e events session seq h)
      ∙ ap some (already_cleared-append events env session by seq e),
  λ n.
      cleared_set-append events env session by seq e n
      ∙ ap (λ b. cleared_set events n || b)
          (ap (λ b. (seq == n) && b) (found-any events session seq h) ∙ and_true (seq == n)),
)
