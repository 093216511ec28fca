-- ===== src/Policy/Order.antt =====
-- The order of the rules does not change what the pipeline of engine.go decides.
use mathlib.Core.Path.{ap₂}
use mathlib.Core.List.{Perm, Permᴰ}
use mathlib.Core.Logic.{∥∥₁_elim}
use harness_ai.Prelude.{String, ◌≡◌, ◌∙◌, ap, refl, Bool, ◌&&◌, ◌||◌, some, List, any, elem, arith}
use harness_ai.Policy.{Rule, Input}
use harness_ai.Policy.Match.{GoText, rule_matches}
use harness_ai.Policy.Engine.{Config, Engine, edit_tools_of, new_engine, evaluate}
use harness_ai.Policy.Gates.{decision, decided, denies, allows, decision-evaluate}

Bool_set : IsSet Bool
Bool_set = hlevel

any-permᴰ : (p : Rule → Bool) {xs ys : List Rule} → Permᴰ xs ys → any p xs ≡ any p ys
any-permᴰ p Permᴰ.nil = refl
any-permᴰ p (Permᴰ.cons e h) = ap₂ ◌||◌ (ap p e) (any-permᴰ p h)
any-permᴰ p (Permᴰ.swap {a} {b} {l = l} e f) = rw (← e, ← f) (ground arith)
any-permᴰ p (Permᴰ.trans g h) = any-permᴰ p g ∙ any-permᴰ p h

any-perm : (p : Rule → Bool) {xs ys : List Rule} → Perm xs ys → any p xs ≡ any p ys
any-perm p h = ∥∥₁_elim h (Bool_set _ _) (any-permᴰ p)

module _ (go : GoText) where
  decided-perm :
      (a b : Config) (inp : Input)
      → Perm a.rule_set b.rule_set
      → a.edit_tools ≡ b.edit_tools
      → decided go a inp ≡ decided go b inp
  decided-perm a b inp perm edits = ground (
    arith,
    any-perm (λ r. denies r.effect && rule_matches go r inp) perm,
    any-perm (λ r. allows r.effect && rule_matches go r inp) perm,
    ap (λ (t : List String). elem inp.tool_name (edit_tools_of t)) edits,
  )

  -- Two configurations whose rules are one another's in another order, with the same edit tools,
  -- give every dispatch the same decision.
  pub decision-evaluate-perm :
      (a b : Config) (e f : Engine) (inp : Input)
      → Perm a.rule_set b.rule_set
      → a.edit_tools ≡ b.edit_tools
      → new_engine a ≡ some e
      → new_engine b ≡ some f
      → decision (evaluate go e inp) ≡ decision (evaluate go f inp)
  decision-evaluate-perm a b e f inp perm edits built_a built_b =
      rw (decision-evaluate go a e inp built_a, decision-evaluate go b f inp built_b)
        (decided-perm a b inp perm edits)
