-- ===== src/Policy/Taint.antt =====
-- Untrusted content in the session only ever tightens what the pipeline of engine.go decides.
use harness_ai.Prelude.{ℕ, ◌≤◌, ◌≡◌, refl, List, Bool, true, false, Option, none, some, arith}
use harness_ai.Policy.{Decision, Rule, Input}
use harness_ai.Policy.Match.{GoText, rule_matches, is_external}
use harness_ai.Policy.Engine.{Config, Engine, new_engine, evaluate}
use harness_ai.Policy.Gates.{decision, decided, any_denies, any_allows, decision-evaluate}

-- How strict a decision is; the refusal is the strictest.
abbrev pub strictness : Option Decision → ℕ
strictness (some Decision.allow) = 0
strictness (some Decision.ask) = 1
strictness (some Decision.deny) = 2
strictness none = 3

abbrev pub with_taint : Input → Bool → Input
with_taint inp t = record inp { tainted = t }

module _ (go : GoText) where
  any_denies_taint :
      (rules : List Rule) (inp : Input)
      → any_denies go rules (with_taint inp true) ≡ any_denies go rules (with_taint inp false)
  unfolding rule_matches
  any_denies_taint rules inp = refl

  any_allows_taint :
      (rules : List Rule) (inp : Input)
      → any_allows go rules (with_taint inp true) ≡ any_allows go rules (with_taint inp false)
  unfolding rule_matches
  any_allows_taint rules inp = refl

  decided_taint :
      (cfg : Config) (inp : Input)
      → strictness (decided go cfg (with_taint inp false))
        ≤ strictness (decided go cfg (with_taint inp true))
  unfolding is_external
  decided_taint cfg inp =
      ground (arith, any_denies_taint cfg.rule_set inp, any_allows_taint cfg.rule_set inp)

  -- For every engine built from a configuration and every dispatch, the decision with the session
  -- tainted is at least as strict (allow, ask, deny, refusal) as the decision with it untainted.
  pub strictness-evaluate :
      (cfg : Config) (e : Engine) (inp : Input)
      → new_engine cfg ≡ some e
      → strictness (decision (evaluate go e (with_taint inp false)))
        ≤ strictness (decision (evaluate go e (with_taint inp true)))
  strictness-evaluate cfg e inp built =
      rw
        (
          decision-evaluate go cfg e (with_taint inp false) built,
          decision-evaluate go cfg e (with_taint inp true) built,
        )
        (decided_taint cfg inp)
