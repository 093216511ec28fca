-- ===== src/Policy/Gates.antt =====
-- When the pipeline of engine.go denies, allows and refuses.
use harness_ai.Prelude.{
  ◌≡◌, refl, inl, inr, Bool, true, false, not, ◌&&◌, ◌||◌, Option, none, some, is_some,
  Option-cases, List, [], ◌∷◌, any, elem, if◌then◌else◌, arith,
}
use harness_ai.Domain.{SideEffect}
use harness_ai.Policy.{Decision, Mode, RuleEffect, Rule, Input}
use harness_ai.Policy.Match.{GoText, rule_matches, is_external}
use harness_ai.Policy.Engine.{
  Config, Engine, partition, edit_tools_of, new_engine, Evaluation, result, bypass_forbidden,
  first_match, evaluate,
}

-- The decision, or `none` for the refusal.
abbrev pub decision : Evaluation → Option Decision
decision (result r) = some r.decision
decision bypass_forbidden = none

abbrev pub denies : RuleEffect → Bool
denies RuleEffect.deny = true
denies _ = false

abbrev pub allows : RuleEffect → Bool
allows RuleEffect.allow = true
allows _ = false

abbrev pub is_mode_bypass : Mode → Bool
is_mode_bypass Mode.bypass = true
is_mode_bypass _ = false

abbrev pub is_mode_accept_edits : Mode → Bool
is_mode_accept_edits Mode.accept_edits = true
is_mode_accept_edits _ = false

abbrev pub is_mode_plan : Mode → Bool
is_mode_plan Mode.plan = true
is_mode_plan _ = false

abbrev pub mutates : SideEffect → Bool
mutates SideEffect.mutating = true
mutates _ = false

module _ (go : GoText) where
  -- Some rule of the configuration denies, or allows, the dispatch.
  abbrev pub any_denies : List Rule → Input → Bool
  any_denies rules inp = any (λ r. denies r.effect && rule_matches go r inp) rules

  abbrev pub any_allows : List Rule → Input → Bool
  any_allows rules inp = any (λ r. allows r.effect && rule_matches go r inp) rules

  -- Whether a rule of the list applies.
  abbrev pub matched : List Rule → Input → Bool
  matched rules inp = any (λ r. rule_matches go r inp) rules

  -- What the mode lets through without an allow rule.
  abbrev pub mode_allows : Config → Input → Bool
  mode_allows cfg inp =
      is_mode_bypass inp.mode
      || (is_mode_accept_edits inp.mode && elem inp.tool_name (edit_tools_of cfg.edit_tools))

  -- What the allow rules let through: not past plan mode, nor past the taint gate.
  abbrev pub rules_allow : Config → Input → Bool
  rules_allow cfg inp =
      any_allows cfg.rule_set inp
      && not (is_mode_plan inp.mode && mutates inp.side_effect)
      && not (is_external inp && inp.tainted)

  -- The pipeline from the configuration and the input, with no rule singled out.
  abbrev pub decided : Config → Input → Option Decision
  decided cfg inp =
      if any_denies cfg.rule_set inp
      then some Decision.deny
      else if is_mode_bypass inp.mode && inp.tainted
      then none
      else if mode_allows cfg inp || rules_allow cfg inp
      then some Decision.allow
      else some Decision.ask

  is_some-first_match :
      (rules : List Rule) (inp : Input) → is_some (first_match go rules inp) ≡ matched rules inp
  unfolding first_match
  is_some-first_match [] inp = refl
  is_some-first_match (r ∷ rules) inp = ground (arith, is_some-first_match rules inp)

  partition-matched :
      (rules : List Rule) (inp : Input) (d a : List Rule)
      → partition rules ≡ some (d, a)
      → (matched d inp ≡ any_denies rules inp) × (matched a inp ≡ any_allows rules inp)
  unfolding partition
  partition-matched [] inp d a h = ground arith
  partition-matched (r ∷ rules) inp d a h = elim (Option-cases (partition rules)) [
    | inl e ↦ ground arith
    | inr (p, e) ↦ ground (arith, partition-matched rules inp p.0 p.1 e)
  ]

  -- An engine's stages, by what its two lists match.
  abbrev engine_decided : Engine → Input → Option Decision
  engine_decided e inp =
      if matched e.deny_rules inp
      then some Decision.deny
      else if is_mode_bypass inp.mode && inp.tainted
      then none
      else if (is_mode_bypass inp.mode
            || (is_mode_accept_edits inp.mode && elem inp.tool_name e.edit_tools))
          || (matched e.allow_rules inp
              && not (is_mode_plan inp.mode && mutates inp.side_effect)
              && not (is_external inp && inp.tainted))
      then some Decision.allow
      else some Decision.ask

  decision-evaluate_engine :
      (e : Engine) (inp : Input) → decision (evaluate go e inp) ≡ engine_decided e inp
  unfolding evaluate
  decision-evaluate_engine e inp =
      ground (arith, is_some-first_match e.deny_rules inp, is_some-first_match e.allow_rules inp)

  -- For every configuration that the constructor accepts and every dispatch, the decision of the
  -- pipeline is: deny if any rule of the configuration denies the dispatch, wherever it stands and
  -- whatever the mode; else the refusal if the mode is bypass and the session is tainted; else
  -- allow exactly if the mode is bypass, or is accept_edits and the tool is an edit tool, or an
  -- allow rule matches, the mode is not plan with a mutating tool, and the tool is not external in
  -- a tainted session; else ask.
  pub decision-evaluate :
      (cfg : Config) (e : Engine) (inp : Input)
      → new_engine cfg ≡ some e
      → decision (evaluate go e inp) ≡ decided cfg inp
  unfolding new_engine
  decision-evaluate cfg e inp built = elim (Option-cases (partition cfg.rule_set)) [
    | inl p ↦ ground arith
    | inr (p, h) ↦
        rw (decision-evaluate_engine e inp)
          (ground (arith, partition-matched cfg.rule_set inp p.0 p.1 h))
  ]
