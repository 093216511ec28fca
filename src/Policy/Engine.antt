-- ===== src/Policy/Engine.antt =====
-- engine.go: the construction of the engine and the evaluation of the pipeline.
use Prim.Native.String.{◌++◌}
use harness_ai.Prelude.{
  String, Bool, true, false, ◌&&◌, Option, none, some, List, [], ◌∷◌, elem, str_eq, if◌then◌else◌,
}
use harness_ai.Domain.{SideEffect}
use harness_ai.Policy.{Decision, Mode, RuleEffect, Rule, RuleSet, Input, Result}
use harness_ai.Policy.Match.{GoText, rule_matches, is_external}

pub record Config : Type 0 where
  pub rule_set : RuleSet
  pub edit_tools : List String

abbrev pub default_edit_tools : List String
default_edit_tools = "edit" ∷ "write" ∷ []

pub record Engine : Type 0 where
  pub deny_rules : List Rule
  pub allow_rules : List Rule
  pub edit_tools : List String

-- The loop over the rules: `none` for the error on an effect that is no constant.
unfoldable pub partition : List Rule → Option (List Rule × List Rule)
partition [] = some ([], [])
partition (r ∷ rules) =
    let rest = partition rules in
    elim r.effect [
      | RuleEffect.deny ↦ elim rest [ none ↦ none | some (d, a) ↦ some (r ∷ d, a) ]
      | RuleEffect.allow ↦ elim rest [ none ↦ none | some (d, a) ↦ some (d, r ∷ a) ]
      | RuleEffect.invalid _ ↦ none
    ]

unfoldable pub edit_tools_of : List String → List String
edit_tools_of [] = default_edit_tools
edit_tools_of (t ∷ ts) = t ∷ ts

unfoldable pub new_engine : Config → Option Engine
unfolding partition edit_tools_of
new_engine cfg = elim (partition cfg.rule_set) [
  | none ↦ none
  | some (d, a) ↦
      some (record { deny_rules = d; allow_rules = a; edit_tools = edit_tools_of cfg.edit_tools })
]

unfoldable pub is_edit_tool : Engine → Input → Bool
is_edit_tool e inp = elem inp.tool_name e.edit_tools

unfoldable pub deny_reason : Rule → String
deny_reason r = if str_eq r.id "" then "denied by deny rule" else "denied by rule " ++ r.id

unfoldable pub allow_reason : Rule → String
allow_reason r = if str_eq r.id "" then "allowed by allow rule" else "allowed by rule " ++ r.id

-- A result, or the error that bypass is forbidden while untrusted content is present.
pub data Evaluation : Type 0 where
  result : Result → Evaluation
  bypass_forbidden : Evaluation

abbrev decide : Decision → String → String → Evaluation
decide d id why = result (record { decision = d; rule_id = id; reason = why })

module _ (go : GoText) where
  unfoldable pub first_match : List Rule → Input → Option Rule
  first_match [] inp = none
  first_match (r ∷ rules) inp = if rule_matches go r inp then some r else first_match rules inp

  -- Step 4: the default.
  unfoldable pub ask_stage : Input → Evaluation
  unfolding is_external
  ask_stage inp =
      if is_external inp
      then decide Decision.ask "" "external-comms to non-allowlisted host requires approval"
      else decide Decision.ask "" "no matching allow rule: action requires approval"

  -- Step 3: the allow rules, and the taint gate.
  unfoldable pub allow_stage : Engine → Input → Evaluation
  unfolding ask_stage
  allow_stage e inp = elim (first_match e.allow_rules inp) [
    | none ↦ ask_stage inp
    | some r ↦
        if is_external inp && inp.tainted
        then decide Decision.ask r.id
            "external-comms escalated to approval: untrusted content present (taint gate)"
        else decide Decision.allow r.id (allow_reason r)
  ]

  abbrev is_mutating : SideEffect → Bool
  is_mutating SideEffect.mutating = true
  is_mutating _ = false

  -- Step 2: the switch on the mode.
  unfoldable pub mode_stage : Mode → Engine → Input → Evaluation
  unfolding allow_stage is_edit_tool
  mode_stage Mode.bypass e inp =
      if inp.tainted
      then bypass_forbidden
      else decide Decision.allow "bypass"
          "bypass mode: allow/ask pipeline collapsed by operator (infra controls still enforced)"
  mode_stage Mode.accept_edits e inp =
      if is_edit_tool e inp
      then decide Decision.allow "accept_edits" "acceptEdits mode: file edit auto-approved"
      else allow_stage e inp
  mode_stage Mode.plan e inp =
      if is_mutating inp.side_effect
      then decide Decision.ask "plan" "plan mode: mutating tool held for approval (planning only)"
      else allow_stage e inp
  mode_stage Mode.default e inp = allow_stage e inp
  mode_stage (Mode.unrecognized _) e inp = allow_stage e inp

  -- Step 1: the deny rules, before all else.
  unfoldable pub evaluate : Engine → Input → Evaluation
  unfolding mode_stage
  evaluate e inp = elim (first_match e.deny_rules inp) [
    | some r ↦ decide Decision.deny r.id (deny_reason r)
    | none ↦ mode_stage inp.mode e inp
  ]
