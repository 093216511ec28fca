-- ===== src/ToolRuntime/Listed.antt =====
-- Which calls the egress gate lets through, by the broker's lists.
use Prim.Native.String.{count, ◌++◌ as ◌<>◌}
use mathlib.Core.Option.{some-injective}
use text.Mathlib.TextLemmas.{length-cons, length-append, cons-append, nil-append}
use harness_ai.Prelude.{
  ◌≡◌, refl, sym, ap, ◌∙◌, ◌↔◌, String, Bool, true, false, Bool-cases, Option-cases, inl, inr, none,
  some, List, [], ◌∷◌, str_eq, eq_iff, eq_refl, elem, ◌||◌, arith,
}
use harness_ai.Prelude.Text.{cut_prefix, contains}
use harness_ai.ToolRuntime.{Ledger, Tool, found, Request, World, answer}
use harness_ai.ToolRuntime.Execute.{egress_gate, execute, egress_target, is_external_class}
use harness_ai.ToolRuntime.Egress.{IsAllowed, egress_gate-IsAllowed, execute-IsAllowed}
use harness_ai.ToolRuntime.Broker.{
  Broker, before_suffix, match_entry, matches_policy, hosts_of, allow, answers_of,
}

-- What an entry of a list names: itself, or for a wildcard one label, a dot and what stands behind the wildcard.
pub data Names (host entry : String) : Type 0 where
  itself : cut_prefix entry "*." ≡ none → host ≡ entry → Names host entry
  below :
      (suffix label : String)
      → cut_prefix entry "*." ≡ some suffix
      → host ≡ label <> ("." <> suffix)
      → contains label "." ≡ false
      → Names host entry

-- Where the whole text is the suffix, nothing stands before it.
whole-split : (s t p : String) → str_eq s t ≡ true → some "" ≡ some p → s ≡ p <> t
whole-split s t p e h =
    (eq_iff s t).0 e ∙ sym (nil-append t) ∙ ap (λ x. x <> t) (some-injective "" p h)

before_suffix-split : (s t p : String) → before_suffix s t ≡ some p → s ≡ p <> t
unfolding before_suffix
before_suffix-split String.[] t p h = elim (Bool-cases (str_eq "" t)) [
  | inl e ↦ whole-split "" t p e (ground (arith, e, h))
  | inr e ↦ ground (arith, e, h)
]
before_suffix-split (String.◌∷◌ c s) t p h = elim (Bool-cases (str_eq (String.◌∷◌ c s) t)) [
  | inl e ↦ whole-split (String.◌∷◌ c s) t p e (ground (arith, e, h))
  | inr e ↦ elim (Option-cases (before_suffix s t)) [
    | inl r ↦ ground (arith, e, r, h)
    | inr (q, r) ↦
        let whole : String.◌∷◌ c q ≡ p = some-injective _ p (ground (arith, e, r, h)) in
        ap (λ x. String.◌∷◌ c x) (before_suffix-split s t q r)
        ∙ sym (cons-append c q t)
        ∙ ap (λ x. x <> t) whole
  ]
]

match_entry-Names : (host entry : String) → match_entry host entry ≡ true → Names host entry
unfolding match_entry
match_entry-Names host entry h = elim (Option-cases (cut_prefix entry "*.")) [
  | inl c ↦ itself c ((eq_iff host entry).0 (ground (arith, c, h)))
  | inr (suffix, c) ↦ elim (Option-cases (before_suffix host ("." <> suffix))) [
    | inl b ↦ ground (arith, c, b, h)
    | inr (label, b) ↦
        below suffix label c (before_suffix-split host ("." <> suffix) label b)
          (ground (arith, c, b, h))
  ]
]

or_true : (b : Bool) → (b || true) ≡ true
or_true true = refl
or_true false = refl

matches_policy-Names :
    (host : String) (entries : List String)
    → matches_policy host entries ≡ true
    → (entry : String) × (elem entry entries ≡ true) × Names host entry
unfolding matches_policy
matches_policy-Names host [] h = ground (arith, h)
matches_policy-Names host (entry ∷ entries) h = elim (Bool-cases (match_entry host entry)) [
  | inl m ↦ (entry, ground (arith, eq_refl entry), match_entry-Names host entry m)
  | inr m ↦
      let (listed, i, n) = matches_policy-Names host entries (ground (arith, m, h)) in
      (listed, ap (λ b. str_eq entry listed || b) i ∙ or_true (str_eq entry listed), n)
]

is_answer→≡ : (a : Bool) → answer a ≡ answer true → a ≡ true
is_answer→≡ true e = refl
is_answer→≡ false e = ground (arith, e)

-- The suffix of a text that ends with it is found.
suffix_self : (t : String) → before_suffix t t ≡ some ""
unfolding before_suffix
suffix_self String.[] = ground (arith, eq_refl "")
suffix_self (String.◌∷◌ c t) = ground (arith, eq_refl (String.◌∷◌ c t))

before_suffix-join : (p t : String) → before_suffix (p <> t) t ≡ some p
unfolding before_suffix
before_suffix-join String.[] t = ap (λ s. before_suffix s t) (nil-append t) ∙ suffix_self t
before_suffix-join (String.◌∷◌ c p) t =
    ap (λ s. before_suffix s t) (cons-append c p t)
    ∙ elim (Bool-cases (str_eq (String.◌∷◌ c (p <> t)) t)) [
      | inl e ↦
          let same = ap count ((eq_iff (String.◌∷◌ c (p <> t)) t).0 e) in
          absurd (omega (arith, same, length-cons c (p <> t), length-append p t))
      | inr e ↦ ground (arith, e, before_suffix-join p t)
    ]

Names→match_entry : (host entry : String) → Names host entry → match_entry host entry ≡ true
unfolding match_entry
Names→match_entry host entry (itself c e) = ground (arith, c, (eq_iff host entry).1 e)
Names→match_entry host entry (below suffix label c e n) =
    let found : before_suffix host ("." <> suffix) ≡ some label =
      ap (λ s. before_suffix s ("." <> suffix)) e ∙ before_suffix-join label ("." <> suffix) in
    ground (arith, c, found, n)

Names→matches_policy :
    (host entry : String) (entries : List String)
    → elem entry entries ≡ true
    → Names host entry
    → matches_policy host entries ≡ true
unfolding matches_policy
Names→matches_policy host entry [] i n = ground (arith, i)
Names→matches_policy host entry (x ∷ entries) i n = elim (Bool-cases (str_eq x entry)) [
  | inl e ↦
      let same = (eq_iff x entry).0 e in
      ground (arith, ap (match_entry host) same ∙ Names→match_entry host entry n)
  | inr e ↦ ground (arith, Names→matches_policy host entry entries (ground (arith, e, i)) n)
]

-- The host that the service resolves for a call (the target that the tool declares, or else what the arguments name), and
-- an entry of the list that governs the session which names it.
pub record IsListed (b : Broker) (w : World) (req : Request) (tool : Tool) : Type 0 where
  pub host : String
  pub entry : String
  pub is_target : egress_target w tool req.args ≡ some host
  pub is_entry : elem entry (hosts_of b req.session_id) ≡ true
  pub names : Names host entry

module _ (b : Broker) (w : World) (req : Request) (tool : Tool) (a : w.allow ≡ answers_of b) where
  answered :
      (host : String)
      → w.allow req.session_id host ≡ answer (matches_policy host (hosts_of b req.session_id))
  unfolding answers_of allow
  answered host = ap (λ g. g req.session_id host) a

  IsAllowed→IsListed : IsAllowed w req tool → IsListed b w req tool
  IsAllowed→IsListed allowed =
      let listed = is_answer→≡ _ (sym (answered allowed.host) ∙ allowed.is_answer) in
      let (entry, i, n) = matches_policy-Names allowed.host (hosts_of b req.session_id) listed in
      record {
        host = allowed.host;
        entry = entry;
        is_target = allowed.is_target;
        is_entry = i;
        names = n;
      }

  IsListed→egress_gate : IsListed b w req tool → egress_gate w req tool ≡ none
  unfolding egress_gate
  IsListed→egress_gate g =
      let listed =
        answered g.host
        ∙ ap answer
            (Names→matches_policy g.host g.entry (hosts_of b req.session_id) g.is_entry g.names) in
      ground (arith, g.is_target, listed)

-- The gate is the list. Where the answers to an execution service are those of an egress broker, the gate lets a call of a
-- tool through if and only if the service resolves a host for the call (the target that the tool declares, or
-- else what the arguments name) and an entry of the list that governs the session names that host: the entry is the host
-- itself, or a wildcard, and the host is a text without a dot, then a dot and what the wildcard stands before. And
-- where a request has run an external tool, that is so. Whether the tool then contacts the resolved host is not said.
pub execute-IsListed :
    (b : Broker) (w : World) (req : Request) (l : Ledger) (tool : Tool)
    → w.allow ≡ answers_of b
    → w.registry req.tool_name ≡ found tool
    → is_external_class tool.egress_class ≡ true
    → ((egress_gate w req tool ≡ none) ↔ IsListed b w req tool)
      × ((execute w req l).was_run ≡ true → IsListed b w req tool)
execute-IsListed b w req l tool a f x = (
  (
    λ e. IsAllowed→IsListed b w req tool a (egress_gate-IsAllowed w req tool e),
    IsListed→egress_gate b w req tool a,
  ),
  λ r. IsAllowed→IsListed b w req tool a (execute-IsAllowed w req l tool f x r),
)
