-- ===== src/Agent/Guardrail/Rules/Hooks.antt =====
-- src/agent/guardrail.c: which rule stops a hook.
use multi_agent.Common.{
  Bool, true, false, some, List, [], ◌∷◌, ◌++◌, Bytes, str_eq, if◌then◌else◌, ◌≡◌, refl, sym, ap,
  ◌∙◌, ◌⊎◌, inl, inr, Bool-cases, Option-cases, arith,
}
use multi_agent.Util.Errno.{ok, ok-injective}
use multi_agent.Agent.Guardrail.{Verdict-cases, Verdict, pass, fail, Hook, EvalCtx}
use multi_agent.Agent.Guardrail.Rules.{
  Rule, Config, Backends, GuardrailResult, passed_hook, applies, check_rule, run_rules, run_hook,
  find_rule, set_enabled, switch_rule, rule_disable,
}

-- A rule that is off, stands at another hook, or passes.
abbrev pub Quiet : (Rule → Verdict) → Hook → Rule → Type 0
Quiet checked hook r = (applies hook r ≡ false) ⊎ (checked r ≡ pass)

abbrev pub AllQuiet : (Rule → Verdict) → Hook → List Rule → Type 0
AllQuiet checked hook [] = Unit {0}
AllQuiet checked hook (r ∷ rs) = Quiet checked hook r × AllQuiet checked hook rs

-- A rule of the list refuses, and those before it are quiet.
abbrev pub Stopped : (Rule → Verdict) → Hook → List Rule → GuardrailResult → Type 0
Stopped checked hook rs result =
    (before : List Rule) × (r : Rule) × (after : List Rule) × (reason : Bytes) × (rs
      ≡ before ++ (r ∷ after))
    × AllQuiet checked hook before
    × (applies hook r ≡ true)
    × (checked r ≡ fail reason)
    × (result ≡ record { verdict = fail reason; triggered_rule = some r })

run_rules-Quiet :
    (checked : Rule → Verdict) (hook : Hook) (r : Rule) (rs : List Rule)
    → Quiet checked hook r
    → run_rules checked hook (r ∷ rs) ≡ run_rules checked hook rs
unfolding run_rules
run_rules-Quiet checked hook r rs (inl off) = rw (run_rules, off) refl
run_rules-Quiet checked hook r rs (inr fine) = elim (Bool-cases (applies hook r)) [
  | inl on ↦ rw (run_rules, on, fine) refl
  | inr off ↦ rw (run_rules, off) refl
]

-- What is promised of a list of rules.
abbrev pub Judged : (Rule → Verdict) → Hook → List Rule → GuardrailResult → Type 0
Judged checked hook rs result =
    (AllQuiet checked hook rs × (result ≡ passed_hook)) ⊎ Stopped checked hook rs result

behind-Quiet :
    (checked : Rule → Verdict) (hook : Hook) (r : Rule) (rs : List Rule)
    → Judged checked hook rs (run_rules checked hook rs)
    → Quiet checked hook r
    → Judged checked hook (r ∷ rs) (run_rules checked hook (r ∷ rs))
behind-Quiet checked hook r rs judged quiet =
    let same = run_rules-Quiet checked hook r rs quiet in
    elim judged [
      | inl (all, e) ↦ inl ((quiet, all), same ∙ e)
      | inr (before, s, after, reason, split, all, on, refused, e) ↦ inr (
        r ∷ before,
        s,
        after,
        reason,
        ap (λ xs. r ∷ xs) split,
        (quiet, all),
        on,
        refused,
        same ∙ e,
      )
    ]

run_rules_lem :
    (checked : Rule → Verdict) (hook : Hook) (rs : List Rule)
    → Judged checked hook rs (run_rules checked hook rs)
unfolding run_rules
run_rules_lem checked hook [] = inl (tt, refl)
run_rules_lem checked hook (r ∷ rs) =
    let rest = run_rules_lem checked hook rs in
    elim (Bool-cases (applies hook r)) [
      | inr off ↦ behind-Quiet checked hook r rs rest (inl off)
      | inl on ↦ elim (Verdict-cases (checked r)) [
        | inl fine ↦ behind-Quiet checked hook r rs rest (inr fine)
        | inr (reason, refused) ↦
            inr ([], r, rs, reason, refl, tt, on, refused, rw (run_rules, on, refused) refl)
      ]
    ]

-- a hook of an enabled configuration either passes, and then every rule is off, stands at another hook or passes; or it fails with the reason of a rule of the hook that is on and refuses, the rules before which are all off, at another hook, or pass.
pub run_hook_lem :
    (backends : Backends) (cfg : Config) (hook : Hook) (ctx : EvalCtx)
    → cfg.enabled ≡ true
    → (AllQuiet (check_rule backends cfg.llm ctx) hook cfg.rules
        × (run_hook backends cfg hook ctx ≡ passed_hook))
      ⊎ Stopped (check_rule backends cfg.llm ctx) hook cfg.rules (run_hook backends cfg hook ctx)
unfolding run_hook
run_hook_lem backends cfg hook ctx on =
    rw (run_hook, on) (run_rules_lem (check_rule backends cfg.llm ctx) hook cfg.rules)

-- The rules without the first one of a name.
abbrev pub without : Bytes → List Rule → List Rule
without name [] = []
without name (r ∷ rs) = if str_eq r.name name then rs else r ∷ without name rs

run_rules-set_enabled :
    (checked : Rule → Verdict) (hook : Hook) (name : Bytes) (rs : List Rule)
    → run_rules checked hook (set_enabled name false rs) ≡ run_rules checked hook (without name rs)
unfolding run_rules set_enabled
run_rules-set_enabled checked hook name [] = refl
run_rules-set_enabled checked hook name (r ∷ rs) = elim (Bool-cases (str_eq r.name name)) [
  | inl here ↦ rw here refl
  | inr other ↦ elim (Bool-cases (applies hook r)) [
    | inr off ↦ rw (other, off) (run_rules-set_enabled checked hook name rs)
    | inl on ↦ elim (Verdict-cases (checked r)) [
      | inl fine ↦ rw (other, on, fine) (run_rules-set_enabled checked hook name rs)
      | inr (reason, refused) ↦ rw (other, on, refused) refl
    ]
  ]
]

switch_rule-ok :
    (b : Bool) (cfg next : Config) (name : Bytes)
    → switch_rule b cfg (some name) ≡ ok next
    → next ≡ record cfg { rules = set_enabled name b cfg.rules }
unfolding switch_rule
switch_rule-ok b cfg next name h = elim (Option-cases (find_rule name cfg.rules)) [
  | inl missing ↦ absurd (ground arith)
  | inr (r, found) ↦
      let run : switch_rule b cfg (some name)
          ≡ ok (record cfg { rules = set_enabled name b cfg.rules }) =
        rw (switch_rule, found) refl in
      ok-injective _ _ (sym h ∙ run)
]

-- a rule that guardrail_rule_disable turns off has no part in any hook: each gives what it gives where the rule has been taken out of the table.
pub run_hook-rule_disable :
    (backends : Backends) (cfg next : Config) (name : Bytes) (hook : Hook) (ctx : EvalCtx)
    → rule_disable cfg (some name) ≡ ok next
    → run_hook backends next hook ctx
      ≡ run_hook backends (record cfg { rules = without name cfg.rules }) hook ctx
unfolding run_hook
run_hook-rule_disable backends cfg next name hook ctx h =
    rw (switch_rule-ok false cfg next name h)
      (rw (run_rules-set_enabled (check_rule backends cfg.llm ctx) hook name cfg.rules) refl)
