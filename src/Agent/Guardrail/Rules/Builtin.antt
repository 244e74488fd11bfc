-- ===== src/Agent/Guardrail/Rules/Builtin.antt =====
-- src/agent/guardrail.c: what the built-in rules let through.
use multi_agent.Common.{
  ℤ, true, false, Option, none, some, [], ◌∷◌, Bytes, codes, str_eq, str_eq_iff, ◌≡◌, ◌≢◌, refl,
  sym, ap, ◌∙◌, ◌⊎◌, inl, inr, Bool-cases, pos, arith,
}
use multi_agent.Agent.Guardrail.{
  Verdict, pass, fail, refuse, output, EvalCtx, Files, at_least, empty_answer, consecutive_empty,
}
use multi_agent.Agent.Guardrail.Outcomes.{tools_all_failed, creative_no_media}
use multi_agent.Agent.Guardrail.Outcomes.Pairing.{
  called_tools, observations, SomeSucceeds, tools_all_failed-pass,
}
use multi_agent.Agent.Guardrail.Links.{Matcher, final_local_file_missing}
use multi_agent.Agent.Guardrail.Rules.{
  Config, Backends, passed_hook, check_rule, run_hook, register_builtin_rules, find_rule,
  rule_register, new_rule,
}
use multi_agent.Agent.Guardrail.Rules.Hooks.{run_hook_lem}

-- An enabled configuration without rules.
abbrev pub fresh : ℤ → ℤ → Option (Bytes → Option Bytes) → Config
fresh retries empty_rounds llm = record {
  enabled = true;
  max_retries = retries;
  max_empty_rounds = empty_rounds;
  rules = [];
  llm = llm;
}

abbrev AllPass : Files → Matcher → EvalCtx → Type 0
AllPass files re_match ctx =
    (consecutive_empty ctx ≡ pass)
    × (empty_answer ctx ≡ pass)
    × (tools_all_failed ctx ≡ pass)
    × (creative_no_media ctx ≡ pass)
    × (final_local_file_missing files re_match ctx ≡ pass)

pass_of : (v : Verdict) → (true ≡ false) ⊎ (v ≡ pass) → v ≡ pass
pass_of v (inl off) = absurd (ground (arith, off))
pass_of v (inr fine) = fine

run_hook-AllPass :
    (backends : Backends) (files : Files) (re_match : Matcher) (retries empty_rounds : ℤ)
    (llm : Option (Bytes → Option Bytes)) (ctx : EvalCtx)
    → run_hook backends
        (register_builtin_rules files re_match (fresh retries empty_rounds llm))
        output
        ctx
      ≡ passed_hook
    → AllPass files re_match ctx
unfolding register_builtin_rules check_rule rule_register find_rule new_rule str_eq
run_hook-AllPass backends files re_match retries empty_rounds llm ctx h =
    elim (run_hook_lem backends
      (register_builtin_rules files re_match (fresh retries empty_rounds llm)) output ctx refl) [
        | inl ((a, (b, (c, (d, (e, (f, end)))))), run) ↦ (
          pass_of (consecutive_empty ctx) a,
          pass_of (empty_answer ctx) b,
          pass_of (tools_all_failed ctx) c,
          pass_of (creative_no_media ctx) d,
          pass_of (final_local_file_missing files re_match ctx) f,
        )
        | inr (before, r, after, reason, split, all, on, refused, run) ↦
            absurd (ground (arith, ap (λ x. x.verdict) (sym run ∙ h)))
      ]

empty_answer-pass :
    (ctx : EvalCtx)
    → empty_answer ctx ≡ pass
    → (answer : Bytes) × (ctx.proposed_answer ≡ some answer)
      × (answer ≢ [])
      × (answer ≢ codes "(no response)")
unfolding empty_answer
empty_answer-pass ctx h = seen ctx.proposed_answer refl
  where
    seen :
        (x : Option Bytes)
        → ctx.proposed_answer ≡ x
        → (answer : Bytes) × (ctx.proposed_answer ≡ some answer)
          × (answer ≢ [])
          × (answer ≢ codes "(no response)")
    seen none e =
        let run : empty_answer ctx ≡ fail (codes "Empty answer.") = rw (empty_answer, e) refl in
        absurd (ground (arith, sym run ∙ h))
    seen (some []) e =
        let run : empty_answer ctx ≡ fail (codes "Empty answer.") = rw (empty_answer, e) refl in
        absurd (ground (arith, sym run ∙ h))
    seen (some (c ∷ cs)) e = (
      c ∷ cs,
      e,
      λ empty. cc,
      λ same.
          let test : str_eq (c ∷ cs) (codes "(no response)") ≡ true =
            (str_eq_iff (c ∷ cs) (codes "(no response)")).1 same in
          let run : empty_answer ctx ≡ fail (codes "Empty answer.") =
            rw (empty_answer, e, test) refl in
          ground (arith, sym run ∙ h),
    )

consecutive_empty-pass :
    (ctx : EvalCtx)
    → consecutive_empty ctx ≡ pass
    → (at_least ctx.max_empty_rounds (pos 1) ≡ false)
      ⊎ (at_least ctx.empty_round_count ctx.max_empty_rounds ≡ false)
unfolding consecutive_empty
consecutive_empty-pass ctx h = elim (Bool-cases (at_least ctx.max_empty_rounds (pos 1))) [
  | inr unlimited ↦ inl unlimited
  | inl limited ↦ elim (Bool-cases (at_least ctx.empty_round_count ctx.max_empty_rounds)) [
    | inr below ↦ inr below
    | inl reached ↦
        let run : consecutive_empty ctx
            ≡ refuse (codes "Multiple empty responses. Provide a substantive answer.") =
          rw (consecutive_empty, limited, reached) refl in
        absurd (ground (arith, sym run ∙ h))
  ]
]

-- What is known of an answer that the built-in rules let through.
abbrev pub Substantive : EvalCtx → Type 0
Substantive ctx =
    ((answer : Bytes) × (ctx.proposed_answer ≡ some answer)
      × (answer ≢ [])
      × (answer ≢ codes "(no response)"))
    × ((at_least ctx.max_empty_rounds (pos 1) ≡ false)
        ⊎ (at_least ctx.empty_round_count ctx.max_empty_rounds ≡ false))
    × ((called_tools ctx.steps ≡ [])
        ⊎ SomeSucceeds 64 (called_tools ctx.steps) (observations ctx.steps))

-- where the built-in rules are registered with an empty, enabled configuration and the output hook passes, there is an answer, neither empty nor "(no response)"; the rounds without one are fewer than their limit, if there is a limit; no tool was called or one of the first 64 calls has an observation without an error; and the rule on local files passes.
pub run_hook-builtin :
    (backends : Backends) (files : Files) (re_match : Matcher) (retries empty_rounds : ℤ)
    (llm : Option (Bytes → Option Bytes)) (ctx : EvalCtx)
    → run_hook backends
        (register_builtin_rules files re_match (fresh retries empty_rounds llm))
        output
        ctx
      ≡ passed_hook
    → Substantive ctx × (final_local_file_missing files re_match ctx ≡ pass)
run_hook-builtin backends files re_match retries empty_rounds llm ctx h =
    let passes = run_hook-AllPass backends files re_match retries empty_rounds llm ctx h in
    (
      (
        empty_answer-pass ctx passes.1,
        consecutive_empty-pass ctx passes.0,
        (tools_all_failed-pass ctx).0 passes.2,
      ),
      passes.4,
    )
