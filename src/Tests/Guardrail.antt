-- ===== src/Tests/Guardrail.antt =====
-- src/agent/guardrail.c on concrete runs.
use multi_agent.Common.{
  ℕ, ◌+◌, ◌≤◌, ◌<◌, ◌==◌, ◌&&◌, ◌↔◌, ◌⊎◌, inl, inr, ◌≡◌, ◌≢◌, refl, sym, ap, ◌∙◌, subst, Bool, true,
  false, Option, none, some, List, [], ◌∷◌, ◌++◌, arith, Bytes, codes, str_eq, length, ℤ, pos,
  negsuc, if◌then◌else◌, Bool-cases,
}
use multi_agent.Util.Errno.{ok, err, enospc, eexist}
use multi_agent.Agent.Guardrail.{
  Verdict, pass, fail, Hook, output, tool_output, Step, action, observation, thought, EvalCtx,
  Files,
}
use multi_agent.Agent.Guardrail.Outcomes.{tools_all_failed}
use multi_agent.Agent.Guardrail.Outcomes.Pairing.{
  called_tools, observations, SomeSucceeds, tools_all_failed-pass,
}
use multi_agent.Agent.Guardrail.Links.{Matcher, final_local_file_missing}
use multi_agent.Agent.Guardrail.Links.Scan.{Lacks}
use multi_agent.Agent.Guardrail.Links.Missing.{
  Link, print_links, FindsLinks, AllPresent, final_local_file_missing-AllPresent,
}
use multi_agent.Agent.Guardrail.Rules.{
  rules_max, rule_c, Rule, Config, Registration, Backends, passed_hook, check_rule, run_hook,
  register_builtin_rules, rule_register, rule_lookup,
}
use multi_agent.Agent.Guardrail.Rules.Registry.{IsValid, Added, rule_register_lem}
use multi_agent.Agent.Guardrail.Rules.Hooks.{AllQuiet, Stopped, run_hook_lem}
use multi_agent.Agent.Guardrail.Rules.Builtin.{fresh, Substantive, run_hook-builtin}

abbrev step_of : Step
step_of = record {
  step_type = thought;
  content = none;
  error_code = pos 0;
  artifacts = [];
  tool_name = none;
}

abbrev call : Bytes → Step
call tool = record step_of { step_type = action; tool_name = some tool }

abbrev observed : ℤ → Step
observed code = record step_of { step_type = observation; error_code = code }

-- A run that reads a file, which fails, and then searches.
abbrev two_calls : List Step
two_calls =
    step_of
    ∷ call (codes "read")
    ∷ observed (negsuc 1)
    ∷ call (codes "search")
    ∷ observed (pos 0)
    ∷ []

abbrev answering : Bytes → EvalCtx
answering text = record {
  user_input = some (codes "hello");
  tool_name = none;
  tool_result = none;
  tool_error_code = pos 0;
  tool_artifacts = none;
  proposed_answer = some text;
  steps = two_calls;
  empty_round_count = pos 0;
  max_empty_rounds = pos 3;
}

tools_all_failed-pass_example : (tools_all_failed (answering (codes "done")) ≡ pass) ↔ (
    (called_tools two_calls ≡ [])
    ⊎ SomeSucceeds 64 (called_tools two_calls) (observations two_calls))
tools_all_failed-pass_example = tools_all_failed-pass (answering (codes "done"))

-- No process, and no JSON.
abbrev nothing_outside : Backends
nothing_outside = record { parse_check = λ json. none; exec_check = λ a b c d. none }

-- One file exists.
abbrev files : Files
files = record { file_exists = λ path. str_eq path (codes "out.png"); expand_path = λ path. none }

-- The first place of "](".
abbrev first_bracket : Bytes → Option (ℕ × ℕ)
first_bracket [] = none
first_bracket (c ∷ []) = none
first_bracket (c ∷ d ∷ cs) =
    if c == b']' && d == b'('
    then some (0, 2)
    else elim (first_bracket (d ∷ cs)) [ none ↦ none | some (idx, len) ↦ some (idx + 1, len) ]

abbrev re_match : Matcher
re_match pattern text = first_bracket text

first_bracket_found :
    (before rest : Bytes)
    → Lacks b']' before
    → first_bracket (before ++ (b']' ∷ b'(' ∷ rest)) ≡ some (length before, 2)
first_bracket_found [] rest h = refl
first_bracket_found (c ∷ []) rest (other, h) = rw other refl
first_bracket_found (c ∷ d ∷ cs) rest (other, h) =
    rw (other, first_bracket_found (d ∷ cs) rest h) (ground arith)

first_bracket_missing : (s : Bytes) → Lacks b']' s → first_bracket s ≡ none
first_bracket_missing [] h = refl
first_bracket_missing (c ∷ []) h = refl
first_bracket_missing (c ∷ d ∷ cs) (other, h) = rw (other, first_bracket_missing (d ∷ cs) h) refl

re_match-FindsLinks : FindsLinks re_match
re_match-FindsLinks = (first_bracket_found, first_bracket_missing)

abbrev two_links : List Link
two_links =
    record { before = codes "See ![x"; first = b'o'; others = codes "ut.png" }
    ∷ record { before = codes " and [home"; first = b'h'; others = codes "ttps://a.b/c" }
    ∷ []

final_local_file_missing-AllPresent_example :
    (final_local_file_missing files re_match (answering (print_links two_links (codes "."))) ≡ pass)
    ↔ AllPresent files two_links
final_local_file_missing-AllPresent_example =
    final_local_file_missing-AllPresent files re_match
      (answering (print_links two_links (codes "."))) two_links (codes ".") re_match-FindsLinks
      (ground arith) (ground arith) refl

-- The answer with the links passes every built-in rule.
answer_passes :
    run_hook nothing_outside
      (register_builtin_rules files re_match (fresh (pos 2) (pos 3) none))
      output
      (answering (codes "See ![x](out.png)."))
    ≡ passed_hook
unfolding run_hook register_builtin_rules multi_agent.Common.str_eq
    multi_agent.Agent.Guardrail.consecutive_empty multi_agent.Agent.Guardrail.empty_answer
    tools_all_failed multi_agent.Agent.Guardrail.Outcomes.outcomes_from
    multi_agent.Agent.Guardrail.Outcomes.next_observation
    multi_agent.Agent.Guardrail.Outcomes.creative_no_media final_local_file_missing
answer_passes = refl

-- One whose file is missing does not.
answer_refused :
    (run_hook nothing_outside
      (register_builtin_rules files re_match (fresh (pos 2) (pos 3) none))
      output
      (answering (codes "See ![x](in.png)."))).verdict
    ≡ fail (codes "Referenced local file does not exist: in.png")
unfolding run_hook register_builtin_rules multi_agent.Common.str_eq
    multi_agent.Agent.Guardrail.consecutive_empty multi_agent.Agent.Guardrail.empty_answer
    tools_all_failed multi_agent.Agent.Guardrail.Outcomes.outcomes_from
    multi_agent.Agent.Guardrail.Outcomes.next_observation
    multi_agent.Agent.Guardrail.Outcomes.creative_no_media final_local_file_missing
answer_refused = refl

run_hook-builtin_example :
    Substantive (answering (codes "See ![x](out.png)."))
    × (final_local_file_missing files re_match (answering (codes "See ![x](out.png).")) ≡ pass)
run_hook-builtin_example =
    run_hook-builtin nothing_outside files re_match (pos 2) (pos 3) none
      (answering (codes "See ![x](out.png).")) answer_passes

abbrev builtin_rules : Config
builtin_rules = register_builtin_rules files re_match (fresh (pos 2) (pos 3) none)

run_hook_lem_example :
    (AllQuiet (check_rule nothing_outside none (answering [])) output builtin_rules.rules
      × (run_hook nothing_outside builtin_rules output (answering []) ≡ passed_hook))
    ⊎ Stopped
        (check_rule nothing_outside none (answering []))
        output
        builtin_rules.rules
        (run_hook nothing_outside builtin_rules output (answering []))
unfolding register_builtin_rules multi_agent.Common.str_eq
    multi_agent.Agent.Guardrail.Rules.find_rule
run_hook_lem_example = run_hook_lem nothing_outside builtin_rules output (answering []) refl

abbrev short_answer : Registration
short_answer = record {
  hook = output;
  rule_type = rule_c;
  check = some (λ ctx. pass);
  description = some (codes "The answer is short.");
  ext_entry = none;
  action_text = none;
}

builtin_rules-IsValid : IsValid builtin_rules
unfolding register_builtin_rules multi_agent.Common.str_eq
    multi_agent.Agent.Guardrail.Rules.find_rule
builtin_rules-IsValid = (ground arith, (refl, (refl, (refl, (refl, (refl, (refl, tt)))))))

rule_register_lem_example :
    (rules_max ≤ length builtin_rules.rules
      → rule_register builtin_rules (some (codes "short_answer")) short_answer ≡ err enospc)
    × ((r : Rule)
        → length builtin_rules.rules < rules_max
        → rule_lookup builtin_rules (some (codes "short_answer")) ≡ some r
        → rule_register builtin_rules (some (codes "short_answer")) short_answer ≡ err eexist)
    × (length builtin_rules.rules < rules_max
        → rule_lookup builtin_rules (some (codes "short_answer")) ≡ none
        → (next : Config) × (rule_register builtin_rules (some (codes "short_answer")) short_answer
            ≡ ok next)
          × Added builtin_rules (codes "short_answer") short_answer next)
rule_register_lem_example =
    rule_register_lem builtin_rules (codes "short_answer") short_answer builtin_rules-IsValid
      (omega arith)
