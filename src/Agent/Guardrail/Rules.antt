-- ===== src/Agent/Guardrail/Rules.antt =====
-- src/agent/guardrail.c: the table of rules, and the run of a hook.
--
-- The texts of a rule are those that its arrays hold. What a rule calls outside is an argument: the
-- model (`llm`), a function of a library (`ExtCheck`), cJSON (`parse_check`, which gives the Boolean
-- `pass` and the text `reason` of an object) and the process of an external rule (`exec_check`).
pub mod Registry
pub mod Hooks
pub mod Builtin
use multi_agent.Common.{
  ℕ, ℤ, zero, suc, Bool, true, false, ◌&&◌, not, Option, none, some, List, [], ◌∷◌, ◌++◌, Bytes,
  codes, str_eq, length, leb, if◌then◌else◌,
}
use multi_agent.Util.Errno.{Result, ok, err, einval, enospc, eexist, enoent, err_load}
use multi_agent.Agent.Guardrail.{
  Verdict, pass, fail, Hook, input, tool_output, output, EvalCtx, Files, cut, refuse, empty_answer,
  consecutive_empty, creative_file_missing,
}
use multi_agent.Agent.Guardrail.Outcomes.{tools_all_failed, creative_no_media}
use multi_agent.Agent.Guardrail.Links.{Matcher, final_local_file_missing}

abbrev pub rules_max : ℕ
rules_max = 16

pub data RuleType : Type 0 where
  rule_c rule_llm rule_ext : RuleType

pub data ExtType : Type 0 where
  ext_exec ext_so : ExtType

-- The text, the name and the description, to the answer, if the call succeeds.
abbrev pub ExtCheck : Type 0
ExtCheck = Bytes → Bytes → Bytes → Option Bytes

pub record Rule : Type 0 where
  pub name : Bytes
  pub hook : Hook
  pub rule_type : RuleType
  pub ext_type : ExtType
  pub enabled : Bool
  pub check : Option (EvalCtx → Verdict)
  pub ext_check : Option ExtCheck
  pub description : Bytes
  pub ext_entry : Bytes
  pub action_text : Bytes

pub record Config : Type 0 where
  pub enabled : Bool
  pub max_retries : ℤ
  pub max_empty_rounds : ℤ
  pub rules : List Rule
  pub llm : Option (Bytes → Option Bytes)

pub record Backends : Type 0 where
  pub parse_check : Bytes → Option (Option Bool × Option Bytes)
  pub exec_check : Bytes → Bytes → Bytes → Bytes → Option Bytes

unfoldable pub find_rule : Bytes → List Rule → Option Rule
find_rule name [] = none
find_rule name (r ∷ rs) = if str_eq r.name name then some r else find_rule name rs

unfoldable pub rule_lookup : Config → Option Bytes → Option Rule
rule_lookup cfg none = none
rule_lookup cfg (some name) = find_rule name cfg.rules

abbrev text_or_empty : ℕ → Option Bytes → Bytes
text_or_empty n none = []
text_or_empty n (some text) = cut n text

-- What a caller gives of a rule.
pub record Registration : Type 0 where
  pub hook : Hook
  pub rule_type : RuleType
  pub check : Option (EvalCtx → Verdict)
  pub description : Option Bytes
  pub ext_entry : Option Bytes
  pub action_text : Option Bytes

unfoldable pub new_rule : Bytes → Registration → Rule
new_rule name g = record {
  name = cut 64 name;
  hook = g.hook;
  rule_type = g.rule_type;
  ext_type = ext_exec;
  enabled = true;
  check = elim g.rule_type [ rule_c ↦ g.check | rule_llm ↦ none | rule_ext ↦ none ];
  ext_check = none;
  description = text_or_empty 1024 g.description;
  ext_entry = text_or_empty 4096 g.ext_entry;
  action_text = text_or_empty 512 g.action_text;
}

unfoldable pub rule_register : Config → Option Bytes → Registration → Result Config
unfolding new_rule find_rule
rule_register cfg none g = err einval
rule_register cfg (some name) g =
    if leb rules_max (length cfg.rules) then err enospc else elim (find_rule name cfg.rules) [
      | some r ↦ err eexist
      | none ↦ ok (record cfg { rules = cfg.rules ++ (new_rule name g ∷ []) })
    ]

-- The rules with the flag of the first one of the name set.
unfoldable pub set_enabled : Bytes → Bool → List Rule → List Rule
set_enabled name b [] = []
set_enabled name b (r ∷ rs) =
    if str_eq r.name name then record r { enabled = b } ∷ rs else r ∷ set_enabled name b rs

unfoldable pub switch_rule : Bool → Config → Option Bytes → Result Config
unfolding set_enabled find_rule
switch_rule b cfg none = err enoent
switch_rule b cfg (some name) = elim (find_rule name cfg.rules) [
  | none ↦ err enoent
  | some r ↦ ok (record cfg { rules = set_enabled name b cfg.rules })
]

abbrev pub rule_disable : Config → Option Bytes → Result Config
rule_disable = switch_rule false

abbrev pub rule_enable : Config → Option Bytes → Result Config
rule_enable = switch_rule true

-- `dlopen` and `dlsym`, which give the function `guardrail_check` of a library.
unfoldable pub ext_so_load : (Bytes → Option ExtCheck) → Rule → Result Rule
ext_so_load load r = elim r.ext_entry [
  | [] ↦ err einval
  | c ∷ cs ↦ elim (load (c ∷ cs)) [
    | none ↦ err err_load
    | some f ↦ ok (record r { ext_check = some f })
  ]
]

unfoldable pub ext_so_unload : Rule → Rule
ext_so_unload r = record r { ext_check = none }

unfoldable pub check_text : Rule → EvalCtx → Option Bytes
check_text r ctx = elim r.hook [
  | input ↦ ctx.user_input
  | tool_output ↦ ctx.tool_result
  | output ↦ ctx.proposed_answer
]

abbrev or_empty : Option Bytes → Bytes
or_empty none = []
or_empty (some text) = text

unfoldable pub parse_check_result : Backends → Bytes → Rule → Verdict
parse_check_result backends json r = elim (backends.parse_check json) [
  | none ↦ pass
  | some (passed, reason) ↦ elim passed [
    | none ↦ pass
    | some true ↦ pass
    | some false ↦ elim reason [ none ↦ refuse r.description | some text ↦ refuse text ]
  ]
]

unfoldable pub llm_prompt : Rule → Bytes → Bytes
llm_prompt r text = cut 2048 (
    codes "Check if the following text passes this rule: \""
    ++ (r.description
        ++ (codes "\"\n\nText: \""
            ++ (text
                ++ (codes "\"\n\nRespond with ONLY a JSON object: "
                    ++ codes
                        "{\"pass\": true/false, \"reason\": \"brief explanation\"}\nDo not include any other text.")))))

-- The rule of a model, which answers a prompt with a text unless the call fails or the text is empty.
unfoldable pub llm_check : Backends → Rule → Option (Bytes → Option Bytes) → EvalCtx → Verdict
unfolding check_text llm_prompt parse_check_result
llm_check backends r llm ctx = elim llm [
  | none ↦ pass
  | some chat ↦ elim (check_text r ctx) [
    | none ↦ pass
    | some [] ↦ pass
    | some (c ∷ cs) ↦ elim (chat (llm_prompt r (c ∷ cs))) [
      | none ↦ pass
      | some answer ↦ parse_check_result backends answer r
    ]
  ]
]

unfoldable pub ext_so_check : Backends → Rule → EvalCtx → Verdict
unfolding check_text parse_check_result
ext_so_check backends r ctx = elim r.ext_check [
  | none ↦ pass
  | some f ↦ elim (f (or_empty (check_text r ctx)) r.name r.description) [
    | none ↦ pass
    | some json ↦ parse_check_result backends json r
  ]
]

unfoldable pub ext_exec_check : Backends → Rule → EvalCtx → Verdict
unfolding check_text parse_check_result
ext_exec_check backends r ctx = elim r.ext_entry [
  | [] ↦ pass
  | c ∷ cs ↦
      elim (backends.exec_check (c ∷ cs) (or_empty (check_text r ctx)) r.name r.description) [
        | none ↦ pass
        | some json ↦ parse_check_result backends json r
      ]
]

-- One rule, by its type.
unfoldable pub check_rule : Backends → Option (Bytes → Option Bytes) → EvalCtx → Rule → Verdict
unfolding llm_check ext_so_check ext_exec_check
check_rule backends llm ctx r = elim r.rule_type [
  | rule_c ↦ elim r.check [ none ↦ pass | some f ↦ f ctx ]
  | rule_llm ↦ llm_check backends r llm ctx
  | rule_ext ↦ elim r.ext_type [
    | ext_so ↦ ext_so_check backends r ctx
    | ext_exec ↦ ext_exec_check backends r ctx
  ]
]

pub record GuardrailResult : Type 0 where
  pub verdict : Verdict
  pub triggered_rule : Option Rule

abbrev pub passed_hook : GuardrailResult
passed_hook = record { verdict = pass; triggered_rule = none }

abbrev pub same_hook : Hook → Hook → Bool
same_hook input input = true
same_hook tool_output tool_output = true
same_hook output output = true
same_hook _ _ = false

-- `rule->enabled && rule->hook == hook`
abbrev pub applies : Hook → Rule → Bool
applies hook r = r.enabled && same_hook r.hook hook

unfoldable pub run_rules : (Rule → Verdict) → Hook → List Rule → GuardrailResult
run_rules checked hook [] = passed_hook
run_rules checked hook (r ∷ rs) =
    let rest = run_rules checked hook rs in
    if applies hook r
    then elim (checked r) [
      | pass ↦ rest
      | fail reason ↦ record { verdict = fail reason; triggered_rule = some r }
    ]
    else rest

unfoldable pub run_hook : Backends → Config → Hook → EvalCtx → GuardrailResult
unfolding run_rules check_rule
run_hook backends cfg hook ctx =
    if cfg.enabled then run_rules (check_rule backends cfg.llm ctx) hook cfg.rules else passed_hook

-- A rule of the table, registered where there is room; a failure is passed over.
abbrev pub registered : Config → Bytes → Registration → Config
registered cfg name g = elim (rule_register cfg (some name) g) [ err e ↦ cfg | ok next ↦ next ]

abbrev builtin : Hook → (EvalCtx → Verdict) → Bytes → Registration
builtin hook check action_text = record {
  hook = hook;
  rule_type = rule_c;
  check = some check;
  description = none;
  ext_entry = none;
  action_text = some action_text;
}

unfoldable pub register_builtin_rules : Files → Matcher → Config → Config
unfolding rule_register
register_builtin_rules files re_match cfg =
    let a = registered cfg (codes "consecutive_empty") (
      builtin output consecutive_empty
        (codes "Multiple empty responses. Provide a substantive answer.")) in
    let b =
      registered a (codes "empty_answer")
        (builtin output empty_answer (codes "Provide a substantive answer.")) in
    let c = registered b (codes "tools_all_failed") (
      builtin output tools_all_failed (
        codes
          "All your tool calls failed. Check the error messages above, fix your tool arguments, and try again.")) in
    let d = registered c (codes "creative_no_media") (
      builtin output creative_no_media (
        codes
          "Your creative tool calls did not produce output files. Verify the tool parameters are correct.")) in
    let e = registered d (codes "creative_file_missing") (
      builtin tool_output (creative_file_missing files) (
        codes
          "The creative tool reported an output file but it does not exist. The generation may have failed silently. Try calling the tool again.")) in
    registered e (codes "final_local_file_missing") (
      builtin output (final_local_file_missing files re_match)
        (codes "Regenerate the file or reference a local file that exists."))

unfoldable pub set_llm : Option (Bytes → Option Bytes) → Config → Config
set_llm llm cfg = record cfg { llm = llm }
