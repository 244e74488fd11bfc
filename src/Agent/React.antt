-- ===== src/Agent/React.antt =====
-- src/agent/react.c, react.h: the state of a run, and how it ends.
--
-- A context holds the fields that the modelled functions use. What they print, and the events and
-- outputs that they emit, leave the context as it is. Texts live in an arena, and allocation succeeds.
pub mod Failures
pub mod Streak
pub mod Ending
pub mod Marker
pub mod Final
pub mod Approval
use multi_agent.Common.{
  ℕ, zero, suc, ◌+◌, ◌-◌, ℤ, pos, negsuc, Bool, true, false, ◌&&◌, not, Option, none, some, List,
  [], ◌∷◌, ◌++◌, Bytes, codes, str_eq, ltb, if◌then◌else◌,
}
use multi_agent.Agent.Guardrail.{
  Step, StepType, thought, action, observation, reflection, final, reasoning, cut, is_negative,
}
use multi_agent.Agent.Guardrail.Rules.{Config}

pub data State : Type 0 where
  init thinking acting observing checking finishing done abort tool_fail : State

pub data Outcome : Type 0 where
  undecided success cancelled timeout max_iterations llm_error tool_error guardrail_denied
        internal_error :
      Outcome

pub record Context : Type 0 where
  pub steps : List Step
  pub tool_max_retries : ℕ
  pub guardrail : Config
  pub guardrail_retry_count : ℕ
  pub final_answer : Option Bytes
  pub state : State
  pub outcome : Outcome
  pub last_error_code : ℤ
  pub outcome_reason : Bytes
  pub last_error_detail : Option Bytes
  pub tool_fail_name : Option Bytes
  pub tool_fail_args : Option Bytes
  pub tool_fail_count : ℕ
  pub empty_round_count : ℕ
  pub in_turn_compaction_count : ℕ
  pub incomplete_final_retry_count : ℕ
  pub is_cancelled : Bool

-- `react_step_create` for a step without a tool.
abbrev pub text_step : StepType → Bytes → Step
text_step t text = record {
  step_type = t;
  content = some text;
  error_code = pos 0;
  artifacts = [];
  tool_name = none;
}

unfoldable pub add_step : Context → Step → Context
add_step ctx s = record ctx { steps = ctx.steps ++ (s ∷ []) }

abbrev pub is_success : Outcome → Bool
is_success success = true
is_success undecided = false
is_success cancelled = false
is_success timeout = false
is_success max_iterations = false
is_success llm_error = false
is_success tool_error = false
is_success guardrail_denied = false
is_success internal_error = false

unfoldable pub set_result : Context → Outcome → ℤ → Bytes → Context
set_result ctx o error_code reason = record ctx {
  outcome = o;
  last_error_code = error_code;
  state = if is_success o then done else abort;
  outcome_reason = cut 64 reason;
}

unfoldable pub reset : Context → Context
reset ctx = record ctx {
  steps = [];
  state = init;
  outcome = undecided;
  last_error_code = pos 0;
  outcome_reason = [];
  last_error_detail = none;
  final_answer = none;
  tool_fail_name = none;
  tool_fail_args = none;
  tool_fail_count = 0;
  guardrail_retry_count = 0;
  empty_round_count = 0;
  in_turn_compaction_count = 0;
  incomplete_final_retry_count = 0;
  is_cancelled = false;
}

unfoldable pub cancel : Context → Context
cancel ctx = record ctx { is_cancelled = true }

abbrev pub is_done : State → Bool
is_done done = true
is_done init = false
is_done thinking = false
is_done acting = false
is_done observing = false
is_done checking = false
is_done finishing = false
is_done abort = false
is_done tool_fail = false

abbrev pub is_abort : State → Bool
is_abort abort = true
is_abort init = false
is_abort thinking = false
is_abort acting = false
is_abort observing = false
is_abort checking = false
is_abort finishing = false
is_abort done = false
is_abort tool_fail = false

abbrev pub is_undecided : Outcome → Bool
is_undecided undecided = true
is_undecided success = false
is_undecided cancelled = false
is_undecided timeout = false
is_undecided max_iterations = false
is_undecided llm_error = false
is_undecided tool_error = false
is_undecided guardrail_denied = false
is_undecided internal_error = false

-- `-ECANCELED`
abbrev pub ecanceled : ℤ
ecanceled = negsuc 124

-- The outcome of a run that has none yet.
unfoldable pub decide : Context → Context
unfolding set_result
decide ctx =
    if is_undecided ctx.outcome
    then (if is_done ctx.state
        then set_result ctx success (pos 0) []
        else if ctx.is_cancelled
        then set_result ctx cancelled ecanceled (codes "user_cancelled")
        else set_result ctx internal_error ecanceled (codes "internal_error"))
    else ctx

-- `react_finish`: the return code and the context.
unfoldable pub finish : Context → ℤ × Context
unfolding decide
finish ctx =
    let next = decide ctx in
    if is_success next.outcome
    then (pos 0, next)
    else (if is_negative next.last_error_code then next.last_error_code else ecanceled, next)

-- The failures of tools in a row, of one name and with the same arguments.
unfoldable pub count_failure : Context → Bytes → Bytes → ℤ → Context
count_failure ctx tool_name tool_args rc =
    let failed = record ctx { state = tool_fail } in
    let restarted = record failed {
      tool_fail_name = some tool_name;
      tool_fail_args = some tool_args;
      tool_fail_count = 1;
    } in
    if is_negative rc
    then elim ctx.tool_fail_name [
      | none ↦ restarted
      | some name ↦ elim ctx.tool_fail_args [
        | none ↦ restarted
        | some args ↦
            if str_eq tool_name name && str_eq tool_args args
            then record failed { tool_fail_count = ctx.tool_fail_count + 1 }
            else restarted
      ]
    ]
    else record ctx { tool_fail_name = none; tool_fail_args = none; tool_fail_count = 0 }

abbrev pub fail_message : Option Bytes → Bytes
fail_message name = cut 256 (
    codes "Tool '"
    ++ (elim name [ none ↦ codes "(unknown)" | some n ↦ n ]
        ++ codes "' repeatedly failed. Please try a different approach."))

-- The end that is forced on a run.
unfoldable pub force_final : Context → Context
unfolding add_step
force_final ctx =
    let text = fail_message ctx.tool_fail_name in
    record (add_step ctx (text_step final text)) {
      final_answer = some text;
      state = done;
      tool_fail_name = none;
      tool_fail_args = none;
      tool_fail_count = 0;
    }

-- `react_track_tool_failure`: whether the loop is to end, and the context.
unfoldable pub track_tool_failure : Context → Bytes → Bytes → ℤ → Bool × Context
unfolding count_failure force_final
track_tool_failure ctx tool_name tool_args rc =
    let next = count_failure ctx tool_name tool_args rc in
    if ltb next.tool_fail_count ctx.tool_max_retries
    then (false, next)
    else (true, force_final next)

abbrev is_observation : StepType → Bool
is_observation observation = true
is_observation thought = false
is_observation action = false
is_observation reflection = false
is_observation final = false
is_observation reasoning = false

-- The last observation of the steps, or the one given.
unfoldable pub last_observation : Option Step → List Step → Option Step
last_observation last [] = last
last_observation last (s ∷ ss) =
    last_observation (if is_observation s.step_type then some s else last) ss

abbrev pub no_final_answer : Bytes
no_final_answer = codes "Maximum iterations reached. No final answer produced."

-- The answer of a run whose iterations are used up.
unfoldable pub last_answer : Context → Bytes
unfolding last_observation
last_answer ctx = elim ctx.final_answer [
  | some answer ↦ answer
  | none ↦ elim (last_observation none ctx.steps) [
    | none ↦ no_final_answer
    | some o ↦ elim o.content [
      | none ↦ no_final_answer
      | some text ↦ if is_negative o.error_code then no_final_answer else text
    ]
  ]
]

unfoldable pub complete_max_iterations : Context → Context
unfolding last_answer set_result
complete_max_iterations ctx =
    if is_done ctx.state
    then ctx
    else if is_abort ctx.state
    then ctx
    else set_result (record ctx { final_answer = some (last_answer ctx) }) max_iterations
        (negsuc 268) (codes "max_iterations")
