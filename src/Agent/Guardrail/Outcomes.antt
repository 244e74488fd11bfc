-- ===== src/Agent/Guardrail/Outcomes.antt =====
-- src/agent/guardrail.c: what the tools of a run came to, and the rules on that.
pub mod Pairing
use multi_agent.Common.{
  ℕ, zero, suc, ◌+◌, ℤ, Bool, true, false, ◌&&◌, ◌||◌, not, Option, none, some, List, [], ◌∷◌, ◌++◌,
  Bytes, codes, length, ltb, if◌then◌else◌,
}
use multi_agent.Agent.Guardrail.{
  Verdict, pass, fail, StepType, thought, action, observation, reflection, final, reasoning, Step,
  EvalCtx, cut, refuse, is_negative, is_creative_tool,
}

pub record ToolOutcome : Type 0 where
  pub name : Bytes
  pub succeeded : Bool
  pub is_creative : Bool
  pub has_file_output : Bool

-- The tool of a step that is an action.
abbrev pub called_tool : Step → Option Bytes
called_tool s = elim s.step_type [
  | action ↦ s.tool_name
  | thought ↦ none
  | observation ↦ none
  | reflection ↦ none
  | final ↦ none
  | reasoning ↦ none
]

abbrev pub is_observation : StepType → Bool
is_observation observation = true
is_observation thought = false
is_observation action = false
is_observation reflection = false
is_observation final = false
is_observation reasoning = false

-- The next observation and the steps behind it.
unfoldable pub next_observation : List Step → Option (Step × List Step)
next_observation [] = none
next_observation (s ∷ ss) =
    let later = next_observation ss in if is_observation s.step_type then some (s, ss) else later

abbrev pub is_some_path : List Bytes → Bool
is_some_path [] = false
is_some_path (_ ∷ _) = true

-- What a call came to, with its observation where there is one.
abbrev pub outcome_of : Bytes → Option Step → ToolOutcome
outcome_of tool obs = record {
  name = cut 64 tool;
  succeeded = elim obs [ none ↦ false | some o ↦ not (is_negative o.error_code) ];
  is_creative = is_creative_tool tool;
  has_file_output = elim obs [
    | none ↦ false
    | some o ↦ not (is_negative o.error_code) && is_some_path o.artifacts
  ];
}

-- The loop over the steps, with the steps behind the last observation taken, and the room left.
unfoldable pub outcomes_from : List Step → List Step → ℕ → List ToolOutcome
unfolding is_creative_tool
outcomes_from [] obs_cursor room = []
outcomes_from (s ∷ ss) obs_cursor zero = []
outcomes_from (s ∷ ss) obs_cursor (suc room) = elim (called_tool s) [
  | none ↦ outcomes_from ss obs_cursor (suc room)
  | some tool ↦ elim (next_observation obs_cursor) [
    | none ↦ outcome_of tool none ∷ outcomes_from ss [] room
    | some (o, rest) ↦ outcome_of tool (some o) ∷ outcomes_from ss rest room
  ]
]

unfoldable pub build_tool_outcomes : List Step → ℕ → List ToolOutcome
build_tool_outcomes steps max_out = outcomes_from steps steps max_out

abbrev pub is_nil : Bytes → Bool
is_nil [] = true
is_nil (_ ∷ _) = false

-- `failed_names` with one name more, where it fits.
unfoldable pub add_failed : Bytes → Bytes → Bytes
add_failed names name =
    if ltb (length names + length name + 2) 256
    then names ++ ((if is_nil names then [] else codes ", ") ++ name)
    else names

-- The loop of `gr_tools_all_failed`: `all_failed` and `failed_names`.
unfoldable pub tally : Bool → Bytes → List ToolOutcome → Bool × Bytes
unfolding add_failed
tally all_failed names [] = (all_failed, names)
tally all_failed names (o ∷ os) =
    let after_success = tally false names os in
    let after_failure = tally all_failed (add_failed names o.name) os in
    if o.succeeded then after_success else after_failure

unfoldable pub tools_all_failed : EvalCtx → Verdict
unfolding tally build_tool_outcomes
tools_all_failed ctx = elim (build_tool_outcomes ctx.steps 64) [
  | [] ↦ pass
  | o ∷ os ↦
      let result = tally true [] (o ∷ os) in
      if result.0
      then refuse (
          codes "All tool calls failed ("
          ++ (result.1 ++ codes "). Check arguments or try different tools."))
      else pass
]

-- `any_creative`
unfoldable pub any_creative : List ToolOutcome → Bool
any_creative [] = false
any_creative (o ∷ os) = o.is_creative || any_creative os

-- `!creative_all_no_file`
unfoldable pub creative_file : List ToolOutcome → Bool
creative_file [] = false
creative_file (o ∷ os) = (o.is_creative && o.has_file_output) || creative_file os

unfoldable pub creative_no_media : EvalCtx → Verdict
unfolding any_creative creative_file build_tool_outcomes
creative_no_media ctx =
    let outcomes = build_tool_outcomes ctx.steps 64 in
    if any_creative outcomes && not (creative_file outcomes)
    then refuse (codes "Creative tools were called but no output files were produced.")
    else pass
