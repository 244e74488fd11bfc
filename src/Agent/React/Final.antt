-- ===== src/Agent/React/Final.antt =====
-- src/agent/react.c: what becomes of a response without calls of tools.
--
-- The messages are those that the model gets next.
pub mod Retries
pub mod Answered
use multi_agent.Common.{
  ℕ, zero, suc, ◌+◌, ◌-◌, ◌*◌, ℤ, pos, negsuc, Bool, true, false, ◌&&◌, ◌||◌, not, Option, none,
  some, List, [], ◌∷◌, ◌++◌, Bytes, codes, str_eq, leb, ◌==◌, if◌then◌else◌,
}
use multi_agent.Agent.Guardrail.{
  Verdict, pass, fail, input, output, EvalCtx, reflection, thought, final, cut, at_least,
}
use multi_agent.Agent.Guardrail.Rules.{Rule, Config, Backends, run_hook}
use multi_agent.Agent.React.Marker.{
  is_tab, is_space, skip, trim_end, behind, same_case, lower_case, first_behind, behind_marker,
  find_final_marker, trimmed_thought, if_some_byte, split_legacy_final,
}
use multi_agent.Agent.React.{
  Context, checking, success, llm_error, guardrail_denied, text_step, add_step, set_result,
}

-- A message of a chat, without calls of tools.
pub record ChatMessage : Type 0 where
  pub role : Bytes
  pub content : Bytes

abbrev pub continuation_prefixes : List Bytes
continuation_prefixes =
    codes "let me understand"
    ∷ codes "let me inspect"
    ∷ codes "let me investigate"
    ∷ codes "let me check"
    ∷ codes "now let me"
    ∷ codes "i need to inspect"
    ∷ codes "i need to investigate"
    ∷ codes "i need to check"
    ∷ []

abbrev pub is_some : {A : Type 0} → Option A → Bool
is_some none = false
is_some (some a) = true

unfoldable pub is_continuation_note : Context → Bytes → Bool
unfolding first_behind skip
is_continuation_note ctx proposed =
    leb 1 ctx.in_turn_compaction_count
    && (ctx.incomplete_final_retry_count == 0
        && is_some (first_behind lower_case continuation_prefixes (skip is_space proposed)))

-- The two messages that ask the model again.
abbrev pub ask_again : List ChatMessage → Bytes → Bytes → List ChatMessage
ask_again messages proposed request =
    messages
    ++ (record { role = codes "assistant"; content = proposed }
        ∷ record { role = codes "user"; content = request }
        ∷ [])

abbrev pub retry_prompt : Bytes
retry_prompt =
    codes
      "Your previous response was a continuation note, not a completed answer. Continue the current task from the checkpoint and preserved recent tool results. Use tools if needed. Return a final answer only after the requested work is complete or a concrete blocker exists."

-- What `react_handle_guardrail_retry` returns: 0, 1 or 2.
pub data Decision : Type 0 where
  finalize again give_up : Decision

abbrev pub Decided : Type 0
Decided = Decision × Context × List ChatMessage

abbrev pub is_empty_answer : Bytes → Bool
is_empty_answer [] = true
is_empty_answer (c ∷ cs) = str_eq (c ∷ cs) (codes "(no response)")

abbrev pub out_of_retries : Context → Bool
out_of_retries ctx = at_least (pos ctx.guardrail_retry_count) ctx.guardrail.max_retries

abbrev pub out_of_rounds : Context → Bool
out_of_rounds ctx =
    at_least ctx.guardrail.max_empty_rounds (pos 1)
    && at_least (pos ctx.empty_round_count) ctx.guardrail.max_empty_rounds

abbrev pub empty_detail : Bytes
empty_detail = codes "LLM repeatedly returned an empty response."

abbrev pub action_of : Bytes → Option Rule → Bytes
action_of default none = default
action_of default (some r) = elim r.action_text [ [] ↦ default | c ∷ cs ↦ c ∷ cs ]

-- The part behind a verdict that is no pass.
unfoldable pub reject_answer : Context → Bytes → Bytes → Option Rule → List ChatMessage → Decided
unfolding set_result add_step
reject_answer ctx proposed reason rule messages =
    if is_empty_answer proposed && (out_of_retries ctx || out_of_rounds ctx)
    then (
      give_up,
      set_result
          (record ctx { final_answer = some empty_detail; last_error_detail = some empty_detail })
          llm_error (negsuc 267) (codes "empty_response"),
      messages,
    )
    else (
      again,
      add_step (record ctx { guardrail_retry_count = ctx.guardrail_retry_count + 1 })
          (text_step reflection reason),
      ask_again messages proposed (
          codes "Quality check failed: "
          ++ (reason ++ (10 ∷ action_of (codes "Try again using the available tools.") rule))),
    )

-- What the rules are asked about an answer.
abbrev pub answer_eval : Context → Bytes → EvalCtx
answer_eval ctx proposed = record {
  user_input = none;
  tool_name = none;
  tool_result = none;
  tool_error_code = pos 0;
  tool_artifacts = none;
  proposed_answer = some proposed;
  steps = ctx.steps;
  empty_round_count = pos ctx.empty_round_count;
  max_empty_rounds = ctx.guardrail.max_empty_rounds;
}

unfoldable pub judge_answer : Backends → Context → Bytes → List ChatMessage → Decided
unfolding reject_answer
judge_answer backends ctx proposed messages =
    let gr = run_hook backends ctx.guardrail output (answer_eval ctx proposed) in
    elim gr.verdict [
      | fail reason ↦ reject_answer ctx proposed reason gr.triggered_rule messages
      | pass ↦
          if is_empty_answer proposed
          then reject_answer ctx proposed (codes "The model returned an empty response.")
              gr.triggered_rule messages
          else (finalize, ctx, messages)
    ]

unfoldable pub handle_guardrail_retry : Backends → Context → Bytes → List ChatMessage → Decided
unfolding judge_answer
handle_guardrail_retry backends ctx proposed messages =
    if is_empty_answer proposed
    then judge_answer backends
        (record ctx { empty_round_count = ctx.empty_round_count + 1; state = checking }) proposed
        messages
    else if not ctx.guardrail.enabled
    then (finalize, ctx, messages)
    else if out_of_retries ctx
    then (finalize, record ctx { empty_round_count = 0 }, messages)
    else judge_answer backends (record ctx { empty_round_count = 0; state = checking }) proposed
        messages

-- Whether the loop ends, the context and the messages.
abbrev pub Handled : Type 0
Handled = Bool × Context × List ChatMessage

abbrev pub settle : Bytes → Decided → Handled
settle final_text (again, ctx, messages) = (false, ctx, messages)
settle final_text (give_up, ctx, messages) = (true, ctx, messages)
settle final_text (finalize, ctx, messages) = (
  true,
  set_result (record (add_step ctx (text_step final final_text)) { final_answer = some final_text })
      success (pos 0) [],
  messages,
)

abbrev pub with_thought : Context → Option Bytes → Context
with_thought ctx none = ctx
with_thought ctx (some text) = add_step ctx (text_step thought text)

unfoldable pub handle_final_text : Backends → Context → Bytes → List ChatMessage → Handled
unfolding is_continuation_note handle_guardrail_retry set_result add_step
handle_final_text backends ctx final_text messages =
    if is_continuation_note ctx final_text
    then (
      false,
      record ctx { incomplete_final_retry_count = ctx.incomplete_final_retry_count + 1 },
      ask_again messages final_text retry_prompt,
    )
    else settle final_text (handle_guardrail_retry backends ctx final_text messages)

unfoldable pub handle_final_response : Backends → Context → Bytes → List ChatMessage → Handled
unfolding split_legacy_final handle_final_text add_step
handle_final_response backends ctx proposed messages =
    let parts = split_legacy_final proposed in
    handle_final_text backends (with_thought ctx parts.0) parts.1 messages

-- What the rules are asked about the input of a user.
abbrev pub input_eval : Bytes → EvalCtx
input_eval user_input = record {
  user_input = some user_input;
  tool_name = none;
  tool_result = none;
  tool_error_code = pos 0;
  tool_artifacts = none;
  proposed_answer = none;
  steps = [];
  empty_round_count = pos 0;
  max_empty_rounds = pos 0;
}

-- `react_check_input_guardrail`: whether the input is denied, and the context.
unfoldable pub check_input_guardrail : Backends → Context → Bytes → Bool × Context
unfolding set_result add_step
check_input_guardrail backends ctx user_input =
    let gr = run_hook backends ctx.guardrail input (input_eval user_input) in
    if not ctx.guardrail.enabled then (false, ctx) else elim gr.verdict [
      | pass ↦ (false, ctx)
      | fail reason ↦
          let msg =
            cut 2048
              (codes "Input rejected: " ++ (reason ++ (10 ∷ action_of [] gr.triggered_rule))) in
          (
            true,
            set_result
                (record (add_step ctx (text_step reflection msg)) { final_answer = some msg })
                guardrail_denied (negsuc 0) (codes "guardrail_denied"),
          )
    ]
