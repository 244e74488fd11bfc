-- ===== src/Agent/React/Final/Answered.antt =====
-- src/agent/react.c: which answers end a run.
use mathlib.Core.Bool.{true≢false}
use multi_agent.Common.{
  ◌+◌, pos, negsuc, true, false, ◌&&◌, ◌||◌, Option, some, List, [], ◌∷◌, ◌++◌, Bytes, codes, ◌≡◌,
  refl, sym, ◌∙◌, subst, ◌⊎◌, inl, inr, Bool-cases, arith,
}
use multi_agent.Agent.Guardrail.{Verdict-cases, pass, output, Step, final}
use multi_agent.Agent.Guardrail.Rules.{Rule, Backends, run_hook}
use multi_agent.Agent.React.{
  Context, checking, success, llm_error, text_step, add_step, set_result, finish, decide,
}
use multi_agent.Agent.React.Marker.{split_legacy_final}
use multi_agent.Agent.React.Final.{
  ChatMessage, finalize, again, give_up, Decided, Handled, is_empty_answer, out_of_retries,
  out_of_rounds, answer_eval, empty_detail, reject_answer, judge_answer, handle_guardrail_retry,
  settle, is_continuation_note, handle_final_text, handle_final_response, with_thought,
}

-- The output hook passes an answer, where the rules are on and have retries left.
abbrev pub IsPassed : Backends → Context → Bytes → Type 0
IsPassed backends ctx text =
    ctx.guardrail.enabled ≡ true
    → out_of_retries ctx ≡ false
    → (run_hook backends ctx.guardrail output
        (answer_eval (record ctx { empty_round_count = 0 }) text)).verdict
      ≡ pass

-- What a decision to end the loop rests on.
abbrev pub Grounded : Backends → Context → Bytes → Decided → Type 0
Grounded backends ctx text d =
    (d.0 ≡ finalize → (is_empty_answer text ≡ false) × IsPassed backends ctx text)
    × (d.0 ≡ give_up
        → (d.1.outcome ≡ llm_error)
          × (d.1.final_answer ≡ some empty_detail)
          × (d.1.last_error_code ≡ negsuc 267))

reject_answer-Grounded :
    (backends : Backends) (ctx asked : Context) (text reason : Bytes) (rule : Option Rule)
    (messages : List ChatMessage)
    → Grounded backends ctx text (reject_answer asked text reason rule messages)
unfolding reject_answer set_result
reject_answer-Grounded backends ctx asked text reason rule messages =
    elim (Bool-cases (is_empty_answer text && (out_of_retries asked || out_of_rounds asked))) [
      | inl stop ↦
          rw (reject_answer, stop) (λ e. absurd (ground (arith, e)), λ e. (refl, refl, refl))
      | inr go ↦
          rw (reject_answer, go) (λ e. absurd (ground (arith, e)), λ e. absurd (ground (arith, e)))
    ]

-- The part behind the first guards, where it is asked with a context that differs in the state.
judge_answer-Grounded :
    (backends : Backends) (ctx asked : Context) (text : Bytes) (messages : List ChatMessage)
    → (is_empty_answer text ≡ false
        → (run_hook backends asked.guardrail output (answer_eval asked text)).verdict ≡ pass
        → IsPassed backends ctx text)
    → Grounded backends ctx text (judge_answer backends asked text messages)
unfolding judge_answer
judge_answer-Grounded backends ctx asked text messages agrees =
    let gr = run_hook backends asked.guardrail output (answer_eval asked text) in
    elim (Verdict-cases gr.verdict) [
      | inr (reason, refused) ↦
          let run : judge_answer backends asked text messages
              ≡ reject_answer asked text reason gr.triggered_rule messages =
            rw (judge_answer, refused) refl in
          subst (Grounded backends ctx text) (sym run)
            (reject_answer-Grounded backends ctx asked text reason gr.triggered_rule messages)
      | inl fine ↦ elim (Bool-cases (is_empty_answer text)) [
        | inl empty ↦
            let run : judge_answer backends asked text messages
                ≡ reject_answer asked text (codes "The model returned an empty response.")
                    gr.triggered_rule messages =
              rw (judge_answer, fine, empty) refl in
            subst (Grounded backends ctx text) (sym run) (
              reject_answer-Grounded backends ctx asked text
                (codes "The model returned an empty response.") gr.triggered_rule messages)
        | inr some_text ↦
            let run : judge_answer backends asked text messages ≡ (finalize, asked, messages) =
              rw (judge_answer, fine, some_text) refl in
            subst (Grounded backends ctx text) (sym run)
              (λ e. (some_text, agrees some_text fine), λ e. absurd (ground (arith, e)))
      ]
    ]

handle_guardrail_retry-Grounded :
    (backends : Backends) (ctx : Context) (text : Bytes) (messages : List ChatMessage)
    → Grounded backends ctx text (handle_guardrail_retry backends ctx text messages)
unfolding handle_guardrail_retry
handle_guardrail_retry-Grounded backends ctx text messages =
    elim (Bool-cases (is_empty_answer text)) [
      | inl empty ↦
          let asking = record ctx {
            empty_round_count = ctx.empty_round_count + 1;
            state = checking;
          } in
          let run : handle_guardrail_retry backends ctx text messages
              ≡ judge_answer backends asking text messages =
            rw (handle_guardrail_retry, empty) refl in
          subst (Grounded backends ctx text) (sym run) (
            judge_answer-Grounded backends ctx asking text messages
              (λ some_text fine. absurd (true≢false (sym empty ∙ some_text))))
      | inr some_text ↦ elim (Bool-cases ctx.guardrail.enabled) [
        | inr off ↦
            let run : handle_guardrail_retry backends ctx text messages
                ≡ (finalize, ctx, messages) =
              rw (handle_guardrail_retry, some_text, off) refl in
            subst (Grounded backends ctx text) (sym run) (
              λ e. (some_text, λ on left. absurd (true≢false (sym on ∙ off))),
              λ e. absurd (ground (arith, e)),
            )
        | inl on ↦ elim (Bool-cases (out_of_retries ctx)) [
          | inl over ↦
              let run : handle_guardrail_retry backends ctx text messages
                  ≡ (finalize, record ctx { empty_round_count = 0 }, messages) =
                rw (handle_guardrail_retry, some_text, on, over) refl in
              subst (Grounded backends ctx text) (sym run) (
                λ e. (some_text, λ still left. absurd (true≢false (sym over ∙ left))),
                λ e. absurd (ground (arith, e)),
              )
          | inr left ↦
              let asking = record ctx { empty_round_count = 0; state = checking } in
              let run : handle_guardrail_retry backends ctx text messages
                  ≡ judge_answer backends asking text messages =
                rw (handle_guardrail_retry, some_text, on, left) refl in
              subst (Grounded backends ctx text) (sym run) (
                judge_answer-Grounded backends ctx asking text messages
                  (λ some_bytes fine still_on still_left. fine))
        ]
      ]
    ]

-- A run that has ended with an answer, and one that has ended without.
abbrev pub Answered : Backends → Context → Bytes → Context → Type 0
Answered backends ctx text next =
    (next.outcome ≡ success)
    × (next.final_answer ≡ some text)
    × ((before : List Step) × (next.steps ≡ before ++ (text_step final text ∷ [])))
    × ((finish next).0 ≡ pos 0)
    × (is_empty_answer text ≡ false)
    × IsPassed backends ctx text

abbrev pub Unanswered : Context → Type 0
Unanswered next =
    (next.outcome ≡ llm_error)
    × (next.final_answer ≡ some empty_detail)
    × ((finish next).0 ≡ negsuc 267)

abbrev pub Ends : Backends → Context → Bytes → Handled → Type 0
Ends backends ctx text r = r.0 ≡ true → Answered backends ctx text r.1 ⊎ Unanswered r.1

finish-llm_error :
    (ctx : Context)
    → ctx.outcome ≡ llm_error
    → ctx.last_error_code ≡ negsuc 267
    → (finish ctx).0 ≡ negsuc 267
unfolding finish decide
finish-llm_error ctx h k = rw (finish, decide, h, k) refl

settle-Ends :
    (backends : Backends) (ctx : Context) (text : Bytes) (d : Decided)
    → Grounded backends ctx text d
    → Ends backends ctx text (settle text d)
unfolding finish decide set_result add_step
settle-Ends backends ctx text (again, next, messages) grounded =
    λ ends. absurd (true≢false (sym ends))
settle-Ends backends ctx text (give_up, next, messages) grounded =
    let why = grounded.1 refl in λ ends. inr (why.0, why.1, finish-llm_error next why.0 why.2)
settle-Ends backends ctx text (finalize, next, messages) grounded =
    let why = grounded.0 refl in λ ends. inl (refl, refl, (next.steps, refl), refl, why.0, why.1)

handle_final_text-Ends :
    (backends : Backends) (ctx : Context) (text : Bytes) (messages : List ChatMessage)
    → Ends backends ctx text (handle_final_text backends ctx text messages)
unfolding handle_final_text
handle_final_text-Ends backends ctx text messages =
    elim (Bool-cases (is_continuation_note ctx text)) [
      | inl note ↦ rw (handle_final_text, note) (λ ends. absurd (true≢false (sym ends)))
      | inr other ↦
          let run : handle_final_text backends ctx text messages
              ≡ settle text (handle_guardrail_retry backends ctx text messages) =
            rw (handle_final_text, other) refl in
          subst (Ends backends ctx text) (sym run) (
            settle-Ends backends ctx text (handle_guardrail_retry backends ctx text messages)
              (handle_guardrail_retry-Grounded backends ctx text messages))
    ]

-- where react_handle_final_response ends the loop, there are two cases. Either the final text of the response, which is neither empty nor "(no response)", is the answer and the last step, react_finish returns 0, and the output hook of the rules passes it if they are on and have retries left; or the outcome is an error of the model, the answer says that its responses were empty, and react_finish returns MORPH_ERR_LLM.
pub handle_final_response-Ends :
    (backends : Backends) (ctx : Context) (proposed : Bytes) (messages : List ChatMessage)
    → (handle_final_response backends ctx proposed messages).0 ≡ true
    → Answered backends
        (with_thought ctx (split_legacy_final proposed).0)
        (split_legacy_final proposed).1
        (handle_final_response backends ctx proposed messages).1
      ⊎ Unanswered (handle_final_response backends ctx proposed messages).1
unfolding handle_final_response
handle_final_response-Ends backends ctx proposed messages =
    handle_final_text-Ends backends (with_thought ctx (split_legacy_final proposed).0)
      (split_legacy_final proposed).1 messages
