-- ===== src/Agent/React/Final/Retries.antt =====
-- src/agent/react.c: how often the model is asked for another answer.
use mathlib.Core.Bool.{true≢false}
use multi_agent.Common.{
  ℕ, ◌+◌, ◌-◌, ◌≤◌, ◌<◌, ℤ, pos, negsuc, true, false, ◌&&◌, ◌||◌, &&-true, Option, none, some, List,
  [], ◌∷◌, Bytes, codes, length, ◌==◌, ◌≡◌, refl, sym, ◌∙◌, subst, ◌⊎◌, inl, inr, Bool-cases, arith,
}
use multi_agent.Agent.Guardrail.{Verdict-cases, output, at_least}
use multi_agent.Agent.Guardrail.Rules.{Rule, Backends, run_hook}
use multi_agent.Agent.React.{Context, checking, add_step}
use multi_agent.Agent.React.Marker.{split_legacy_final}
use multi_agent.Agent.React.Final.{
  ChatMessage, finalize, again, give_up, Decided, Handled, is_empty_answer, out_of_retries,
  out_of_rounds, answer_eval, reject_answer, judge_answer, handle_guardrail_retry, settle,
  is_continuation_note, handle_final_text, handle_final_response, with_thought,
}

-- The retries that a configuration allows.
abbrev pub retry_limit : ℤ → ℕ
retry_limit (pos n) = n
retry_limit (negsuc n) = 0

-- The further answers that can be asked for: those of the rules, and the one for a note.
abbrev pub budget : Context → ℕ
budget ctx =
    (retry_limit ctx.guardrail.max_retries - ctx.guardrail_retry_count)
    + (1 - ctx.incomplete_final_retry_count)

-- A context with less left, and the same limit.
abbrev pub Spent : Context → Context → Type 0
Spent ctx next =
    (budget next < budget ctx) × (next.guardrail.max_retries ≡ ctx.guardrail.max_retries)

within_limit : (n : ℕ) (limit : ℤ) → at_least (pos n) limit ≡ false → n < retry_limit limit
within_limit n (pos m) h = ground arith
within_limit n (negsuc m) h = absurd (ground (arith, h))

-- Where another answer is asked for, less is left.
abbrev pub Spends : Context → Decided → Type 0
Spends ctx r = r.0 ≡ again → Spent ctx r.1

-- An empty answer is given up where no retry is left.
retries_left :
    (ctx : Context) (proposed : Bytes)
    → (is_empty_answer proposed && (out_of_retries ctx || out_of_rounds ctx)) ≡ false
    → (is_empty_answer proposed ≡ true) ⊎ (out_of_retries ctx ≡ false)
    → out_of_retries ctx ≡ false
retries_left ctx proposed h (inr left) = left
retries_left ctx proposed h (inl empty) = elim (Bool-cases (out_of_retries ctx)) [
  | inr left ↦ left
  | inl over ↦ absurd (true≢false (sym (rw (empty, over) refl) ∙ h))
]

reject_answer-Spends :
    (ctx : Context) (proposed reason : Bytes) (rule : Option Rule) (messages : List ChatMessage)
    → (is_empty_answer proposed ≡ true) ⊎ (out_of_retries ctx ≡ false)
    → Spends ctx (reject_answer ctx proposed reason rule messages)
unfolding reject_answer add_step
reject_answer-Spends ctx proposed reason rule messages asks =
    elim (Bool-cases (is_empty_answer proposed && (out_of_retries ctx || out_of_rounds ctx))) [
      | inl stop ↦ rw (reject_answer, stop) (λ asked. absurd (ground (arith, asked)))
      | inr go ↦
          let below : ctx.guardrail_retry_count < retry_limit ctx.guardrail.max_retries =
            within_limit ctx.guardrail_retry_count ctx.guardrail.max_retries
              (retries_left ctx proposed go asks) in
          rw (reject_answer, go) (λ asked. (omega arith, refl))
    ]

judge_answer-Spends :
    (backends : Backends) (ctx : Context) (proposed : Bytes) (messages : List ChatMessage)
    → (is_empty_answer proposed ≡ true) ⊎ (out_of_retries ctx ≡ false)
    → Spends ctx (judge_answer backends ctx proposed messages)
unfolding judge_answer
judge_answer-Spends backends ctx proposed messages asks =
    let gr = run_hook backends ctx.guardrail output (answer_eval ctx proposed) in
    elim (Verdict-cases gr.verdict) [
      | inr (reason, refused) ↦
          let run : judge_answer backends ctx proposed messages
              ≡ reject_answer ctx proposed reason gr.triggered_rule messages =
            rw (judge_answer, refused) refl in
          subst (Spends ctx) (sym run)
            (reject_answer-Spends ctx proposed reason gr.triggered_rule messages asks)
      | inl fine ↦ elim (Bool-cases (is_empty_answer proposed)) [
        | inl empty ↦
            let run : judge_answer backends ctx proposed messages
                ≡ reject_answer ctx proposed (codes "The model returned an empty response.")
                    gr.triggered_rule messages =
              rw (judge_answer, fine, empty) refl in
            subst (Spends ctx) (sym run) (
              reject_answer-Spends ctx proposed (codes "The model returned an empty response.")
                gr.triggered_rule messages asks)
        | inr some_text ↦
            rw (judge_answer, fine, some_text) (λ asked. absurd (ground (arith, asked)))
      ]
    ]

handle_guardrail_retry-Spends :
    (backends : Backends) (ctx : Context) (proposed : Bytes) (messages : List ChatMessage)
    → Spends ctx (handle_guardrail_retry backends ctx proposed messages)
unfolding handle_guardrail_retry
handle_guardrail_retry-Spends backends ctx proposed messages =
    elim (Bool-cases (is_empty_answer proposed)) [
      | inl empty ↦
          let asking = record ctx {
            empty_round_count = ctx.empty_round_count + 1;
            state = checking;
          } in
          let run : handle_guardrail_retry backends ctx proposed messages
              ≡ judge_answer backends asking proposed messages =
            rw (handle_guardrail_retry, empty) refl in
          subst (Spends ctx) (sym run)
            (judge_answer-Spends backends asking proposed messages (inl empty))
      | inr some_text ↦ elim (Bool-cases ctx.guardrail.enabled) [
        | inr off ↦
            rw (handle_guardrail_retry, some_text, off) (λ asked. absurd (ground (arith, asked)))
        | inl on ↦ elim (Bool-cases (out_of_retries ctx)) [
          | inl over ↦
              rw (handle_guardrail_retry, some_text, on, over)
                (λ asked. absurd (ground (arith, asked)))
          | inr left ↦
              let asking = record ctx { empty_round_count = 0; state = checking } in
              let run : handle_guardrail_retry backends ctx proposed messages
                  ≡ judge_answer backends asking proposed messages =
                rw (handle_guardrail_retry, some_text, on, left) refl in
              subst (Spends ctx) (sym run)
                (judge_answer-Spends backends asking proposed messages (inr left))
        ]
      ]
    ]

-- A response that does not end the loop leaves less.
abbrev pub Handles : Context → Handled → Type 0
Handles ctx r = r.0 ≡ false → Spent ctx r.1

settle-Handles :
    (ctx : Context) (final_text : Bytes) (d : Decided)
    → Spends ctx d
    → Handles ctx (settle final_text d)
settle-Handles ctx final_text (again, next, messages) spends = λ goes_on. spends refl
settle-Handles ctx final_text (give_up, next, messages) spends =
    λ goes_on. absurd (true≢false goes_on)
settle-Handles ctx final_text (finalize, next, messages) spends =
    λ goes_on. absurd (true≢false goes_on)

is_first : (n : ℕ) → (n == 0) ≡ true → n ≡ 0
is_first n h = ground arith

-- A note is retried once.
first_note :
    (ctx : Context) (text : Bytes)
    → is_continuation_note ctx text ≡ true
    → ctx.incomplete_final_retry_count ≡ 0
unfolding is_continuation_note
first_note ctx text note =
    is_first ctx.incomplete_final_retry_count (&&-true _ _ (&&-true _ _ note).1).0

handle_final_text-Handles :
    (backends : Backends) (ctx : Context) (final_text : Bytes) (messages : List ChatMessage)
    → Handles ctx (handle_final_text backends ctx final_text messages)
unfolding handle_final_text
handle_final_text-Handles backends ctx final_text messages =
    elim (Bool-cases (is_continuation_note ctx final_text)) [
      | inr other ↦
          rw (handle_final_text, other)
            (settle-Handles ctx final_text (handle_guardrail_retry backends ctx final_text messages)
              (handle_guardrail_retry-Spends backends ctx final_text messages))
      | inl note ↦
          rw (handle_final_text, note)
            (λ goes_on. (omega (arith, first_note ctx final_text note), refl))
    ]

handle_final_response-Handles :
    (backends : Backends) (ctx : Context) (proposed : Bytes) (messages : List ChatMessage)
    → Handles ctx (handle_final_response backends ctx proposed messages)
unfolding handle_final_response add_step
handle_final_response-Handles backends ctx proposed messages =
    with_note (split_legacy_final proposed)
  where
    with_note :
        (parts : Option Bytes × Bytes)
        → Handles ctx (handle_final_text backends (with_thought ctx parts.0) parts.1 messages)
    with_note (none, text) = handle_final_text-Handles backends ctx text messages
    with_note (some note, text) =
        handle_final_text-Handles backends (with_thought ctx (some note)) text messages

-- Responses one after the other that do not end the loop.
abbrev pub GoesOn : Backends → Context → List ChatMessage → List Bytes → Type 0
GoesOn backends ctx messages [] = Unit {0}
GoesOn backends ctx messages (text ∷ texts) =
    ((handle_final_response backends ctx text messages).0 ≡ false)
    × GoesOn backends (handle_final_response backends ctx text messages).1
        (handle_final_response backends ctx text messages).2 texts

GoesOn-budget :
    (backends : Backends) (ctx : Context) (messages : List ChatMessage) (texts : List Bytes)
    → GoesOn backends ctx messages texts
    → length texts ≤ budget ctx
GoesOn-budget backends ctx messages [] h = omega arith
GoesOn-budget backends ctx messages (text ∷ texts) (h, more) = omega (
  arith,
  (handle_final_response-Handles backends ctx text messages h).0,
  GoesOn-budget backends (handle_final_response backends ctx text messages).1
      (handle_final_response backends ctx text messages).2 texts more,
)

-- from a context whose counts of retries are 0, at most one response more than guardrail.max_retries (0 if it is negative) goes by without ending the loop, whatever texts the model gives one after the other and whatever its rules say.
pub handle_final_response-GoesOn :
    (backends : Backends) (ctx : Context) (messages : List ChatMessage) (texts : List Bytes)
    → ctx.guardrail_retry_count ≡ 0
    → ctx.incomplete_final_retry_count ≡ 0
    → GoesOn backends ctx messages texts
    → length texts ≤ retry_limit ctx.guardrail.max_retries + 1
handle_final_response-GoesOn backends ctx messages texts no_retry no_note goes =
    omega (arith, GoesOn-budget backends ctx messages texts goes)
