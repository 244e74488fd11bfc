-- ===== src/Agent/React/Failures.antt =====
-- src/agent/react.c: when the failures of a tool end a run.
use multi_agent.Common.{
  ◌≤◌, ◌<◌, true, false, ◌&&◌, some, List, [], ◌∷◌, Bytes, str_eq, ltb, if◌then◌else◌, ◌≡◌, refl,
  sym, ap, ◌∙◌, subst, inl, inr, Bool-cases, Option-cases, arith, codes, take, ◌++◌,
}
use multi_agent.Agent.Guardrail.{is_negative}
use multi_agent.Agent.React.{
  done, final, Step, Context, text_step, add_step, fail_message, count_failure, force_final,
  track_tool_failure,
}
use multi_agent.Agent.React.Streak.{Call, streak, Counts, count_failure-Counts, counted_streak}

count_failure-kept :
    (ctx : Context) (c : Call)
    → ((count_failure ctx c.tool_name c.tool_args c.rc).steps ≡ ctx.steps)
      × ((count_failure ctx c.tool_name c.tool_args c.rc).final_answer ≡ ctx.final_answer)
unfolding count_failure
count_failure-kept ctx c = elim (Bool-cases (is_negative c.rc)) [
  | inr fine ↦ (rw (count_failure, fine) refl, rw (count_failure, fine) refl)
  | inl failed ↦ elim (Option-cases ctx.tool_fail_name) [
    | inl unnamed ↦
        (rw (count_failure, failed, unnamed) refl, rw (count_failure, failed, unnamed) refl)
    | inr (name, named) ↦ elim (Option-cases ctx.tool_fail_args) [
      | inl bare ↦ (
        rw (count_failure, failed, named, bare) refl,
        rw (count_failure, failed, named, bare) refl,
      )
      | inr (args, given) ↦ elim (Bool-cases (str_eq c.tool_name name && str_eq c.tool_args args)) [
        | inl same ↦ (
          rw (count_failure, failed, named, given, same) refl,
          rw (count_failure, failed, named, given, same) refl,
        )
        | inr other ↦ (
          rw (count_failure, failed, named, given, other) refl,
          rw (count_failure, failed, named, given, other) refl,
        )
      ]
    ]
  ]
]

-- The answer with which the loop gives up on the last call.
abbrev pub give_up : Call → Bytes
give_up c = take 255 (
    codes "Tool '"
    ++ ((if is_negative c.rc then c.tool_name else codes "(unknown)")
        ++ codes "' repeatedly failed. Please try a different approach."))

-- What a call leaves that does not end the loop.
abbrev pub StillOn : Context → Call → List Call → Context → Type 0
StillOn ctx c cs next =
    (next.steps ≡ ctx.steps) × (next.final_answer ≡ ctx.final_answer) × Counts next (c ∷ cs)

-- What a call leaves that ends the loop: one more step, which is a final one and holds the answer.
pub record GaveUp (ctx : Context) (c : Call) (next : Context) : Type 0 where
  pub answer_is : next.final_answer ≡ some (give_up c)
  pub is_done : next.state ≡ done
  pub last_step : Step
  pub steps_are : next.steps ≡ ctx.steps ++ (last_step ∷ [])
  pub last_is_final : last_step.step_type ≡ final
  pub last_says : last_step.content ≡ some (give_up c)
  pub counts_again : Counts next []

fail_message_lem :
    (ctx : Context) (c : Call) (cs : List Call)
    → Counts ctx (c ∷ cs)
    → fail_message ctx.tool_fail_name ≡ give_up c
fail_message_lem ctx c cs (counted, named, unnamed) = elim (Bool-cases (is_negative c.rc)) [
  | inl failed ↦ ap fail_message (named failed).0 ∙ rw failed refl
  | inr fine ↦ ap fail_message (unnamed fine) ∙ rw fine refl
]

force_final-GaveUp :
    (ctx next : Context) (c : Call) (cs : List Call)
    → Counts next (c ∷ cs)
    → next.steps ≡ ctx.steps
    → GaveUp ctx c (force_final next)
unfolding force_final add_step
force_final-GaveUp ctx next c cs counts same = record {
  answer_is = ap some (fail_message_lem next c cs counts);
  is_done = refl;
  last_step = text_step final (fail_message next.tool_fail_name);
  steps_are = ap (λ ss. ss ++ (text_step final (fail_message next.tool_fail_name) ∷ [])) same;
  last_is_final = refl;
  last_says = ap some (fail_message_lem next c cs counts);
  counts_again = (refl, refl);
}

-- where the count of failures is that of the calls so far, react_track_tool_failure goes on after a further call while the failures in a row of one tool with the same arguments, which end with that call, are fewer than tool_max_retries: the steps and the answer are as they were, and the count is that of all the calls. Once they are as many, the loop ends: the state is done, the answer is "Tool '...' repeatedly failed. Please try a different approach.", cut to 255 bytes, with the name of the tool or, if the call has not failed, "(unknown)", one further step, a final one with this text, follows the steps before, and the counts start again.
pub track_tool_failure_lem :
    (ctx : Context) (c : Call) (cs : List Call)
    → Counts ctx cs
    → (streak (c ∷ cs) < ctx.tool_max_retries
        → ((track_tool_failure ctx c.tool_name c.tool_args c.rc).0 ≡ false)
          × StillOn ctx c cs (track_tool_failure ctx c.tool_name c.tool_args c.rc).1)
      × (ctx.tool_max_retries ≤ streak (c ∷ cs)
          → ((track_tool_failure ctx c.tool_name c.tool_args c.rc).0 ≡ true)
            × GaveUp ctx c (track_tool_failure ctx c.tool_name c.tool_args c.rc).1)
unfolding track_tool_failure
track_tool_failure_lem ctx c cs counts = (
  λ below.
      let test : ltb next.tool_fail_count ctx.tool_max_retries ≡ true =
        subst (λ n. ltb n ctx.tool_max_retries ≡ true) (sym counted) (ground arith) in
      let run : track_tool_failure ctx c.tool_name c.tool_args c.rc ≡ (false, next) =
        rw (track_tool_failure, test) refl in
      (ap (λ r. r.0) run, subst (λ r. StillOn ctx c cs r.1) (sym run) (kept.0, kept.1, recounted)),
  λ reached.
      let test : ltb next.tool_fail_count ctx.tool_max_retries ≡ false =
        subst (λ n. ltb n ctx.tool_max_retries ≡ false) (sym counted) (ground arith) in
      let run : track_tool_failure ctx c.tool_name c.tool_args c.rc ≡ (true, force_final next) =
        rw (track_tool_failure, test) refl in
      (
        ap (λ r. r.0) run,
        subst (λ r. GaveUp ctx c r.1) (sym run) (force_final-GaveUp ctx next c cs recounted kept.0),
      ),
)
  where
    next : Context
    next = count_failure ctx c.tool_name c.tool_args c.rc

    kept : (next.steps ≡ ctx.steps) × (next.final_answer ≡ ctx.final_answer)
    kept = count_failure-kept ctx c

    recounted : Counts next (c ∷ cs)
    recounted = count_failure-Counts ctx c cs counts

    counted : next.tool_fail_count ≡ streak (c ∷ cs)
    counted = counted_streak ctx c cs counts
