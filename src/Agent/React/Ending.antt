-- ===== src/Agent/React/Ending.antt =====
-- src/agent/react.c: the return code of a run.
use multi_agent.Common.{ℤ, pos, true, false, ◌≡◌, refl, sym, subst, ◌⊎◌, inl, inr, Bool-cases}
use multi_agent.Agent.Guardrail.{is_negative}
use multi_agent.Agent.React.{
  Context, is_success, is_undecided, is_done, ecanceled, set_result, decide, finish,
}

decide_decided : (ctx : Context) → is_undecided (decide ctx).outcome ≡ false
unfolding decide set_result
decide_decided ctx = elim (Bool-cases (is_undecided ctx.outcome)) [
  | inr decided ↦ rw (decide, decided) decided
  | inl open_yet ↦ elim (Bool-cases (is_done ctx.state)) [
    | inl at_end ↦ rw (decide, open_yet, at_end) refl
    | inr before ↦ elim (Bool-cases ctx.is_cancelled) [
      | inl stopped ↦ rw (decide, open_yet, before, stopped) refl
      | inr lost ↦ rw (decide, open_yet, before, lost) refl
    ]
  ]
]

-- What a run returns.
abbrev pub Returns : ℤ × Context → Type 0
Returns r =
    (is_undecided r.1.outcome ≡ false)
    × (((is_success r.1.outcome ≡ true) × (r.0 ≡ pos 0))
        ⊎ ((is_success r.1.outcome ≡ false) × (is_negative r.0 ≡ true)))

-- a run that react_finish ends has an outcome, and returns 0 if the outcome is a success and a negative code otherwise.
pub finish-Returns : (ctx : Context) → Returns (finish ctx)
unfolding finish
finish-Returns ctx = elim (Bool-cases (is_success (decide ctx).outcome)) [
  | inl fine ↦
      let run : finish ctx ≡ (pos 0, decide ctx) = rw (finish, fine) refl in
      subst Returns (sym run) (decide_decided ctx, inl (fine, refl))
  | inr failed ↦ elim (Bool-cases (is_negative (decide ctx).last_error_code)) [
    | inl coded ↦
        let run : finish ctx ≡ ((decide ctx).last_error_code, decide ctx) =
          rw (finish, failed, coded) refl in
        subst Returns (sym run) (decide_decided ctx, inr (failed, coded))
    | inr uncoded ↦
        let run : finish ctx ≡ (ecanceled, decide ctx) = rw (finish, failed, uncoded) refl in
        subst Returns (sym run) (decide_decided ctx, inr (failed, refl))
  ]
]
