-- ===== src/Agent/React/Streak.antt =====
-- src/agent/react.c: the count of the failures in a row of one tool.
use mathlib.Core.Bool.{true≢false}
use multi_agent.Common.{
  ℕ, ◌+◌, ℤ, Bool, true, false, ◌&&◌, none, some, List, [], ◌∷◌, Bytes, str_eq, str_eq_iff, &&-true,
  if◌then◌else◌, ◌≡◌, refl, sym, ap, ◌∙◌, subst, inl, inr, Bool-cases,
}
use multi_agent.Agent.Guardrail.{is_negative}
use multi_agent.Agent.React.{tool_fail, Context, count_failure}

-- What a call of a tool came to.
pub record Call : Type 0 where
  pub tool_name : Bytes
  pub tool_args : Bytes
  pub rc : ℤ

abbrev pub same_call : Call → Call → Bool
same_call a b = str_eq a.tool_name b.tool_name && str_eq a.tool_args b.tool_args

-- The failures at the head of a list, the last call first, that are of one call.
abbrev pub streak : List Call → ℕ
streak [] = 0
streak (c ∷ []) = if is_negative c.rc then 1 else 0
streak (c ∷ d ∷ cs) =
    if is_negative c.rc
    then (if is_negative d.rc && same_call c d then streak (d ∷ cs) + 1 else 1)
    else 0

-- The fields of a context tell the streak of the calls so far.
abbrev pub Counts : Context → List Call → Type 0
Counts ctx [] = (ctx.tool_fail_name ≡ none) × (ctx.tool_fail_count ≡ 0)
Counts ctx (c ∷ cs) =
    (ctx.tool_fail_count ≡ streak (c ∷ cs))
    × (is_negative c.rc ≡ true
        → (ctx.tool_fail_name ≡ some c.tool_name) × (ctx.tool_fail_args ≡ some c.tool_args))
    × (is_negative c.rc ≡ false → ctx.tool_fail_name ≡ none)

streak_fine : (c : Call) (cs : List Call) → is_negative c.rc ≡ false → streak (c ∷ cs) ≡ 0
streak_fine c [] fine = rw fine refl
streak_fine c (d ∷ cs) fine = rw fine refl

after_success :
    (ctx : Context) (c : Call) (cs : List Call)
    → is_negative c.rc ≡ false
    → Counts (count_failure ctx c.tool_name c.tool_args c.rc) (c ∷ cs)
unfolding count_failure
after_success ctx c cs fine =
    let run : count_failure ctx c.tool_name c.tool_args c.rc
        ≡ record ctx { tool_fail_name = none; tool_fail_args = none; tool_fail_count = 0 } =
      rw (count_failure, fine) refl in
    subst (λ x. Counts x (c ∷ cs)) (sym run)
      (
        sym (streak_fine c cs fine),
        λ failed. absurd (true≢false (sym failed ∙ fine)),
        λ still. refl,
      )

-- A context that counts a first failure.
abbrev restarted : Context → Call → Context
restarted ctx c = record ctx {
  state = tool_fail;
  tool_fail_name = some c.tool_name;
  tool_fail_args = some c.tool_args;
  tool_fail_count = 1;
}

restarted-Counts :
    (ctx : Context) (c : Call) (cs : List Call)
    → is_negative c.rc ≡ true
    → count_failure ctx c.tool_name c.tool_args c.rc ≡ restarted ctx c
    → streak (c ∷ cs) ≡ 1
    → Counts (count_failure ctx c.tool_name c.tool_args c.rc) (c ∷ cs)
restarted-Counts ctx c cs failed run one =
    subst (λ x. Counts x (c ∷ cs)) (sym run)
      (sym one, λ still. (refl, refl), λ fine. absurd (true≢false (sym failed ∙ fine)))

same_names :
    (a b : Call) → same_call a b ≡ true → (a.tool_name ≡ b.tool_name) × (a.tool_args ≡ b.tool_args)
same_names a b h =
    let both = &&-true (str_eq a.tool_name b.tool_name) (str_eq a.tool_args b.tool_args) h in
    ((str_eq_iff a.tool_name b.tool_name).0 both.0, (str_eq_iff a.tool_args b.tool_args).0 both.1)

after_failure :
    (ctx : Context) (c : Call) (cs : List Call)
    → is_negative c.rc ≡ true
    → Counts ctx cs
    → Counts (count_failure ctx c.tool_name c.tool_args c.rc) (c ∷ cs)
unfolding count_failure
after_failure ctx c [] failed (unnamed, none_yet) =
    restarted-Counts ctx c [] failed (rw (count_failure, failed, unnamed) refl) (rw failed refl)
after_failure ctx c (d ∷ cs) failed (counted, named, unnamed) =
    elim (Bool-cases (is_negative d.rc)) [
      | inr fine ↦
          restarted-Counts ctx c (d ∷ cs) failed (rw (count_failure, failed, unnamed fine) refl)
            (rw (failed, fine) refl)
      | inl before ↦ elim (Bool-cases (same_call c d)) [
        | inr other ↦
            restarted-Counts ctx c (d ∷ cs) failed
              (rw (count_failure, failed, (named before).0, (named before).1, other) refl)
              (rw (failed, before, other) refl)
        | inl same ↦
            let alike = same_names c d same in
            let name = (named before).0 in
            let args = (named before).1 in
            let grown : streak (c ∷ d ∷ cs) ≡ streak (d ∷ cs) + 1 =
              rw (failed, before, same) refl in
            let counts : (count_failure ctx c.tool_name c.tool_args c.rc).tool_fail_count
                ≡ ctx.tool_fail_count + 1 =
              rw (count_failure, failed, name, args, same) refl in
            (
              counts ∙ (ap (λ n. n + 1) counted ∙ sym grown),
              λ still. (
                rw (count_failure, failed, name, args, same) (name ∙ ap some (sym alike.0)),
                rw (count_failure, failed, name, args, same) (args ∙ ap some (sym alike.1)),
              ),
              λ fine. absurd (true≢false (sym failed ∙ fine)),
            )
      ]
    ]

pub count_failure-Counts :
    (ctx : Context) (c : Call) (cs : List Call)
    → Counts ctx cs
    → Counts (count_failure ctx c.tool_name c.tool_args c.rc) (c ∷ cs)
count_failure-Counts ctx c cs counts = elim (Bool-cases (is_negative c.rc)) [
  | inl failed ↦ after_failure ctx c cs failed counts
  | inr fine ↦ after_success ctx c cs fine
]

pub counted_streak :
    (ctx : Context) (c : Call) (cs : List Call)
    → Counts ctx cs
    → (count_failure ctx c.tool_name c.tool_args c.rc).tool_fail_count ≡ streak (c ∷ cs)
counted_streak ctx c cs counts = (count_failure-Counts ctx c cs counts).0
