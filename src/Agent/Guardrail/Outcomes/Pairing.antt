-- ===== src/Agent/Guardrail/Outcomes/Pairing.antt =====
-- src/agent/guardrail.c: which observation belongs to which call of a tool.
use multi_agent.Common.{
  ℕ, zero, suc, ◌<◌, Bool, true, false, none, some, List, [], ◌∷◌, ◌++◌, codes, Bytes, get_elem?,
  take, if◌then◌else◌, ◌≡◌, refl, sym, ap, ◌∙◌, ◌↔◌, ◌⊎◌, inl, inr, Bool-cases, Option-cases, arith,
}
use mathlib.Core.Bool.{true≢false}
use mathlib.Core.Option.{some-injective}
use multi_agent.Agent.Guardrail.{refuse, Step, EvalCtx, Verdict, pass, is_negative}
use multi_agent.Agent.Guardrail.Outcomes.{
  ToolOutcome, called_tool, is_observation, next_observation, outcome_of, outcomes_from,
  build_tool_outcomes, tally, add_failed, tools_all_failed,
}

-- The tools that the steps call, in order.
abbrev pub called_tools : List Step → List Bytes
called_tools [] = []
called_tools (s ∷ ss) = elim (called_tool s) [
  | none ↦ called_tools ss
  | some tool ↦ tool ∷ called_tools ss
]

abbrev pub observations : List Step → List Step
observations [] = []
observations (s ∷ ss) = if is_observation s.step_type then s ∷ observations ss else observations ss

-- The calls with the observations of the same numbers.
abbrev pub paired : List Bytes → List Step → List ToolOutcome
paired [] obs = []
paired (tool ∷ tools) [] = outcome_of tool none ∷ paired tools []
paired (tool ∷ tools) (o ∷ obs) = outcome_of tool (some o) ∷ paired tools obs

next_observation_lem :
    (ss : List Step)
    → ((next_observation ss ≡ none) × (observations ss ≡ []))
      ⊎ ((o : Step) × (rest : List Step) × (next_observation ss ≡ some (o, rest))
          × (observations ss ≡ o ∷ observations rest))
unfolding next_observation
next_observation_lem [] = inl (refl, refl)
next_observation_lem (s ∷ ss) = elim (Bool-cases (is_observation s.step_type)) [
  | inl here ↦ inr (s, ss, rw here refl, rw here refl)
  | inr other ↦ elim (next_observation_lem ss) [
    | inl (a, b) ↦ inl (rw other a, rw other b)
    | inr (o, rest, a, b) ↦ inr (o, rest, rw other a, rw other b)
  ]
]

outcomes_from-paired :
    (ss obs : List Step) (room : ℕ)
    → outcomes_from ss obs room ≡ take room (paired (called_tools ss) (observations obs))
unfolding outcomes_from
outcomes_from-paired [] obs zero = refl
outcomes_from-paired [] obs (suc room) = refl
outcomes_from-paired (s ∷ ss) obs zero = refl
outcomes_from-paired (s ∷ ss) obs (suc room) = elim (Option-cases (called_tool s)) [
  | inl quiet ↦ rw (outcomes_from, called_tools, quiet) (outcomes_from-paired ss obs (suc room))
  | inr (tool, calls) ↦ elim (next_observation_lem obs) [
    | inl (a, b) ↦
        rw (outcomes_from, called_tools, calls, a, b)
          (ap (λ os. outcome_of tool none ∷ os) (outcomes_from-paired ss [] room))
    | inr (o, rest, a, b) ↦
        rw (outcomes_from, called_tools, calls, a, b)
          (ap (λ os. outcome_of tool (some o) ∷ os) (outcomes_from-paired ss rest room))
  ]
]

-- the outcomes that build_tool_outcomes collects for an array of a given size are those of the calls of tools in their order, up to that size, each with the observation of the same number, and without one where there are fewer observations.
pub build_tool_outcomes-paired :
    (steps : List Step) (max_out : ℕ)
    → build_tool_outcomes steps max_out
      ≡ take max_out (paired (called_tools steps) (observations steps))
unfolding build_tool_outcomes
build_tool_outcomes-paired steps max_out = outcomes_from-paired steps steps max_out

any_succeeded : List ToolOutcome → Bool
any_succeeded [] = false
any_succeeded (o ∷ os) = if o.succeeded then true else any_succeeded os

tally-any_succeeded :
    (b : Bool) (names : Bytes) (os : List ToolOutcome)
    → (tally b names os).0 ≡ (if any_succeeded os then false else b)
unfolding tally any_succeeded
tally-any_succeeded b names [] = refl
tally-any_succeeded b names (o ∷ os) = elim (Bool-cases o.succeeded) [
  | inl fine ↦ rw fine (tally-any_succeeded false names os ∙ never (any_succeeded os))
  | inr failed ↦ rw failed (tally-any_succeeded b (add_failed names o.name) os)
]
  where
    never : (x : Bool) → (if x then false else false) ≡ false
    never true = refl
    never false = refl

-- One of the first n calls has an observation without an error.
abbrev pub SomeSucceeds : ℕ → List Bytes → List Step → Type 0
SomeSucceeds n tools obs =
    (i : ℕ) × (tool : Bytes) × (o : Step) × (i < n)
    × (get_elem? tools i ≡ some tool)
    × (get_elem? obs i ≡ some o)
    × (is_negative o.error_code ≡ false)

later_call :
    (n : ℕ) (tool : Bytes) (tools : List Bytes) (o : Step) (obs : List Step)
    → SomeSucceeds n tools obs
    → SomeSucceeds (suc n) (tool ∷ tools) (o ∷ obs)
later_call n tool tools o obs (i, t, p, below, at_tool, at_obs, fine) =
    (suc i, t, p, omega arith, at_tool, at_obs, fine)

-- A call without an observation has not succeeded.
any_succeeded-unobserved :
    (n : ℕ) (tools : List Bytes) → any_succeeded (take n (paired tools [])) ≡ false
unfolding any_succeeded
any_succeeded-unobserved zero tools = refl
any_succeeded-unobserved (suc n) [] = refl
any_succeeded-unobserved (suc n) (tool ∷ tools) = any_succeeded-unobserved n tools

any_succeeded-SomeSucceeds :
    (n : ℕ) (tools : List Bytes) (obs : List Step)
    → any_succeeded (take n (paired tools obs)) ≡ true
    → SomeSucceeds n tools obs
unfolding any_succeeded
any_succeeded-SomeSucceeds zero tools obs h = absurd (ground arith)
any_succeeded-SomeSucceeds (suc n) [] obs h = absurd (ground arith)
any_succeeded-SomeSucceeds (suc n) (tool ∷ tools) [] h =
    absurd (true≢false (sym h ∙ any_succeeded-unobserved n tools))
any_succeeded-SomeSucceeds (suc n) (tool ∷ tools) (o ∷ obs) h =
    elim (Bool-cases (is_negative o.error_code)) [
      | inr fine ↦ (0, tool, o, omega arith, refl, refl, fine)
      | inl failed ↦
          later_call n tool tools o obs
            (any_succeeded-SomeSucceeds n tools obs (sym (skip failed) ∙ h))
    ]
  where
    skip :
        is_negative o.error_code ≡ true
        → any_succeeded (take (suc n) (paired (tool ∷ tools) (o ∷ obs)))
          ≡ any_succeeded (take n (paired tools obs))
    skip failed = rw failed refl

SomeSucceeds-any_succeeded :
    (n : ℕ) (tools : List Bytes) (obs : List Step)
    → SomeSucceeds n tools obs
    → any_succeeded (take n (paired tools obs)) ≡ true
unfolding any_succeeded
SomeSucceeds-any_succeeded zero tools obs (i, t, p, below, a, b, c) = absurd (omega arith)
SomeSucceeds-any_succeeded (suc n) [] obs (i, t, p, below, at_tool, b, c) = absurd (ground arith)
SomeSucceeds-any_succeeded (suc n) (tool ∷ tools) [] (i, t, p, below, at_tool, at_obs, fine) =
    absurd (ground arith)
SomeSucceeds-any_succeeded (suc n) (tool ∷ tools) (o ∷ obs)
      (zero, t, p, below, at_tool, at_obs, fine) =
    let same : is_negative o.error_code ≡ false =
      ap (λ s. is_negative s.error_code) (some-injective _ _ at_obs) ∙ fine in
    rw same refl
SomeSucceeds-any_succeeded (suc n) (tool ∷ tools) (o ∷ obs)
      (suc i, t, p, below, at_tool, at_obs, fine) =
    elim (Bool-cases (is_negative o.error_code)) [
      | inr good ↦ rw good refl
      | inl failed ↦
          rw failed
            (SomeSucceeds-any_succeeded n tools obs (i, t, p, omega arith, at_tool, at_obs, fine))
    ]

-- What the verdict is, by the outcomes.
tools_all_failed-any_succeeded :
    (ctx : EvalCtx) (os : List ToolOutcome)
    → build_tool_outcomes ctx.steps 64 ≡ os
    → (tools_all_failed ctx ≡ pass) ↔ ((os ≡ []) ⊎ (any_succeeded os ≡ true))
unfolding tools_all_failed
tools_all_failed-any_succeeded ctx [] h = (λ e. inl refl, λ e. rw (tools_all_failed, h) refl)
tools_all_failed-any_succeeded ctx (o ∷ os) h = elim (Bool-cases (any_succeeded (o ∷ os))) [
  | inl fine ↦ (
    λ e. inr fine,
    λ e. rw (tools_all_failed, h, tally-any_succeeded true [] (o ∷ os), fine) refl,
  )
  | inr failed ↦
      let all : (tally true [] (o ∷ os)).0 ≡ true =
        tally-any_succeeded true [] (o ∷ os) ∙ rw failed refl in
      let run : tools_all_failed ctx ≡ blame (tally true [] (o ∷ os)).1 =
        rw (tools_all_failed, h, all) refl in
      (λ e. absurd (ground (arith, sym run ∙ e)), λ e. absurd (ground (arith, failed)))
]
  where
    blame : Bytes → Verdict
    blame names = refuse (
        codes "All tool calls failed ("
        ++ (names ++ codes "). Check arguments or try different tools."))

pair_nil :
    (n : ℕ) (tools : List Bytes) (obs : List Step)
    → take (suc n) (paired tools obs) ≡ []
    → tools ≡ []
pair_nil n [] obs h = refl
pair_nil n (tool ∷ tools) [] h = absurd (ground (arith, h))
pair_nil n (tool ∷ tools) (o ∷ obs) h = absurd (ground (arith, h))

-- the rule "tools_all_failed" passes exactly when the run has called no tool, or one of its first 64 calls has an observation of the same number that is no error.
pub tools_all_failed-pass :
    (ctx : EvalCtx)
    → (tools_all_failed ctx ≡ pass) ↔ (
        (called_tools ctx.steps ≡ [])
        ⊎ SomeSucceeds 64 (called_tools ctx.steps) (observations ctx.steps))
tools_all_failed-pass ctx = (
  λ e. elim (rule.0 e) [
    | inl quiet ↦ inl (pair_nil 63 tools obs quiet)
    | inr fine ↦ inr (any_succeeded-SomeSucceeds 64 tools obs fine)
  ],
  λ e. rule.1 (elim e [
    | inl quiet ↦ inl (rw quiet refl)
    | inr found ↦ inr (SomeSucceeds-any_succeeded 64 tools obs found)
  ]),
)
  where
    tools : List Bytes
    tools = called_tools ctx.steps

    obs : List Step
    obs = observations ctx.steps

    rule :
        (tools_all_failed ctx ≡ pass)
        ↔ ((take 64 (paired tools obs) ≡ []) ⊎ (any_succeeded (take 64 (paired tools obs)) ≡ true))
    rule =
        tools_all_failed-any_succeeded ctx (take 64 (paired tools obs))
          (build_tool_outcomes-paired ctx.steps 64)
