-- ===== src/Agent/Guardrail.antt =====
-- src/agent/guardrail.c, guardrail.h: the rules that check what goes in and out of a run.
--
-- Of a step and of an artifact this holds the fields that the rules read. The buffer of a reason has
-- 512 bytes, as the only caller's.
pub mod Outcomes
pub mod Links
pub mod Rules
use multi_agent.Common.{
  ◌≡◌, ◌⊎◌, refl, inl, inr, ℕ, ◌-◌, ℤ, pos, negsuc, Bool, true, false, ◌&&◌, ◌||◌, Option, none,
  some, List, [], ◌∷◌, ◌++◌, Bytes, codes, str_eq, take, leb, ltb, ◌==◌, if◌then◌else◌,
}

-- A verdict, with the reason of a refusal.
pub data Verdict : Type 0 where
  pass : Verdict
  fail : Bytes → Verdict

pub Verdict-cases : (v : Verdict) → (v ≡ pass) ⊎ ((reason : Bytes) × (v ≡ fail reason))
Verdict-cases pass = inl refl
Verdict-cases (fail reason) = inr (reason, refl)

pub data Hook : Type 0 where
  input tool_output output : Hook

pub data StepType : Type 0 where
  thought action observation reflection final reasoning : StepType

pub record Step : Type 0 where
  pub step_type : StepType
  pub content : Option Bytes
  pub error_code : ℤ
  pub artifacts : List Bytes
  pub tool_name : Option Bytes

pub record EvalCtx : Type 0 where
  pub user_input : Option Bytes
  pub tool_name : Option Bytes
  pub tool_result : Option Bytes
  pub tool_error_code : ℤ
  pub tool_artifacts : Option (List Bytes)
  pub proposed_answer : Option Bytes
  pub steps : List Step
  pub empty_round_count : ℤ
  pub max_empty_rounds : ℤ

-- `snprintf` or `strncpy` into an array of n bytes.
abbrev pub cut : ℕ → Bytes → Bytes
cut n text = take (n - 1) text

abbrev pub refuse : Bytes → Verdict
refuse text = fail (cut 512 text)

abbrev pub is_negative : ℤ → Bool
is_negative (pos n) = false
is_negative (negsuc n) = true

-- `a >= b`
abbrev pub at_least : ℤ → ℤ → Bool
at_least (pos a) (pos b) = leb b a
at_least (pos a) (negsuc b) = true
at_least (negsuc a) (pos b) = false
at_least (negsuc a) (negsuc b) = leb a b

unfoldable pub one_of : Bytes → List Bytes → Bool
one_of name [] = false
one_of name (x ∷ xs) = str_eq name x || one_of name xs

unfoldable pub is_creative_tool : Bytes → Bool
unfolding one_of
is_creative_tool name = one_of name (
    codes "img_gen"
    ∷ codes "img_inpaint"
    ∷ codes "img_compose"
    ∷ codes "img_resize"
    ∷ codes "img_convert"
    ∷ codes "vid_gen"
    ∷ [])

-- `gr_empty_answer`
unfoldable pub empty_answer : EvalCtx → Verdict
empty_answer ctx = elim ctx.proposed_answer [
  | none ↦ refuse (codes "Empty answer.")
  | some [] ↦ refuse (codes "Empty answer.")
  | some (c ∷ cs) ↦
      if str_eq (c ∷ cs) (codes "(no response)") then refuse (codes "Empty answer.") else pass
]

-- `gr_consecutive_empty`
unfoldable pub consecutive_empty : EvalCtx → Verdict
consecutive_empty ctx =
    if at_least ctx.max_empty_rounds (pos 1) && at_least ctx.empty_round_count ctx.max_empty_rounds
    then refuse (codes "Multiple empty responses. Provide a substantive answer.")
    else pass

-- `file_exists`, and `file_expand_path`, which can fail.
pub record Files : Type 0 where
  pub file_exists : Bytes → Bool
  pub expand_path : Bytes → Option Bytes

-- The loop of `gr_creative_file_missing`.
unfoldable pub missing_artifact : Files → Bytes → List Bytes → Verdict
missing_artifact files name [] = pass
missing_artifact files name ([] ∷ paths) = missing_artifact files name paths
missing_artifact files name ((c ∷ cs) ∷ paths) =
    let rest = missing_artifact files name paths in
    if files.file_exists (c ∷ cs)
    then rest
    else refuse (
        codes "Creative tool '"
        ++ (name
            ++ (codes "' reported output '"
                ++ ((c ∷ cs) ++ codes "' but the file does not exist on disk."))))

unfoldable pub creative_file_missing : Files → EvalCtx → Verdict
unfolding missing_artifact is_creative_tool
creative_file_missing files ctx = elim ctx.tool_name [
  | none ↦ pass
  | some name ↦
      if is_creative_tool name
      then (if is_negative ctx.tool_error_code then pass else elim ctx.tool_artifacts [
        | none ↦ pass
        | some paths ↦ missing_artifact files name paths
      ])
      else pass
]
