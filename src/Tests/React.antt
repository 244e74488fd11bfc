-- ===== src/Tests/React.antt =====
-- src/agent/react.c on concrete runs.
use multi_agent.Common.{
  ℕ, ◌+◌, ◌≤◌, ◌<◌, ◌⊎◌, ◌≡◌, ◌≢◌, refl, Bool, true, false, Option, none, some, List, [], ◌∷◌, ◌++◌,
  arith, Bytes, codes, length, ℤ, pos, negsuc,
}
use multi_agent.Agent.Guardrail.{Verdict, pass, fail, Files}
use multi_agent.Agent.Guardrail.Links.{Matcher}
use multi_agent.Agent.Guardrail.Rules.{Config, Backends, register_builtin_rules}
use multi_agent.Agent.Guardrail.Rules.Builtin.{fresh}
use multi_agent.Agent.React.{
  Context, thinking, undecided, count_failure, force_final, track_tool_failure,
}
use multi_agent.Agent.React.Streak.{Call, streak}
use multi_agent.Agent.React.Failures.{StillOn, GaveUp, track_tool_failure_lem}
use multi_agent.Agent.React.Approval.{
  Flags, HitlConfig, AskAlike, needs_approval, add_auto_approved, needs_approval-add_auto_approved,
}
use multi_agent.Agent.React.Marker.{split_legacy_final}
use multi_agent.Agent.React.Final.{handle_final_response, with_thought}
use multi_agent.Agent.React.Final.Answered.{Answered, Unanswered, handle_final_response-Ends}
use multi_agent.Agent.React.Final.Retries.{retry_limit, GoesOn, handle_final_response-GoesOn}

abbrev backends : Backends
backends = record { parse_check = λ json. none; exec_check = λ a b c d. none }

abbrev rules : Config
rules =
    register_builtin_rules (record { file_exists = λ path. true; expand_path = λ path. none })
      (λ pattern text. none) (fresh (pos 2) (pos 0) none)

-- A run that has begun.
abbrev begun : Context
begun = record {
  steps = [];
  tool_max_retries = 2;
  guardrail = rules;
  guardrail_retry_count = 0;
  final_answer = none;
  state = thinking;
  outcome = undecided;
  last_error_code = pos 0;
  outcome_reason = [];
  last_error_detail = none;
  tool_fail_name = none;
  tool_fail_args = none;
  tool_fail_count = 0;
  empty_round_count = 0;
  in_turn_compaction_count = 0;
  incomplete_final_retry_count = 0;
  is_cancelled = false;
}

abbrev response : Bytes
response = codes "Thought: I know it.\nFinal: 42"

-- The thought and the answer of a response.
split_response : split_legacy_final response ≡ (some (codes "I know it."), codes "42")
unfolding split_legacy_final
split_response = refl

response_ends : (handle_final_response backends begun response []).0 ≡ true
unfolding handle_final_response multi_agent.Common.str_eq register_builtin_rules
    multi_agent.Agent.Guardrail.Rules.run_hook multi_agent.Agent.Guardrail.consecutive_empty
    multi_agent.Agent.Guardrail.empty_answer multi_agent.Agent.Guardrail.Outcomes.tools_all_failed
    multi_agent.Agent.Guardrail.Outcomes.outcomes_from
    multi_agent.Agent.Guardrail.Outcomes.creative_no_media
    multi_agent.Agent.Guardrail.Links.final_local_file_missing
response_ends = refl

handle_final_response-Ends_example :
    Answered backends
      (with_thought begun (split_legacy_final response).0)
      (split_legacy_final response).1
      (handle_final_response backends begun response []).1
    ⊎ Unanswered (handle_final_response backends begun response []).1
handle_final_response-Ends_example =
    handle_final_response-Ends backends begun response [] response_ends

-- Two empty responses, which the limit of two retries allows.
two_empty : GoesOn backends begun [] ([] ∷ codes "(no response)" ∷ [])
unfolding handle_final_response multi_agent.Common.str_eq register_builtin_rules
    multi_agent.Agent.Guardrail.Rules.run_hook multi_agent.Agent.Guardrail.consecutive_empty
    multi_agent.Agent.Guardrail.empty_answer multi_agent.Agent.Guardrail.Outcomes.tools_all_failed
    multi_agent.Agent.Guardrail.Outcomes.outcomes_from
    multi_agent.Agent.Guardrail.Outcomes.creative_no_media
    multi_agent.Agent.Guardrail.Links.final_local_file_missing
two_empty = (refl, (refl, tt))

handle_final_response-GoesOn_example :
    length {A = Bytes} ([] ∷ codes "(no response)" ∷ [])
    ≤ retry_limit begun.guardrail.max_retries + 1
handle_final_response-GoesOn_example =
    handle_final_response-GoesOn backends begun [] ([] ∷ codes "(no response)" ∷ []) refl refl
      two_empty

abbrev failed_call : Call
failed_call = record { tool_name = codes "read"; tool_args = codes "{}"; rc = negsuc 1 }

abbrev failed_once : Context
failed_once = record begun {
  tool_fail_name = some (codes "read");
  tool_fail_args = some (codes "{}");
  tool_fail_count = 1;
}

track_tool_failure_lem_example :
    (streak (failed_call ∷ failed_call ∷ []) < failed_once.tool_max_retries
      → ((track_tool_failure failed_once (codes "read") (codes "{}") (negsuc 1)).0 ≡ false)
        × StillOn failed_once failed_call
            (failed_call ∷ [])
            (track_tool_failure failed_once (codes "read") (codes "{}") (negsuc 1)).1)
    × (failed_once.tool_max_retries ≤ streak (failed_call ∷ failed_call ∷ [])
        → ((track_tool_failure failed_once (codes "read") (codes "{}") (negsuc 1)).0 ≡ true)
          × GaveUp failed_once failed_call
              (track_tool_failure failed_once (codes "read") (codes "{}") (negsuc 1)).1)
track_tool_failure_lem_example =
    track_tool_failure_lem failed_once failed_call (failed_call ∷ [])
      (refl, λ failed. (refl, refl), λ fine. ground (arith, fine))

-- Without retries, a call that succeeds ends the run.
success_ends :
    track_tool_failure (record begun { tool_max_retries = 0 }) (codes "read") (codes "{}") (pos 0)
    ≡ (true, force_final (record begun { tool_max_retries = 0 }))
unfolding track_tool_failure count_failure
success_ends = refl

abbrev flags : Flags
flags = record { internal_approval = λ name. false; is_readonly = λ name. false }

abbrev asking : HitlConfig
asking = record {
  enabled = true;
  tools = [];
  auto_approve_readonly = true;
  auto_approved = codes "read" ∷ [];
}

needs_approval-add_auto_approved_example :
    (needs_approval flags (add_auto_approved asking (codes "write")) (codes "write") ≡ false)
    × ((other : Bytes)
        → other ≢ codes "write"
        → AskAlike flags (add_auto_approved asking (codes "write")) asking other)
needs_approval-add_auto_approved_example =
    needs_approval-add_auto_approved flags asking (codes "write") (omega arith) (omega arith)
