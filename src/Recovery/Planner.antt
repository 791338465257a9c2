-- ===== src/Recovery/Planner.antt =====
-- evoagent/recovery/planner.py: the canned steps of each failure, and the step of an attempt.
pub mod Steps
use evo_review_agent.Base.{
  ℕ, zero, suc, ◌-◌, min, Bool, true, false, Option, none, some, List, [], ◌∷◌, if◌then◌else◌,
  length,
}
use evo_review_agent.Base.Key.{text_key}
use evo_review_agent.Recovery.Failures.{
  FailureType, model_timeout, model_rate_limit, model_invalid_output, model_context_overflow,
  model_unavailable, tool_timeout, tool_unavailable, tool_invalid_argument, tool_permission_denied,
  tool_side_effect_unknown, agent_invalid_state, agent_no_progress, agent_hallucination,
  checkpoint_failure, storage_failure, budget_exceeded, policy_violation, unknown, RecoveryAction,
  retry, retry_with_backoff, switch_model, switch_tool, compress_context, replan, fallback_agent,
  skip, compensate, human_review, abort, FailureContext,
}

-- `_canned_steps` of a failure that may be retried after a pause.
backoff_steps : Bool → List RecoveryAction
backoff_steps side_effect_unknown =
    if side_effect_unknown
    then human_review ∷ []
    else retry_with_backoff ∷ switch_model ∷ abort ∷ []

permission_steps : Bool → List RecoveryAction
permission_steps is_side_effect = if is_side_effect then human_review ∷ [] else skip ∷ []

-- `_canned_steps`; `none` is its None.
unfoldable pub canned_steps : FailureType → FailureContext → Option (List RecoveryAction)
unfolding backoff_steps permission_steps
canned_steps model_timeout c = some (backoff_steps c.side_effect_unknown)
canned_steps model_rate_limit c = some (backoff_steps c.side_effect_unknown)
canned_steps model_unavailable c = some (backoff_steps c.side_effect_unknown)
canned_steps tool_timeout c = some (backoff_steps c.side_effect_unknown)
canned_steps tool_unavailable c = some (backoff_steps c.side_effect_unknown)
canned_steps model_context_overflow c = some (compress_context ∷ retry ∷ abort ∷ [])
canned_steps model_invalid_output c = some (retry ∷ switch_model ∷ abort ∷ [])
canned_steps tool_invalid_argument c = some (switch_tool ∷ [])
canned_steps tool_permission_denied c = some (permission_steps c.is_side_effect)
canned_steps tool_side_effect_unknown c = some (human_review ∷ compensate ∷ abort ∷ [])
canned_steps agent_no_progress c = some (replan ∷ fallback_agent ∷ abort ∷ [])
canned_steps agent_hallucination c = some (replan ∷ abort ∷ [])
canned_steps agent_invalid_state c = some (replan ∷ abort ∷ [])
canned_steps checkpoint_failure c = some (retry ∷ abort ∷ [])
canned_steps storage_failure c = some (retry ∷ abort ∷ [])
canned_steps budget_exceeded c = some (abort ∷ [])
canned_steps policy_violation c = some (human_review ∷ [])
canned_steps unknown c = none

-- `canned[index]`; the lists are never empty, and `abort` stands for the IndexError of an empty one.
unfoldable pub action_at : List RecoveryAction → ℕ → RecoveryAction
action_at [] i = abort
action_at (a ∷ as') zero = a
action_at (a ∷ as') (suc i) = action_at as' i

-- `plan`; the policy is not looked at. `attempt` is `runtime_state.get("attempt", 0)`.
chosen_step : Option (List RecoveryAction) → ℕ → RecoveryAction
chosen_step none attempt = abort
chosen_step (some canned) attempt = action_at canned (min (attempt - 1) (length canned - 1))

unfoldable pub plan : FailureType → ℕ → FailureContext → RecoveryAction
unfolding chosen_step
plan failure attempt context = chosen_step (canned_steps failure context) attempt

-- `is_terminal`
pub is_terminal : RecoveryAction → Bool
is_terminal abort = true
is_terminal human_review = true
is_terminal skip = true
is_terminal _ = false
