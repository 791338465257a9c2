-- ===== src/Recovery/Failures.antt =====
-- evoagent/recovery/failures.py: the failures, the actions and the record of a failure.
use evo_review_agent.Base.{ℕ, String, Bool, true, false, Option}

pub data FailureType : Type 0 where
  model_timeout model_rate_limit model_invalid_output model_context_overflow : FailureType
  model_unavailable tool_timeout tool_unavailable tool_invalid_argument : FailureType
  tool_permission_denied tool_side_effect_unknown agent_invalid_state agent_no_progress :
      FailureType
  agent_hallucination checkpoint_failure storage_failure budget_exceeded : FailureType
  policy_violation unknown : FailureType

pub data RecoveryAction : Type 0 where
  retry retry_with_backoff switch_model switch_tool compress_context replan : RecoveryAction
  fallback_agent skip compensate human_review abort : RecoveryAction

-- Membership in RETRYABLE_FOR_BACKOFF.
unfoldable pub retryable_for_backoff : FailureType → Bool
retryable_for_backoff model_timeout = true
retryable_for_backoff model_rate_limit = true
retryable_for_backoff model_unavailable = true
retryable_for_backoff tool_timeout = true
retryable_for_backoff tool_unavailable = true
retryable_for_backoff _ = false

-- The context that the planner and the executor read.
pub record FailureContext : Type 0 where
  pub node : String
  pub side_effect_unknown : Bool
  pub is_side_effect : Bool
  pub tool : Option String

-- A FailureEvent, without its random id and its time.
pub record FailureEvent : Type 0 where
  pub task_id : String
  pub agent_id : String
  pub node : String
  pub failure_type : FailureType
  pub recoverable : Bool
  pub recovery_action : Option RecoveryAction
  pub attempt : ℕ
  pub resolved : Bool
  pub context : FailureContext
