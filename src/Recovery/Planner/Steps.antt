-- ===== src/Recovery/Planner/Steps.antt =====
-- What evoagent/recovery/planner.py plans as the attempts go on.
use evo_review_agent.Base.{ℕ, ◌≡◌, refl, true, Option, none, some, List, arith}
use evo_review_agent.Base.Key.{text_key}
use evo_review_agent.Recovery.Failures.{
  FailureType, RecoveryAction, human_review, retryable_for_backoff, FailureContext,
}
use evo_review_agent.Recovery.Planner.{canned_steps, action_at, chosen_step, plan}

-- A call whose side effects are unknown is never retried automatically.
pub plan-side_effect_unknown :
    (failure : FailureType) (context : FailureContext) (attempt : ℕ)
    → retryable_for_backoff failure ≡ true
    → context.side_effect_unknown ≡ true
    → plan failure attempt context ≡ human_review
unfolding plan canned_steps action_at retryable_for_backoff
plan-side_effect_unknown failure context attempt h k = ground arith

chosen_first : (steps : Option (List RecoveryAction)) → chosen_step steps 0 ≡ chosen_step steps 1
unfolding chosen_step
chosen_first none = refl
chosen_first (some canned) = refl

-- A missing attempt is planned like the first.
pub plan_first :
    (failure : FailureType) (context : FailureContext)
    → plan failure 0 context ≡ plan failure 1 context
unfolding plan
plan_first failure context = chosen_first (canned_steps failure context)
