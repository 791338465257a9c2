-- ===== src/Recovery/Executor.antt =====
-- evoagent/recovery/executor.py and compensation.py: the updates of the runtime state that an action
-- stands for. The handlers of the compensation are named by their tools; what one does is not code
-- of the program.
use evo_review_agent.Base.{
  ℕ, ◌-◌, ◌*◌, ◌^◌, String, Bool, Option, none, some, List, [], ◌∷◌, if◌then◌else◌, contains,
}
use evo_review_agent.Base.Key.{text_key}
use evo_review_agent.Recovery.Failures.{
  RecoveryAction, retry, retry_with_backoff, switch_model, switch_tool, compress_context, replan,
  fallback_agent, skip, compensate, human_review, abort, FailureEvent,
}
use evo_review_agent.Policy.Models.{ExecutionPolicy}

-- `_backoff_seconds`
unfoldable pub backoff_seconds : Option ExecutionPolicy → ℕ → ℕ
backoff_seconds none attempt = 1
backoff_seconds (some p) attempt =
    if p.retry.exponential_backoff
    then p.retry.backoff_seconds * 2 ^ (attempt - 1)
    else p.retry.backoff_seconds

-- The dictionaries that `execute` returns.
pub data Update : Type 0 where
  retry_after : ℕ → Update
  switched_model : Update
  compress : ℕ → Update
  to_agent : Option String → Update
  skipped replanned aborted : Update
  compensated : Bool → String → Update
  reviewed : String → Update
  switched_tool : Option String → Update

first_of : List String → Option String
first_of [] = none
first_of (a ∷ as') = some a

fallback_of : Option ExecutionPolicy → Option String
fallback_of none = none
fallback_of (some p) = first_of p.agents.fallback_agents

tool_of : Option String → String
tool_of none = ""
tool_of (some t) = t

-- `_compensate`, over the tools that have a handler.
compensation_of : List String → FailureEvent → Update
compensation_of handlers event =
    let tool = tool_of event.context.tool in compensated (contains handlers tool) tool

-- The dispatch of `execute`. `reserve` is the state's `context_reserve`.
dispatch : RecoveryAction → List String → FailureEvent → Option ExecutionPolicy → ℕ → Update
unfolding fallback_of compensation_of
dispatch retry_with_backoff handlers event policy reserve =
    retry_after (backoff_seconds policy event.attempt)
dispatch retry handlers event policy reserve = retry_after 0
dispatch switch_model handlers event policy reserve = switched_model
dispatch compress_context handlers event policy reserve = compress reserve
dispatch fallback_agent handlers event policy reserve = to_agent (fallback_of policy)
dispatch skip handlers event policy reserve = skipped
dispatch replan handlers event policy reserve = replanned
dispatch compensate handlers event policy reserve = compensation_of handlers event
dispatch human_review handlers event policy reserve = reviewed event.task_id
dispatch abort handlers event policy reserve = aborted
dispatch switch_tool handlers event policy reserve = switched_tool event.context.tool

action_or_abort : Option RecoveryAction → RecoveryAction
action_or_abort none = abort
action_or_abort (some a) = a

-- `execute`
pub execute : List String → FailureEvent → Option ExecutionPolicy → ℕ → Update
execute handlers event policy reserve =
    dispatch (action_or_abort event.recovery_action) handlers event policy reserve
