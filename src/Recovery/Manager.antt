-- ===== src/Recovery/Manager.antt =====
-- evoagent/recovery/manager.py: the handling of one failure. The failure's type is what the classifier
-- reports, the random id of an event and its message are left out.
pub mod Bounds
use evo_review_agent.Base.{
  ℕ, ◌+◌, min, String, Bool, true, false, not, Option, none, some, List, [], ◌∷◌, ◌++◌, leb,
  if◌then◌else◌,
}
use evo_review_agent.Base.Key.{text_key}
use evo_review_agent.Recovery.Failures.{
  FailureType, RecoveryAction, retry, retry_with_backoff, switch_model, replan, human_review, abort,
  FailureContext, FailureEvent,
}
use evo_review_agent.Policy.Models.{ExecutionPolicy}
use evo_review_agent.Recovery.Planner.{plan}
use evo_review_agent.Recovery.Executor.{Update, execute}

pub record RecoveryBudget : Type 0 where
  pub max_recovery_attempts : ℕ
  pub max_replans : ℕ
  pub max_model_switches : ℕ

abbrev pub default_budget : RecoveryBudget
default_budget = record { max_recovery_attempts = 3; max_replans = 2; max_model_switches = 2 }

pub record Counts : Type 0 where
  pub attempts : ℕ
  pub replans : ℕ
  pub model_switches : ℕ

-- The part of the runtime state that recovery reads and writes: `attempt` is read by the planner
-- alone, and the counts are the manager's.
pub record RuntimeState : Type 0 where
  pub task_id : String
  pub attempt : ℕ
  pub context_reserve : ℕ
  pub recovery_counts : Option Counts

pub record RecoveryOutcome : Type 0 where
  pub event : FailureEvent
  pub action : RecoveryAction
  pub updates : Update
  pub counts : Counts

unfoldable pub counts_of : Option Counts → Counts
counts_of none = record { attempts = 0; replans = 0; model_switches = 0 }
counts_of (some c) = c

-- `exhausted`
pub exhausted : RecoveryBudget → Counts → Bool
exhausted budget c = leb budget.max_recovery_attempts c.attempts

is_abort : RecoveryAction → Bool
is_abort abort = true
is_abort _ = false

replanned_count : RecoveryAction → RecoveryBudget → Counts → ℕ
replanned_count replan budget c = min budget.max_replans (c.replans + 1)
replanned_count _ budget c = c.replans

switched_count : RecoveryAction → RecoveryBudget → Counts → ℕ
switched_count switch_model budget c = min budget.max_model_switches (c.model_switches + 1)
switched_count _ budget c = c.model_switches

next_counts : RecoveryBudget → RecoveryAction → Counts → Counts
next_counts budget action c = record {
  attempts = min budget.max_recovery_attempts (c.attempts + 1);
  replans = replanned_count action budget c;
  model_switches = switched_count action budget c;
}

pub chosen : RecoveryBudget → FailureType → FailureContext → RuntimeState → RecoveryAction
chosen budget failure context state =
    if exhausted budget (counts_of state.recovery_counts)
    then abort
    else plan failure state.attempt context

event_for :
    FailureType → FailureContext → RuntimeState → String → String → RecoveryAction → FailureEvent
event_for failure context state node agent_id action = record {
  task_id = state.task_id;
  agent_id = agent_id;
  node = node;
  failure_type = failure;
  recoverable = not (is_abort action);
  recovery_action = some action;
  attempt = (counts_of state.recovery_counts).attempts + 1;
  resolved = not (is_abort action);
  context = context;
}

-- `handle`, over a manager with its policy, budget, compensation handlers and events: the new state,
-- the new events and the outcome.
pub record Manager : Type 0 where
  pub policy : Option ExecutionPolicy
  pub budget : RecoveryBudget
  pub handlers : List String
  pub events : List FailureEvent

pub handle :
    Manager
    → FailureType
    → FailureContext
    → RuntimeState
    → String
    → String
    → Manager × RuntimeState × RecoveryOutcome
unfolding event_for next_counts
handle m failure context state node agent_id =
    let action = chosen m.budget failure context state in
    let event = event_for failure context state node agent_id action in
    let counts = next_counts m.budget action (counts_of state.recovery_counts) in
    (
      record m { events = m.events ++ (event ∷ []) },
      record state { recovery_counts = some counts },
      record {
        event = event;
        action = action;
        updates = execute m.handlers event m.policy state.context_reserve;
        counts = counts;
      },
    )

-- `recoverable`, `should_retry` and `should_abort` of an outcome.
pub recoverable : RecoveryOutcome → Bool
recoverable o = elim o.action [ abort ↦ false | human_review ↦ false | _ ↦ true ]

pub should_retry : RecoveryOutcome → Bool
should_retry o = elim o.action [ retry ↦ true | retry_with_backoff ↦ true | _ ↦ false ]

pub should_abort : RecoveryOutcome → Bool
should_abort o = is_abort o.action
