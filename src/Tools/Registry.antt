-- ===== src/Tools/Registry.antt =====
-- evoagent/tools/governed_registry.py: the whole of `invoke_as`. The hash of the arguments and the run
-- of the tool by the executor are parameters. The log is the one that the call leaves behind, without
-- times, random ids, hashes and reasons; the clock is read when the breaker is asked, and again when a failure is
-- recorded.
pub mod Counts
pub mod Governed
pub mod Budget
pub mod Replay
use evo_review_agent.Base.{
  ℕ, ◌+◌, String, ◌<>◌, Bool, true, false, not, ◌&&◌, Option, none, some, List, [], ◌∷◌, ◌++◌,
  if◌then◌else◌,
}
use evo_review_agent.Base.Key.{text_key}
use evo_review_agent.Base.Dict.{Dict, get, put}
use evo_review_agent.Base.Result.{Result, err, ok}
use evo_review_agent.Policy.Models.{ExecutionPolicy}
use evo_review_agent.Policy.ToolPolicy.{ToolMetadata, DenyReason, ToolDecision, count_of, authorize}
use evo_review_agent.Tools.CircuitBreaker.{CircuitBreaker, check, record_success, record_failure}
use evo_review_agent.Tools.Invocation.{
  InvocationState, authorized, running, succeeded, unknown, ToolInvocationGuard, InvocationError,
  begin, transition,
}
use evo_review_agent.Tools.Arguments.{Value, Schema, ArgumentError, validate}

pub data AuditStatus : Type 0 where
  started done timed broken : AuditStatus

pub record AuditEntry : Type 0 where
  pub task_id : String
  pub agent_id : String
  pub tool_name : String
  pub is_authorized : Bool
  pub side_effect : Bool
  pub status : AuditStatus

pub record GovernedToolRegistry : Type 0 where
  pub tools : Dict String Schema
  pub metadata : Dict String ToolMetadata
  pub execution_policy : ExecutionPolicy
  pub circuit_breaker : CircuitBreaker
  pub audit : List AuditEntry
  pub guard : ToolInvocationGuard
  pub approval_provider : Option (ToolDecision → Bool)
  pub tool_call_counts : Dict String ℕ
  pub metrics : Dict String ℕ

pub record ToolCall : Type 0 where
  pub agent_id : String
  pub name : String
  pub arguments : Dict String Value
  pub task_id : String
  pub now : ℕ
  pub later : ℕ

-- What the executor's run of a tool comes to: its value, an exception that stands for a refusal (the
-- three that are raised again as they are), a timeout or another exception.
pub data Outcome : Type 0 where
  returned : Value → Outcome
  refused timeout raised : Outcome

-- Why a call did not reach the executor.
pub data Refusal : Type 0 where
  unknown_agent_tool circuit_open no_approval_provider approval_declined : Refusal
  invalid_arguments : ArgumentError → Refusal
  permission_denied : Option DenyReason → Refusal
  invocation_blocked : InvocationError → Refusal

pub data InvokeError : Type 0 where
  not_executed : Refusal → InvokeError
  tool_refused tool_timeout tool_failed : InvokeError

abbrev pub Invoked : Type 0
Invoked = GovernedToolRegistry × Result InvokeError Value

-- `metrics.inc`
inc : String → Dict String ℕ → Dict String ℕ
inc name metrics = put metrics name (count_of (get metrics name) + 1)

-- The count of one more executed call.
unfoldable pub counted : String → Dict String ℕ → Dict String ℕ
counted name counts =
    let own = put counts name (count_of (get counts name) + 1) in
    put own "__all__" (count_of (get own "__all__") + 1)

-- `audit.start`, with the status that `audit.finish` leaves.
logged : ToolCall → Bool → Bool → AuditStatus → GovernedToolRegistry → List AuditEntry
logged call permitted side_effect status r =
    r.audit
    ++ (record {
      task_id = call.task_id;
      agent_id = call.agent_id;
      tool_name = call.name;
      is_authorized = permitted;
      side_effect = side_effect;
      status = status;
    }
        ∷ [])

side_effect_of : Option ToolMetadata → Bool
side_effect_of none = false
side_effect_of (some m) = m.side_effect

-- `reuse_guard`
pub reuse_guard : Option ToolMetadata → Bool
reuse_guard none = false
reuse_guard (some m) = m.side_effect && not m.idempotent

marked : Bool → String → InvocationState → ToolInvocationGuard → ToolInvocationGuard
marked true key state g = transition g key state
marked false key state g = g

-- The `try` around the execution, after the count.
settled : Outcome → ToolCall → Option ToolMetadata → String → GovernedToolRegistry → Invoked
unfolding logged inc marked
settled (returned v) call meta key r = (
  record r {
    audit = logged call true (side_effect_of meta) done r;
    circuit_breaker = record_success r.circuit_breaker call.name;
    guard = marked (reuse_guard meta) key succeeded r.guard;
    metrics = inc "tool_calls_total" r.metrics;
  },
  ok v,
)
settled refused call meta key r =
    (record r { audit = logged call true (side_effect_of meta) started r }, err tool_refused)
settled timeout call meta key r = (
  record r {
    audit = logged call true (side_effect_of meta) timed r;
    circuit_breaker = record_failure r.circuit_breaker call.name call.later;
    guard = marked (reuse_guard meta) key unknown r.guard;
    metrics = inc "tool_timeouts_total" r.metrics;
  },
  err tool_timeout,
)
settled raised call meta key r = (
  record r {
    audit = logged call true (side_effect_of meta) broken r;
    circuit_breaker = record_failure r.circuit_breaker call.name call.later;
    guard = marked (reuse_guard meta) key unknown r.guard;
  },
  err tool_failed,
)

-- `approval_provider(decision)`, where there is a provider.
pub refusal : Option (ToolDecision → Bool) → ToolDecision → Option Refusal
refusal none d = some no_approval_provider
refusal (some ask) d = if ask d then none else some approval_declined

pub approval : ToolDecision → GovernedToolRegistry → Option Refusal
approval d r = if d.requires_approval then refusal r.approval_provider d else none

-- The metrics of the approval step.
approval_metrics : Bool → Option Refusal → Dict String ℕ → Dict String ℕ
unfolding inc
approval_metrics false e metrics = metrics
approval_metrics true (some approval_declined) metrics =
    inc "tool_calls_denied_total"
      (inc "tool_approval_denied_total" (inc "tool_approval_requested_total" metrics))
approval_metrics true (some e) metrics =
    inc "tool_calls_denied_total" (inc "tool_approval_requested_total" metrics)
approval_metrics true none metrics = inc "tool_approval_requested_total" metrics

-- `guard.begin`, whose result is not looked at, `guard.authorize` and `guard.running`.
entered :
    String
    → ToolInvocationGuard × Result InvocationError InvocationState
    → ToolInvocationGuard × Option Refusal
entered key (g, err e) = (g, some (invocation_blocked e))
entered key (g, ok s) = (transition (transition g key authorized) key running, none)

pub enter_guard : Bool → String → ToolInvocationGuard → ToolInvocationGuard × Option Refusal
unfolding entered
enter_guard false key g = (g, none)
enter_guard true key g = entered key (begin g key)

-- `_idempotency_key`
unfoldable pub idempotency_key : (Dict String Value → String) → ToolCall → String
idempotency_key hash_args call = call.name <> (":" <> hash_args call.arguments)

-- The decision of the policy engine, at the counts before the call.
unfoldable pub decision_of : ToolCall → GovernedToolRegistry → ToolDecision
decision_of call r =
    authorize r.metadata call.agent_id call.name r.execution_policy r.tool_call_counts

module _ (hash_args : Dict String Value → String) (execute : ToolCall → Outcome) where
  -- The steps of `invoke_as`, the last first, each with what the step before found.
  after_approval : Option Refusal → Option ToolMetadata → ToolCall → GovernedToolRegistry → Invoked
  unfolding logged counted settled idempotency_key
  after_approval (some e) meta call r =
      (record r { audit = logged call false (side_effect_of meta) started r }, err (not_executed e))
  after_approval none meta call r =
      settled (execute call) call meta (idempotency_key hash_args call)
        (record r { tool_call_counts = counted call.name r.tool_call_counts })

  after_guard :
      ToolInvocationGuard × Option Refusal
      → ToolDecision
      → Option ToolMetadata
      → ToolCall
      → GovernedToolRegistry
      → Invoked
  unfolding after_approval approval_metrics
  after_guard (g, some e) d meta call r = (record r { guard = g }, err (not_executed e))
  after_guard (g, none) d meta call r =
      let e = approval d r in
      after_approval e meta call
        (record r { guard = g; metrics = approval_metrics d.requires_approval e r.metrics })

  after_check :
      CircuitBreaker × Bool
      → ToolDecision
      → Option ToolMetadata
      → ToolCall
      → GovernedToolRegistry
      → Invoked
  unfolding after_guard inc idempotency_key
  after_check (b, false) d meta call r = (
    record r { circuit_breaker = b; metrics = inc "tool_circuit_open_total" r.metrics },
    err (not_executed circuit_open),
  )
  after_check (b, true) d meta call r =
      after_guard (enter_guard (reuse_guard meta) (idempotency_key hash_args call) r.guard) d meta
        call (record r { circuit_breaker = b })

  after_decision :
      Bool → ToolDecision → Option ToolMetadata → ToolCall → GovernedToolRegistry → Invoked
  unfolding after_check inc logged
  after_decision false d meta call r = (
    record r {
      audit = logged call false (side_effect_of meta) started r;
      metrics = inc "tool_policy_violation_total" (inc "tool_calls_denied_total" r.metrics);
    },
    err (not_executed (permission_denied d.reason)),
  )
  after_decision true d meta call r =
      after_check (check r.circuit_breaker call.name call.now) d meta call r

  after_validation : Option ArgumentError → ToolCall → GovernedToolRegistry → Invoked
  unfolding after_decision
  after_validation (some e) call r = (r, err (not_executed (invalid_arguments e)))
  after_validation none call r =
      let d = decision_of call r in after_decision d.allowed d (get r.metadata call.name) call r

  after_lookup : Option Schema → ToolCall → GovernedToolRegistry → Invoked
  unfolding after_validation
  after_lookup none call r = (r, err (not_executed unknown_agent_tool))
  after_lookup (some parameters) call r =
      after_validation (validate parameters call.arguments) call r

  -- `invoke_as`
  pub invoke_as : ToolCall → GovernedToolRegistry → Invoked
  unfolding after_lookup
  invoke_as call r = after_lookup (get r.tools call.name) call r
