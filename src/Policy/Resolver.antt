-- ===== src/Policy/Resolver.antt =====
-- evoagent/policy/resolver.py: the chain system default, tenant, repository, risk escalation, task,
-- safety floor. An override names the fields that it sets; a section of an override that is absent
-- sets none of its fields.
pub mod Raises
pub mod Enforce
pub mod TaskOverride
mod Examples
use evo_review_agent.Base.{
  ℕ, String, Bool, true, false, not, ◌&&◌, ◌||◌, Option, none, some, List, [], ◌∷◌, ◌++◌, ltb, leb,
  eqb, if◌then◌else◌, length, any, contains,
}
use evo_review_agent.Base.Key.{text_key}
use evo_review_agent.Base.Dict.{Dict, put}
use evo_review_agent.Policy.Models.{
  RiskLevel, rank, parse_level, ExecutionBudget, RetryPolicy, VerificationPolicy, AgentPolicy,
  ToolPermission, MetaValue, text, flag, ExecutionPolicy, from_dict,
}
use evo_review_agent.Base.Result.{Result, ok, err, ◌>>=◌}
use evo_review_agent.Policy.Defaults.{default_policy}
use evo_review_agent.Policy.ToolPolicy.{merge_tool_permissions}
use evo_review_agent.Policy.SafetyFloor.{SafetyFloor, apply_safety_floor}

pub record BudgetOverride : Type 0 where
  pub max_steps : Option ℕ
  pub max_tool_calls : Option ℕ
  pub max_wall_time_seconds : Option ℕ
  pub max_tokens : Option (Option ℕ)
  pub max_cost_usd : Option (Option ℕ)

pub record RetryOverride : Type 0 where
  pub max_retries : Option ℕ
  pub backoff_seconds : Option ℕ
  pub exponential_backoff : Option Bool
  pub retryable_failures : Option (List String)

pub record VerificationOverride : Type 0 where
  pub critic_required : Option Bool
  pub evidence_required : Option Bool
  pub verifier_required : Option Bool
  pub sandbox_required : Option Bool
  pub minimum_confidence : Option ℕ

pub record AgentOverride : Type 0 where
  pub enabled_agents : Option (List String)
  pub max_parallel_agents : Option ℕ
  pub fallback_agents : Option (List String)

pub record PolicyOverride : Type 0 where
  pub budget : BudgetOverride
  pub retry : RetryOverride
  pub verification : VerificationOverride
  pub agents : AgentOverride
  pub risk_level : Option String
  pub tool_permissions : Option (List ToolPermission)
  pub metadata : Dict String MetaValue

-- `dict(metadata, **a, **b)` raises a TypeError where two keyword sources share a key.
pub data ResolveError : Type 0 where
  value_error type_error : ResolveError

-- `current.update(override)` at one key
abbrev pub updated : {A : Type 0} → Option A → A → A
updated none a = a
updated (some b) a = b

override_budget : BudgetOverride → ExecutionBudget → ExecutionBudget
override_budget o b = record {
  max_steps = updated o.max_steps b.max_steps;
  max_tool_calls = updated o.max_tool_calls b.max_tool_calls;
  max_wall_time_seconds = updated o.max_wall_time_seconds b.max_wall_time_seconds;
  max_tokens = updated o.max_tokens b.max_tokens;
  max_cost_usd = updated o.max_cost_usd b.max_cost_usd;
}

override_retry : RetryOverride → RetryPolicy → RetryPolicy
override_retry o r = record {
  max_retries = updated o.max_retries r.max_retries;
  backoff_seconds = updated o.backoff_seconds r.backoff_seconds;
  exponential_backoff = updated o.exponential_backoff r.exponential_backoff;
  retryable_failures = updated o.retryable_failures r.retryable_failures;
}

override_verification : VerificationOverride → VerificationPolicy → VerificationPolicy
override_verification o v = record {
  critic_required = updated o.critic_required v.critic_required;
  evidence_required = updated o.evidence_required v.evidence_required;
  verifier_required = updated o.verifier_required v.verifier_required;
  sandbox_required = updated o.sandbox_required v.sandbox_required;
  minimum_confidence = updated o.minimum_confidence v.minimum_confidence;
}

override_agents : AgentOverride → AgentPolicy → AgentPolicy
override_agents o a = record {
  enabled_agents = updated o.enabled_agents a.enabled_agents;
  max_parallel_agents = updated o.max_parallel_agents a.max_parallel_agents;
  fallback_agents = updated o.fallback_agents a.fallback_agents;
}

-- The level that an override asks for: a text outside RISK_LEVELS is refused by the constructor.
override_level : Option String → RiskLevel → Result ResolveError RiskLevel
override_level none level = ok level
override_level (some s) level = elim (parse_level s) [ none ↦ err value_error | some l ↦ ok l ]

override_permissions : Option (List ToolPermission) → List ToolPermission → List ToolPermission
override_permissions none base = base
override_permissions (some perms) base = merge_tool_permissions base perms

or_value_error : Option ExecutionPolicy → Result ResolveError ExecutionPolicy
or_value_error none = err value_error
or_value_error (some p) = ok p

-- `dict(base, **entries)`, one keyword after the other; `taken` are the keywords before them.
add_keywords :
    List String
    → Dict String MetaValue
    → Dict String MetaValue
    → Result ResolveError (Dict String MetaValue)
add_keywords taken base [] = ok base
add_keywords taken base ((k, v) ∷ rest) = elim (contains taken k) [
  | true ↦ err type_error
  | false ↦ add_keywords (k ∷ taken) (put base k v) rest
]

-- `_apply_override`; `extra` is its `metadata` argument.
apply_override :
    ExecutionPolicy
    → PolicyOverride
    → String
    → Dict String MetaValue
    → Result ResolveError ExecutionPolicy
apply_override policy o source extra = do
  level ← override_level o.risk_level policy.risk_level
  merged ← or_value_error (
      from_dict (record policy {
        risk_level = level;
        budget = override_budget o.budget policy.budget;
        retry = override_retry o.retry policy.retry;
        verification = override_verification o.verification policy.verification;
        agents = override_agents o.agents policy.agents;
        tool_permissions = override_permissions o.tool_permissions policy.tool_permissions;
      }))
  metadata ←
      add_keywords [] merged.metadata (("override_source", text source) ∷ (o.metadata ++ extra))
  ok (record merged { metadata = metadata })

-- `if config: policy = self._apply_override(...)`
apply_layer :
    ExecutionPolicy
    → Option PolicyOverride
    → String
    → Dict String MetaValue
    → Result ResolveError ExecutionPolicy
apply_layer policy none source extra = ok policy
apply_layer policy (some o) source extra = apply_override policy o source extra

-- The policy with everything but its identity taken from `base`, and `key` noted.
raised_to : ExecutionPolicy → String → ExecutionPolicy → ExecutionPolicy
raised_to base key policy = record policy {
  risk_level = base.risk_level;
  budget = base.budget;
  retry = base.retry;
  verification = base.verification;
  agents = base.agents;
  tool_permissions = base.tool_permissions;
  metadata = put policy.metadata key (flag true);
}

-- `if RISK_RANK[base.risk_level] > RISK_RANK[policy.risk_level]: policy = replace(...)`
raise_risk : RiskLevel → String → ExecutionPolicy → ExecutionPolicy
raise_risk level key policy =
    if ltb (rank policy.risk_level) (rank (default_policy level).risk_level)
    then raised_to (default_policy level) key policy
    else policy

pub apply_floor : Option SafetyFloor → ExecutionPolicy → ExecutionPolicy
apply_floor none policy = policy
apply_floor (some floor) policy = apply_safety_floor policy floor

abbrev base_policy : Option ExecutionPolicy → RiskLevel → ExecutionPolicy
base_policy none level = default_policy level
base_policy (some p) level = p

-- A PolicyResolver: its own defaults and its floor.
pub record PolicyResolver : Type 0 where
  pub defaults : RiskLevel → Option ExecutionPolicy
  pub safety_floor : Option SafetyFloor

-- `resolve`; `level` is the level of the risk profile, which is `low` where there is none, and a
-- config that is absent or empty is `none`.
pub resolve :
    PolicyResolver
    → RiskLevel
    → Option PolicyOverride
    → Option PolicyOverride
    → Option PolicyOverride
    → Result ResolveError ExecutionPolicy
resolve r level tenant repository task = do
  p1 ← apply_layer (base_policy (r.defaults level) level) tenant "tenant" []
  p2 ← apply_layer p1 repository "repository" []
  let p3 = raise_risk level "risk_escalated" p2
  p4 ←
      apply_layer p3 task "task"
        (("task_override", flag true) ∷ ("policy_id", text p3.policy_id) ∷ [])
  ok (apply_floor r.safety_floor p4)

abbrev enforce_risk : Option RiskLevel → ExecutionPolicy → ExecutionPolicy
enforce_risk none policy = policy
enforce_risk (some level) policy = raise_risk level "risk_enforced_after_routing" policy

-- `enforce_safety_floor`; the level is that of the risk profile, if one is given.
pub enforce_safety_floor : PolicyResolver → ExecutionPolicy → Option RiskLevel → ExecutionPolicy
enforce_safety_floor r policy profile = enforce_risk profile (apply_floor r.safety_floor policy)

-- `validate`; `false` stands for the ValueError.
pub validate : ExecutionPolicy → Bool
validate p =
    leb 1 p.budget.max_steps
    && leb 1 p.budget.max_tool_calls
    && not (not (any (λ q. q.allow) p.tool_permissions) && eqb (length p.tool_permissions) 0)
    && (not p.verification.sandbox_required
        || any (λ q. q.requires_sandbox || q.allow) p.tool_permissions)
