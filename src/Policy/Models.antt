-- ===== src/Policy/Models.antt =====
-- evoagent/policy/models.py: the policy records, the checks that their constructors make, and the
-- lookups of a tool's permission. A field that the program only tests for being negative or below
-- one is a natural number, wall time and backoff count whole seconds, money counts cents, and a
-- confidence counts hundredths.
use evo_review_agent.Base.{
  ℕ, String, ◌≡◌, Bool, true, false, not, ◌&&◌, Option, none, some, List, [], ◌∷◌, arith, leb,
  if◌then◌else◌,
}
use evo_review_agent.Base.Key.{◌==◌, text_key}
use evo_review_agent.Base.Dict.{Dict}

pub data RiskLevel : Type 0 where
  low medium high critical : RiskLevel

-- RISK_RANK
unfoldable pub rank : RiskLevel → ℕ
rank low = 0
rank medium = 1
rank high = 2
rank critical = 3

-- The level that a text names, if it stands in RISK_LEVELS.
unfoldable pub parse_level : String → Option RiskLevel
parse_level s =
    if s == "low"
    then some low
    else if s == "medium"
    then some medium
    else if s == "high"
    then some high
    else if s == "critical"
    then some critical
    else none

pub record ExecutionBudget : Type 0 where
  pub max_steps : ℕ
  pub max_tool_calls : ℕ
  pub max_wall_time_seconds : ℕ
  pub max_tokens : Option ℕ
  pub max_cost_usd : Option ℕ

pub record RetryPolicy : Type 0 where
  pub max_retries : ℕ
  pub backoff_seconds : ℕ
  pub exponential_backoff : Bool
  pub retryable_failures : List String

pub record VerificationPolicy : Type 0 where
  pub critic_required : Bool
  pub evidence_required : Bool
  pub verifier_required : Bool
  pub sandbox_required : Bool
  pub minimum_confidence : ℕ

pub record AgentPolicy : Type 0 where
  pub enabled_agents : List String
  pub max_parallel_agents : ℕ
  pub fallback_agents : List String

pub record ToolPermission : Type 0 where
  pub tool_name : String
  pub allow : Bool
  pub max_calls : Option ℕ
  pub requires_sandbox : Bool
  pub requires_approval : Bool

pub data MetaValue : Type 0 where
  text : String → MetaValue
  flag : Bool → MetaValue

pub record ExecutionPolicy : Type 0 where
  pub policy_id : String
  pub policy_version : ℕ
  pub risk_level : RiskLevel
  pub budget : ExecutionBudget
  pub retry : RetryPolicy
  pub verification : VerificationPolicy
  pub agents : AgentPolicy
  pub tool_permissions : List ToolPermission
  pub metadata : Dict String MetaValue

-- The `__post_init__` checks; `false` stands for the ValueError.
unfoldable pub budget_ok : ExecutionBudget → Bool
budget_ok b = leb 1 b.max_steps && leb 1 b.max_tool_calls && leb 1 b.max_wall_time_seconds

unfoldable pub verification_ok : VerificationPolicy → Bool
verification_ok v = leb v.minimum_confidence 100

unfoldable pub agents_ok : AgentPolicy → Bool
agents_ok a = leb 1 a.max_parallel_agents

unfoldable pub policy_ok : ExecutionPolicy → Bool
policy_ok p = not (p.policy_id == "") && leb 1 p.policy_version

-- `from_dict`: the parts are built first and then the whole, each with its checks.
unfoldable pub from_dict : ExecutionPolicy → Option ExecutionPolicy
from_dict p =
    if verification_ok p.verification && agents_ok p.agents && budget_ok p.budget && policy_ok p
    then some p
    else none

-- The loop of `tool_permission`: the first permission of the name.
unfoldable pub find_permission : List ToolPermission → String → Option ToolPermission
find_permission [] name = none
find_permission (p ∷ ps) name = if p.tool_name == name then some p else find_permission ps name

unfoldable pub tool_permission : ExecutionPolicy → String → Option ToolPermission
tool_permission policy name = find_permission policy.tool_permissions name

abbrev pub allow_of : Option ToolPermission → Bool
allow_of none = false
allow_of (some p) = p.allow

unfoldable pub allows : ExecutionPolicy → String → Bool
unfolding tool_permission
allows policy name = allow_of (tool_permission policy name)

abbrev max_calls_of : Option ToolPermission → Option ℕ
max_calls_of none = none
max_calls_of (some p) = p.max_calls

pub tool_max_calls : ExecutionPolicy → String → Option ℕ
tool_max_calls policy name = max_calls_of (tool_permission policy name)

-- A policy that `from_dict` returns has passed every check, and nothing in it was changed.
pub from_dict-IsValid :
    (p : ExecutionPolicy) {q : ExecutionPolicy}
    → from_dict p ≡ some q
    → (q ≡ p)
      × (budget_ok q.budget ≡ true)
      × (verification_ok q.verification ≡ true)
      × (agents_ok q.agents ≡ true)
      × (policy_ok q ≡ true)
unfolding from_dict
from_dict-IsValid p h = ground arith
