-- ===== src/Policy/Defaults.antt =====
-- evoagent/policy/defaults.py: the system policy of each risk level.
use evo_review_agent.Base.{ℕ, ◌≤◌, String, ◌≡◌, Bool, true, false, none, some, List, [], ◌∷◌, arith}
use evo_review_agent.Base.Key.{text_key}
use evo_review_agent.Policy.Models.{
  RiskLevel, low, medium, high, critical, rank, ExecutionBudget, RetryPolicy, VerificationPolicy,
  AgentPolicy, ToolPermission, text, ExecutionPolicy,
}

abbrev agent_reliability : String
agent_reliability = "reliability-agent"

abbrev agent_semantic : String
agent_semantic = "semantic-agent"

abbrev agent_security : String
agent_security = "security-agent"

abbrev permission : String → Bool → ℕ → Bool → Bool → ToolPermission
permission name allowed calls sandbox approval = record {
  tool_name = name;
  allow = allowed;
  max_calls = some calls;
  requires_sandbox = sandbox;
  requires_approval = approval;
}

-- READ_TOOLS, sorted by name as `_policy` lists them
unfoldable pub read_tools : List ToolPermission
read_tools =
    permission "find_callers" true 10 false false
    ∷ permission "list_files" true 10 false false
    ∷ permission "push_fix" false 1 false true
    ∷ permission "read_file" true 40 false false
    ∷ permission "run_tests" true 5 true false
    ∷ permission "search_code" true 20 false false
    ∷ []

-- _policy
make_policy :
    String
    → RiskLevel
    → ExecutionBudget
    → RetryPolicy
    → VerificationPolicy
    → AgentPolicy
    → ExecutionPolicy
make_policy id level b r v a = record {
  policy_id = id;
  policy_version = 1;
  risk_level = level;
  budget = b;
  retry = r;
  verification = v;
  agents = a;
  tool_permissions = read_tools;
  metadata = ("source", text "system-default") ∷ [];
}

abbrev budget_of : ℕ → ℕ → ℕ → ExecutionBudget
budget_of steps calls seconds = record {
  max_steps = steps;
  max_tool_calls = calls;
  max_wall_time_seconds = seconds;
  max_tokens = none;
  max_cost_usd = none;
}

abbrev retry_of : ℕ → Bool → List String → RetryPolicy
retry_of retries exponential failures = record {
  max_retries = retries;
  backoff_seconds = 1;
  exponential_backoff = exponential;
  retryable_failures = failures;
}

abbrev verification_of : Bool → Bool → Bool → Bool → ℕ → VerificationPolicy
verification_of critic evidence verifier sandbox confidence = record {
  critic_required = critic;
  evidence_required = evidence;
  verifier_required = verifier;
  sandbox_required = sandbox;
  minimum_confidence = confidence;
}

abbrev agents_of : List String → ℕ → List String → AgentPolicy
agents_of enabled width fallback = record {
  enabled_agents = enabled;
  max_parallel_agents = width;
  fallback_agents = fallback;
}

abbrev specialists : List String
specialists = agent_security ∷ agent_reliability ∷ agent_semantic ∷ []

-- DEFAULT_POLICIES and `default_policy`
unfoldable pub default_policy : RiskLevel → ExecutionPolicy
unfolding make_policy
default_policy low =
    make_policy "system-low" low (budget_of 3 5 60)
      (retry_of 1 false ("MODEL_TIMEOUT" ∷ "TOOL_TIMEOUT" ∷ []))
      (verification_of false false false false 0) (agents_of (agent_reliability ∷ []) 1 [])
default_policy medium =
    make_policy "system-medium" medium (budget_of 6 12 150)
      (retry_of 2 true ("MODEL_TIMEOUT" ∷ "MODEL_RATE_LIMIT" ∷ "TOOL_TIMEOUT" ∷ []))
      (verification_of true false true false 0) (agents_of specialists 3 (agent_reliability ∷ []))
default_policy high =
    make_policy "system-high" high (budget_of 10 25 300)
      (retry_of 3 true
        ("MODEL_TIMEOUT" ∷ "MODEL_RATE_LIMIT" ∷ "TOOL_TIMEOUT" ∷ "TOOL_UNAVAILABLE" ∷ []))
      (verification_of true true true true 60)
      (agents_of specialists 3 (agent_reliability ∷ agent_semantic ∷ []))
default_policy critical =
    make_policy "system-critical" critical (budget_of 15 40 600)
      (retry_of 3 true ("MODEL_TIMEOUT" ∷ "MODEL_RATE_LIMIT" ∷ "TOOL_TIMEOUT" ∷ []))
      (verification_of true true true true 80)
      (agents_of specialists 3 (agent_reliability ∷ agent_semantic ∷ []))

pub risk_level-default_policy : (level : RiskLevel) → (default_policy level).risk_level ≡ level
unfolding default_policy
risk_level-default_policy level = ground arith

-- From `high` on, a default policy asks for every kind of verification.
pub default_policy-IsHardened :
    (level : RiskLevel)
    → 2 ≤ rank level
    → ((default_policy level).verification.critic_required ≡ true)
      × ((default_policy level).verification.evidence_required ≡ true)
      × ((default_policy level).verification.verifier_required ≡ true)
      × ((default_policy level).verification.sandbox_required ≡ true)
unfolding default_policy rank
default_policy-IsHardened level h = ground arith
