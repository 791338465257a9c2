-- ===== src/Policy/Resolver/Examples.antt =====
-- The theorems on the resolver at concrete inputs.
use evo_review_agent.Base.{◌≡◌, refl, false, none, some, []}
use evo_review_agent.Base.Key.{text_key}
use evo_review_agent.Base.Dict.{put}
use evo_review_agent.Base.Result.{Result, ok, err}
use evo_review_agent.Policy.Models.{
  low, critical, rank, parse_level, from_dict, budget_ok, verification_ok, agents_ok, policy_ok,
  ExecutionPolicy,
}
use evo_review_agent.Policy.Defaults.{default_policy}
use evo_review_agent.Policy.SafetyFloor.{system_safety_floor}
use evo_review_agent.Policy.Resolver.{
  PolicyOverride, PolicyResolver, ResolveError, resolve, apply_layer, apply_override, raise_risk,
  override_level, or_value_error, add_keywords, override_budget, override_retry,
  override_verification, override_agents, override_permissions,
}
use evo_review_agent.Policy.Resolver.TaskOverride.{IsRelaxed, resolve-IsRelaxed}

abbrev system_resolver : PolicyResolver
system_resolver = record { defaults = λ _. none; safety_floor = some system_safety_floor }

-- A task's override that names the level `low` and turns every verification step off.
abbrev relaxed : PolicyOverride
relaxed = record {
  budget = record {
    max_steps = none;
    max_tool_calls = none;
    max_wall_time_seconds = none;
    max_tokens = none;
    max_cost_usd = none;
  };
  retry = record {
    max_retries = none;
    backoff_seconds = none;
    exponential_backoff = none;
    retryable_failures = none;
  };
  verification = record {
    critic_required = some false;
    evidence_required = some false;
    verifier_required = some false;
    sandbox_required = some false;
    minimum_confidence = none;
  };
  agents = record { enabled_agents = none; max_parallel_agents = none; fallback_agents = none };
  risk_level = some "low";
  tool_permissions = none;
  metadata = [];
}

abbrev or_default : Result ResolveError ExecutionPolicy → ExecutionPolicy
or_default (ok p) = p
or_default (err e) = default_policy low

abbrev unguarded : ExecutionPolicy
unguarded = or_default (resolve system_resolver critical none none (some relaxed))

resolves_relaxed : resolve system_resolver critical none none (some relaxed) ≡ ok unguarded
unfolding resolve apply_layer apply_override raise_risk override_level or_value_error add_keywords
    override_budget override_retry override_verification override_agents override_permissions
    from_dict budget_ok verification_ok agents_ok policy_ok default_policy rank parse_level put
resolves_relaxed = refl

resolve-IsRelaxed_example : IsRelaxed unguarded
resolve-IsRelaxed_example =
    resolve-IsRelaxed system_resolver critical none none relaxed refl
      (record {
        level = refl;
        no_critic = refl;
        no_evidence = refl;
        no_verifier = refl;
        no_sandbox = refl;
      })
      resolves_relaxed
