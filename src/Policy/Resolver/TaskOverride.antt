-- ===== src/Policy/Resolver/TaskOverride.antt =====
-- What a task's override can do in `resolve` of evoagent/policy/resolver.py, with the system's floor.
use evo_review_agent.Base.{String, ◌≡◌, false, Option, some, [], arith}
use evo_review_agent.Base.Key.{text_key}
use evo_review_agent.Base.Dict.{Dict}
use evo_review_agent.Policy.Models.{
  RiskLevel, low, rank, parse_level, MetaValue, ExecutionPolicy, from_dict,
}
use evo_review_agent.Base.Result.{ok, >>=_returned}
use evo_review_agent.Policy.SafetyFloor.{apply_safety_floor, system_safety_floor}
use evo_review_agent.Policy.Resolver.{
  PolicyOverride, PolicyResolver, resolve, apply_layer, apply_override, raise_risk, apply_floor,
  override_level, or_value_error, override_verification,
}

-- An override that names the level `low` and turns every verification step off.
pub record AsksLittle (o : PolicyOverride) : Type 0 where
  pub level : o.risk_level ≡ some "low"
  pub no_critic : o.verification.critic_required ≡ some false
  pub no_evidence : o.verification.evidence_required ≡ some false
  pub no_verifier : o.verification.verifier_required ≡ some false
  pub no_sandbox : o.verification.sandbox_required ≡ some false

-- A policy of the level `low` that requires no verification step.
pub record IsRelaxed (p : ExecutionPolicy) : Type 0 where
  pub level : p.risk_level ≡ low
  pub no_critic : p.verification.critic_required ≡ false
  pub no_evidence : p.verification.evidence_required ≡ false
  pub no_verifier : p.verification.verifier_required ≡ false
  pub no_sandbox : p.verification.sandbox_required ≡ false

apply_override-IsRelaxed :
    (policy : ExecutionPolicy) (o : PolicyOverride) (source : String)
    (extra : Dict String MetaValue) {q : ExecutionPolicy}
    → AsksLittle o
    → apply_override policy o source extra ≡ ok q
    → IsRelaxed q
unfolding apply_override override_level or_value_error from_dict override_verification parse_level
apply_override-IsRelaxed policy o source extra asks h = record {
  level = ground (arith, h, asks.level);
  no_critic = ground (arith, h, asks.no_critic);
  no_evidence = ground (arith, h, asks.no_evidence);
  no_verifier = ground (arith, h, asks.no_verifier);
  no_sandbox = ground (arith, h, asks.no_sandbox);
}

-- The system's floor hardens no policy below the level `high`.
system_floor-IsRelaxed :
    (policy : ExecutionPolicy)
    → IsRelaxed policy
    → IsRelaxed (apply_safety_floor policy system_safety_floor)
unfolding apply_safety_floor rank
system_floor-IsRelaxed policy r = record {
  level = ground (arith, r.level);
  no_critic = ground (arith, r.level, r.no_critic);
  no_evidence = ground (arith, r.level, r.no_evidence);
  no_verifier = ground (arith, r.level, r.no_verifier);
  no_sandbox = ground (arith, r.level, r.no_sandbox);
}

-- Whatever the level of the risk profile and the overrides of the tenant and the repository: if the
-- task's override names the level `low` and turns every verification step off, then a policy that is
-- resolved under the system's floor has the level `low` and requires no verification step. The task's
-- override is applied after the risk escalation and below what the floor hardens.
pub resolve-IsRelaxed :
    (r : PolicyResolver) (level : RiskLevel) (tenant repository : Option PolicyOverride)
    (o : PolicyOverride) {policy : ExecutionPolicy}
    → r.safety_floor ≡ some system_safety_floor
    → AsksLittle o
    → resolve r level tenant repository (some o) ≡ ok policy
    → IsRelaxed policy
unfolding resolve apply_floor apply_layer
resolve-IsRelaxed r level tenant repository o {policy = policy} has_floor asks h =
    let (p1, _, h1) = >>=_returned (apply_layer _ tenant "tenant" []) _ h in
    let (p2, _, h2) = >>=_returned (apply_layer p1 repository "repository" []) _ h1 in
    let (p4, e4, h4) =
      >>=_returned (apply_override (raise_risk level "risk_escalated" p2) o "task" _) _ h2 in
    let floored = system_floor-IsRelaxed p4 (apply_override-IsRelaxed _ o "task" _ asks e4) in
    let returned : apply_safety_floor p4 system_safety_floor ≡ policy =
      ground (arith, has_floor, h4) in
    rw (← returned) floored
