-- ===== src/Policy/Resolver/Enforce.antt =====
-- What `enforce_safety_floor` of evoagent/policy/resolver.py guarantees of a routed policy, and what
-- it does not.
use evo_review_agent.Base.{◌≤◌, ◌<◌, String, ◌≡◌, true, Option, some, arith}
use evo_review_agent.Base.Key.{text_key}
use evo_review_agent.Policy.Models.{RiskLevel, rank, ExecutionPolicy, tool_permission}
use evo_review_agent.Policy.Defaults.{
  default_policy, risk_level-default_policy, default_policy-IsHardened,
}
use evo_review_agent.Policy.SafetyFloor.{SafetyFloor, system_safety_floor}
use evo_review_agent.Policy.Resolver.{
  PolicyResolver, enforce_safety_floor, raise_risk, raised_to, apply_floor,
}
use evo_review_agent.Policy.SafetyFloor.Posture.{
  rank-apply_safety_floor, apply_safety_floor-hardens,
}

-- With the system's floor, a policy that is routed to a task of high or critical risk asks for every
-- verification step and is at or above the level of the task, whatever policy was routed.
pub enforce_safety_floor-IsHardened :
    (defaults : RiskLevel → Option ExecutionPolicy) (policy : ExecutionPolicy) (level : RiskLevel)
    → 2 ≤ rank level
    → let r : PolicyResolver = record {
      defaults = defaults;
      safety_floor = some system_safety_floor;
    } in
      let q = enforce_safety_floor r policy (some level) in
      (rank level ≤ rank q.risk_level)
      × (q.verification.critic_required ≡ true)
      × (q.verification.evidence_required ≡ true)
      × (q.verification.verifier_required ≡ true)
      × (q.verification.sandbox_required ≡ true)
unfolding enforce_safety_floor raise_risk raised_to apply_floor
enforce_safety_floor-IsHardened defaults policy level h = ground (
  arith,
  risk_level-default_policy level,
  default_policy-IsHardened level,
  apply_safety_floor-hardens policy system_safety_floor,
)

-- Where the policy and the floor both lie below the level of the task, the result has the tool
-- permissions of the default policy of that level: what the floor denied, and the approvals that it
-- asked for, are gone.
pub enforce_safety_floor-drops_denies :
    (r : PolicyResolver) (floor : SafetyFloor) (policy : ExecutionPolicy) (level : RiskLevel)
    (t : String)
    → r.safety_floor ≡ some floor
    → rank policy.risk_level < rank level
    → rank floor.minimum_risk_level < rank level
    → tool_permission (enforce_safety_floor r policy (some level)) t
      ≡ tool_permission (default_policy level) t
unfolding enforce_safety_floor raise_risk raised_to tool_permission apply_floor
enforce_safety_floor-drops_denies r floor policy level t has_floor low_policy low_floor =
    ground (arith, has_floor, risk_level-default_policy level, rank-apply_safety_floor policy floor)
