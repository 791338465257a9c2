-- ===== src/Policy/Resolver/Raises.antt =====
-- What `resolve` of evoagent/policy/resolver.py guarantees of the policy that it returns.
use evo_review_agent.Base.{◌≤◌, String, ◌≡◌, true, false, Option, none, some, [], arith, contains}
use evo_review_agent.Base.Key.{text_key}
use evo_review_agent.Base.Dict.{Dict}
use evo_review_agent.Policy.Models.{RiskLevel, rank, MetaValue, ExecutionPolicy, from_dict, allows}
use evo_review_agent.Base.Result.{ok, >>=_returned}
use evo_review_agent.Policy.Defaults.{default_policy, risk_level-default_policy}
use evo_review_agent.Policy.SafetyFloor.{SafetyFloor, apply_safety_floor}
use evo_review_agent.Policy.Resolver.{
  PolicyOverride, PolicyResolver, resolve, apply_layer, apply_override, raise_risk, raised_to,
  apply_floor, override_level, or_value_error,
}
use evo_review_agent.Policy.SafetyFloor.Posture.{rank-apply_safety_floor}
use evo_review_agent.Policy.SafetyFloor.Permissions.{apply_safety_floor-enforces}

rank-raise_risk :
    (level : RiskLevel) (key : String) (policy : ExecutionPolicy)
    → rank level ≤ rank (raise_risk level key policy).risk_level
unfolding raise_risk raised_to
rank-raise_risk level key policy = ground (arith, risk_level-default_policy level)

rank-apply_floor :
    (floor : Option SafetyFloor) (policy : ExecutionPolicy)
    → rank policy.risk_level ≤ rank (apply_floor floor policy).risk_level
unfolding apply_floor
rank-apply_floor none policy = omega arith
rank-apply_floor (some f) policy = omega (arith, rank-apply_safety_floor policy f)

-- An override that names no risk level leaves the level as it was.
apply_override-keeps_level :
    (policy : ExecutionPolicy) (o : PolicyOverride) (source : String)
    (extra : Dict String MetaValue) {q : ExecutionPolicy}
    → o.risk_level ≡ none
    → apply_override policy o source extra ≡ ok q
    → q.risk_level ≡ policy.risk_level
unfolding apply_override override_level or_value_error from_dict
apply_override-keeps_level policy o source extra none_named h = ground arith

-- What is known of a task's override that cannot lower the level: there is none, or it names none.
abbrev pub NamesNoLevel : Option PolicyOverride → Type 0
NamesNoLevel none = Unit
NamesNoLevel (some o) = o.risk_level ≡ none

apply_layer-keeps_level :
    (policy : ExecutionPolicy) (o : Option PolicyOverride) (source : String)
    (extra : Dict String MetaValue) {q : ExecutionPolicy}
    → NamesNoLevel o
    → apply_layer policy o source extra ≡ ok q
    → q.risk_level ≡ policy.risk_level
unfolding apply_layer
apply_layer-keeps_level policy none source extra named h = cc
apply_layer-keeps_level policy (some o) source extra named h =
    apply_override-keeps_level policy o source extra named h

-- The resolved policy is at or above the level of the risk profile, whatever the tenant and the
-- repository ask for, if the task's own override names no risk level.
pub resolve-keeps_risk :
    (r : PolicyResolver) (level : RiskLevel) (tenant repository task : Option PolicyOverride)
    {policy : ExecutionPolicy}
    → NamesNoLevel task
    → resolve r level tenant repository task ≡ ok policy
    → rank level ≤ rank policy.risk_level
unfolding resolve
resolve-keeps_risk r level tenant repository task named h =
    let (p1, _, h1) = >>=_returned (apply_layer _ tenant "tenant" []) _ h in
    let (p2, _, h2) = >>=_returned (apply_layer p1 repository "repository" []) _ h1 in
    let p3 = raise_risk level "risk_escalated" p2 in
    let (p4, e4, h4) = >>=_returned (apply_layer p3 task "task" _) _ h2 in
    ground (
      arith,
      h4,
      rank-apply_floor r.safety_floor p4,
      rank-raise_risk level "risk_escalated" p2,
      apply_layer-keeps_level p3 task "task" _ named e4,
    )

-- Whatever the overrides allow, the task's included, a tool that the resolver's floor denies is not
-- allowed by the resolved policy.
pub resolve-enforces_denies :
    (r : PolicyResolver) (floor : SafetyFloor) (level : RiskLevel)
    (tenant repository task : Option PolicyOverride) (t : String) {policy : ExecutionPolicy}
    → r.safety_floor ≡ some floor
    → contains floor.mandatory_tool_denies t ≡ true
    → resolve r level tenant repository task ≡ ok policy
    → allows policy t ≡ false
unfolding resolve apply_floor
resolve-enforces_denies r floor level tenant repository task t has_floor denied h =
    let (p1, _, h1) = >>=_returned (apply_layer _ tenant "tenant" []) _ h in
    let (p2, _, h2) = >>=_returned (apply_layer p1 repository "repository" []) _ h1 in
    let (p4, e4, h4) =
      >>=_returned (apply_layer (raise_risk level "risk_escalated" p2) task "task" _) _ h2 in
    ground (arith, has_floor, h4, apply_safety_floor-enforces p4 floor t)

-- With no override at all the default policy of the level is resolved, under the floor.
pub resolve-no_overrides :
    (floor : SafetyFloor) (level : RiskLevel)
    → resolve (record { defaults = λ _. none; safety_floor = some floor }) level none none none
      ≡ ok (apply_safety_floor (default_policy level) floor)
unfolding resolve apply_layer raise_risk apply_floor
resolve-no_overrides floor level = ground (arith, risk_level-default_policy level)
