-- ===== src/Deployment/Routing.antt =====
-- The routing of tasks by PolicyDeploymentManager (evoagent/policy_evolution/deployment.py): `route`,
-- `resolve_policy` and the exposure log. `digest` is the number that the program reads off the
-- first eight hexadecimal digits of a sha256.
pub mod Laws
pub mod Lanes
pub mod Tenants
use evo_review_agent.Base.{ℕ, ◌%◌, String, Option, none, some, [], ◌∷◌, ◌++◌, ltb, if◌then◌else◌}
use evo_review_agent.Base.Key.{◌==◌, text_key}
use evo_review_agent.Base.Dict.{get}
use evo_review_agent.Deployment.Records.{
  DeploymentState, canary, promoted, PolicyDeployment, Lane, baseline, candidate, ExposureRecord,
  Scope, scope_key, DeploymentError, deployment_not_found, key_error,
}
use evo_review_agent.Base.Result.{Result, ok, err, ◌>>=◌}
use evo_review_agent.Policy.Models.{ExecutionPolicy}
use evo_review_agent.Deployment.Manager.{PolicyDeploymentManager, Method, saved}
use evo_review_agent.Base.{◌<>◌}

pub record RoutingDecision : Type 0 where
  pub policy : ExecutionPolicy
  pub lane : Lane
  pub deployment_id : Option String
  pub baseline_policy_id : Option String
  pub baseline_version : Option ℕ
  pub candidate_policy_id : Option String
  pub candidate_version : Option ℕ
  pub traffic_share : Option ℕ

-- `_active_deployment`; an empty id counts as none.
found_deployment : PolicyDeploymentManager → Option String → Option PolicyDeployment
found_deployment m none = none
found_deployment m (some id) = if id == "" then none else get m.deployments id

unfoldable pub active_deployment : PolicyDeploymentManager → Scope → Option PolicyDeployment
unfolding found_deployment
active_deployment m scope = found_deployment m (get m.active scope)

-- `_default_baseline_id`
abbrev pub default_baseline_id : Scope → String
default_baseline_id scope = "baseline-" <> scope.risk_level

version_of : Option ExecutionPolicy → Option ℕ
version_of none = none
version_of (some p) = some p.policy_version

module _ (digest : String → ℕ) where
  -- `_lane`: the percentage of the task's hash against the share.
  pub lane_of : String → String → ℕ → Lane
  lane_of task id share =
      if ltb (digest (task <> (":" <> id)) % 100) share then candidate else baseline

-- `_record_exposure`
exposed :
    PolicyDeploymentManager
    → String
    → PolicyDeployment
    → Lane
    → ExecutionPolicy
    → ExecutionPolicy
    → PolicyDeploymentManager
exposed m task d lane base cand =
    let r : ExposureRecord = record {
      task_id = task;
      deployment_id = d.deployment_id;
      lane = lane;
      baseline_version = base.policy_version;
      candidate_version = cand.policy_version;
      traffic_share = d.traffic_share;
    } in
    record m {
      exposure = m.exposure ++ r ∷ [];
      exposure_repo = saved m.exposure_repo (task <> (":" <> d.deployment_id)) r;
    }

pub chosen : Lane → ExecutionPolicy → ExecutionPolicy → ExecutionPolicy
chosen baseline base cand = base
chosen candidate base cand = cand

-- A lookup in `_policies` that must succeed, with the exception that is raised otherwise.
policy_or : DeploymentError → Option ExecutionPolicy → Result DeploymentError ExecutionPolicy
policy_or e none = err e
policy_or e (some p) = ok p

-- `route` with no deployment: the registered baseline of the risk level.
route_default : PolicyDeploymentManager → Scope → Result DeploymentError RoutingDecision
route_default m scope = do
  base ← policy_or deployment_not_found (get m.policies (default_baseline_id scope))
  ok (record {
    policy = base;
    lane = baseline;
    deployment_id = none;
    baseline_policy_id = some base.policy_id;
    baseline_version = some base.policy_version;
    candidate_policy_id = none;
    candidate_version = none;
    traffic_share = none;
  })

decision : ExecutionPolicy → Lane → PolicyDeployment → Option ℕ → Option ℕ → ℕ → RoutingDecision
decision policy lane d base_version cand_version share = record {
  policy = policy;
  lane = lane;
  deployment_id = some d.deployment_id;
  baseline_policy_id = some d.baseline_policy_id;
  baseline_version = base_version;
  candidate_policy_id = some d.policy_id;
  candidate_version = cand_version;
  traffic_share = some share;
}

-- `route` outside a canary: the policy of one lane, whatever the task.
route_fixed :
    Lane
    → PolicyDeployment
    → ℕ
    → Option ExecutionPolicy
    → Option ExecutionPolicy
    → Result DeploymentError RoutingDecision
route_fixed candidate d share base cand = do
  p ← policy_or deployment_not_found cand
  ok (decision p candidate d (version_of base) (version_of cand) share)
route_fixed baseline d share base cand = do
  p ← policy_or deployment_not_found base
  ok (decision p baseline d (version_of base) (version_of cand) share)

module _ (digest : String → ℕ) where
  -- `route` in a canary, after both policies were looked up
  route_canary :
      PolicyDeployment
      → String
      → Option ExecutionPolicy
      → Option ExecutionPolicy
      → Method RoutingDecision
  route_canary d task (some base) (some cand) m =
      let lane = lane_of digest task d.deployment_id d.traffic_share in
      (
        exposed m task d lane base cand,
        ok (
            decision (chosen lane base cand) lane d (some base.policy_version)
              (some cand.policy_version) d.traffic_share),
      )
  route_canary d task base cand m = (m, err deployment_not_found)

  -- `route` with a deployment, by its state
  route_state :
      DeploymentState
      → PolicyDeployment
      → String
      → Option ExecutionPolicy
      → Option ExecutionPolicy
      → Method RoutingDecision
  route_state canary d task base cand m = route_canary d task base cand m
  route_state promoted d task base cand m = (m, route_fixed candidate d 100 base cand)
  route_state s d task base cand m = (m, route_fixed baseline d 0 base cand)

  route_found : Option PolicyDeployment → Scope → String → Method RoutingDecision
  route_found none scope task m = (m, route_default m scope)
  route_found (some d) scope task m =
      route_state d.state d task (get m.policies d.baseline_policy_id) (get m.policies d.policy_id)
        m

  pub route : Scope → String → Method RoutingDecision
  route scope task m = route_found (active_deployment m scope) scope task m

  -- `resolve_policy` in a canary: `self._policies[...]` raises a KeyError, baseline first.
  resolve_canary :
      PolicyDeployment
      → String
      → Option ExecutionPolicy
      → Option ExecutionPolicy
      → Method ExecutionPolicy
  resolve_canary d task (some base) (some cand) m =
      let lane = lane_of digest task d.deployment_id d.traffic_share in
      (exposed m task d lane base cand, ok (chosen lane base cand))
  resolve_canary d task base cand m = (m, err key_error)

  resolve_state :
      DeploymentState
      → PolicyDeployment
      → String
      → Option ExecutionPolicy
      → Option ExecutionPolicy
      → Method ExecutionPolicy
  resolve_state canary d task base cand m = resolve_canary d task base cand m
  resolve_state promoted d task base cand m = (m, policy_or key_error cand)
  resolve_state s d task base cand m = (m, policy_or key_error base)

  resolve_found : Option PolicyDeployment → Scope → String → Method ExecutionPolicy
  resolve_found none scope task m =
      (m, policy_or deployment_not_found (get m.policies (default_baseline_id scope)))
  resolve_found (some d) scope task m =
      resolve_state d.state d task (get m.policies d.baseline_policy_id)
        (get m.policies d.policy_id) m

  pub resolve_policy : Scope → String → Method ExecutionPolicy
  resolve_policy scope task m = resolve_found (active_deployment m scope) scope task m
