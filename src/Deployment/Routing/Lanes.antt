-- ===== src/Deployment/Routing/Lanes.antt =====
-- The lanes of `route` (evoagent/policy_evolution/deployment.py): what the share decides, and what a
-- retried task gets.
use evo_review_agent.Base.{ℕ, ◌≤◌, String, ◌≡◌, refl, sym, Option, none, some, arith}
use evo_review_agent.Base.Key.{text_key}
use evo_review_agent.Base.Dict.{get}
use evo_review_agent.Deployment.Records.{
  DeploymentState, canary, promoted, CanaryStage, PolicyDeployment, baseline, candidate, Scope,
  scope_key, DeploymentError,
}
use evo_review_agent.Base.Result.{Result, ok, err}
use evo_review_agent.Policy.Models.{ExecutionPolicy}
use evo_review_agent.Deployment.Manager.{Ladder, PolicyDeploymentManager}
use evo_review_agent.Deployment.Routing.{
  RoutingDecision, active_deployment, lane_of, exposed, chosen, policy_or, route_default, decision,
  route_fixed, route_canary, route_state, route_found, route, found_deployment,
}
use evo_review_agent.Deployment.Transitions.Invariant.{ShareFits, IsValid}

module _ (digest : String → ℕ) where
  -- A task that is on the candidate's lane stays on it when the share grows.
  pub lane_of_mono :
      (task id : String) (share share' : ℕ)
      → share ≤ share'
      → lane_of digest task id share ≡ candidate
      → lane_of digest task id share' ≡ candidate
  unfolding lane_of
  lane_of_mono task id share share' le h = ground arith

  lane_of-none : (task id : String) → lane_of digest task id 0 ≡ baseline
  unfolding lane_of
  lane_of-none task id = ground arith

  lane_of-all : (task id : String) → lane_of digest task id 100 ≡ candidate
  unfolding lane_of
  lane_of-all task id = ground arith

  -- What `route` answers for the deployment `d` at the lane that the share of `d` decides.
  abbrev pub BySharing :
      PolicyDeployment
      → String
      → ExecutionPolicy
      → ExecutionPolicy
      → Result DeploymentError RoutingDecision
      → Type 0
  BySharing d task base cand (err e) = ⊥
  BySharing d task base cand (ok r) =
      (r.lane ≡ lane_of digest task d.deployment_id d.traffic_share)
      × (r.policy ≡ chosen r.lane base cand)
      × (r.deployment_id ≡ some d.deployment_id)

  by_sharing :
      (stages : Ladder CanaryStage) (s : DeploymentState) (d : PolicyDeployment) (task : String)
      (base cand : ExecutionPolicy) (m : PolicyDeploymentManager)
      → ShareFits stages s d.stage_index d.traffic_share
      → BySharing d task base cand (route_state digest s d task (some base) (some cand) m).1
  unfolding route_state route_canary route_fixed decision policy_or chosen
  by_sharing stages canary d task base cand m h = (refl, refl, refl)
  by_sharing stages promoted d task base cand m h =
      (rw h (sym (lane_of-all task d.deployment_id)), refl, refl)
  by_sharing stages _ d task base cand m h =
      (rw h (sym (lane_of-none task d.deployment_id)), refl, refl)

  -- In every state of a valid deployment whose two policies are registered, the lane of a task is
  -- the candidate's exactly if the percentage of its hash lies below the deployment's share, and the
  -- policy is that of the lane.
  pub route-by_share :
      (m : PolicyDeploymentManager) (scope : Scope) (task key : String) (d : PolicyDeployment)
      (base cand : ExecutionPolicy)
      → active_deployment m scope ≡ some d
      → IsValid m.stages key d
      → get m.policies d.baseline_policy_id ≡ some base
      → get m.policies d.policy_id ≡ some cand
      → BySharing d task base cand (route digest scope task m).1
  unfolding route route_found
  route-by_share m scope task key d base cand active valid has_base has_cand =
      rw (active, route_found)
        (rw (has_base, has_cand) (by_sharing m.stages d.state d task base cand m valid.share_fits))

  state_same :
      (s : DeploymentState) (d : PolicyDeployment) (task : String)
      (base cand : Option ExecutionPolicy) (m m' : PolicyDeploymentManager)
      → (route_state digest s d task base cand m').1 ≡ (route_state digest s d task base cand m).1
  unfolding route_state route_canary
  state_same canary d task (some b) (some c) m m' = refl
  state_same canary d task (some b) none m m' = refl
  state_same canary d task none cand m m' = refl
  state_same promoted d task base cand m m' = refl
  state_same _ d task base cand m m' = refl

  -- The exposure log is not looked at: with one more exposure in it the answer is the same.
  found_same :
      (o : Option PolicyDeployment) (scope : Scope) (task : String) (m m' : PolicyDeploymentManager)
      → m'.policies ≡ m.policies
      → (route_found digest o scope task m').1 ≡ (route_found digest o scope task m).1
  unfolding route_found route_default
  found_same none scope task m m' e = rw e refl
  found_same (some d) scope task m m' e = rw e (state_same d.state d task _ _ m _)

  active_same :
      (m m' : PolicyDeploymentManager) (o : Option String)
      → m'.deployments ≡ m.deployments
      → found_deployment m' o ≡ found_deployment m o
  unfolding found_deployment
  active_same m m' none e = refl
  active_same m m' (some id) e = rw e refl

  -- What routing a task leaves alone.
  record SameRouting (m m' : PolicyDeploymentManager) : Type 0 where
    same_policies : m'.policies ≡ m.policies
    same_deployments : m'.deployments ≡ m.deployments
    same_active : m'.active ≡ m.active

  state_leaves :
      (s : DeploymentState) (d : PolicyDeployment) (task : String)
      (base cand : Option ExecutionPolicy) (m : PolicyDeploymentManager)
      → SameRouting m (route_state digest s d task base cand m).0
  unfolding route_state route_canary exposed
  state_leaves canary d task (some b) (some c) m = record {
    same_policies = refl;
    same_deployments = refl;
    same_active = refl;
  }
  state_leaves canary d task (some b) none m = record {
    same_policies = refl;
    same_deployments = refl;
    same_active = refl;
  }
  state_leaves canary d task none cand m = record {
    same_policies = refl;
    same_deployments = refl;
    same_active = refl;
  }
  state_leaves promoted d task base cand m = record {
    same_policies = refl;
    same_deployments = refl;
    same_active = refl;
  }
  state_leaves _ d task base cand m = record {
    same_policies = refl;
    same_deployments = refl;
    same_active = refl;
  }

  found_leaves :
      (o : Option PolicyDeployment) (scope : Scope) (task : String) (m : PolicyDeploymentManager)
      → SameRouting m (route_found digest o scope task m).0
  unfolding route_found
  found_leaves none scope task m = record {
    same_policies = refl;
    same_deployments = refl;
    same_active = refl;
  }
  found_leaves (some d) scope task m = state_leaves d.state d task _ _ m

  -- Whatever other tasks were routed in between, a retried task gets the decision that it got first.
  pub route_again :
      (m : PolicyDeploymentManager) (scope other : Scope) (task between : String)
      → (route digest scope task (route digest other between m).0).1 ≡ (route digest scope task m).1
  unfolding route active_deployment
  route_again m scope other task between =
      let s = found_leaves (active_deployment m other) other between m in
      let m' = (route digest other between m).0 in
      rw (s.same_active, active_same m m' (get m.active scope) s.same_deployments)
        (found_same (active_deployment m scope) scope task m m' s.same_policies)
