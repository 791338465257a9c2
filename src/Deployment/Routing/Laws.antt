-- ===== src/Deployment/Routing/Laws.antt =====
-- What `route` of evoagent/policy_evolution/deployment.py answers in each state of a deployment.
use evo_review_agent.Base.{ℕ, String, ◌≡◌, refl, Option, none, some, arith}
use evo_review_agent.Base.Key.{text_key}
use evo_review_agent.Deployment.Records.{
  DeploymentState, canary, promoted, PolicyDeployment, Scope, scope_key, DeploymentError,
}
use evo_review_agent.Base.Result.{Result, ok, err}
use evo_review_agent.Policy.Models.{ExecutionPolicy}
use evo_review_agent.Deployment.Manager.{PolicyDeploymentManager}
use evo_review_agent.Deployment.Routing.{
  RoutingDecision, active_deployment, policy_or, route_default, decision, route_fixed, route_canary,
  route_state, route_found, route, resolve_canary, resolve_state, resolve_found, resolve_policy,
}

-- The policy of a routing result, with an exception that is not told apart from another.
pub policy_of : Result DeploymentError RoutingDecision → Option ExecutionPolicy
policy_of (ok r) = some r.policy
policy_of (err e) = none

pub returned : Result DeploymentError ExecutionPolicy → Option ExecutionPolicy
returned (ok p) = some p
returned (err e) = none

module _ (digest : String → ℕ) where
  state-agrees :
      (s : DeploymentState) (d : PolicyDeployment) (task : String)
      (base cand : Option ExecutionPolicy) (m : PolicyDeploymentManager)
      → ((route_state digest s d task base cand m).0
          ≡ (resolve_state digest s d task base cand m).0)
        × (policy_of (route_state digest s d task base cand m).1
            ≡ returned (resolve_state digest s d task base cand m).1)
  unfolding route_state resolve_state route_canary resolve_canary route_fixed decision policy_or
      policy_of returned
  state-agrees canary d task (some b) (some c) m = (refl, refl)
  state-agrees canary d task (some b) none m = (refl, refl)
  state-agrees canary d task none cand m = (refl, refl)
  state-agrees promoted d task base (some c) m = (refl, refl)
  state-agrees promoted d task base none m = (refl, refl)
  state-agrees _ d task (some b) cand m = (refl, refl)
  state-agrees _ d task none cand m = (refl, refl)

  found-agrees :
      (o : Option PolicyDeployment) (scope : Scope) (task : String) (m : PolicyDeploymentManager)
      → ((route_found digest o scope task m).0 ≡ (resolve_found digest o scope task m).0)
        × (policy_of (route_found digest o scope task m).1
            ≡ returned (resolve_found digest o scope task m).1)
  unfolding route_found resolve_found policy_of returned route_default policy_or
  found-agrees none scope task m = ground arith
  found-agrees (some d) scope task m = state-agrees d.state d task _ _ m

  -- `route` and `resolve_policy` log the same exposure and pick the same policy, and one raises
  -- where the other does.
  pub route-resolve_policy :
      (scope : Scope) (task : String) (m : PolicyDeploymentManager)
      → ((route digest scope task m).0 ≡ (resolve_policy digest scope task m).0)
        × (policy_of (route digest scope task m).1
            ≡ returned (resolve_policy digest scope task m).1)
  unfolding route resolve_policy
  route-resolve_policy scope task m = found-agrees (active_deployment m scope) scope task m
