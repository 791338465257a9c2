-- ===== src/Deployment/Routing/Tenants.antt =====
-- Two tenants that deploy the same candidate (evoagent/policy_evolution/deployment.py): the id of a
-- deployment is a digest of the candidate's id, its version and the risk level alone.
use evo_review_agent.Base.{ℕ, String, ◌≡◌, refl, ap, ◌≢◌, Option, some, arith}
use evo_review_agent.Base.Key.{text_key}
use evo_review_agent.Base.Dict.{get, get-put}
use evo_review_agent.Deployment.Records.{draft, PolicyDeployment, Scope, scope_key}
use evo_review_agent.Policy.Models.{ExecutionPolicy}
use evo_review_agent.Deployment.Manager.{
  PolicyDeploymentManager, register_policy, drafted, flush, commit, create,
}
use evo_review_agent.Deployment.Routing.{active_deployment, found_deployment}

-- A tenant's deployment is replaced when another tenant creates one of the same candidate at the same
-- risk level: the first tenant's scope then leads to the second tenant's draft.
pub create-replaces_other_tenant :
    (digest : String → ℕ → String → String) (candidate_policy baseline_policy : ExecutionPolicy)
    (mine other : Scope) (hypothesis : Option String) (now : ℕ) (m : PolicyDeploymentManager)
    → mine ≢ other
    → mine.risk_level ≡ other.risk_level
    → digest candidate_policy.policy_id candidate_policy.policy_version mine.risk_level ≢ ""
    → get m.active mine
      ≡ some (digest candidate_policy.policy_id candidate_policy.policy_version mine.risk_level)
    → (d : PolicyDeployment) × (active_deployment
          (create digest candidate_policy baseline_policy other hypothesis now m).0
          mine
        ≡ some d)
      × (d.state ≡ draft)
      × (d.tenant_id ≡ other.tenant_id)
unfolding create register_policy commit flush active_deployment found_deployment
create-replaces_other_tenant digest candidate_policy baseline_policy mine other hypothesis now m ne
      same nonempty pointer =
    let id = digest candidate_policy.policy_id candidate_policy.policy_version other.risk_level in
    let d = drafted id candidate_policy baseline_policy other hypothesis now in
    (
      d,
      ground (
        arith,
        get-put m.active other mine id,
        scope_key.same_iff other mine,
        get-put m.deployments id id d,
        text_key.same_iff id id,
        text_key.same_iff id "",
        ap (λ r. digest candidate_policy.policy_id candidate_policy.policy_version r) same,
      ),
      refl,
      refl,
    )
