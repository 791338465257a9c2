-- ===== src/Deployment/Restore.antt =====
-- The restart of PolicyDeploymentManager (evoagent/policy_evolution/deployment.py):
-- `restore_active_deployments` and the reload of the exposure log. A row is a persisted deployment;
-- `policy_loader` is the caller's, and `none` where it gives none.
pub mod Latest
use evo_review_agent.Base.{
  ℕ, String, Bool, true, false, ◌&&◌, Option, none, some, List, [], ◌∷◌, leb, if◌then◌else◌, length,
}
use evo_review_agent.Base.Key.{text_key}
use evo_review_agent.Base.Dict.{Dict, get, put}
use evo_review_agent.Deployment.Records.{
  DeploymentState, rolled_back, paused, PolicyDeployment, ExposureRecord, Scope, scope_key,
  scope_of,
}
use evo_review_agent.Policy.Models.{ExecutionPolicy}
use evo_review_agent.Deployment.Manager.{PolicyDeploymentManager}

-- `deployment.state not in (ROLLED_BACK, PAUSED)`
pub is_live : DeploymentState → Bool
is_live rolled_back = false
is_live paused = false
is_live _ = true

-- The variables of the loop over the persisted rows.
record Restoring : Type 0 where
  deployments : Dict String PolicyDeployment
  policies : Dict String ExecutionPolicy
  active : Dict Scope PolicyDeployment

with_policy : Option ExecutionPolicy → Dict String ExecutionPolicy → Dict String ExecutionPolicy
with_policy none policies = policies
with_policy (some p) policies = put policies p.policy_id p

load_policies :
    Option (String → Option ExecutionPolicy)
    → PolicyDeployment
    → Dict String ExecutionPolicy
    → Dict String ExecutionPolicy
load_policies none d policies = policies
load_policies (some loader) d policies =
    with_policy (loader d.baseline_policy_id) (with_policy (loader d.policy_id) policies)

-- `existing is None or deployment.created_at >= existing.created_at`
newer : Option PolicyDeployment → PolicyDeployment → Bool
newer none d = true
newer (some existing) d = leb existing.created_at d.created_at

point : PolicyDeployment → Dict Scope PolicyDeployment → Dict Scope PolicyDeployment
point d active =
    if is_live d.state && newer (get active (scope_of d)) d
    then put active (scope_of d) d
    else active

restore_row : Option (String → Option ExecutionPolicy) → PolicyDeployment → Restoring → Restoring
restore_row loader d s = record {
  deployments = put s.deployments d.deployment_id d;
  policies = load_policies loader d s.policies;
  active = point d s.active;
}

restore_rows :
    Option (String → Option ExecutionPolicy) → Restoring → List PolicyDeployment → Restoring
restore_rows loader s [] = s
restore_rows loader s (d ∷ rows) = restore_rows loader (restore_row loader d s) rows

-- The values of a dict, in its order: the rows of a persisted table.
pub rows_of : {K V : Type 0} → Dict K V → List V
rows_of [] = []
rows_of ((k, v) ∷ d) = v ∷ rows_of d

-- `{key: deployment.deployment_id for key, deployment in active.items()}`
pointers : Dict Scope PolicyDeployment → Dict Scope String
pointers [] = []
pointers ((s, d) ∷ rest) = (s, d.deployment_id) ∷ pointers rest

-- `_load_persisted_exposure` and `restart_recover_exposure`
exposures_of : Option (Dict String ExposureRecord) → List ExposureRecord → List ExposureRecord
exposures_of none current = current
exposures_of (some rows) current = rows_of rows

pub restart_recover_exposure : PolicyDeploymentManager → PolicyDeploymentManager
restart_recover_exposure m = record m { exposure = exposures_of m.exposure_repo m.exposure }

restore_from :
    Option (String → Option ExecutionPolicy)
    → Option (Dict String PolicyDeployment)
    → PolicyDeploymentManager
    → PolicyDeploymentManager × ℕ
restore_from loader none m = (m, 0)
restore_from loader (some table) m =
    let rows = rows_of table in
    let s =
      restore_rows loader
        (record { deployments = m.deployments; policies = m.policies; active = [] }) rows in
    (
      restart_recover_exposure (record m {
        deployments = s.deployments;
        policies = s.policies;
        active = pointers s.active;
      }),
      length rows,
    )

pub restore_active_deployments :
    Option (String → Option ExecutionPolicy) → PolicyDeploymentManager → PolicyDeploymentManager × ℕ
restore_active_deployments loader m = restore_from loader m.repo m
