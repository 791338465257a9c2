-- ===== src/Deployment/Manager.antt =====
-- PolicyDeploymentManager of evoagent/policy_evolution/deployment.py. The two digests that the
-- program takes with hashlib are parameters, and so is each reading of the clock. The persisted
-- repositories are dicts in order of insertion, as the JSON store keeps them, and `none` where the
-- manager has none.
use evo_review_agent.Base.{
  ℕ, String, Bool, true, false, Option, none, some, List, [], ◌∷◌, ◌++◌, map,
}
use evo_review_agent.Base.Key.{text_key}
use evo_review_agent.Base.Dict.{Dict, get, put}
use evo_review_agent.Deployment.Records.{
  draft, CanaryStage, Note, PolicyDeployment, ExposureRecord, Scope, scope_key, DeploymentError,
  deployment_not_found, illegal_state,
}
use evo_review_agent.Base.Result.{Result, ok, err}
use evo_review_agent.Policy.Models.{ExecutionPolicy}

-- A list with one item at least: the ladder of shares and the stages that `__init__` makes of it.
pub record Ladder (A : Type 0) : Type 0 where
  pub first : A
  pub later : List A

pub record PolicyDeploymentManager : Type 0 where
  pub stages : Ladder CanaryStage
  pub repo : Option (Dict String PolicyDeployment)
  pub exposure_repo : Option (Dict String ExposureRecord)
  pub deployments : Dict String PolicyDeployment
  pub exposure : List ExposureRecord
  pub active : Dict Scope String
  pub policies : Dict String ExecutionPolicy

-- A method that may change the manager and may raise.
abbrev pub Method : Type 0 → Type 0
Method A = PolicyDeploymentManager → PolicyDeploymentManager × Result DeploymentError A

-- DEFAULT_TRAFFIC_LADDER
abbrev pub default_ladder : Ladder ℕ
default_ladder = record { first = 5; later = 10 ∷ 25 ∷ 50 ∷ 100 ∷ [] }

-- `traffic_ladder or DEFAULT_TRAFFIC_LADDER`
abbrev pub ladder_or_default : List ℕ → Ladder ℕ
ladder_or_default [] = default_ladder
ladder_or_default (s ∷ ss) = record { first = s; later = ss }

abbrev pub stage_of : ℕ → ℕ → ℕ → CanaryStage
stage_of min_sample min_duration share = record {
  traffic_share = share;
  min_sample = min_sample;
  min_duration_seconds = min_duration;
}

abbrev pub stages_of : ℕ → ℕ → Ladder ℕ → Ladder CanaryStage
stages_of min_sample min_duration ladder = record {
  first = stage_of min_sample min_duration ladder.first;
  later = map (stage_of min_sample min_duration) ladder.later;
}

-- `__init__`
unfoldable pub init :
    List ℕ
    → Option (Dict String PolicyDeployment)
    → Option (Dict String ExposureRecord)
    → ℕ
    → ℕ
    → PolicyDeploymentManager
init ladder repo exposure_repo min_sample min_duration = record {
  stages = stages_of min_sample min_duration (ladder_or_default ladder);
  repo = repo;
  exposure_repo = exposure_repo;
  deployments = [];
  exposure = [];
  active = [];
  policies = [];
}

unfoldable pub register_policy : ExecutionPolicy → PolicyDeploymentManager → PolicyDeploymentManager
register_policy policy m = record m { policies = put m.policies policy.policy_id policy }

unfoldable pub saved : {V : Type 0} → Option (Dict String V) → String → V → Option (Dict String V)
saved none key v = none
saved (some rows) key v = some (put rows key v)

-- `_flush`
unfoldable pub flush : PolicyDeployment → PolicyDeploymentManager → PolicyDeploymentManager
flush d m = record m { repo = saved m.repo d.deployment_id d }

-- The object under a key is changed in place, and then flushed.
unfoldable pub commit : String → PolicyDeployment → Method PolicyDeployment
commit key d m = (flush d (record m { deployments = put m.deployments key d }), ok d)

-- The deployment that `create` makes under an id.
abbrev pub drafted :
    String → ExecutionPolicy → ExecutionPolicy → Scope → Option String → ℕ → PolicyDeployment
drafted id candidate_policy baseline_policy scope hypothesis now = record {
  deployment_id = id;
  policy_id = candidate_policy.policy_id;
  baseline_policy_id = baseline_policy.policy_id;
  tenant_id = scope.tenant_id;
  repository = scope.repository;
  risk_level = scope.risk_level;
  state = draft;
  stage_index = none;
  traffic_share = 0;
  hypothesis_id = hypothesis;
  created_at = now;
  staged_at = none;
  stage_entered_at = none;
  promoted_at = none;
  notes = [];
}

-- `create`; `digest` is the hexdigest of the candidate's id, its version and the risk level.
unfoldable pub create :
    (String → ℕ → String → String)
    → ExecutionPolicy
    → ExecutionPolicy
    → Scope
    → Option String
    → ℕ
    → Method PolicyDeployment
create digest candidate_policy baseline_policy scope hypothesis now m =
    let id = digest candidate_policy.policy_id candidate_policy.policy_version scope.risk_level in
    let m1 = register_policy baseline_policy (register_policy candidate_policy m) in
    let (m2, r) = commit id (drafted id candidate_policy baseline_policy scope hypothesis now) m1 in
    (record m2 { active = put m2.active scope id }, r)

-- `_require`, and then the rest of the method on the deployment that was found.
unfoldable pub require_found :
    Option PolicyDeployment → (PolicyDeployment → Method PolicyDeployment) → Method PolicyDeployment
require_found none rest m = (m, err deployment_not_found)
require_found (some d) rest m = rest d m

unfoldable pub require :
    String → (PolicyDeployment → Method PolicyDeployment) → Method PolicyDeployment
require id rest m = require_found (get m.deployments id) rest m

-- `_expect`, and the inline tests of the same form: the state is checked before anything is changed.
unfoldable pub expect : Bool → Method PolicyDeployment → Method PolicyDeployment
expect true rest m = rest m
expect false rest m = (m, err illegal_state)

abbrev pub noted : PolicyDeployment → Note → List Note
noted d n = d.notes ++ n ∷ []
