-- ===== src/Deployment/Records.antt =====
-- The records of evoagent/policy_evolution/deployment.py. Traffic shares are whole percents, as in
-- the ladder that the program defines; at such a share the program's comparison of floats,
-- `(hash % 100) / 100.0 < share`, is the comparison of the two integers. A note of the log is kept
-- as the event that it reports.
use evo_review_agent.Base.{ℕ, String, ◌≡◌, ◌↔◌, Bool, true, ◌&&◌, Option, List, arith}
use evo_review_agent.Base.Key.{Key, ◌==◌, text_key}

pub data DeploymentState : Type 0 where
  draft replay_passed shadow canary promoted rolled_back paused : DeploymentState

pub record CanaryStage : Type 0 where
  pub traffic_share : ℕ
  pub min_sample : ℕ
  pub min_duration_seconds : ℕ

pub data Note : Type 0 where
  replay_gate_passed moved_to_shadow gates_not_met promoted_to_active deployment_paused : Note
  canary_started advanced_to : ℕ → Note
  rolled_back_for : String → Note

-- `stage_index` is -1 before the canary starts, which is `none` here.
pub record PolicyDeployment : Type 0 where
  pub deployment_id : String
  pub policy_id : String
  pub baseline_policy_id : String
  pub tenant_id : String
  pub repository : String
  pub risk_level : String
  pub state : DeploymentState
  pub stage_index : Option ℕ
  pub traffic_share : ℕ
  pub hypothesis_id : Option String
  pub created_at : ℕ
  pub staged_at : Option ℕ
  pub stage_entered_at : Option ℕ
  pub promoted_at : Option ℕ
  pub notes : List Note

pub data Lane : Type 0 where
  baseline candidate : Lane

pub record ExposureRecord : Type 0 where
  pub task_id : String
  pub deployment_id : String
  pub lane : Lane
  pub baseline_version : ℕ
  pub candidate_version : ℕ
  pub traffic_share : ℕ

-- The key of `_active`.
pub record Scope : Type 0 where
  pub tenant_id : String
  pub repository : String
  pub risk_level : String

abbrev same_scope : Scope → Scope → Bool
same_scope a b =
    a.tenant_id == b.tenant_id && (a.repository == b.repository && a.risk_level == b.risk_level)

pub same_scope_iff : (a b : Scope) → (same_scope a b ≡ true) ↔ (a ≡ b)
same_scope_iff a b = ground (
  arith,
  text_key.same_iff a.tenant_id b.tenant_id,
  text_key.same_iff a.repository b.repository,
  text_key.same_iff a.risk_level b.risk_level,
)

instance abbrev pub scope_key : Key Scope
scope_key = record { same = same_scope; same_iff = same_scope_iff }

abbrev pub scope_of : PolicyDeployment → Scope
scope_of d = record {
  tenant_id = d.tenant_id;
  repository = d.repository;
  risk_level = d.risk_level;
}

pub data DeploymentError : Type 0 where
  deployment_not_found illegal_state key_error : DeploymentError
