-- ===== src/Policy/SafetyFloor.antt =====
-- evoagent/policy/safety_floor.py: the minimum posture that is asserted over a resolved policy.
pub mod Permissions
pub mod Posture
use evo_review_agent.Base.{
  String, Bool, true, false, ◌||◌, Option, none, some, List, [], ◌∷◌, ltb, leb, if◌then◌else◌,
}
use evo_review_agent.Base.Key.{text_key}
use evo_review_agent.Base.Dict.{Dict, get, put}
use evo_review_agent.Policy.Models.{
  RiskLevel, low, high, rank, VerificationPolicy, ToolPermission, flag, ExecutionPolicy,
}
use evo_review_agent.Policy.ToolPolicy.{by_name, values}

-- The sets of tool names are lists; Python's iteration over a set has no fixed order.
pub record SafetyFloor : Type 0 where
  pub minimum_risk_level : RiskLevel
  pub require_critic : Bool
  pub require_evidence : Bool
  pub require_verifier : Bool
  pub require_sandbox : Bool
  pub mandatory_tool_denies : List String
  pub mandatory_approval_tools : List String

abbrev pub system_safety_floor : SafetyFloor
system_safety_floor = record {
  minimum_risk_level = low;
  require_critic = true;
  require_evidence = true;
  require_verifier = true;
  require_sandbox = true;
  mandatory_tool_denies = [];
  mandatory_approval_tools = [];
}

denied_permission : String → Option ToolPermission → ToolPermission
denied_permission name none = record {
  tool_name = name;
  allow = false;
  max_calls = none;
  requires_sandbox = false;
  requires_approval = false;
}
denied_permission name (some existing) = record existing { allow = false }

approved_permission : String → Option ToolPermission → ToolPermission
approved_permission name none = record {
  tool_name = name;
  allow = true;
  max_calls = none;
  requires_sandbox = false;
  requires_approval = true;
}
approved_permission name (some existing) = record existing { requires_approval = true }

deny_all : Dict String ToolPermission → List String → Dict String ToolPermission
deny_all d [] = d
deny_all d (name ∷ rest) = deny_all (put d name (denied_permission name (get d name))) rest

approve_all : Dict String ToolPermission → List String → Dict String ToolPermission
approve_all d [] = d
approve_all d (name ∷ rest) = approve_all (put d name (approved_permission name (get d name))) rest

pub floor_permissions : SafetyFloor → List ToolPermission → List ToolPermission
floor_permissions floor permissions = values (
    approve_all (deny_all (by_name [] permissions) floor.mandatory_tool_denies)
      floor.mandatory_approval_tools)

floor_level : SafetyFloor → RiskLevel → RiskLevel
floor_level floor level =
    if ltb (rank level) (rank floor.minimum_risk_level) then floor.minimum_risk_level else level

harden : SafetyFloor → VerificationPolicy → VerificationPolicy
harden floor v = record v {
  critic_required = v.critic_required || floor.require_critic;
  evidence_required = v.evidence_required || floor.require_evidence;
  verifier_required = v.verifier_required || floor.require_verifier;
  sandbox_required = v.sandbox_required || floor.require_sandbox;
}

unfoldable pub apply_safety_floor : ExecutionPolicy → SafetyFloor → ExecutionPolicy
unfolding floor_level harden
apply_safety_floor policy floor =
    let level = floor_level floor policy.risk_level in
    record policy {
      risk_level = level;
      verification =
          if leb (rank high) (rank level)
          then harden floor policy.verification
          else policy.verification;
      tool_permissions = floor_permissions floor policy.tool_permissions;
      metadata = put policy.metadata "safety_floor_applied" (flag true);
    }
