-- ===== src/Policy/Examples.antt =====
-- The theorems on policies at concrete inputs.
use evo_review_agent.Base.{
  ◌≤◌, String, ◌≡◌, refl, ◌↔◌, true, false, none, some, [], ◌∷◌, arith, contains,
}
use evo_review_agent.Base.Key.{text_key}
use evo_review_agent.Base.Dict.{Dict, get}
use evo_review_agent.Policy.Models.{
  low, medium, high, rank, ToolPermission, ExecutionPolicy, find_permission, tool_permission,
  allows,
}
use evo_review_agent.Policy.ToolPolicy.{ToolMetadata, authorize, merge_tool_permissions}
use evo_review_agent.Base.Result.{ok}
use evo_review_agent.Policy.Defaults.{default_policy}
use evo_review_agent.Policy.SafetyFloor.{SafetyFloor, apply_safety_floor, system_safety_floor}
use evo_review_agent.Policy.Resolver.{PolicyResolver, resolve, enforce_safety_floor}
use evo_review_agent.Policy.Defaults.{read_tools}
use evo_review_agent.Policy.ToolPolicy.Authorize.{MayCall, authorize_iff}
use evo_review_agent.Policy.ToolPolicy.Merge.{find_permission-merge, or_else, last_permission}
use evo_review_agent.Policy.SafetyFloor.Permissions.{apply_safety_floor-enforces}
use evo_review_agent.Policy.Resolver.Raises.{
  resolve-no_overrides, resolve-keeps_risk, resolve-enforces_denies,
}
use evo_review_agent.Policy.Resolver.Enforce.{
  enforce_safety_floor-IsHardened, enforce_safety_floor-drops_denies,
}

abbrev reader : ToolMetadata
reader = record {
  name = "read_file";
  risk_level = low;
  side_effect = false;
  idempotent = true;
  retryable = true;
  requires_sandbox = false;
  requires_approval = false;
  timeout_seconds = 30;
  allowed_agents = [];
  tenant_scoped = false;
  compensatable = false;
  compensation_tool = none;
  blocking = false;
  command = none;
}

abbrev registered : Dict String ToolMetadata
registered = ("read_file", reader) ∷ []

authorize_iff_example :
    ((authorize registered "security-agent" "read_file"
        (default_policy low)
        (("read_file", 2) ∷ [])).allowed
      ≡ true)
    ↔ ((meta : ToolMetadata) × (get registered "read_file" ≡ some meta)
        × MayCall meta "security-agent" "read_file" (default_policy low) (("read_file", 2) ∷ []))
authorize_iff_example =
    authorize_iff registered "security-agent" "read_file" (default_policy low)
      (("read_file", 2) ∷ [])

abbrev locked : ToolPermission
locked = record {
  tool_name = "read_file";
  allow = false;
  max_calls = none;
  requires_sandbox = false;
  requires_approval = false;
}

find_permission-merge_example :
    find_permission (merge_tool_permissions read_tools (locked ∷ [])) "read_file"
    ≡ or_else (last_permission (locked ∷ []) "read_file") (last_permission read_tools "read_file")
find_permission-merge_example = find_permission-merge read_tools (locked ∷ []) "read_file"

abbrev strict : SafetyFloor
strict = record system_safety_floor {
  mandatory_tool_denies = "read_file" ∷ [];
  mandatory_approval_tools = "read_file" ∷ "run_tests" ∷ [];
}

apply_safety_floor-enforces_example :
    (contains strict.mandatory_tool_denies "read_file" ≡ true
      → allows (apply_safety_floor (default_policy low) strict) "read_file" ≡ false)
    × (contains strict.mandatory_approval_tools "read_file" ≡ true
        → (p : ToolPermission) × (tool_permission
              (apply_safety_floor (default_policy low) strict)
              "read_file"
            ≡ some p)
          × (p.requires_approval ≡ true))
apply_safety_floor-enforces_example =
    apply_safety_floor-enforces (default_policy low) strict "read_file"

abbrev strict_resolver : PolicyResolver
strict_resolver = record { defaults = λ _. none; safety_floor = some strict }

enforce_safety_floor-drops_denies_example :
    tool_permission
      (enforce_safety_floor strict_resolver (default_policy low) (some high))
      "read_file"
    ≡ tool_permission (default_policy high) "read_file"
unfolding rank default_policy
enforce_safety_floor-drops_denies_example =
    enforce_safety_floor-drops_denies strict_resolver strict (default_policy low) high "read_file"
      refl (omega arith) (omega arith)

abbrev system_resolver : PolicyResolver
system_resolver = record { defaults = λ _. none; safety_floor = some system_safety_floor }

abbrev hardened : ExecutionPolicy
hardened = enforce_safety_floor system_resolver (default_policy low) (some high)

enforce_safety_floor-IsHardened_example :
    (rank high ≤ rank hardened.risk_level)
    × (hardened.verification.critic_required ≡ true)
    × (hardened.verification.evidence_required ≡ true)
    × (hardened.verification.verifier_required ≡ true)
    × (hardened.verification.sandbox_required ≡ true)
unfolding rank
enforce_safety_floor-IsHardened_example =
    enforce_safety_floor-IsHardened (λ _. none) (default_policy low) high (omega arith)

-- With no override the system default of the level is resolved, under the strict floor.
abbrev resolved : ExecutionPolicy
resolved = apply_safety_floor (default_policy medium) strict

resolves : resolve strict_resolver medium none none none ≡ ok resolved
resolves = resolve-no_overrides strict medium

resolve-keeps_risk_example : rank medium ≤ rank resolved.risk_level
resolve-keeps_risk_example = resolve-keeps_risk strict_resolver medium none none none tt resolves

resolve-enforces_denies_example : allows resolved "read_file" ≡ false
resolve-enforces_denies_example =
    resolve-enforces_denies strict_resolver strict medium none none none "read_file" refl refl
      resolves
