-- ===== src/Policy/ToolPolicy.antt =====
-- evoagent/policy/tool_policy.py: the authorization of a tool call against the policy, and the merge
-- of two permission lists.
pub mod Authorize
pub mod Merge
use evo_review_agent.Base.{
  ℕ, String, Bool, true, false, not, ◌&&◌, ◌||◌, Option, none, some, List, [], ◌∷◌, ltb, leb,
  if◌then◌else◌, contains,
}
use evo_review_agent.Base.Key.{text_key}
use evo_review_agent.Base.Dict.{Dict, get, put}
use evo_review_agent.Policy.Models.{
  RiskLevel, low, rank, ToolPermission, ExecutionPolicy, tool_permission,
}

pub record ToolMetadata : Type 0 where
  pub name : String
  pub risk_level : RiskLevel
  pub side_effect : Bool
  pub idempotent : Bool
  pub retryable : Bool
  pub requires_sandbox : Bool
  pub requires_approval : Bool
  pub timeout_seconds : ℕ
  pub allowed_agents : List String
  pub tenant_scoped : Bool
  pub compensatable : Bool
  pub compensation_tool : Option String
  pub blocking : Bool
  pub command : Option String

pub data DenyReason : Type 0 where
  unknown_tool disallowed not_in_allow_list risk_exceeded agent_not_allowed : DenyReason
  max_calls_exceeded total_exceeded : DenyReason

pub record ToolDecision : Type 0 where
  pub allowed : Bool
  pub reason : Option DenyReason
  pub requires_sandbox : Bool
  pub requires_approval : Bool

abbrev deny : DenyReason → ToolDecision
deny r = record {
  allowed = false;
  reason = some r;
  requires_sandbox = false;
  requires_approval = false;
}

-- The value of `d.get(k, 0)`.
abbrev pub count_of : Option ℕ → ℕ
count_of none = 0
count_of (some n) = n

abbrev is_low : RiskLevel → Bool
is_low low = true
is_low _ = false

unfoldable pub default_allowed : ToolMetadata → Bool
default_allowed meta = is_low meta.risk_level && not meta.side_effect

-- The first two tests of the policy allow-list, on the permission that was found.
unfoldable pub list_denies : ToolMetadata → Option ToolPermission → Option DenyReason
list_denies meta none = if default_allowed meta then none else some not_in_allow_list
list_denies meta (some p) = if p.allow then none else some disallowed

unfoldable pub agent_denied : ToolMetadata → String → Bool
agent_denied meta agent = elim meta.allowed_agents [
  | [] ↦ false
  | a ∷ rest ↦ not (contains (a ∷ rest) agent)
]

-- `permission and permission.max_calls is not None and calls >= permission.max_calls`
unfoldable pub calls_spent : Option ToolPermission → ℕ → Bool
calls_spent none calls = false
calls_spent (some p) calls = elim p.max_calls [ none ↦ false | some limit ↦ leb limit calls ]

abbrev sandbox_of : Option ToolPermission → Bool
sandbox_of none = false
sandbox_of (some p) = p.requires_sandbox

abbrev approval_of : Option ToolPermission → Bool
approval_of none = false
approval_of (some p) = p.requires_approval

-- The decision on a tool that is registered, after its permission was looked up.
pub decide :
    ToolMetadata
    → Option ToolPermission
    → String
    → String
    → ExecutionPolicy
    → Dict String ℕ
    → ToolDecision
decide meta permission agent tool policy counts = elim (list_denies meta permission) [
  | some r ↦ deny r
  | none ↦
      if ltb (rank policy.risk_level) (rank meta.risk_level)
      then deny risk_exceeded
      else if agent_denied meta agent
      then deny agent_not_allowed
      else if calls_spent permission (count_of (get counts tool))
      then deny max_calls_exceeded
      else if leb policy.budget.max_tool_calls (count_of (get counts "__all__"))
      then deny total_exceeded
      else record {
        allowed = true;
        reason = none;
        requires_sandbox = meta.requires_sandbox || sandbox_of permission;
        requires_approval =
            (meta.requires_approval || meta.side_effect && not meta.idempotent)
            || (meta.requires_approval || approval_of permission);
      }
]

-- `authorize`, on the metadata that was found; the arguments of the call are not looked at.
authorize_found :
    Option ToolMetadata → String → String → ExecutionPolicy → Dict String ℕ → ToolDecision
authorize_found none agent tool policy counts = deny unknown_tool
authorize_found (some meta) agent tool policy counts =
    decide meta (tool_permission policy tool) agent tool policy counts

pub authorize :
    Dict String ToolMetadata → String → String → ExecutionPolicy → Dict String ℕ → ToolDecision
unfolding authorize_found
authorize metadata agent tool policy counts =
    authorize_found (get metadata tool) agent tool policy counts

-- `{p.tool_name: p for p in permissions}`, from the dict that `d` already is.
pub by_name : Dict String ToolPermission → List ToolPermission → Dict String ToolPermission
by_name d [] = d
by_name d (p ∷ ps) = by_name (put d p.tool_name p) ps

-- `list(d.values())`
pub values : Dict String ToolPermission → List ToolPermission
values [] = []
values ((k, p) ∷ d) = p ∷ values d

-- The entry that one override leaves under its tool's name: `replace` gives every field but the name.
overridden : ToolPermission → Option ToolPermission → ToolPermission
overridden o none = o
overridden o (some existing) = record existing {
  allow = o.allow;
  max_calls = o.max_calls;
  requires_sandbox = o.requires_sandbox;
  requires_approval = o.requires_approval;
}

merge_loop : Dict String ToolPermission → List ToolPermission → Dict String ToolPermission
merge_loop merged [] = merged
merge_loop merged (o ∷ os) =
    merge_loop (put merged o.tool_name (overridden o (get merged o.tool_name))) os

pub merge_tool_permissions : List ToolPermission → List ToolPermission → List ToolPermission
merge_tool_permissions base override = values (merge_loop (by_name [] base) override)
