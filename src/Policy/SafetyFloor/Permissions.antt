-- ===== src/Policy/SafetyFloor/Permissions.antt =====
-- The tool permissions that evoagent/policy/safety_floor.py leaves.
use evo_review_agent.Base.{
  String, ◌≡◌, refl, inl, inr, Bool, true, false, Option, some, List, [], ◌∷◌, arith, if◌then◌else◌,
  Option-cases, contains,
}
use evo_review_agent.Base.Key.{text_key}
use evo_review_agent.Base.Dict.{Dict, get, put, get-put}
use evo_review_agent.Policy.Models.{ToolPermission, ExecutionPolicy, tool_permission, allows}
use evo_review_agent.Policy.ToolPolicy.{by_name}
use evo_review_agent.Base.Dict.{Entries-put, Entries-get}
use evo_review_agent.Policy.ToolPolicy.Merge.{
  Keyed, find_permission-values, last_permission, by_name-Keyed, get-by_name,
}
use evo_review_agent.Policy.SafetyFloor.{
  SafetyFloor, denied_permission, approved_permission, deny_all, approve_all, floor_permissions,
  apply_safety_floor,
}

pub deny_if : Bool → String → Option ToolPermission → Option ToolPermission
deny_if listed name o = if listed then some (denied_permission name o) else o

pub approve_if : Bool → String → Option ToolPermission → Option ToolPermission
approve_if listed name o = if listed then some (approved_permission name o) else o

get-deny_all :
    (names : List String) (d : Dict String ToolPermission) (t : String)
    → get (deny_all d names) t ≡ deny_if (contains names t) t (get d t)
unfolding deny_all deny_if denied_permission
get-deny_all [] d t = refl
get-deny_all (n ∷ ns) d t =
    rw
      (
        get-deny_all ns (put d n (denied_permission n (get d n))) t,
        get-put d n t (denied_permission n (get d n)),
      )
      (ground (arith, text_key.same_iff n t))

get-approve_all :
    (names : List String) (d : Dict String ToolPermission) (t : String)
    → get (approve_all d names) t ≡ approve_if (contains names t) t (get d t)
unfolding approve_all approve_if approved_permission
get-approve_all [] d t = refl
get-approve_all (n ∷ ns) d t =
    rw
      (
        get-approve_all ns (put d n (approved_permission n (get d n))) t,
        get-put d n t (approved_permission n (get d n)),
      )
      (ground (arith, text_key.same_iff n t))

denied_name :
    (n : String) (d : Dict String ToolPermission)
    → Keyed d
    → (denied_permission n (get d n)).tool_name ≡ n
unfolding denied_permission
denied_name n d h = elim (Option-cases (get d n)) [
  | inl missing ↦ rw missing
  | inr (p, there) ↦ rw there (Entries-get _ d n h there)
]

approved_name :
    (n : String) (d : Dict String ToolPermission)
    → Keyed d
    → (approved_permission n (get d n)).tool_name ≡ n
unfolding approved_permission
approved_name n d h = elim (Option-cases (get d n)) [
  | inl missing ↦ rw missing
  | inr (p, there) ↦ rw there (Entries-get _ d n h there)
]

deny_all-Keyed :
    (names : List String) (d : Dict String ToolPermission) → Keyed d → Keyed (deny_all d names)
unfolding deny_all
deny_all-Keyed [] d h = h
deny_all-Keyed (n ∷ ns) d h = deny_all-Keyed ns _ (Entries-put _ d n _ (denied_name n d h) h)

approve_all-Keyed :
    (names : List String) (d : Dict String ToolPermission) → Keyed d → Keyed (approve_all d names)
unfolding approve_all
approve_all-Keyed [] d h = h
approve_all-Keyed (n ∷ ns) d h =
    approve_all-Keyed ns _ (Entries-put _ d n _ (approved_name n d h) h)

-- The permission of each tool after the floor, whatever the order of the floor's names.
pub tool_permission-apply_safety_floor :
    (policy : ExecutionPolicy) (floor : SafetyFloor) (t : String)
    → tool_permission (apply_safety_floor policy floor) t
      ≡ approve_if (contains floor.mandatory_approval_tools t) t (
          deny_if
            (contains floor.mandatory_tool_denies t)
            t
            (last_permission policy.tool_permissions t))
unfolding tool_permission apply_safety_floor floor_permissions
tool_permission-apply_safety_floor policy floor t =
    let base = by_name [] policy.tool_permissions in
    let keyed = by_name-Keyed [] policy.tool_permissions tt in
    let denied = deny_all-Keyed floor.mandatory_tool_denies base keyed in
    rw
      (
        find_permission-values
            (approve_all (deny_all base floor.mandatory_tool_denies) floor.mandatory_approval_tools)
            t (approve_all-Keyed floor.mandatory_approval_tools _ denied),
        get-approve_all floor.mandatory_approval_tools (deny_all base floor.mandatory_tool_denies)
            t,
        get-deny_all floor.mandatory_tool_denies base t,
        get-by_name [] policy.tool_permissions t,
      )
      (unfold get in ground arith)

-- A tool that the floor denies is not allowed, whatever the policy says of it and also where the
-- floor lists it for approval; a tool that the floor lists for approval has a permission that
-- requires approval.
pub apply_safety_floor-enforces :
    (policy : ExecutionPolicy) (floor : SafetyFloor) (t : String)
    → (contains floor.mandatory_tool_denies t ≡ true
        → allows (apply_safety_floor policy floor) t ≡ false)
      × (contains floor.mandatory_approval_tools t ≡ true
          → (p : ToolPermission) × (tool_permission (apply_safety_floor policy floor) t ≡ some p)
            × (p.requires_approval ≡ true))
unfolding allows approve_if deny_if denied_permission approved_permission
apply_safety_floor-enforces policy floor t = (
  λ h. ground (arith, tool_permission-apply_safety_floor policy floor t),
  λ h. (
    approved_permission t (
        deny_if (contains floor.mandatory_tool_denies t) t
          (last_permission policy.tool_permissions t)),
    ground (arith, tool_permission-apply_safety_floor policy floor t),
    ground arith,
  ),
)
