-- ===== src/Policy/ToolPolicy/Merge.antt =====
-- What `merge_tool_permissions` of evoagent/policy/tool_policy.py leaves for each tool.
use evo_review_agent.Base.{
  String, ◌≡◌, refl, inl, inr, Option, none, some, List, [], ◌∷◌, arith, if◌then◌else◌,
  Option-cases,
}
use evo_review_agent.Base.Key.{◌==◌, text_key}
use evo_review_agent.Base.Dict.{Dict, get, put, get-put, Entries, Entries-put, Entries-get}
use evo_review_agent.Policy.Models.{ToolPermission, find_permission}
use evo_review_agent.Policy.ToolPolicy.{by_name, values, merge_tool_permissions}
use evo_review_agent.Policy.ToolPolicy.{overridden, merge_loop}

-- Every entry of the dict stands under its own tool's name.
abbrev pub Keyed : Dict String ToolPermission → Type 0
Keyed = Entries (λ k p. p.tool_name ≡ k)

-- Looking for a tool in the list of values is looking for its key.
pub find_permission-values :
    (d : Dict String ToolPermission) (name : String)
    → Keyed d
    → find_permission (values d) name ≡ get d name
unfolding find_permission values get
find_permission-values [] name h = refl
find_permission-values ((k, p) ∷ d) name h = rw (h.0, find_permission-values d name h.1)

abbrev pub or_else {ℓ} : {A : Type ℓ} → Option A → Option A → Option A
or_else none b = b
or_else (some a) b = some a

-- The last permission of a name in a list.
pub last_permission : List ToolPermission → String → Option ToolPermission
last_permission [] name = none
last_permission (p ∷ ps) name =
    or_else (last_permission ps name) (if p.tool_name == name then some p else none)

pub get-by_name :
    (d : Dict String ToolPermission) (ps : List ToolPermission) (name : String)
    → get (by_name d ps) name ≡ or_else (last_permission ps name) (get d name)
unfolding by_name last_permission
get-by_name d [] name = refl
get-by_name d (p ∷ ps) name =
    rw (get-by_name (put d p.tool_name p) ps name, get-put d p.tool_name name p) (ground arith)

pub by_name-Keyed :
    (d : Dict String ToolPermission) (ps : List ToolPermission) → Keyed d → Keyed (by_name d ps)
unfolding by_name
by_name-Keyed d [] h = h
by_name-Keyed d (p ∷ ps) h =
    by_name-Keyed (put d p.tool_name p) ps (Entries-put _ d p.tool_name p refl h)

-- The four fields that `replace` writes and the name that it keeps are all there are.
overridden-eq :
    (o : ToolPermission) (d : Dict String ToolPermission)
    → Keyed d
    → overridden o (get d o.tool_name) ≡ o
unfolding overridden
overridden-eq o d h = elim (Option-cases (get d o.tool_name)) [
  | inl missing ↦ rw missing
  | inr (p, there) ↦ rw there (ground (arith, Entries-get _ d o.tool_name h there))
]

get-merge_loop :
    (d : Dict String ToolPermission) (os : List ToolPermission) (name : String)
    → Keyed d
    → get (merge_loop d os) name ≡ or_else (last_permission os name) (get d name)
unfolding merge_loop last_permission
get-merge_loop d [] name h = refl
get-merge_loop d (o ∷ os) name h = rw (overridden-eq o d h) (
    rw
      (
        get-merge_loop (put d o.tool_name o) os name (Entries-put _ d o.tool_name o refl h),
        get-put d o.tool_name name o,
      )
      (ground arith))

merge_loop-Keyed :
    (d : Dict String ToolPermission) (os : List ToolPermission) → Keyed d → Keyed (merge_loop d os)
unfolding merge_loop
merge_loop-Keyed d [] h = h
merge_loop-Keyed d (o ∷ os) h =
    rw (overridden-eq o d h)
      (merge_loop-Keyed (put d o.tool_name o) os (Entries-put _ d o.tool_name o refl h))

-- The merged list gives each tool the last override of its name, whole, and otherwise the last base
-- entry of its name; in particular no field of a base entry survives an override of its tool.
pub find_permission-merge :
    (base override : List ToolPermission) (name : String)
    → find_permission (merge_tool_permissions base override) name
      ≡ or_else (last_permission override name) (last_permission base name)
unfolding merge_tool_permissions get
find_permission-merge base override name =
    let keyed = by_name-Keyed [] base tt in
    rw
      (
        find_permission-values (merge_loop (by_name [] base) override) name
            (merge_loop-Keyed _ override keyed),
        get-merge_loop (by_name [] base) override name keyed,
        get-by_name [] base name,
      )
      (ground arith)
