-- ===== src/Tools/Registry/Budget.antt =====
-- The budget of all calls that evoagent/tools/governed_registry.py keeps.
use evo_review_agent.Base.{
  ℕ, ◌+◌, ◌≤◌, String, ◌≡◌, ap, ◌∙◌, inl, inr, some, arith, if◌then◌else◌, Bool-cases,
}
use evo_review_agent.Base.Key.{◌==◌, text_key}
use evo_review_agent.Base.Dict.{Dict, get, put, get-put, get-put_self}
use evo_review_agent.Policy.ToolPolicy.{count_of}
use evo_review_agent.Tools.Arguments.{Value}
use evo_review_agent.Tools.Registry.{GovernedToolRegistry, ToolCall, Outcome, counted, invoke_as}
use evo_review_agent.Tools.Registry.Counts.{was_executed, UsesCounted, invoke_as-UsesCounted}
use evo_review_agent.Tools.Registry.Governed.{invoke_as-IsGoverned}

-- The calls of all tools.
unfoldable pub total_of : Dict String ℕ → ℕ
total_of counts = count_of (get counts "__all__")

kept :
    (name : String) (counts : Dict String ℕ)
    → (name ≡ "__all__" → ⊥)
    → (if name == "__all__" then some (count_of (get counts name) + 1) else get counts "__all__")
      ≡ get counts "__all__"
kept name counts other = ground (arith, text_key.same_iff name "__all__")

total-counted :
    (name : String) (counts : Dict String ℕ)
    → (name ≡ "__all__" → ⊥)
    → total_of (counted name counts) ≡ total_of counts + 1
unfolding total_of counted
total-counted name counts other =
    let own = put counts name (count_of (get counts name) + 1) in
    ap count_of (get-put_self own "__all__" (count_of (get own "__all__") + 1))
    ∙ ap (λ o. count_of o + 1)
        (get-put counts name "__all__" (count_of (get counts name) + 1) ∙ kept name counts other)

module _ (hash_args : Dict String Value → String) (execute : ToolCall → Outcome) where
  -- Within the budget of the policy, a call of a tool whose name is not that of the total leaves the
  -- count of all calls within it, whatever its outcome, and it adds at most one to it.
  pub invoke_as-within_budget :
      (call : ToolCall) (r : GovernedToolRegistry)
      → (call.name ≡ "__all__" → ⊥)
      → total_of r.tool_call_counts ≤ r.execution_policy.budget.max_tool_calls
      → (total_of (invoke_as hash_args execute call r).0.tool_call_counts
          ≤ r.execution_policy.budget.max_tool_calls)
        × (total_of (invoke_as hash_args execute call r).0.tool_call_counts
            ≤ total_of r.tool_call_counts + 1)
  unfolding UsesCounted total_of
  invoke_as-within_budget call r other h =
      let counts = invoke_as-UsesCounted hash_args execute call r in
      elim (Bool-cases (was_executed (invoke_as hash_args execute call r).1)) [
        | inl ran ↦
            let room = (invoke_as-IsGoverned hash_args execute call r ran).may_call.total_left in
            let now =
              ap total_of (rw ran at counts) ∙ total-counted call.name r.tool_call_counts other in
            (omega (arith, room, now), omega (arith, now))
        | inr not_run ↦
            let now = ap total_of (rw not_run at counts) in
            (omega (arith, now, h), omega (arith, now))
      ]
