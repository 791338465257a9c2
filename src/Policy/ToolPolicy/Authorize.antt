-- ===== src/Policy/ToolPolicy/Authorize.antt =====
-- When `authorize` of evoagent/policy/tool_policy.py allows a call.
use mathlib.Core.Path.{subst}
use evo_review_agent.Base.{
  ℕ, ◌≤◌, ◌<◌, String, ◌≡◌, refl, sym, ◌↔◌, inl, inr, true, false, none, some, arith, Option-cases,
  some_inj,
}
use evo_review_agent.Base.Key.{text_key}
use evo_review_agent.Base.Dict.{Dict, get}
use evo_review_agent.Policy.Models.{rank, ExecutionPolicy, tool_permission}
use evo_review_agent.Policy.ToolPolicy.{
  ToolMetadata, count_of, list_denies, agent_denied, calls_spent, decide, authorize,
}

-- What an allowed call has to meet.
pub record MayCall (meta : ToolMetadata) (agent tool : String) (policy : ExecutionPolicy)
    (counts : Dict String ℕ) : Type 0 where
  pub listed : list_denies meta (tool_permission policy tool) ≡ none
  pub risk_fits : rank meta.risk_level ≤ rank policy.risk_level
  pub agent_fits : agent_denied meta agent ≡ false
  pub calls_left : calls_spent (tool_permission policy tool) (count_of (get counts tool)) ≡ false
  pub total_left : count_of (get counts "__all__") < policy.budget.max_tool_calls

decide-MayCall :
    (meta : ToolMetadata) (agent tool : String) (policy : ExecutionPolicy) (counts : Dict String ℕ)
    → ((decide meta (tool_permission policy tool) agent tool policy counts).allowed ≡ true)
      ↔ MayCall meta agent tool policy counts
unfolding decide
decide-MayCall meta agent tool policy counts = (λ h. ground arith, λ m. ground arith)

-- A call is allowed exactly when its tool is registered and the policy's list, the risk levels, the
-- agents of the tool, the calls of the tool and the calls in total all permit it.
pub authorize_iff :
    (metadata : Dict String ToolMetadata) (agent tool : String) (policy : ExecutionPolicy)
    (counts : Dict String ℕ)
    → ((authorize metadata agent tool policy counts).allowed ≡ true) ↔ (
        (meta : ToolMetadata) × (get metadata tool ≡ some meta)
        × MayCall meta agent tool policy counts)
unfolding authorize
authorize_iff metadata agent tool policy counts = elim (Option-cases (get metadata tool)) [
  | inl missing ↦ rw (missing, authorize) (λ h. cc, λ (m, e, c). cc)
  | inr (meta, there) ↦
      rw (there, authorize)
        (
          λ h. (meta, refl, (decide-MayCall meta agent tool policy counts).0 h),
          λ (m, e, c).
              (decide-MayCall meta agent tool policy counts).1
                (subst (λ x. MayCall x agent tool policy counts) (some_inj (sym e)) c),
        )
]
