-- ===== src/Policy/SafetyFloor/Posture.antt =====
-- The risk level and the verification that evoagent/policy/safety_floor.py leaves.
use evo_review_agent.Base.{◌≤◌, max, ◌≡◌, Bool, true, arith}
use evo_review_agent.Base.Key.{text_key}
use evo_review_agent.Policy.Models.{rank, ExecutionPolicy}
use evo_review_agent.Policy.SafetyFloor.{SafetyFloor, floor_level, harden, apply_safety_floor}

-- The risk level is the higher of the policy's and the floor's, and so is never lowered.
pub rank-apply_safety_floor :
    (policy : ExecutionPolicy) (floor : SafetyFloor)
    → rank (apply_safety_floor policy floor).risk_level
      ≡ max (rank policy.risk_level) (rank floor.minimum_risk_level)
unfolding apply_safety_floor floor_level
rank-apply_safety_floor policy floor = ground arith

abbrev pub Implies : Bool → Bool → Type 0
Implies a b = a ≡ true → b ≡ true

-- No verification step that the policy asked for is dropped.
pub apply_safety_floor-keeps_verification :
    (policy : ExecutionPolicy) (floor : SafetyFloor)
    → let v = policy.verification in
      let w = (apply_safety_floor policy floor).verification in
      Implies v.critic_required w.critic_required
      × Implies v.evidence_required w.evidence_required
      × Implies v.verifier_required w.verifier_required
      × Implies v.sandbox_required w.sandbox_required
unfolding apply_safety_floor harden
apply_safety_floor-keeps_verification policy floor =
    (ground arith, ground arith, ground arith, ground arith)

-- A policy that ends at `high` or `critical` has every step that the floor requires.
pub apply_safety_floor-hardens :
    (policy : ExecutionPolicy) (floor : SafetyFloor)
    → 2 ≤ rank (apply_safety_floor policy floor).risk_level
    → let w = (apply_safety_floor policy floor).verification in
      Implies floor.require_critic w.critic_required
      × Implies floor.require_evidence w.evidence_required
      × Implies floor.require_verifier w.verifier_required
      × Implies floor.require_sandbox w.sandbox_required
unfolding apply_safety_floor harden rank
apply_safety_floor-hardens policy floor h = (ground arith, ground arith, ground arith, ground arith)
