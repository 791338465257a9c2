-- ===== src/Recovery/Manager/Bounds.antt =====
-- The bounds that evoagent/recovery/manager.py keeps on the recoveries of one task.
use evo_review_agent.Base.{
  ℕ, ◌+◌, ◌≤◌, ◌<◌, min, String, ◌≡◌, refl, ap, ◌∙◌, true, List, [], ◌∷◌, arith, length,
  length-append,
}
use evo_review_agent.Base.Key.{text_key}
use evo_review_agent.Recovery.Failures.{FailureType, abort, FailureContext}
use evo_review_agent.Recovery.Planner.{plan}
use evo_review_agent.Recovery.Planner.Steps.{plan_first}
use evo_review_agent.Recovery.Manager.{
  RecoveryBudget, RuntimeState, Manager, counts_of, exhausted, chosen, handle, next_counts,
  is_abort, should_abort,
}

-- A failure as the runtime hands it to `handle`.
pub record Failure : Type 0 where
  pub failure : FailureType
  pub context : FailureContext
  pub node : String
  pub agent_id : String

-- The manager and the state after the failures of a task, first to last.
pub handle_all : Manager → RuntimeState → List Failure → Manager × RuntimeState
handle_all m state [] = (m, state)
handle_all m state (f ∷ fs) =
    let r = handle m f.failure f.context state f.node f.agent_id in handle_all (r.0) (r.1) fs

unfoldable pub attempts_of : RuntimeState → ℕ
attempts_of state = (counts_of state.recovery_counts).attempts

handle-counted :
    (m : Manager) (state : RuntimeState) (failure : FailureType) (context : FailureContext)
    (node agent_id : String)
    → (attempts_of (handle m failure context state node agent_id).1
        ≡ min m.budget.max_recovery_attempts (attempts_of state + 1))
      × (length (handle m failure context state node agent_id).0.events ≡ length m.events + 1)
      × ((handle m failure context state node agent_id).0.budget ≡ m.budget)
unfolding handle attempts_of counts_of next_counts
handle-counted m state failure context node agent_id = (refl, length-append m.events _, refl)

-- The attempts that a sequence of failures counts, and the events that it records.
handle_all-attempts :
    (m : Manager) (state : RuntimeState) (fs : List Failure)
    → attempts_of state ≤ m.budget.max_recovery_attempts
    → (attempts_of (handle_all m state fs).1
        ≡ min m.budget.max_recovery_attempts (attempts_of state + length fs))
      × (length (handle_all m state fs).0.events ≡ length m.events + length fs)
      × ((handle_all m state fs).0.budget ≡ m.budget)
unfolding handle_all
handle_all-attempts m state [] h = (omega arith, omega arith, refl)
handle_all-attempts m state (f ∷ fs) h =
    let r = handle m f.failure f.context state f.node f.agent_id in
    let one = handle-counted m state f.failure f.context f.node f.agent_id in
    let cap : (r.0).budget.max_recovery_attempts ≡ m.budget.max_recovery_attempts =
      ap (λ b. b.max_recovery_attempts) (one.2) in
    let rest = handle_all-attempts (r.0) (r.1) fs (omega (arith, one.0, cap)) in
    (omega (arith, rest.0, one.0, cap), omega (arith, rest.1, one.1), rest.2 ∙ one.2)

exhausted-abort :
    (budget : RecoveryBudget) (failure : FailureType) (context : FailureContext)
    (state : RuntimeState)
    → budget.max_recovery_attempts ≤ attempts_of state
    → chosen budget failure context state ≡ abort
unfolding chosen exhausted attempts_of
exhausted-abort budget failure context state h = ground arith

-- Recovery ends: once a task has failed as often as the budget allows attempts, whatever the failures
-- were, the next failure is answered by an abort, and the attempts are never counted past the budget.
pub handle_all-aborts :
    (m : Manager) (state : RuntimeState) (fs : List Failure) (f : Failure)
    → attempts_of state ≤ m.budget.max_recovery_attempts
    → m.budget.max_recovery_attempts ≤ length fs
    → (let r = handle_all m state fs in
        let o = handle (r.0) f.failure f.context (r.1) f.node f.agent_id in
        (should_abort (o.2) ≡ true)
        × (attempts_of (o.1) ≡ m.budget.max_recovery_attempts)
        × (length (o.0).events ≡ length m.events + length fs + 1))
unfolding should_abort is_abort handle chosen
handle_all-aborts m state fs f h k =
    let r = handle_all m state fs in
    let before = handle_all-attempts m state fs h in
    let cap : (r.0).budget.max_recovery_attempts ≡ m.budget.max_recovery_attempts =
      ap (λ b. b.max_recovery_attempts) (before.2) in
    let one = handle-counted (r.0) (r.1) f.failure f.context f.node f.agent_id in
    let done =
      exhausted-abort (r.0).budget f.failure f.context (r.1) (omega (arith, before.0, cap)) in
    (ap is_abort done, omega (arith, before.0, one.0, cap), omega (arith, before.1, one.1))

handle_all-attempt :
    (m : Manager) (state : RuntimeState) (fs : List Failure)
    → (handle_all m state fs).1.attempt ≡ state.attempt
unfolding handle_all handle
handle_all-attempt m state [] = refl
handle_all-attempt m state (f ∷ fs) =
    let r = handle m f.failure f.context state f.node f.agent_id in
    handle_all-attempt (r.0) (r.1) fs

chosen-within :
    (budget : RecoveryBudget) (failure : FailureType) (context : FailureContext)
    (state : RuntimeState)
    → attempts_of state < budget.max_recovery_attempts
    → chosen budget failure context state ≡ plan failure state.attempt context
unfolding chosen exhausted attempts_of
chosen-within budget failure context state h = ground arith

-- The handling of failures does not write the attempt that the planner reads: in a task that starts
-- without it, every failure within the budget is answered by the first of its planned steps, however
-- often it has happened before.
pub handle_all-first_step :
    (m : Manager) (state : RuntimeState) (fs : List Failure) (f : Failure)
    → state.attempt ≡ 0
    → attempts_of state + length fs < m.budget.max_recovery_attempts
    → (let r = handle_all m state fs in
        (handle (r.0) f.failure f.context (r.1) f.node f.agent_id).2.action
        ≡ plan f.failure 1 f.context)
unfolding handle
handle_all-first_step m state fs f a h =
    let r = handle_all m state fs in
    let before = handle_all-attempts m state fs (omega arith) in
    let cap : (r.0).budget.max_recovery_attempts ≡ m.budget.max_recovery_attempts =
      ap (λ b. b.max_recovery_attempts) (before.2) in
    chosen-within (r.0).budget f.failure f.context (r.1) (omega (arith, before.0, cap))
    ∙ (ap (λ n. plan f.failure n f.context) (handle_all-attempt m state fs ∙ a)
        ∙ plan_first f.failure f.context)
