-- ===== src/Recovery/Examples.antt =====
-- The theorems on evoagent/recovery at concrete failures.
use evo_review_agent.Base.{◌≡◌, refl, ◌≢◌, true, false, none, some, [], ◌∷◌, arith, length}
use evo_review_agent.Base.Key.{text_key}
use evo_review_agent.Recovery.Failures.{
  agent_invalid_state, storage_failure, policy_violation, FailureContext,
}
use evo_review_agent.Recovery.Classifier.{Raised, other, classify}
use evo_review_agent.Recovery.Classifier.Outcomes.{classify_never}
use evo_review_agent.Recovery.Planner.{plan}
use evo_review_agent.Recovery.Manager.{
  RuntimeState, Manager, default_budget, counts_of, handle, should_abort,
}
use evo_review_agent.Recovery.Manager.Bounds.{
  Failure, handle_all, attempts_of, handle_all-aborts, handle_all-first_step,
}
use evo_review_agent.Recovery.Text.{codes}

abbrev context : FailureContext
context = record {
  node = "tool:run";
  side_effect_unknown = true;
  is_side_effect = true;
  tool = some "run";
}

abbrev raised : Raised
raised = record { class = other false false; message = codes "invalid state" }

classify_never_example :
    (classify (some raised) [] (codes "review") false ≢ agent_invalid_state)
    × (classify (some raised) [] (codes "review") false ≢ policy_violation)
classify_never_example = classify_never (some raised) [] (codes "review") false

abbrev manager : Manager
manager = record { policy = none; budget = default_budget; handlers = []; events = [] }

abbrev state : RuntimeState
state = record { task_id = "t"; attempt = 0; context_reserve = 30; recovery_counts = none }

abbrev failing : Failure
failing = record { failure = storage_failure; context = context; node = "save"; agent_id = "" }

handle_all-aborts_example :
    (let r = handle_all manager state (failing ∷ failing ∷ failing ∷ []) in
      let o = handle (r.0) storage_failure context (r.1) "save" "" in
      (should_abort (o.2) ≡ true) × (attempts_of (o.1) ≡ 3) × (length (o.0).events ≡ 4))
unfolding attempts_of counts_of
handle_all-aborts_example =
    handle_all-aborts manager state (failing ∷ failing ∷ failing ∷ []) failing (omega arith)
      (omega arith)

handle_all-first_step_example :
    (let r = handle_all manager state (failing ∷ failing ∷ []) in
      (handle (r.0) storage_failure context (r.1) "save" "").2.action
      ≡ plan storage_failure 1 context)
unfolding attempts_of counts_of
handle_all-first_step_example =
    handle_all-first_step manager state (failing ∷ failing ∷ []) failing refl (omega arith)
