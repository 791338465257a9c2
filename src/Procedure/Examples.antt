-- ===== src/Procedure/Examples.antt =====
-- A candidate at concrete inputs: it passes a gate, skips one in vain and is rejected.
use evo_review_agent.Base.{String, refl, none, some, List, [], ◌∷◌, map}
use evo_review_agent.Base.Key.{text_key}
use evo_review_agent.Procedure.Lifecycle.{
  ProcedureCandidate, Transition, draft, shadow, transition, Call, validates, activates, rejects,
  run,
}
use evo_review_agent.Procedure.Lifecycle.Diagram.{Follows, transition-Follows}
use evo_review_agent.Procedure.Lifecycle.History.{WentThrough, run-WentThrough}

abbrev candidate : ProcedureCandidate String
candidate = record {
  skill = "review";
  status = draft;
  hypothesis_id = none;
  parent_version = none;
  history = [];
}

abbrev calls : List Call
calls = validates none ∷ activates none ∷ rejects (some "regressed") ∷ []

transition-Follows_example : Follows candidate shadow none (transition candidate shadow none)
transition-Follows_example = transition-Follows candidate shadow none

run-WentThrough_example :
    WentThrough
      (run candidate calls).status
      (map (λ (t : Transition). t.to_status) (run candidate calls).history)
run-WentThrough_example = run-WentThrough candidate calls refl refl
