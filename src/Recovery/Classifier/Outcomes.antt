-- ===== src/Recovery/Classifier/Outcomes.antt =====
-- Which failures evoagent/recovery/classifier.py can report.
use evo_review_agent.Base.{ℕ, ◌≢◌, Bool, Option, none, some, List, arith}
use evo_review_agent.Base.Key.{text_key}
use evo_review_agent.Recovery.Failures.{FailureType, agent_invalid_state, policy_violation}
use evo_review_agent.Recovery.Classifier.{
  Raised, ExceptionClass, rate_limit_error, timeout_model_error, overflow_error, unavailable_error,
  invalid_output_error, memory_error, other, classify, by_class, by_text, by_rest, unless,
}

by_rest-ne :
    (checkpoint : Bool) (text : List ℕ)
    → (by_rest checkpoint text ≢ agent_invalid_state) × (by_rest checkpoint text ≢ policy_violation)
unfolding by_rest
by_rest-ne checkpoint text = (λ e. ground arith, λ e. ground arith)

by_text-ne :
    (timeout checkpoint unknown_effect : Bool) (node text : List ℕ)
    → (by_text timeout checkpoint unknown_effect node text ≢ agent_invalid_state)
      × (by_text timeout checkpoint unknown_effect node text ≢ policy_violation)
unfolding by_text
by_text-ne timeout checkpoint unknown_effect node text = (
  λ e. ground (arith, (by_rest-ne checkpoint text).0),
  λ e. ground (arith, (by_rest-ne checkpoint text).1),
)

by_class-ne :
    (class : ExceptionClass) (rest : FailureType)
    → ((rest ≢ agent_invalid_state) × (rest ≢ policy_violation))
    → (unless (by_class class) rest ≢ agent_invalid_state)
      × (unless (by_class class) rest ≢ policy_violation)
unfolding by_class unless
by_class-ne rate_limit_error rest h = ((λ e. ground arith), (λ e. ground arith))
by_class-ne timeout_model_error rest h = ((λ e. ground arith), (λ e. ground arith))
by_class-ne overflow_error rest h = ((λ e. ground arith), (λ e. ground arith))
by_class-ne unavailable_error rest h = ((λ e. ground arith), (λ e. ground arith))
by_class-ne invalid_output_error rest h = ((λ e. ground arith), (λ e. ground arith))
by_class-ne memory_error rest h = ((λ e. ground arith), (λ e. ground arith))
by_class-ne (other t c) rest h = h

-- Two of the failure types are never reported: an invalid state, whose test comes behind one for the
-- word `invalid` alone, and a policy violation, which no test reports.
pub classify_never :
    (exc : Option Raised) (message node : List ℕ) (side_effect_unknown : Bool)
    → (classify exc message node side_effect_unknown ≢ agent_invalid_state)
      × (classify exc message node side_effect_unknown ≢ policy_violation)
unfolding classify
classify_never none message node u = by_text-ne _ _ u node _
classify_never (some e) message node u = by_class-ne e.class _ (by_text-ne _ _ u node _)
