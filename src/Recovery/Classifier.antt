-- ===== src/Recovery/Classifier.antt =====
-- evoagent/recovery/classifier.py, with the model exceptions of evoagent/errors.py.
pub mod Outcomes
use evo_review_agent.Base.{ℕ, Bool, false, ◌&&◌, ◌||◌, Option, none, some, List, [], if◌then◌else◌}
use evo_review_agent.Base.Key.{text_key}
use evo_review_agent.Recovery.Failures.{
  FailureType, model_timeout, model_rate_limit, model_invalid_output, model_context_overflow,
  model_unavailable, tool_timeout, tool_unavailable, tool_invalid_argument, tool_permission_denied,
  tool_side_effect_unknown, agent_invalid_state, agent_no_progress, agent_hallucination,
  checkpoint_failure, storage_failure, budget_exceeded, unknown,
}
use evo_review_agent.Recovery.Text.{codes, lower, starts_with, occurs, joined}

-- The class of an exception, as far as the classifier tells classes apart.
pub data ExceptionClass : Type 0 where
  rate_limit_error timeout_model_error overflow_error unavailable_error invalid_output_error :
      ExceptionClass
  memory_error : ExceptionClass
  -- any other class: whether its name is one of the timeout names, and whether it is CheckpointException
  other : Bool → Bool → ExceptionClass

pub record Raised : Type 0 where
  pub class : ExceptionClass
  pub message : List ℕ

-- The checks of `isinstance`, which come before those of the text.
by_class : ExceptionClass → Option FailureType
by_class rate_limit_error = some model_rate_limit
by_class timeout_model_error = some model_timeout
by_class overflow_error = some model_context_overflow
by_class unavailable_error = some model_unavailable
by_class invalid_output_error = some model_invalid_output
by_class memory_error = some model_context_overflow
by_class (other t c) = none

-- `exc_type in {"timeouterror", "timeoutexpired"}`
named_timeout : ExceptionClass → Bool
named_timeout (other t c) = t
named_timeout _ = false

-- `exc_type == "checkpointexception"`
named_checkpoint : ExceptionClass → Bool
named_checkpoint (other t c) = c
named_checkpoint _ = false

-- The tests behind those of the node.
by_rest : Bool → List ℕ → FailureType
by_rest checkpoint text =
    if occurs (codes "checkpoint") text || checkpoint
    then checkpoint_failure
    else if occurs (codes "storage") text || occurs (codes "database") text
    then storage_failure
    else if occurs (codes "invalid") text
        || (occurs (codes "json") text || occurs (codes "parse") text)
    then model_invalid_output
    else if occurs (codes "no progress") text || occurs (codes "no-progress") text
    then agent_no_progress
    else if occurs (codes "hallucinat") text
    then agent_hallucination
    else if occurs (codes "state") text && occurs (codes "invalid") text
    then agent_invalid_state
    else unknown

-- The tests on the text and the context, in their order.
by_text : Bool → Bool → Bool → List ℕ → List ℕ → FailureType
by_text timeout checkpoint side_effect_unknown node text =
    if occurs (codes "budget") text || occurs (codes "tool-call budget") text
    then budget_exceeded
    else if occurs (codes "permission") text
        || (occurs (codes "denied") text || occurs (codes "approval declined") text)
    then tool_permission_denied
    else if timeout || (occurs (codes "timed out") text || occurs (codes "timeout") text)
    then (if starts_with (codes "model") node then model_timeout else tool_timeout)
    else if occurs (codes "rate limit") text || occurs (codes "429") text
    then model_rate_limit
    else if side_effect_unknown
    then tool_side_effect_unknown
    else if occurs (codes "tool") node
    then (if occurs (codes "invalid argument") text || occurs (codes "missing required") text
        then tool_invalid_argument
        else tool_unavailable)
    else by_rest checkpoint text

-- The verdict of the class, or else that of the text.
unless : Option FailureType → FailureType → FailureType
unless (some t) rest = t
unless none rest = rest

-- `classify`
pub classify : Option Raised → List ℕ → List ℕ → Bool → FailureType
classify none message node side_effect_unknown =
    by_text false false side_effect_unknown node (lower (joined message []))
classify (some e) message node side_effect_unknown = unless (by_class e.class) (
    by_text (named_timeout e.class) (named_checkpoint e.class) side_effect_unknown node
      (lower (joined message e.message)))
