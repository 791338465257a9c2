-- ===== src/Tools/Examples.antt =====
-- The theorems on evoagent/tools at concrete calls.
use evo_review_agent.Base.{
  ◌≤◌, String, ◌≡◌, refl, sym, ap, ◌↔◌, true, false, none, some, [], ◌∷◌, arith, some_inj,
}
use evo_review_agent.Base.Key.{text_key}
use evo_review_agent.Base.Dict.{Dict, get}
use evo_review_agent.Policy.ToolPolicy.{ToolMetadata}
use evo_review_agent.Tools.CircuitBreaker.{CircuitBreaker, check, record_success, record_failure}
use evo_review_agent.Tools.Invocation.{InvocationState, succeeded, blocks_replay}
use evo_review_agent.Tools.Arguments.{Value, Schema, validate}
use evo_review_agent.Tools.Registry.{
  GovernedToolRegistry, ToolCall, Outcome, returned, idempotency_key, invoke_as,
}
use evo_review_agent.Policy.Models.{low, medium, rank, find_permission, tool_permission}
use evo_review_agent.Policy.ToolPolicy.{list_denies, agent_denied, calls_spent}
use evo_review_agent.Tools.Arguments.{
  has_required, all_known, check_values, check_value, has_spec, has_key, type_ok, has_type,
  number_of, is_below, less, first_error,
}
use evo_review_agent.Policy.Defaults.{default_policy, read_tools}
use evo_review_agent.Tools.CircuitBreaker.{closed, opened, circuit, aged, is_open}
use evo_review_agent.Tools.CircuitBreaker.Failures.{check-probe}
use evo_review_agent.Tools.Arguments.{
  text, integer, floating, pos, finite, string_type, integer_type, number_type, exceeds_maximum,
}
use evo_review_agent.Tools.Arguments.Validate.{Conforms, validate_iff}
use evo_review_agent.Tools.Registry.Counts.{was_executed, IsCounted, invoke_as-IsCounted}
use evo_review_agent.Tools.Registry.Governed.{IsGoverned, invoke_as-IsGoverned}
use evo_review_agent.Tools.Registry.Budget.{total_of, invoke_as-within_budget}
use evo_review_agent.Tools.Registry.Replay.{IsGoverned-executed}

abbrev breaker : CircuitBreaker
breaker = record { failure_threshold = 2; cooldown_seconds = 60; circuits = [] }

abbrev tripped : CircuitBreaker
tripped = record breaker {
  circuits =
      (
        "run_tests",
        record { state = opened; failure_count = 2; open_until = 67; last_failure_at = 7 },
      )
      ∷ [];
}

check-probe_example :
    ((check tripped "run_tests" 70).1 ≡ true)
    × (67 ≤ 70
        → ((check
              (record_failure (check tripped "run_tests" 70).0 "run_tests" 71)
              "run_tests"
              100).1
            ≡ false)
          × ((circuit
                (record_success (check tripped "run_tests" 70).0 "run_tests")
                "run_tests").state
              ≡ closed)
          × ((circuit
                (record_success (check tripped "run_tests" 70).0 "run_tests")
                "run_tests").failure_count
              ≡ 0))
unfolding circuit get
check-probe_example = check-probe tripped "run_tests" 70 71 100 refl

abbrev schema : Schema
schema = record {
  properties =
      ("path", record { type = some string_type; minimum = none; maximum = none })
      ∷ (
        "line",
        record { type = some integer_type; minimum = some (finite (pos 1) 0); maximum = none },
      )
      ∷ [];
  required = "path" ∷ [];
  additional_properties = false;
}

abbrev given : Dict String Value
given = ("path", text "a.py") ∷ ("line", integer (pos 3)) ∷ []

validate_iff_example : (validate schema given ≡ none) ↔ Conforms schema given
validate_iff_example = validate_iff schema given

abbrev runner : ToolMetadata
runner = record {
  name = "run_tests";
  risk_level = low;
  side_effect = true;
  idempotent = false;
  retryable = false;
  requires_sandbox = false;
  requires_approval = false;
  timeout_seconds = 30;
  allowed_agents = [];
  tenant_scoped = false;
  compensatable = false;
  compensation_tool = none;
  blocking = false;
  command = none;
}

abbrev call : ToolCall
call = record {
  agent_id = "tester";
  name = "run_tests";
  arguments = given;
  task_id = "t";
  now = 10;
  later = 11;
}

abbrev hash_args : Dict String Value → String
hash_args _ = "0"

abbrev execute : ToolCall → Outcome
execute _ = returned (text "passed")

-- A registry in which the call has succeeded before.
abbrev registry : GovernedToolRegistry
registry = record {
  tools = ("run_tests", schema) ∷ [];
  metadata = ("run_tests", runner) ∷ [];
  execution_policy = default_policy medium;
  circuit_breaker = breaker;
  audit = [];
  guard = ("run_tests:0", succeeded) ∷ [];
  approval_provider = some (λ d. true);
  tool_call_counts = [];
  metrics = [];
}

invoke_as-IsCounted_example : IsCounted "run_tests" [] (invoke_as hash_args execute call registry)
invoke_as-IsCounted_example = invoke_as-IsCounted hash_args execute call registry

invoke_as-within_budget_example :
    (total_of (invoke_as hash_args execute call registry).0.tool_call_counts
      ≤ (default_policy medium).budget.max_tool_calls)
    × (total_of (invoke_as hash_args execute call registry).0.tool_call_counts ≤ 1)
unfolding total_of get
invoke_as-within_budget_example =
    invoke_as-within_budget hash_args execute call registry
      (λ e. cc ((text_key.same_iff "run_tests" "__all__").1 e)) (omega arith)

succeeded_passes :
    (state : InvocationState)
    → get registry.guard (idempotency_key hash_args call) ≡ some state
    → blocks_replay state ≡ false
unfolding get idempotency_key blocks_replay
succeeded_passes state e = ap blocks_replay (some_inj (sym e))

valid : validate schema given ≡ none
unfolding validate get has_required all_known has_key has_spec check_values check_value first_error
    type_ok has_type number_of is_below less
valid = refl

-- A number of at most 10.
abbrev bounded : Schema
bounded = record {
  properties =
      (
        "weight",
        record { type = some number_type; minimum = none; maximum = some (finite (pos 10) 0) },
      )
      ∷ [];
  required = [];
  additional_properties = false;
}

-- 21 / 2 is more than 10.
too_heavy :
    validate bounded (("weight", floating (finite (pos 21) 1)) ∷ [])
    ≡ some (exceeds_maximum "weight")
unfolding validate get has_required all_known has_key has_spec check_values check_value first_error
    type_ok has_type number_of is_below less
too_heavy = refl

governed : IsGoverned hash_args call registry
unfolding get list_denies find_permission tool_permission default_policy read_tools rank
    agent_denied calls_spent check aged is_open circuit
governed = record {
  schema = schema;
  meta = runner;
  is_tool = refl;
  conforms = (validate_iff schema given).0 valid;
  is_known = refl;
  may_call = record {
    listed = refl;
    risk_fits = omega arith;
    agent_fits = refl;
    calls_left = refl;
    total_left = omega arith;
  };
  passes = refl;
  fresh = λ reuse. succeeded_passes;
  approved = λ asked. ((λ d. true), refl, refl);
}

-- A call whose invocation has succeeded before is executed again.
IsGoverned-executed_example : was_executed (invoke_as hash_args execute call registry).1 ≡ true
IsGoverned-executed_example = IsGoverned-executed hash_args execute call registry governed

invoke_as-IsGoverned_example : IsGoverned hash_args call registry
invoke_as-IsGoverned_example =
    invoke_as-IsGoverned hash_args execute call registry IsGoverned-executed_example
