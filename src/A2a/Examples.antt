-- ===== src/A2a/Examples.antt =====
-- The theorems on evoagent/a2a/resilience.py at concrete calls.
use evo_review_agent.Base.{
  ℕ, String, ◌≡◌, refl, true, false, some, [], ◌∷◌, arith, leb, if◌then◌else◌,
}
use evo_review_agent.Base.Key.{text_key}
use evo_review_agent.Base.Result.{Result, err, ok}
use evo_review_agent.A2a.Breaker.{at_open, CircuitBreaker, call, call_failed}
use evo_review_agent.A2a.Breaker.Probes.{fail_calls, fail_calls-stay_open}
use evo_review_agent.A2a.Fallback.{value, transient_error, ending, run_chain, run_chain-first}
use evo_review_agent.A2a.Retry.{RetryPolicy, Raised, Report, run}
use evo_review_agent.A2a.Retry.Attempts.{IsReport, run-IsReport}

abbrev down : String
down = "connection refused"

abbrev breaker : CircuitBreaker
breaker = record {
  failure_threshold = 3;
  cooldown_seconds = 5;
  state = at_open;
  failures = 3;
  opened_at = 10;
}

fail_calls-stay_open_example :
    call {E = String} {A = String}
      (fail_calls String down breaker ((15, 16) ∷ (17, 18) ∷ []))
      19
      20
      (err down)
    ≡ (breaker, err (call_failed down))
fail_calls-stay_open_example =
    fail_calls-stay_open String down breaker ((15, 16) ∷ (17, 18) ∷ []) 19 20 refl
      (omega arith, (omega arith, tt)) (omega arith)

abbrev policy : RetryPolicy
policy = record { max_attempts = 3; delay_seconds = 1; backoff_factor = 2 }

abbrev transient : Raised
transient = record { chain = false ∷ true ∷ [] }

-- The second attempt succeeds.
abbrev func : ℕ → Result Raised String
func n = if leb 2 n then ok "done" else err transient

run-IsReport_example : (o : Report String) × (run policy func ≡ some o) × IsReport policy func 1 o
run-IsReport_example = run-IsReport policy func (omega arith)

run_chain-first_example :
    run_chain {E = String} {A = String} (transient_error down ∷ value "backup" ∷ value "local" ∷ [])
    ≡ (1, ok "backup")
unfolding ending
run_chain-first_example =
    run_chain-first (down ∷ []) (value "backup") (value "local" ∷ []) (ok "backup") refl
