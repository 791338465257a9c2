-- ===== src/A2a/Breaker.antt =====
-- The CircuitBreaker of evoagent/a2a/resilience.py. Times are whole seconds of the monotonic clock.
pub mod Probes
use evo_review_agent.Base.{ℕ, ◌+◌, max, Bool, true, false, leb, if◌then◌else◌}
use evo_review_agent.Base.Key.{text_key}
use evo_review_agent.Base.Result.{Result, err, ok}

pub data BreakerState : Type 0 where
  at_closed at_open at_half_open : BreakerState

pub record CircuitBreaker : Type 0 where
  pub failure_threshold : ℕ
  pub cooldown_seconds : ℕ
  pub state : BreakerState
  pub failures : ℕ
  pub opened_at : ℕ

-- `__init__`
pub init : ℕ → ℕ → CircuitBreaker
init failure_threshold cooldown_seconds = record {
  failure_threshold = max 1 failure_threshold;
  cooldown_seconds = cooldown_seconds;
  state = at_closed;
  failures = 0;
  opened_at = 0;
}

-- `state`: what is stored stays as it is.
seen_in : BreakerState → CircuitBreaker → ℕ → BreakerState
seen_in at_open b now = if leb (b.opened_at + b.cooldown_seconds) now then at_half_open else at_open
seen_in at_closed b now = at_closed
seen_in at_half_open b now = at_half_open

pub seen : CircuitBreaker → ℕ → BreakerState
unfolding seen_in
seen b now = seen_in b.state b now

lets_through : BreakerState → Bool
lets_through at_open = false
lets_through _ = true

pub allow : CircuitBreaker → ℕ → Bool
unfolding seen
allow b now = lets_through (seen b now)

-- `_record_failure`
failed_in : BreakerState → CircuitBreaker → ℕ → CircuitBreaker
failed_in at_half_open b now = record b { state = at_open; opened_at = now; failures = 1 }
failed_in at_open b now = b
failed_in at_closed b now =
    if leb b.failure_threshold (b.failures + 1)
    then record b { failures = b.failures + 1; state = at_open; opened_at = now }
    else record b { failures = b.failures + 1 }

pub record_failure : CircuitBreaker → ℕ → CircuitBreaker
unfolding failed_in
record_failure b now = failed_in b.state b now

pub record_success : CircuitBreaker → CircuitBreaker
record_success b = record b { failures = 0; state = at_closed }

pub reset : CircuitBreaker → CircuitBreaker
reset b = record b { state = at_closed; failures = 0; opened_at = 0 }

pub data CallError {ℓ} (E : Type ℓ) : Type ℓ where
  circuit_open : CallError E
  call_failed : E → CallError E

module _ {ℓ κ} {E : Type κ} {A : Type ℓ} where
  settle : CircuitBreaker → ℕ → Result E A → CircuitBreaker × Result (CallError E) A
  settle b later (ok v) = (record_success b, ok v)
  settle b later (err e) = (record_failure b later, err (call_failed e))

  -- `call`, with what the function comes to; the clock shows `later` when a failure is recorded.
  pub call : CircuitBreaker → ℕ → ℕ → Result E A → CircuitBreaker × Result (CallError E) A
  unfolding settle
  call b now later result = if allow b now then settle b later result else (b, err circuit_open)
