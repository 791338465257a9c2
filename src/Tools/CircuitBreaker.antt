-- ===== src/Tools/CircuitBreaker.antt =====
-- evoagent/tools/circuit_breaker.py. Times are whole seconds of the breaker's clock; an operation that
-- reads the clock twice is taken to read the same time.
pub mod Failures
use evo_review_agent.Base.{
  ℕ, ◌+◌, max, String, Bool, true, false, not, ◌||◌, Option, none, some, [], leb, if◌then◌else◌,
}
use evo_review_agent.Base.Key.{text_key}
use evo_review_agent.Base.Dict.{Dict, get, put}

pub data CircuitState : Type 0 where
  closed opened half_open : CircuitState

pub record Circuit : Type 0 where
  pub state : CircuitState
  pub failure_count : ℕ
  pub open_until : ℕ
  pub last_failure_at : ℕ

pub record CircuitBreaker : Type 0 where
  pub failure_threshold : ℕ
  pub cooldown_seconds : ℕ
  pub circuits : Dict String Circuit

-- `__init__`
unfoldable pub init : ℕ → ℕ → CircuitBreaker
init failure_threshold cooldown_seconds = record {
  failure_threshold = max 1 failure_threshold;
  cooldown_seconds = max 1 cooldown_seconds;
  circuits = [];
}

abbrev pub fresh : Circuit
fresh = record { state = closed; failure_count = 0; open_until = 0; last_failure_at = 0 }

abbrev pub or_fresh : Option Circuit → Circuit
or_fresh none = fresh
or_fresh (some c) = c

-- `_get`: the circuit that `setdefault` returns; each operation writes it back.
unfoldable pub circuit : CircuitBreaker → String → Circuit
circuit b tool = or_fresh (get b.circuits tool)

pub write : CircuitBreaker → String → Circuit → CircuitBreaker
write b tool c = record b { circuits = put b.circuits tool c }

pub cooled : CircuitState → ℕ → ℕ → CircuitState
cooled opened until now = if leb until now then half_open else opened
cooled closed until now = closed
cooled half_open until now = half_open

-- `state`: the state is stored before it is returned.
unfoldable pub aged : Circuit → ℕ → Circuit
unfolding cooled
aged c now = record c { state = cooled c.state c.open_until now }

unfoldable pub is_open : CircuitState → Bool
is_open opened = true
is_open _ = false

-- `allow`, and `check`, which raises where it is false.
unfoldable pub check : CircuitBreaker → String → ℕ → CircuitBreaker × Bool
unfolding write
check b tool now = let c = aged (circuit b tool) now in (write b tool c, not (is_open c.state))

-- `record_success`
unfoldable pub record_success : CircuitBreaker → String → CircuitBreaker
unfolding write
record_success b tool = write b tool (record (circuit b tool) { state = closed; failure_count = 0 })

is_half_open : CircuitState → Bool
is_half_open half_open = true
is_half_open _ = false

-- The circuit after `_failure`.
unfoldable pub failed_circuit : CircuitBreaker → Circuit → ℕ → Circuit
unfolding is_half_open
failed_circuit b c now =
    let counted = record c { last_failure_at = now; failure_count = c.failure_count + 1 } in
    if is_half_open c.state || leb b.failure_threshold (c.failure_count + 1)
    then record counted { state = opened; open_until = now + b.cooldown_seconds }
    else counted

-- `_failure`, of `record_timeout` and of `record_failure`.
unfoldable pub record_failure : CircuitBreaker → String → ℕ → CircuitBreaker
unfolding write
record_failure b tool now = write b tool (failed_circuit b (circuit b tool) now)

-- `reset`
unfoldable pub reset : CircuitBreaker → CircuitBreaker
reset b = record b { circuits = [] }
