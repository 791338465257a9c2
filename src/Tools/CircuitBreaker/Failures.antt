-- ===== src/Tools/CircuitBreaker/Failures.antt =====
-- When the breaker of evoagent/tools/circuit_breaker.py opens, and how it closes again.
use evo_review_agent.Base.{
  ℕ, ◌+◌, ◌≤◌, ◌<◌, String, ◌≡◌, refl, sym, ap, ◌∙◌, ◌↔◌, not, List, [], ◌∷◌, arith, leb,
  if◌then◌else◌, length,
}
use evo_review_agent.Base.Key.{◌==◌, text_key}
use evo_review_agent.Base.Dict.{get-put, get-put_self}
use mathlib.Core.Path.{subst}
use evo_review_agent.Tools.CircuitBreaker.{
  closed, opened, Circuit, CircuitBreaker, circuit, write, cooled, aged, is_open, check,
  record_success, failed_circuit, record_failure, is_half_open,
}

circuit-write :
    (b : CircuitBreaker) (tool other : String) (c : Circuit)
    → circuit (write b tool c) other ≡ (if tool == other then c else circuit b other)
unfolding circuit write
circuit-write b tool other c = rw (get-put b.circuits tool other c) (ground arith)

circuit-write_self :
    (b : CircuitBreaker) (tool : String) (c : Circuit) → circuit (write b tool c) tool ≡ c
unfolding circuit write
circuit-write_self b tool c = rw (get-put_self b.circuits tool c) refl

-- The failures of a tool, at their times, with no other operation in between.
pub fail_all : CircuitBreaker → String → List ℕ → CircuitBreaker
fail_all b tool [] = b
fail_all b tool (t ∷ ts) = fail_all (record_failure b tool t) tool ts

-- A circuit that only failures have touched since it was closed.
pub IsCounting : ℕ → Circuit → Type 0
IsCounting threshold c = c.state ≡ (if leb threshold c.failure_count then opened else closed)

fail-IsCounting :
    (b : CircuitBreaker) (c : Circuit) (now : ℕ)
    → IsCounting b.failure_threshold c
    → IsCounting b.failure_threshold (failed_circuit b c now)
      × ((failed_circuit b c now).failure_count ≡ c.failure_count + 1)
unfolding IsCounting failed_circuit is_half_open
fail-IsCounting b c now h = (ground arith, ground arith)

-- The circuit of a tool after its failures.
fail_all-circuit :
    (b : CircuitBreaker) (tool : String) (times : List ℕ)
    → IsCounting b.failure_threshold (circuit b tool)
    → IsCounting b.failure_threshold (circuit (fail_all b tool times) tool)
      × ((circuit (fail_all b tool times) tool).failure_count
          ≡ (circuit b tool).failure_count + length times)
unfolding fail_all record_failure
fail_all-circuit b tool [] h = (h, omega arith)
fail_all-circuit b tool (t ∷ ts) h =
    let next = failed_circuit b (circuit b tool) t in
    let one = fail-IsCounting b (circuit b tool) t h in
    let there : circuit (record_failure b tool t) tool ≡ next = circuit-write_self b tool next in
    let rest =
      fail_all-circuit (record_failure b tool t) tool ts
        (subst (IsCounting b.failure_threshold) (sym there) (one.0)) in
    (rest.0, omega (arith, rest.1, ap (λ c. c.failure_count) there, one.1))

-- A closed circuit opens with the failure that makes the count reach the threshold, and not before.
pub fail_all-opens :
    (b : CircuitBreaker) (tool : String) (times : List ℕ)
    → (circuit b tool).state ≡ closed
    → (circuit b tool).failure_count < b.failure_threshold
    → ((circuit (fail_all b tool times) tool).state ≡ opened)
      ↔ (b.failure_threshold ≤ (circuit b tool).failure_count + length times)
unfolding IsCounting
fail_all-opens b tool times h k =
    let all = fail_all-circuit b tool times (ground arith) in
    (λ e. ground (arith, all.0, all.1), λ e. ground (arith, all.0, all.1))

passes :
    (c : Circuit) (now : ℕ)
    → c.state ≡ opened
    → not (is_open (aged c now).state) ≡ leb c.open_until now
unfolding aged cooled is_open
passes c now h = rw h (ground arith)

reopened :
    (b : CircuitBreaker) (c : Circuit) (now later : ℕ)
    → c.state ≡ opened
    → c.open_until ≤ now
    → ((failed_circuit b (aged c now) later).state ≡ opened)
      × ((failed_circuit b (aged c now) later).open_until ≡ later + b.cooldown_seconds)
unfolding aged cooled failed_circuit is_half_open
reopened b c now later h due = rw h (ground arith, ground arith)

-- An open circuit refuses every call before its time, and from its time on a call may probe it: if the probe fails the circuit is open again for the whole cooldown, and if it
-- succeeds the circuit is closed and its count starts again.
pub check-probe :
    (b : CircuitBreaker) (tool : String) (now later again : ℕ)
    → (circuit b tool).state ≡ opened
    → ((check b tool now).1 ≡ leb (circuit b tool).open_until now)
      × ((circuit b tool).open_until ≤ now
          → ((check (record_failure (check b tool now).0 tool later) tool again).1
              ≡ leb (later + b.cooldown_seconds) again)
            × ((circuit (record_success (check b tool now).0 tool) tool).state ≡ closed)
            × ((circuit (record_success (check b tool now).0 tool) tool).failure_count ≡ 0))
unfolding check record_failure record_success write
check-probe b tool now later again h = (
  passes (circuit b tool) now h,
  λ due.
      let probed = aged (circuit b tool) now in
      let there : circuit (write b tool probed) tool ≡ probed = circuit-write_self b tool probed in
      let again_open = reopened (write b tool probed) (circuit b tool) now later h due in
      let failed = failed_circuit (write b tool probed) probed later in
      let after : circuit (record_failure (write b tool probed) tool later) tool ≡ failed =
        circuit-write_self (write b tool probed) tool _
        ∙ ap (λ c. failed_circuit (write b tool probed) c later) there in
      (
        ap (λ c. not (is_open (aged c again).state)) after
            ∙ (passes failed again (again_open.0) ∙ ap (λ t. leb t again) (again_open.1)),
        ap (λ c. c.state) (circuit-write_self (write b tool probed) tool _),
        ap (λ c. c.failure_count) (circuit-write_self (write b tool probed) tool _),
      ),
)

write-other :
    (b : CircuitBreaker) (tool other : String) (c : Circuit)
    → (tool ≡ other → ⊥)
    → circuit (write b tool c) other ≡ circuit b other
write-other b tool other c h =
    ground (arith, text_key.same_iff tool other, circuit-write b tool other c)

-- The operations on one tool leave the circuits of the others as they are.
pub circuit-other :
    (b : CircuitBreaker) (tool other : String) (now : ℕ)
    → (tool ≡ other → ⊥)
    → (circuit (check b tool now).0 other ≡ circuit b other)
      × (circuit (record_failure b tool now) other ≡ circuit b other)
      × (circuit (record_success b tool) other ≡ circuit b other)
unfolding check record_failure record_success
circuit-other b tool other now h =
    (write-other b tool other _ h, write-other b tool other _ h, write-other b tool other _ h)
