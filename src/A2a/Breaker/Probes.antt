-- ===== src/A2a/Breaker/Probes.antt =====
-- What the breaker of evoagent/a2a/resilience.py does with calls that fail.
use evo_review_agent.Base.{
  ℕ, ◌+◌, ◌≤◌, ◌<◌, ◌≡◌, refl, ap, ◌∙◌, Bool, true, false, List, [], ◌∷◌, arith, if◌then◌else◌, all,
  All,
}
use evo_review_agent.Base.Key.{text_key}
use evo_review_agent.Base.Result.{Result, err}
use evo_review_agent.A2a.Breaker.{
  at_open, CircuitBreaker, seen, seen_in, lets_through, allow, failed_in, record_failure,
  circuit_open, call_failed, settle, call,
}

taken {ℓ} : {T : Type ℓ} (test : Bool) (x y : T) → test ≡ true → (if test then x else y) ≡ x
taken true x y h = refl
taken false x y h = cc

not_taken {ℓ} : {T : Type ℓ} (test : Bool) (x y : T) → test ≡ false → (if test then x else y) ≡ y
not_taken true x y h = cc
not_taken false x y h = refl

allow-due :
    (b : CircuitBreaker) (now : ℕ)
    → b.state ≡ at_open
    → b.opened_at + b.cooldown_seconds ≤ now
    → allow b now ≡ true
unfolding allow seen seen_in lets_through
allow-due b now h due = ap (λ s. lets_through (seen_in s b now)) h ∙ ground arith

allow-early :
    (b : CircuitBreaker) (now : ℕ)
    → b.state ≡ at_open
    → now < b.opened_at + b.cooldown_seconds
    → allow b now ≡ false
unfolding allow seen seen_in lets_through
allow-early b now h early = ap (λ s. lets_through (seen_in s b now)) h ∙ ground arith

record_failure-open :
    (b : CircuitBreaker) (later : ℕ) → b.state ≡ at_open → record_failure b later ≡ b
unfolding record_failure failed_in
record_failure-open b later h = ap (λ s. failed_in s b later) h

-- A call at a time, with a later time at which its failure is recorded.
module _ {ℓ κ} {E : Type κ} (A : Type ℓ) (e : E) where
  -- The breaker after calls that all fail, each with its two times.
  pub fail_calls : CircuitBreaker → List (ℕ × ℕ) → CircuitBreaker
  fail_calls b [] = b
  fail_calls b ((now, later) ∷ ts) = fail_calls (call {A = A} b now later (err e)).0 ts

  due-call :
      (b : CircuitBreaker) (now later : ℕ)
      → b.state ≡ at_open
      → b.opened_at + b.cooldown_seconds ≤ now
      → call {A = A} b now later (err e) ≡ (b, err (call_failed e))
  unfolding call settle
  due-call b now later h due =
      taken (allow b now) _ _ (allow-due b now h due)
      ∙ ap (λ c. (c, err (call_failed e))) (record_failure-open b later h)

  -- An open breaker whose cooldown is over never refuses again while calls fail: failing calls leave
  -- it as it is, so that every later call is let through, however many have failed before.
  pub fail_calls-stay_open :
      (b : CircuitBreaker) (times : List (ℕ × ℕ)) (now later : ℕ)
      → b.state ≡ at_open
      → All (λ t. b.opened_at + b.cooldown_seconds ≤ t.0) times
      → b.opened_at + b.cooldown_seconds ≤ now
      → call {A = A} (fail_calls b times) now later (err e) ≡ (b, err (call_failed e))
  unfolding fail_calls
  fail_calls-stay_open b [] now later h all due = due-call b now later h due
  fail_calls-stay_open b ((t, u) ∷ ts) now later h all due =
      let one = ap (λ r. r.0) (due-call b t u h all.0) in
      ap (λ c. call (fail_calls c ts) now later (err e)) one
      ∙ fail_calls-stay_open b ts now later h all.1 due

  -- Before the cooldown is over an open breaker refuses every call and stays as it is.
  pub call-refused :
      (b : CircuitBreaker) (now later : ℕ) (result : Result E A)
      → b.state ≡ at_open
      → now < b.opened_at + b.cooldown_seconds
      → call b now later result ≡ (b, err circuit_open)
  unfolding call
  call-refused b now later result h early = not_taken (allow b now) _ _ (allow-early b now h early)
