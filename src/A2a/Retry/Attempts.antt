-- ===== src/A2a/Retry/Attempts.antt =====
-- What a run of evoagent/a2a/resilience.py under its retry policy comes to.
use evo_review_agent.Base.{
  ℕ, zero, suc, ◌+◌, ◌≤◌, ◌<◌, ◌≡◌, refl, ap, ◌∙◌, ◌⊎◌, inl, inr, true, false, Option, some, arith,
  leb, leb→le, Bool-cases,
}
use evo_review_agent.Base.Key.{text_key}
use evo_review_agent.Base.Result.{Result, err, ok}
use evo_review_agent.A2a.Retry.{
  RetryPolicy, Raised, walks_retryable, should_retry, sleep_for, Report, after_sleep, round, loop,
  run,
}

module _ {ℓ} {A : Type ℓ} (policy : RetryPolicy) (func : ℕ → Result Raised A) where
  -- The report of a run that starts at an attempt: it gives what the function answered at its last
  -- attempt, which is within the policy; every attempt before failed in a way that may be retried,
  -- and if the last one failed then it was the last one allowed or may not be retried.
  pub record IsReport (first : ℕ) (o : Report A) : Type ℓ where
    pub answered : func o.attempt ≡ o.result
    pub begun : first ≤ o.attempt
    pub within : o.attempt ≤ policy.max_attempts
    pub earlier :
        (n : ℕ)
        → first ≤ n
        → n < o.attempt
        → (e : Raised) × (func n ≡ err e) × (walks_retryable e ≡ true)
    pub final :
        (e : Raised)
        → o.result ≡ err e
        → (o.attempt ≡ policy.max_attempts) ⊎ (walks_retryable e ≡ false)

  should_retry-false :
      (attempt : ℕ) (e : Raised)
      → attempt ≤ policy.max_attempts
      → should_retry policy attempt e ≡ false
      → (attempt ≡ policy.max_attempts) ⊎ (walks_retryable e ≡ false)
  unfolding should_retry
  should_retry-false attempt e h k = elim (Bool-cases (leb policy.max_attempts attempt)) [
    | inl last ↦ inl (omega (arith, leb→le policy.max_attempts attempt last))
    | inr more ↦ inr (rw more at k)
  ]

  should_retry-true :
      (attempt : ℕ) (e : Raised)
      → should_retry policy attempt e ≡ true
      → (attempt < policy.max_attempts) × (walks_retryable e ≡ true)
  unfolding should_retry
  should_retry-true attempt e k = (ground arith, ground arith)

  -- A round that was the last one.
  ended :
      (attempt : ℕ)
      → attempt ≤ policy.max_attempts
      → (result : Result Raised A) → func attempt ≡ result
      → ((e : Raised) → result ≡ err e → should_retry policy attempt e ≡ false)
      → IsReport attempt (record { result = result; attempt = attempt; slept = 0 })
  ended attempt h result given stops = record {
    answered = given;
    begun = omega arith;
    within = h;
    earlier = λ n from to. let no : ⊥ = omega arith in absurd no;
    final = λ e failed. should_retry-false attempt e h (stops e failed);
  }

  -- A round before the report of the others.
  retried :
      (attempt : ℕ) (e : Raised) (o : Report A) (pause : ℕ)
      → func attempt ≡ err e
      → should_retry policy attempt e ≡ true
      → IsReport (suc attempt) o
      → IsReport attempt (record o { slept = pause + o.slept })
  retried attempt e o pause given again r = record {
    answered = r.answered;
    begun = omega (arith, r.begun);
    within = r.within;
    earlier = λ n from to. elim (Bool-cases (leb (suc attempt) n)) [
      | inl after ↦ r.earlier n (leb→le (suc attempt) n after) to
      | inr at_first ↦
          let same : n ≡ attempt = ground arith in
          (e, ap func same ∙ given, (should_retry-true attempt e again).1)
    ];
    final = r.final;
  }

  round-IsReport :
      (attempt : ℕ)
      → attempt ≤ policy.max_attempts
      → (rest : Option (Report A))
      → (attempt < policy.max_attempts
          → (o : Report A) × (rest ≡ some o) × IsReport (suc attempt) o)
      → (result : Result Raised A) → func attempt ≡ result
      → (o : Report A) × (round policy attempt result rest ≡ some o) × IsReport attempt o
  unfolding round after_sleep
  round-IsReport attempt h rest more (ok v) given =
      (_, refl, ended attempt h (ok v) given (λ e failed. cc))
  round-IsReport attempt h rest more (err e) given =
      elim (Bool-cases (should_retry policy attempt e)) [
        | inl again ↦
            let (o, there, sound) = more ((should_retry-true attempt e again).0) in
            (
              record o { slept = sleep_for policy attempt + o.slept },
              rw again (ap (after_sleep (sleep_for policy attempt)) there),
              retried attempt e o (sleep_for policy attempt) given again sound,
            )
        | inr stop ↦ (
          record { result = err e; attempt = attempt; slept = 0 },
          rw stop refl,
          ended attempt h (err e) given (λ x failed. cc),
        )
      ]

  loop-IsReport :
      (fuel attempt : ℕ)
      → attempt ≤ policy.max_attempts
      → policy.max_attempts < attempt + fuel
      → (o : Report A) × (loop policy func fuel attempt ≡ some o) × IsReport attempt o
  unfolding loop
  loop-IsReport zero attempt h k = let no : ⊥ = omega arith in absurd no
  loop-IsReport (suc fuel) attempt h k =
      round-IsReport attempt h (loop policy func fuel (suc attempt))
        (λ more. loop-IsReport fuel (suc attempt) (omega arith) (omega arith)) (func attempt) refl

  -- A run under a policy of at least one attempt returns. It gives what the function answered at its
  -- last attempt, which is within the policy; every attempt before failed in a way that may be
  -- retried, and if the last one failed it was the last one allowed or may not be retried.
  pub run-IsReport :
      1 ≤ policy.max_attempts → (o : Report A) × (run policy func ≡ some o) × IsReport 1 o
  unfolding run
  run-IsReport h = loop-IsReport policy.max_attempts 1 h (omega arith)
