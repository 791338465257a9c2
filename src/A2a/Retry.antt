-- ===== src/A2a/Retry.antt =====
-- The RetryPolicy of evoagent/a2a/resilience.py. The called function answers each attempt; the pauses
-- are whole seconds and the factor a whole number.
pub mod Attempts
use evo_review_agent.Base.{
  ℕ, zero, suc, ◌+◌, ◌-◌, ◌*◌, ◌^◌, max, Bool, false, Option, none, some, List, leb, if◌then◌else◌,
  any,
}
use evo_review_agent.Base.Key.{text_key}
use evo_review_agent.Base.Result.{Result, err, ok}

pub record RetryPolicy : Type 0 where
  pub max_attempts : ℕ
  pub delay_seconds : ℕ
  pub backoff_factor : ℕ

-- `__init__`
pub retry_policy : ℕ → ℕ → ℕ → RetryPolicy
retry_policy max_attempts delay_seconds backoff_factor = record {
  max_attempts = max max_attempts 1;
  delay_seconds = delay_seconds;
  backoff_factor = max 1 backoff_factor;
}

-- An exception by its chain of causes: whether each one says that it may be retried.
pub record Raised : Type 0 where
  pub chain : List Bool

-- `_walks_retryable`
pub walks_retryable : Raised → Bool
walks_retryable error = any (λ retryable. retryable) error.chain

pub should_retry : RetryPolicy → ℕ → Raised → Bool
should_retry policy attempt error =
    if leb policy.max_attempts attempt then false else walks_retryable error

-- `sleep_for`
pub sleep_for : RetryPolicy → ℕ → ℕ
sleep_for policy attempt = policy.delay_seconds * policy.backoff_factor ^ (attempt - 1)

-- What a run comes to: its result, the attempt that gave it and the time slept before.
pub record Report {ℓ} (A : Type ℓ) : Type ℓ where
  pub result : Result Raised A
  pub attempt : ℕ
  pub slept : ℕ

module _ {ℓ} {A : Type ℓ} where
  after_sleep : ℕ → Option (Report A) → Option (Report A)
  after_sleep pause none = none
  after_sleep pause (some r) = some (record r { slept = pause + r.slept })

  -- One round of the loop, with the rounds that follow.
  round : RetryPolicy → ℕ → Result Raised A → Option (Report A) → Option (Report A)
  unfolding after_sleep
  round policy attempt (ok v) rest = some (record { result = ok v; attempt = attempt; slept = 0 })
  round policy attempt (err e) rest =
      if should_retry policy attempt e
      then after_sleep (sleep_for policy attempt) rest
      else some (record { result = err e; attempt = attempt; slept = 0 })

  -- The loop of `run`; `none` stands for a run that the fuel does not suffice for.
  loop : RetryPolicy → (ℕ → Result Raised A) → ℕ → ℕ → Option (Report A)
  unfolding round
  loop policy func zero attempt = none
  loop policy func (suc fuel) attempt =
      let rest = loop policy func fuel (suc attempt) in round policy attempt (func attempt) rest

  pub run : RetryPolicy → (ℕ → Result Raised A) → Option (Report A)
  unfolding loop
  run policy func = loop policy func policy.max_attempts 1
