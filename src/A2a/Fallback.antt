-- ===== src/A2a/Fallback.antt =====
-- The FallbackChain of evoagent/a2a/resilience.py. A provider is what its call comes to; the calls of
-- `on_fallback` are counted.
use evo_review_agent.Base.{
  ℕ, ◌+◌, ◌≡◌, refl, ap, ◌∙◌, Option, none, some, List, [], ◌∷◌, ◌++◌, map, arith, some_inj, length,
}
use evo_review_agent.Base.Key.{text_key}
use evo_review_agent.Base.Result.{Result, err, ok}

pub data Answer {ℓ κ} (E : Type κ) (A : Type ℓ) : Type (ℓ ⊔ κ) where
  value : A → Answer E A
  identity_error : E → Answer E A
  transient_error : E → Answer E A

pub data FallbackError {ℓ} (E : Type ℓ) : Type ℓ where
  empty_chain no_result : FallbackError E
  provider_failed : E → FallbackError E

module _ {ℓ κ} {E : Type κ} {A : Type ℓ} where
  last_raised : Option E → Result (FallbackError E) A
  last_raised none = err no_result
  last_raised (some e) = err (provider_failed e)

  -- `index + 1 < len(providers)` counts a call of `on_fallback`.
  fallbacks_of : List (Answer E A) → ℕ → ℕ
  fallbacks_of [] n = n
  fallbacks_of (p ∷ ps) n = n + 1

  -- The loop of `run`, with `last_error`.
  try_all : Option E → List (Answer E A) → ℕ × Result (FallbackError E) A
  unfolding last_raised fallbacks_of
  try_all last [] = (0, last_raised last)
  try_all last (value v ∷ rest) = (0, ok v)
  try_all last (identity_error e ∷ rest) = (0, err (provider_failed e))
  try_all last (transient_error e ∷ rest) =
      let r = try_all (some e) rest in (fallbacks_of rest (r.0), r.1)

  -- `run`
  pub run_chain : List (Answer E A) → ℕ × Result (FallbackError E) A
  unfolding try_all
  run_chain [] = (0, err empty_chain)
  run_chain (p ∷ ps) = try_all none (p ∷ ps)

  -- What a provider gives that ends the chain.
  unfoldable pub ending : Answer E A → Option (Result (FallbackError E) A)
  ending (value v) = some (ok v)
  ending (identity_error e) = some (err (provider_failed e))
  ending (transient_error e) = none

  fallbacks_of-more :
      (es : List E) (p : Answer E A) (rest : List (Answer E A)) (n : ℕ)
      → fallbacks_of (map transient_error es ++ (p ∷ rest)) n ≡ n + 1
  unfolding fallbacks_of
  fallbacks_of-more [] p rest n = refl
  fallbacks_of-more (e ∷ es) p rest n = refl

  try_all-first :
      (last : Option E) (errors : List E) (p : Answer E A) (rest : List (Answer E A))
      (r : Result (FallbackError E) A)
      → ending p ≡ some r
      → try_all last (map transient_error errors ++ (p ∷ rest)) ≡ (length errors, r)
  unfolding try_all ending
  try_all-first last [] (value v) rest r h = ap (λ x. (0, x)) (some_inj h)
  try_all-first last [] (identity_error e) rest r h = ap (λ x. (0, x)) (some_inj h)
  try_all-first last [] (transient_error e) rest r h = cc
  try_all-first last (e ∷ es) p rest r h =
      let inner = try_all-first (some e) es p rest r h in
      ap (λ x. (fallbacks_of (map transient_error es ++ (p ∷ rest)) (x.0), x.1)) inner
      ∙ ap (λ n. (n, r)) (fallbacks_of-more es p rest (length es) ∙ (omega arith))

  -- The chain gives what the first provider gives that does not fail in a transient way, its value or
  -- its identity error, after one fallback for each provider before it.
  pub run_chain-first :
      (errors : List E) (p : Answer E A) (rest : List (Answer E A)) (r : Result (FallbackError E) A)
      → ending p ≡ some r
      → run_chain (map transient_error errors ++ (p ∷ rest)) ≡ (length errors, r)
  unfolding run_chain
  run_chain-first [] p rest r h = try_all-first none [] p rest r h
  run_chain-first (e ∷ es) p rest r h = try_all-first none (e ∷ es) p rest r h
