-- ===== src/Tools/Registry/Counts.antt =====
-- What a call of evoagent/tools/governed_registry.py counts against the budgets.
use evo_review_agent.Base.{
  ℕ, ◌+◌, ap, ◌∙◌, inl, inr, arith, Bool-cases, String, ◌≡◌, refl, Bool, true, false, Option, none,
  some, if◌then◌else◌,
}
use evo_review_agent.Base.Key.{◌==◌, text_key}
use evo_review_agent.Base.Dict.{Dict, get, put, get-put}
use evo_review_agent.Base.Result.{Result, err, ok}
use evo_review_agent.Policy.ToolPolicy.{ToolMetadata, ToolDecision, count_of}
use evo_review_agent.Tools.CircuitBreaker.{CircuitBreaker, check}
use evo_review_agent.Tools.Invocation.{ToolInvocationGuard}
use evo_review_agent.Tools.Arguments.{Value, Schema, ArgumentError, validate}
use evo_review_agent.Tools.Registry.{
  GovernedToolRegistry, ToolCall, Outcome, returned, refused, timeout, raised, InvokeError,
  not_executed, Refusal, tool_refused, tool_timeout, tool_failed, Invoked, counted, reuse_guard,
  settled, approval, enter_guard, idempotency_key, after_approval, after_guard, after_check,
  after_decision, decision_of, after_validation, after_lookup, invoke_as, approval_metrics,
}

-- The call was handed to the executor: it returned, or it failed there.
unfoldable pub was_executed : Result InvokeError Value → Bool
was_executed (ok v) = true
was_executed (err tool_refused) = true
was_executed (err tool_timeout) = true
was_executed (err tool_failed) = true
was_executed (err (not_executed e)) = false

-- The counts are those of the code exactly if the call was executed.
unfoldable pub UsesCounted : String → Dict String ℕ → Invoked → Type 0
UsesCounted name counts (r, result) =
    r.tool_call_counts ≡ (if was_executed result then counted name counts else counts)

module _ (hash_args : Dict String Value → String) (execute : ToolCall → Outcome) where
  settled-UsesCounted :
      (o : Outcome) (meta : Option ToolMetadata) (call : ToolCall) (key : String)
      (r : GovernedToolRegistry)
      → UsesCounted call.name r.tool_call_counts (
          settled o call meta key
            (record r { tool_call_counts = counted call.name r.tool_call_counts }))
  unfolding UsesCounted was_executed settled
  settled-UsesCounted (returned v) meta call key r = refl
  settled-UsesCounted refused meta call key r = refl
  settled-UsesCounted timeout meta call key r = refl
  settled-UsesCounted raised meta call key r = refl

  approval-UsesCounted :
      (e : Option Refusal) (meta : Option ToolMetadata) (call : ToolCall) (r : GovernedToolRegistry)
      → UsesCounted call.name r.tool_call_counts (after_approval hash_args execute e meta call r)
  unfolding UsesCounted was_executed after_approval
  approval-UsesCounted (some e) meta call r = refl
  approval-UsesCounted none meta call r =
      settled-UsesCounted (execute call) meta call (idempotency_key hash_args call) r

  guard-UsesCounted :
      (g : ToolInvocationGuard) (e : Option Refusal) (d : ToolDecision) (meta : Option ToolMetadata)
      (call : ToolCall) (r : GovernedToolRegistry)
      → UsesCounted call.name r.tool_call_counts
          (after_guard hash_args execute (g, e) d meta call r)
  unfolding UsesCounted was_executed after_guard
  guard-UsesCounted g (some e) d meta call r = refl
  guard-UsesCounted g none d meta call r =
      let e = approval d r in
      approval-UsesCounted e meta call
        (record r { guard = g; metrics = approval_metrics d.requires_approval e r.metrics })

  check-UsesCounted :
      (b : CircuitBreaker) (passed : Bool) (d : ToolDecision) (meta : Option ToolMetadata)
      (call : ToolCall) (r : GovernedToolRegistry)
      → UsesCounted call.name r.tool_call_counts
          (after_check hash_args execute (b, passed) d meta call r)
  unfolding UsesCounted was_executed after_check
  check-UsesCounted b false d meta call r = refl
  check-UsesCounted b true d meta call r =
      let entry = enter_guard (reuse_guard meta) (idempotency_key hash_args call) r.guard in
      guard-UsesCounted (entry.0) (entry.1) d meta call (record r { circuit_breaker = b })

  decision-UsesCounted :
      (allowed : Bool) (d : ToolDecision) (meta : Option ToolMetadata) (call : ToolCall)
      (r : GovernedToolRegistry)
      → UsesCounted call.name r.tool_call_counts
          (after_decision hash_args execute allowed d meta call r)
  unfolding UsesCounted was_executed after_decision
  decision-UsesCounted false d meta call r = refl
  decision-UsesCounted true d meta call r =
      let probe = check r.circuit_breaker call.name call.now in
      check-UsesCounted (probe.0) (probe.1) d meta call r

  validation-UsesCounted :
      (e : Option ArgumentError) (call : ToolCall) (r : GovernedToolRegistry)
      → UsesCounted call.name r.tool_call_counts (after_validation hash_args execute e call r)
  unfolding UsesCounted was_executed after_validation
  validation-UsesCounted (some e) call r = refl
  validation-UsesCounted none call r =
      let d = decision_of call r in
      decision-UsesCounted d.allowed d (get r.metadata call.name) call r

  lookup-UsesCounted :
      (parameters : Option Schema) (call : ToolCall) (r : GovernedToolRegistry)
      → UsesCounted call.name r.tool_call_counts (after_lookup hash_args execute parameters call r)
  unfolding UsesCounted was_executed after_lookup
  lookup-UsesCounted none call r = refl
  lookup-UsesCounted (some parameters) call r =
      validation-UsesCounted (validate parameters call.arguments) call r

  pub invoke_as-UsesCounted :
      (call : ToolCall) (r : GovernedToolRegistry)
      → UsesCounted call.name r.tool_call_counts (invoke_as hash_args execute call r)
  unfolding invoke_as
  invoke_as-UsesCounted call r = lookup-UsesCounted (get r.tools call.name) call r

-- The number of calls that a count stands for, none being 0.
pub number_in : Option ℕ → ℕ
number_in none = 0
number_in (some n) = n

-- 1 at one key, 0 at the others.
pub one_at : String → String → ℕ
one_at key k = if key == k then 1 else 0

-- What a call of the tool adds at a key: one for the tool, and one for the total.
pub share : String → String → ℕ
share name k = one_at name k + one_at "__all__" k

-- The numbers of calls before and after: at every key the share of the call is added if it was
-- executed, and nothing otherwise.
pub IsCounted : String → Dict String ℕ → Invoked → Type 0
IsCounted name counts (r, result) =
    (k : String)
    → number_in (get r.tool_call_counts k)
      ≡ number_in (get counts k) + (if was_executed result then share name k else 0)

put-number :
    (counts : Dict String ℕ) (key k : String)
    → number_in (get (put counts key (count_of (get counts key) + 1)) k)
      ≡ number_in (get counts k) + one_at key k
unfolding number_in one_at
put-number counts key k =
    ap number_in (get-put counts key k (count_of (get counts key) + 1))
    ∙ elim (Bool-cases (key == k)) [
      | inl same ↦
          rw same (ap (λ x. number_in (get counts x) + 1) ((text_key.same_iff key k).0 same))
      | inr other ↦ rw other (omega arith)
    ]

counted-number :
    (name k : String) (counts : Dict String ℕ)
    → number_in (get (counted name counts) k) ≡ number_in (get counts k) + share name k
unfolding counted share
counted-number name k counts =
    let own = put counts name (count_of (get counts name) + 1) in
    omega (arith, put-number own "__all__" k, put-number counts name k)

module _ (hash_args : Dict String Value → String) (execute : ToolCall → Outcome) where
  -- A call is counted, for its tool and in total, exactly if it was handed to the executor: no call
  -- of an unknown tool, with invalid arguments, without permission, with an open circuit, with a
  -- blocked invocation or without its approval is. At the name of its tool and at that of the total the
  -- number of calls then goes up by one (by two where these are the same name), and no other number
  -- changes.
  pub invoke_as-IsCounted :
      (call : ToolCall) (r : GovernedToolRegistry)
      → IsCounted call.name r.tool_call_counts (invoke_as hash_args execute call r)
  unfolding IsCounted UsesCounted
  invoke_as-IsCounted call r k =
      let uses = invoke_as-UsesCounted hash_args execute call r in
      elim (Bool-cases (was_executed (invoke_as hash_args execute call r).1)) [
        | inl ran ↦ rw ran (
            ap (λ d. number_in (get d k)) (rw ran at uses)
            ∙ counted-number call.name k r.tool_call_counts)
        | inr not_run ↦
            rw not_run (ap (λ d. number_in (get d k)) (rw not_run at uses) ∙ omega arith)
      ]
