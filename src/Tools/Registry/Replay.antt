-- ===== src/Tools/Registry/Replay.antt =====
-- Which calls evoagent/tools/governed_registry.py executes, those that have been executed before
-- among them.
use evo_review_agent.Base.{
  String, ◌≡◌, refl, sym, ap, ◌∙◌, Bool, true, false, Option, none, some, if◌then◌else◌, some_inj,
}
use evo_review_agent.Base.Key.{text_key}
use evo_review_agent.Base.Dict.{Dict, get}
use evo_review_agent.Policy.ToolPolicy.{ToolMetadata, ToolDecision}
use evo_review_agent.Tools.CircuitBreaker.{CircuitBreaker, check}
use evo_review_agent.Tools.Invocation.{
  InvocationState, ToolInvocationGuard, begin, begin_found, blocks_replay,
}
use evo_review_agent.Tools.Arguments.{Value, Schema, ArgumentError, validate}
use evo_review_agent.Tools.Registry.{
  GovernedToolRegistry, ToolCall, Outcome, returned, refused, timeout, raised, Refusal, reuse_guard,
  settled, refusal, approval, enter_guard, entered, idempotency_key, after_approval, after_guard,
  after_check, after_decision, decision_of, after_validation, after_lookup, invoke_as,
}
use evo_review_agent.Policy.ToolPolicy.Authorize.{authorize_iff}
use evo_review_agent.Tools.Arguments.Validate.{validate_iff}
use evo_review_agent.Tools.Registry.Counts.{was_executed}
use evo_review_agent.Tools.Registry.Governed.{IsGoverned}

-- The state of an invocation lets another one with its key begin.
not_blocked-none :
    (key : String) (g : ToolInvocationGuard) (found : Option InvocationState)
    → ((state : InvocationState) → found ≡ some state → blocks_replay state ≡ false)
    → (entered key (begin_found g key found)).1 ≡ none
unfolding entered begin_found
not_blocked-none key g none clear = refl
not_blocked-none key g (some current) clear = rw (clear current refl) refl

guard-enters :
    (reuse : Bool) (key : String) (g : ToolInvocationGuard)
    → (reuse ≡ true
        → (state : InvocationState) → get g key ≡ some state
        → blocks_replay state ≡ false)
    → (enter_guard reuse key g).1 ≡ none
unfolding enter_guard begin
guard-enters false key g clear = refl
guard-enters true key g clear = not_blocked-none key g (get g key) (clear refl)

refusal-approved :
    (provider : Option (ToolDecision → Bool)) (d : ToolDecision)
    → ((ask : ToolDecision → Bool) × (provider ≡ some ask) × (ask d ≡ true))
    → refusal provider d ≡ none
unfolding refusal
refusal-approved none d (ask, e, h) = cc
refusal-approved (some f) d (ask, e, h) = rw (ap (λ g. g d) (some_inj e) ∙ h) refl

approval-approved :
    (asked : Bool) (provider : Option (ToolDecision → Bool)) (d : ToolDecision)
    → (asked ≡ true → (ask : ToolDecision → Bool) × (provider ≡ some ask) × (ask d ≡ true))
    → (if asked then refusal provider d else none) ≡ none
approval-approved true provider d h = refusal-approved provider d (h refl)
approval-approved false provider d h = refl

settled-executed :
    (o : Outcome) (call : ToolCall) (meta : Option ToolMetadata) (key : String)
    (r : GovernedToolRegistry)
    → was_executed (settled o call meta key r).1 ≡ true
unfolding settled was_executed
settled-executed (returned v) call meta key r = refl
settled-executed refused call meta key r = refl
settled-executed timeout call meta key r = refl
settled-executed raised call meta key r = refl

module _ (hash_args : Dict String Value → String) (execute : ToolCall → Outcome) where
  approval-runs :
      (e : Option Refusal) (meta : Option ToolMetadata) (call : ToolCall) (r : GovernedToolRegistry)
      → e ≡ none
      → was_executed (after_approval hash_args execute e meta call r).1 ≡ true
  unfolding after_approval
  approval-runs none meta call r e = settled-executed (execute call) call meta _ _
  approval-runs (some x) meta call r e = cc

  guard-runs :
      (g : ToolInvocationGuard) (e : Option Refusal) (d : ToolDecision) (meta : Option ToolMetadata)
      (call : ToolCall) (r : GovernedToolRegistry)
      → e ≡ none
      → approval d r ≡ none
      → was_executed (after_guard hash_args execute (g, e) d meta call r).1 ≡ true
  unfolding after_guard
  guard-runs g none d meta call r e h = approval-runs (approval d r) meta call _ h
  guard-runs g (some x) d meta call r e h = cc

  check-runs :
      (b : CircuitBreaker) (passed : Bool) (d : ToolDecision) (meta : Option ToolMetadata)
      (call : ToolCall) (r : GovernedToolRegistry)
      → passed ≡ true
      → (enter_guard (reuse_guard meta) (idempotency_key hash_args call) r.guard).1 ≡ none
      → approval d r ≡ none
      → was_executed (after_check hash_args execute (b, passed) d meta call r).1 ≡ true
  unfolding after_check approval
  check-runs b false d meta call r e h k = cc
  check-runs b true d meta call r e h k =
      let entry = enter_guard (reuse_guard meta) (idempotency_key hash_args call) r.guard in
      guard-runs (entry.0) (entry.1) d meta call (record r { circuit_breaker = b }) h k

  decision-runs :
      (allowed : Bool) (d : ToolDecision) (meta : Option ToolMetadata) (call : ToolCall)
      (r : GovernedToolRegistry)
      → allowed ≡ true
      → was_executed
          (after_check hash_args execute
            (check r.circuit_breaker call.name call.now)
            d
            meta
            call
            r).1
        ≡ true
      → was_executed (after_decision hash_args execute allowed d meta call r).1 ≡ true
  unfolding after_decision
  decision-runs false d meta call r a h = cc
  decision-runs true d meta call r a h = h

  validated-runs :
      (e : Option ArgumentError) (call : ToolCall) (r : GovernedToolRegistry)
      → e ≡ none
      → (decision_of call r).allowed ≡ true
      → (check r.circuit_breaker call.name call.now).1 ≡ true
      → (enter_guard
          (reuse_guard (get r.metadata call.name))
          (idempotency_key hash_args call)
          r.guard).1
        ≡ none
      → approval (decision_of call r) r ≡ none
      → was_executed (after_validation hash_args execute e call r).1 ≡ true
  unfolding after_validation
  validated-runs (some x) call r e a p g k = cc
  validated-runs none call r e a p g k =
      let probe = check r.circuit_breaker call.name call.now in
      decision-runs (decision_of call r).allowed (decision_of call r) (get r.metadata call.name)
        call r a
        (check-runs (probe.0) (probe.1) (decision_of call r) (get r.metadata call.name) call r p g
          k)

  lookup-runs :
      (tool : Option Schema) (schema : Schema) (call : ToolCall) (r : GovernedToolRegistry)
      → tool ≡ some schema
      → was_executed (after_validation hash_args execute (validate schema call.arguments) call r).1
        ≡ true
      → was_executed (after_lookup hash_args execute tool call r).1 ≡ true
  unfolding after_lookup
  lookup-runs tool schema call r same h = rw same h

  -- Every call that the gates let through is handed to the executor, one whose invocation has
  -- succeeded before as well: of the earlier invocations with its key only a failed or an unknown one
  -- keeps it back.
  pub IsGoverned-executed :
      (call : ToolCall) (r : GovernedToolRegistry)
      → IsGoverned hash_args call r
      → was_executed (invoke_as hash_args execute call r).1 ≡ true
  unfolding invoke_as decision_of approval
  IsGoverned-executed call r g =
      let d = decision_of call r in
      let allowed =
        (authorize_iff r.metadata call.agent_id call.name r.execution_policy r.tool_call_counts).1
          (g.meta, g.is_known, g.may_call) in
      let enters =
        guard-enters (reuse_guard (get r.metadata call.name)) (idempotency_key hash_args call)
          r.guard (λ reuse. g.fresh (ap reuse_guard (sym g.is_known) ∙ reuse)) in
      lookup-runs (get r.tools call.name) g.schema call r g.is_tool (
        validated-runs (validate g.schema call.arguments) call r
          ((validate_iff g.schema call.arguments).1 g.conforms) allowed g.passes enters
          (approval-approved d.requires_approval r.approval_provider d g.approved))
