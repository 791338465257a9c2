-- ===== src/Tools/Registry/Governed.antt =====
-- What has to hold before evoagent/tools/governed_registry.py hands a call to the executor.
use evo_review_agent.Base.{
  String, ◌≡◌, refl, sym, ap, ◌∙◌, inl, inr, Bool, true, false, Option, none, some, arith,
  if◌then◌else◌, Bool-cases, some_inj,
}
use evo_review_agent.Base.Key.{text_key}
use evo_review_agent.Base.Dict.{Dict, get}
use evo_review_agent.Policy.ToolPolicy.{ToolMetadata, ToolDecision}
use evo_review_agent.Tools.CircuitBreaker.{CircuitBreaker, check}
use evo_review_agent.Tools.Invocation.{
  InvocationState, ToolInvocationGuard, begin, begin_found, blocks_replay,
}
use evo_review_agent.Tools.Arguments.{Value, Schema, ArgumentError, validate}
use evo_review_agent.Tools.Registry.{
  GovernedToolRegistry, ToolCall, Outcome, Refusal, reuse_guard, refusal, approval, enter_guard,
  entered, idempotency_key, after_approval, after_guard, after_check, after_decision, decision_of,
  after_validation, after_lookup, invoke_as,
}
use evo_review_agent.Policy.ToolPolicy.Authorize.{MayCall, authorize_iff}
use evo_review_agent.Tools.Arguments.Validate.{Conforms, validate_iff}
use evo_review_agent.Tools.Registry.Counts.{was_executed}

-- Every gate of the pipeline let the call through.
pub record IsGoverned (hash_args : Dict String Value → String) (call : ToolCall)
    (r : GovernedToolRegistry) : Type 0 where
  pub schema : Schema
  pub meta : ToolMetadata
  pub is_tool : get r.tools call.name ≡ some schema
  pub conforms : Conforms schema call.arguments
  pub is_known : get r.metadata call.name ≡ some meta
  pub may_call : MayCall meta call.agent_id call.name r.execution_policy r.tool_call_counts
  pub passes : (check r.circuit_breaker call.name call.now).1 ≡ true
  pub fresh :
      reuse_guard (some meta) ≡ true
      → (state : InvocationState) → get r.guard (idempotency_key hash_args call) ≡ some state
      → blocks_replay state ≡ false
  pub approved :
      (decision_of call r).requires_approval ≡ true
      → (ask : ToolDecision → Bool) × (r.approval_provider ≡ some ask)
        × (ask (decision_of call r) ≡ true)

refusal-none :
    (provider : Option (ToolDecision → Bool)) (d : ToolDecision)
    → refusal provider d ≡ none
    → (ask : ToolDecision → Bool) × (provider ≡ some ask) × (ask d ≡ true)
unfolding refusal
refusal-none none d e = cc
refusal-none (some ask) d e = (ask, refl, ground arith)

entered-none :
    (key : String) (g : ToolInvocationGuard) (found : Option InvocationState)
    → (entered key (begin_found g key found)).1 ≡ none
    → (state : InvocationState) → found ≡ some state
    → blocks_replay state ≡ false
unfolding entered begin_found
entered-none key g none e state there = cc
entered-none key g (some current) e state there = elim (Bool-cases (blocks_replay current)) [
  | inl blocked ↦ cc (rw blocked at e)
  | inr not_blocked ↦ ap blocks_replay (some_inj (sym there)) ∙ not_blocked
]

enter_guard-none :
    (key : String) (g : ToolInvocationGuard)
    → (enter_guard true key g).1 ≡ none
    → (state : InvocationState) → get g key ≡ some state
    → blocks_replay state ≡ false
unfolding enter_guard begin
enter_guard-none key g e state there = entered-none key g (get g key) e state there

guard-clear :
    (found meta : Option ToolMetadata)
    → found ≡ meta
    → (key : String) (g : ToolInvocationGuard) → (enter_guard (reuse_guard found) key g).1 ≡ none
    → reuse_guard meta ≡ true
    → (state : InvocationState) → get g key ≡ some state
    → blocks_replay state ≡ false
guard-clear found meta same key g e reuse =
    enter_guard-none key g (rw (ap reuse_guard same ∙ reuse) at e)

asked-none :
    (asked : Bool) (answer : Option Refusal)
    → (if asked then answer else none) ≡ none
    → asked ≡ true
    → answer ≡ none
asked-none true answer e h = e
asked-none false answer e h = cc

approval-given :
    (d : ToolDecision) (r : GovernedToolRegistry)
    → approval d r ≡ none
    → d.requires_approval ≡ true
    → (ask : ToolDecision → Bool) × (r.approval_provider ≡ some ask) × (ask d ≡ true)
unfolding approval
approval-given d r e asked =
    refusal-none r.approval_provider d (asked-none d.requires_approval _ e asked)

decision-MayCall :
    (call : ToolCall) (r : GovernedToolRegistry)
    → (decision_of call r).allowed ≡ true
    → (meta : ToolMetadata) × (get r.metadata call.name ≡ some meta)
      × MayCall meta call.agent_id call.name r.execution_policy r.tool_call_counts
unfolding decision_of
decision-MayCall call r h =
    (authorize_iff r.metadata call.agent_id call.name r.execution_policy r.tool_call_counts).0 h

module _ (hash_args : Dict String Value → String) (execute : ToolCall → Outcome) where
  lookup-executed :
      (tool : Option Schema) (call : ToolCall) (r : GovernedToolRegistry)
      → was_executed (after_lookup hash_args execute tool call r).1 ≡ true
      → (schema : Schema) × (tool ≡ some schema)
        × (was_executed
              (after_validation hash_args execute (validate schema call.arguments) call r).1
            ≡ true)
  unfolding after_lookup was_executed
  lookup-executed none call r e = cc
  lookup-executed (some schema) call r e = (schema, refl, e)

  validation-executed :
      (complaint : Option ArgumentError) (call : ToolCall) (r : GovernedToolRegistry)
      → was_executed (after_validation hash_args execute complaint call r).1 ≡ true
      → (complaint ≡ none)
        × (was_executed
              (after_decision hash_args execute
                (decision_of call r).allowed
                (decision_of call r)
                (get r.metadata call.name)
                call
                r).1
            ≡ true)
  unfolding after_validation was_executed
  validation-executed (some c) call r e = cc
  validation-executed none call r e = (refl, e)

  decision-executed :
      (allowed : Bool) (d : ToolDecision) (meta : Option ToolMetadata) (call : ToolCall)
      (r : GovernedToolRegistry)
      → was_executed (after_decision hash_args execute allowed d meta call r).1 ≡ true
      → (allowed ≡ true)
        × (was_executed
              (after_check hash_args execute
                (check r.circuit_breaker call.name call.now)
                d
                meta
                call
                r).1
            ≡ true)
  unfolding after_decision was_executed
  decision-executed false d meta call r e = cc
  decision-executed true d meta call r e = (refl, e)

  check-executed :
      (b : CircuitBreaker) (passed : Bool) (d : ToolDecision) (meta : Option ToolMetadata)
      (call : ToolCall) (r : GovernedToolRegistry)
      → was_executed (after_check hash_args execute (b, passed) d meta call r).1 ≡ true
      → (passed ≡ true)
        × (was_executed
              (after_guard hash_args execute
                (enter_guard (reuse_guard meta) (idempotency_key hash_args call) r.guard)
                d
                meta
                call
                (record r { circuit_breaker = b })).1
            ≡ true)
  unfolding after_check was_executed
  check-executed b false d meta call r e = cc
  check-executed b true d meta call r e = (refl, e)

  approval-executed :
      (refused_by : Option Refusal) (meta : Option ToolMetadata) (call : ToolCall)
      (r : GovernedToolRegistry)
      → was_executed (after_approval hash_args execute refused_by meta call r).1 ≡ true
      → refused_by ≡ none
  unfolding after_approval was_executed
  approval-executed (some x) meta call r e = cc
  approval-executed none meta call r e = refl

  guard-executed :
      (g : ToolInvocationGuard) (refused_by : Option Refusal) (d : ToolDecision)
      (meta : Option ToolMetadata) (call : ToolCall) (r : GovernedToolRegistry)
      → was_executed (after_guard hash_args execute (g, refused_by) d meta call r).1 ≡ true
      → (refused_by ≡ none) × (approval d r ≡ none)
  unfolding after_guard was_executed
  guard-executed g (some x) d meta call r e = cc
  guard-executed g none d meta call r e = (refl, approval-executed (approval d r) meta call _ e)

  -- A call that reached the executor is one of a tool of the catalog, with arguments that its schema
  -- describes, that the policy allows at the counts before it; the breaker of the tool let it pass,
  -- no earlier invocation of a non-idempotent side effect with its key is failed or unknown, and
  -- where the decision asks for an approval there is a provider, which approved.
  pub invoke_as-IsGoverned :
      (call : ToolCall) (r : GovernedToolRegistry)
      → was_executed (invoke_as hash_args execute call r).1 ≡ true
      → IsGoverned hash_args call r
  unfolding invoke_as approval
  invoke_as-IsGoverned call r e =
      let d = decision_of call r in
      let (schema, is_tool, e1) = lookup-executed (get r.tools call.name) call r e in
      let (valid, e2) = validation-executed (validate schema call.arguments) call r e1 in
      let (allowed, e3) = decision-executed d.allowed d (get r.metadata call.name) call r e2 in
      let (meta, is_known, may_call) = decision-MayCall call r allowed in
      let probe = check r.circuit_breaker call.name call.now in
      let (passes, e4) =
        check-executed (probe.0) (probe.1) d (get r.metadata call.name) call r e3 in
      let entry =
        enter_guard (reuse_guard (get r.metadata call.name)) (idempotency_key hash_args call)
          r.guard in
      let (clear, approved) =
        guard-executed (entry.0) (entry.1) d (get r.metadata call.name) call
          (record r { circuit_breaker = probe.0 }) e4 in
      record {
        schema = schema;
        meta = meta;
        is_tool = is_tool;
        conforms = (validate_iff schema call.arguments).0 valid;
        is_known = is_known;
        may_call = may_call;
        passes = passes;
        fresh =
            guard-clear (get r.metadata call.name) (some meta) is_known
              (idempotency_key hash_args call) r.guard clear;
        approved = approval-given d r approved;
      }
