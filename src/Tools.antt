-- ===== src/Tools.antt =====
-- The governed calls of tools (evoagent/tools, and the tool catalog of evoagent/runtime.py): the
-- arguments are checked, the policy and the circuit breaker are asked, a call that must not be
-- repeated is guarded, and what was done is counted and logged.
pub mod CircuitBreaker
pub mod Invocation
pub mod Arguments
pub mod Registry
pub mod Examples
