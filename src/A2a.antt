-- ===== src/A2a.antt =====
-- The calls of remote agents (evoagent/a2a/resilience.py): the breaker in front of an agent, the
-- retries of a call, and the chain of providers to fall back to.
pub mod Breaker
pub mod Retry
pub mod Fallback
pub mod Examples
