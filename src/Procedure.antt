-- ===== src/Procedure.antt =====
-- The procedures that the agent learns (evoagent/procedure): Lifecycle is the life of a candidate.
pub mod Lifecycle
pub mod Examples
