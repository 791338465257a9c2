-- ===== src/Policy.antt =====
-- The runtime policies (evoagent/policy): what an agent may spend, which tools it may call, and the
-- floor below which no override takes a policy.
pub mod Models
pub mod Defaults
pub mod ToolPolicy
pub mod SafetyFloor
pub mod Resolver
mod Examples
