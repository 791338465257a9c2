-- ===== src/Deployment.antt =====
-- The canary deployments of runtime policies (evoagent/policy_evolution/deployment.py).
pub mod Records
pub mod Manager
pub mod Transitions
pub mod Routing
pub mod Restore
mod Examples
