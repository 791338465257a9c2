-- ===== src/Recovery.antt =====
-- What the runtime does about a failure (evoagent/recovery): the failure is classified, an action is
-- planned and carried out, and the attempts are counted.
pub mod Failures
pub mod Text
pub mod Classifier
pub mod Planner
pub mod Executor
pub mod Manager
pub mod NoProgress
pub mod Examples
