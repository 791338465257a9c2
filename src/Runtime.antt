-- ===== src/Runtime.antt =====
-- The runtime of the agents (evoagent/runtime.py): Nodes is the AgentRuntime, which runs the nodes of a
-- task with budgets, retries and checkpoints. The tool catalog of the file is modelled in
-- Tools/Arguments.
pub mod Nodes
pub mod Loop
pub mod Examples
