-- ===== src/LoopAgents.antt =====
-- The graph of agent tasks and what works on it (evoagent/loop_agents): the graph itself, the
-- scheduler that picks the tasks of a round, the mutations at run time, the invalidation of stale
-- artifacts, and the check of a proposed graph.
pub mod TaskGraph
pub mod Scheduler
pub mod Mutator
pub mod Validator
pub mod Examples
