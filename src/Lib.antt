-- ===== src/Lib.antt =====
-- EvoReview-Agent reviews code changes with agents that call tools under a policy, recovers from
-- their failures, and evolves the policies by replay and staged deployment.
--
-- The parts and how they interact. A task's risk level and the overrides of tenant, repository and
-- task are resolved into one execution policy, over which a safety floor is asserted
-- (evoagent/policy). While a policy is being evolved, the deployment manager decides for each task
-- whether the baseline or the candidate policy applies (evoagent/policy_evolution). An agent's tool
-- calls go through one pipeline, which checks the arguments, asks the policy, a circuit breaker, an
-- invocation guard and an approval provider, and counts and logs what it does (evoagent/tools,
-- evoagent/runtime.py). A failure of a step is classified and answered by an action
-- (evoagent/recovery). Remote agents are called behind a breaker and a retry policy (evoagent/a2a).
-- Tasks come from a queue with retries and dead letters (evoagent/task_queue.py) and run as the nodes
-- of a runtime with checkpoints; inside a node an agent asks a model for actions in a bounded loop
-- (evoagent/runtime.py). The agents of a task are scheduled from a graph, which is checked before and
-- changed during the run (evoagent/loop_agents). What is learned becomes a procedure only after it
-- has passed its gates (evoagent/procedure).
--
-- Which file models which part:
--   Base                   the shared names; Key is equality of keys, Dict is Python's dict with its
--                          order of insertion, Result a call that returns or raises
--   Policy/Models          evoagent/policy/models.py: the policy records, from_dict, tool_permission
--   Policy/Defaults        evoagent/policy/defaults.py: default_policy of each risk level
--   Policy/ToolPolicy      evoagent/policy/tool_policy.py: authorize (decide), merge_tool_permissions
--   Policy/SafetyFloor     evoagent/policy/safety_floor.py: apply_safety_floor
--   Policy/Resolver        evoagent/policy/resolver.py: resolve, enforce_safety_floor, validate
--   Deployment             evoagent/policy_evolution/deployment.py: Records has the data, Manager the
--                          creation, Transitions the state changes, Routing route and resolve_policy,
--                          Restore the restart from the persisted rows
--   Tools/CircuitBreaker   evoagent/tools/circuit_breaker.py
--   Tools/Invocation       evoagent/tools/invocation.py
--   Tools/Arguments        evoagent/runtime.py, ToolRegistry._validate
--   Tools/Registry         evoagent/tools/governed_registry.py: invoke_as, one function per gate
--   Recovery               evoagent/recovery: Failures, Classifier, Planner, Executor and Manager
--                          model the files of these names, Text the search for words in messages
--                          evoagent/recovery/no_progress.py: NoProgress
--   A2a                    evoagent/a2a/resilience.py: Breaker, Retry and Fallback
--   LoopAgents             evoagent/loop_agents: TaskGraph is models.py, Scheduler scheduler.py, Mutator
--                          the GraphMutator of graph_policy.py, Validator planning/validator.py
--   Runtime                evoagent/runtime.py: Nodes is AgentRuntime, Loop is AgentLoop
--   Procedure              evoagent/procedure/lifecycle.py: Lifecycle
--   TaskQueue              evoagent/task_queue.py, in memory
-- An object with mutable fields is a record, a method takes the record and returns the new one with
-- its result, an exception is a value of an error type, and a method that raises returns the state
-- in which it raised. The files named Examples apply the theorems to concrete data.
--
-- Numbers. Shares of traffic are whole percentages, money counts cents, confidences hundredths, and
-- times, pauses and cooldowns are whole seconds, all natural numbers; the code only adds and compares
-- them. A number among the arguments of a tool is an integer over a power of two, as every finite
-- float is, an infinity or not a number. Text is folded to lower case in ASCII only. The loop of
-- the retry policy runs on fuel, as much as there are attempts, since each round uses one. The
-- recursive helpers of the graph's check run on fuel as well, which stands for the frames that
-- Python's recursion limit leaves, so that running out of it is the RecursionError; a graph without
-- a cycle needs no more than its longest chain of dependencies. Every other loop is a recursion on
-- its list or on the number of rounds that are left. The tasks of a queue and its timers get on in
-- the order of a list of events.
--
-- Parameters of the model: the digests of hashlib, the hash of a call's arguments, the run of a tool
-- by the executor, the answer of an approval provider, the calls of remote agents, the handlers of the
-- nodes and of the queue, the answers of the model, the dump of values as JSON and the times that the
-- clock shows.
--
-- Not modelled: locks and threads (each modelled method holds its lock throughout or is called by
-- one worker; the workers of the queue are steps in any order), random ids, log texts, the subprocesses
-- and the sandbox of the tools, the storage adapters, Redis, HTTP and the model providers. The
-- lifecycles of skills, the triggers of the graph's changes, the invalidation of artifacts, the
-- clustering of findings and the gates of the evolution are not modelled.
mod Base
pub mod Policy
pub mod Deployment
pub mod Recovery
pub mod Tools
pub mod A2a
pub mod LoopAgents
pub mod Runtime
pub mod Procedure
pub mod TaskQueue
