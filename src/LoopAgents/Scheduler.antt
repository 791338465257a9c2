-- ===== src/LoopAgents/Scheduler.antt =====
-- evoagent/loop_agents/scheduler.py: the nodes of the next round, and the changes of a node's status.
pub mod Sorted
pub mod Batch
pub mod Progress
use evo_review_agent.Base.{
  ℕ, ◌+◌, max, String, Bool, true, false, Option, none, some, List, [], ◌∷◌, ◌++◌, map, leb,
  if◌then◌else◌, length, all, select,
}
use evo_review_agent.Base.Key.{text_key}
use evo_review_agent.Base.Dict.{Dict, get, put, values}
use Prim.Native.Nat.{Ordering}
use Prim.Native.String.{compare}
use evo_review_agent.LoopAgents.TaskGraph.{
  NodeStatus, running, completed, failed, rejected, AgentTaskNode, CoordinatorTaskGraph, is_pending,
  is_running, is_ready,
}

pub record ConcurrencyBudget : Type 0 where
  pub max_parallel_agents : ℕ
  pub max_parallel_remote_calls : ℕ
  pub max_parallel_tool_calls : ℕ
  pub per_agent_concurrency : Dict String ℕ

-- `per_agent_concurrency or {"fix-agent": 1}`
or_default : Dict String ℕ → Dict String ℕ
or_default [] = ("fix-agent", 1) ∷ []
or_default (e ∷ d) = e ∷ d

-- `__init__`
unfoldable pub concurrency_budget : ℕ → ℕ → ℕ → Dict String ℕ → ConcurrencyBudget
unfolding or_default
concurrency_budget agents remote_calls tool_calls per_agent = record {
  max_parallel_agents = max 1 agents;
  max_parallel_remote_calls = max 1 remote_calls;
  max_parallel_tool_calls = max 1 tool_calls;
  per_agent_concurrency = or_default per_agent;
}

or_else : Option ℕ → ℕ → ℕ
or_else none n = n
or_else (some m) n = m

unfoldable pub allowed_for : ConcurrencyBudget → String → ℕ
unfolding or_else
allowed_for b agent_id = or_else (get b.per_agent_concurrency agent_id) b.max_parallel_agents

-- Python's order of texts.
not_after : String → String → Bool
not_after s t = elim (compare s t) [ Ordering.gt ↦ false | _ ↦ true ]

insert_node : AgentTaskNode → List AgentTaskNode → List AgentTaskNode
insert_node n [] = n ∷ []
insert_node n (m ∷ ms) =
    let rest = insert_node n ms in if not_after n.node_id m.node_id then n ∷ m ∷ ms else m ∷ rest

-- A stable sort by `node_id`.
pub sort_by_id : List AgentTaskNode → List AgentTaskNode
sort_by_id [] = []
sort_by_id (n ∷ ns) = insert_node n (sort_by_id ns)

-- `_ready`
pub ready_nodes : CoordinatorTaskGraph → List AgentTaskNode
ready_nodes g = sort_by_id (select (is_ready g) (values g.nodes))

-- A serial node runs alone: it is the batch if nothing was chosen before, and is passed over otherwise.
serial_choice : List AgentTaskNode → AgentTaskNode → List AgentTaskNode → List AgentTaskNode
serial_choice [] n skipped = n ∷ []
serial_choice (c ∷ cs) n skipped = skipped

-- The loop of `next_batch`, with its `chosen` and its `counts`.
fill :
    ConcurrencyBudget → List AgentTaskNode → Dict String ℕ → List AgentTaskNode → List AgentTaskNode
unfolding or_else serial_choice
fill b chosen counts [] = chosen
fill b chosen counts (n ∷ rest) =
    let skipped = fill b chosen counts rest in
    let count = or_else (get counts n.agent_id) 0 in
    let taken = fill b (chosen ++ (n ∷ [])) (put counts n.agent_id (count + 1)) rest in
    if n.serial
    then serial_choice chosen n skipped
    else if leb (allowed_for b n.agent_id) count
    then skipped
    else if leb b.max_parallel_agents (length chosen)
    then skipped
    else taken

-- The nodes of `next_batch`. The second sort has the same keys, since no status is the empty text.
pub batch_nodes : ConcurrencyBudget → CoordinatorTaskGraph → List AgentTaskNode
unfolding fill
batch_nodes b g = fill b [] [] (sort_by_id (ready_nodes g))

unfoldable pub next_batch : ConcurrencyBudget → CoordinatorTaskGraph → List String
next_batch b g = map (λ n. n.node_id) (batch_nodes b g)

-- `claim`, on the node that was found
claim_found : CoordinatorTaskGraph → String → Option AgentTaskNode → CoordinatorTaskGraph × Bool
claim_found g node_id none = (g, false)
claim_found g node_id (some n) =
    if is_pending n.status
    then (record g { nodes = put g.nodes node_id (record n { status = running }) }, true)
    else (g, false)

pub claim : CoordinatorTaskGraph → String → CoordinatorTaskGraph × Bool
unfolding claim_found
claim g node_id = claim_found g node_id (get g.nodes node_id)

set_found : CoordinatorTaskGraph → String → NodeStatus → Option AgentTaskNode → CoordinatorTaskGraph
set_found g node_id s none = g
set_found g node_id s (some n) = record g { nodes = put g.nodes node_id (record n { status = s }) }

pub complete : CoordinatorTaskGraph → String → CoordinatorTaskGraph
unfolding set_found
complete g node_id = set_found g node_id completed (get g.nodes node_id)

pub fail : CoordinatorTaskGraph → String → CoordinatorTaskGraph
unfolding set_found
fail g node_id = set_found g node_id failed (get g.nodes node_id)

-- The loop of `reconcile` over the entries.
settle_running : Dict String AgentTaskNode → Dict String AgentTaskNode × List String
settle_running [] = ([], [])
settle_running ((k, n) ∷ d) =
    let rest = settle_running d in
    if is_running n.status
    then ((k, record n { status = completed }) ∷ rest.0, n.node_id ∷ rest.1)
    else ((k, n) ∷ rest.0, rest.1)

pub reconcile : CoordinatorTaskGraph → CoordinatorTaskGraph × List String
unfolding settle_running
reconcile g = let r = settle_running g.nodes in (record g { nodes = r.0 }, r.1)

is_done : NodeStatus → Bool
is_done completed = true
is_done failed = true
is_done rejected = true
is_done _ = false

pub done : CoordinatorTaskGraph → Bool
unfolding is_done
done g = all (λ n. is_done n.status) (values g.nodes)
