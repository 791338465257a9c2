-- ===== src/LoopAgents/TaskGraph.antt =====
-- evoagent/loop_agents/models.py: the nodes of the coordinator's task graph and the operations of the
-- graph. The values of a node's metadata, which are only copied, are texts.
pub mod Keyed
use evo_review_agent.Base.{
  ℕ, ◌+◌, String, Bool, true, false, not, ◌&&◌, Option, none, some, List, [], ◌∷◌, all, select,
}
use evo_review_agent.Base.Key.{text_key}
use evo_review_agent.Base.Dict.{Dict, get, put, remove, values}

-- AgentTaskStatus
pub data NodeStatus : Type 0 where
  superseded pending running completed failed rejected : NodeStatus

pub record AgentTaskNode : Type 0 where
  pub node_id : String
  pub task_type : String
  pub objective : String
  pub target_capabilities : List String
  pub dependencies : List String
  pub status : NodeStatus
  pub attempt : ℕ
  pub artifact_ids : List String
  pub agent_id : String
  pub serial : Bool
  pub metadata : Dict String String

-- The entries of `mutation_history`.
pub data GraphOp : Type 0 where
  add_op remove_op replace_op change_dependency_op : String → GraphOp
  cancel_branch_op : List String → GraphOp

pub record GraphChange : Type 0 where
  pub op : GraphOp
  pub reason : String
  pub graph_revision : ℕ

pub record CoordinatorTaskGraph : Type 0 where
  pub graph_id : String
  pub nodes : Dict String AgentTaskNode
  pub revision : ℕ
  pub mutation_history : List GraphChange

unfoldable pub add : CoordinatorTaskGraph → AgentTaskNode → CoordinatorTaskGraph
add g node = record g { nodes = put g.nodes node.node_id node }

unfoldable pub replace : CoordinatorTaskGraph → AgentTaskNode → CoordinatorTaskGraph
replace g node = record g { nodes = put g.nodes node.node_id node; revision = g.revision + 1 }

unfoldable pub remove_node : CoordinatorTaskGraph → String → CoordinatorTaskGraph
remove_node g node_id = record g { nodes = remove g.nodes node_id; revision = g.revision + 1 }

unfoldable pub is_pending : NodeStatus → Bool
is_pending pending = true
is_pending _ = false

unfoldable pub is_running : NodeStatus → Bool
is_running running = true
is_running _ = false

unfoldable pub is_completed : NodeStatus → Bool
is_completed completed = true
is_completed _ = false

unfoldable pub completed_node : Option AgentTaskNode → Bool
unfolding is_completed
completed_node none = false
completed_node (some n) = is_completed n.status

unfoldable pub ready : CoordinatorTaskGraph → AgentTaskNode → Bool
ready g node = all (λ dep. completed_node (get g.nodes dep)) node.dependencies

-- `node.status == PENDING and self.ready(node)`
unfoldable pub is_ready : CoordinatorTaskGraph → AgentTaskNode → Bool
is_ready g node = is_pending node.status && ready g node

unfoldable pub next_ready : CoordinatorTaskGraph → List AgentTaskNode
next_ready g = select (is_ready g) (values g.nodes)

unfoldable pub is_terminal : NodeStatus → Bool
is_terminal completed = true
is_terminal failed = true
is_terminal rejected = true
is_terminal superseded = true
is_terminal _ = false

is_empty : List AgentTaskNode → Bool
is_empty [] = true
is_empty (n ∷ ns) = false

unfoldable pub terminal : CoordinatorTaskGraph → Bool
unfolding is_empty
terminal g = not (is_empty (values g.nodes)) && all (λ n. is_terminal n.status) (values g.nodes)
