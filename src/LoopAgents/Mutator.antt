-- ===== src/LoopAgents/Mutator.antt =====
-- GraphMutator of evoagent/loop_agents/graph_policy.py: the changes of the graph at run time.
pub mod History
use evo_review_agent.Base.{
  ◌+◌, String, Bool, not, ◌&&◌, Option, none, some, List, [], ◌∷◌, ◌++◌, if◌then◌else◌, contains,
  select,
}
use evo_review_agent.Base.Key.{◌==◌, text_key}
use evo_review_agent.Base.Dict.{Dict, get, put}
use evo_review_agent.LoopAgents.TaskGraph.{
  AgentTaskNode, CoordinatorTaskGraph, GraphOp, add_op, remove_op, replace_op, change_dependency_op,
  cancel_branch_op, GraphChange, rejected, is_pending, add, replace, remove_node,
}

pub record GraphMutator : Type 0 where
  pub graph : CoordinatorTaskGraph
  pub applied : List GraphChange

-- `__init__`
pub graph_mutator : CoordinatorTaskGraph → GraphMutator
graph_mutator g = record { graph = g; applied = [] }

-- `_record`
record_change : GraphMutator → GraphOp → String → GraphMutator
record_change m op reason =
    let change : GraphChange = record {
      op = op;
      reason = reason;
      graph_revision = m.graph.revision + 1;
    } in
    record {
      graph = record (m.graph) {
        revision = m.graph.revision + 1;
        mutation_history = m.graph.mutation_history ++ (change ∷ []);
      };
      applied = m.applied ++ (change ∷ []);
    }

add_node : GraphMutator → AgentTaskNode → String → GraphMutator
unfolding record_change add
add_node m node reason =
    record_change (record m { graph = add m.graph node }) (add_op node.node_id) reason

remove_found : GraphMutator → String → Option AgentTaskNode → String → GraphMutator
unfolding record_change remove_node
remove_found m node_id none reason = m
remove_found m node_id (some n) reason =
    record_change (record m { graph = remove_node m.graph node_id }) (remove_op node_id) reason

-- `remove`
drop_node : GraphMutator → String → String → GraphMutator
unfolding remove_found
drop_node m node_id reason = remove_found m node_id (get m.graph.nodes node_id) reason

replace_node : GraphMutator → AgentTaskNode → String → GraphMutator
unfolding record_change replace
replace_node m node reason =
    record_change (record m { graph = replace m.graph node }) (replace_op node.node_id) reason

-- The dependencies that a node is left with.
merged : String → List String → List String → Bool → List String
merged node_id old dependencies append =
    let additions = select (λ d. not (d == "") && not (d == node_id)) dependencies in
    let base = select (λ d. not (d == node_id)) old in
    if append
    then base ++ select (λ d. not (contains base d)) additions
    else select (λ d. not (contains dependencies d)) base

change_found :
    GraphMutator → String → Option AgentTaskNode → List String → Bool → String → GraphMutator
unfolding record_change merged
change_found m node_id none dependencies append reason = m
change_found m node_id (some n) dependencies append reason =
    record_change
      (record m {
        graph = record (m.graph) {
          nodes =
              put m.graph.nodes node_id
                (record n { dependencies = merged node_id n.dependencies dependencies append });
        };
      })
      (change_dependency_op node_id) reason

change_dependency : GraphMutator → String → List String → Bool → String → GraphMutator
unfolding change_found
change_dependency m node_id dependencies append reason =
    change_found m node_id (get m.graph.nodes node_id) dependencies append reason

cancel_found :
    Dict String AgentTaskNode
    → String
    → Option AgentTaskNode
    → Dict String AgentTaskNode × List String
cancel_found nodes id none = (nodes, [])
cancel_found nodes id (some n) =
    if is_pending n.status
    then (put nodes id (record n { status = rejected }), id ∷ [])
    else (nodes, [])

-- The loop of `cancel_branch`.
cancel_all : Dict String AgentTaskNode → List String → Dict String AgentTaskNode × List String
unfolding cancel_found
cancel_all nodes [] = (nodes, [])
cancel_all nodes (id ∷ ids) =
    let (after, cancelled) = cancel_found nodes id (get nodes id) in
    let (final, others) = cancel_all after ids in (final, cancelled ++ others)

record_cancelled : GraphMutator → List String → String → GraphMutator
unfolding record_change
record_cancelled m [] reason = m
record_cancelled m (id ∷ ids) reason = record_change m (cancel_branch_op (id ∷ ids)) reason

cancel_branch : GraphMutator → List String → String → GraphMutator
unfolding cancel_all record_cancelled
cancel_branch m ids reason =
    let (nodes, cancelled) = cancel_all m.graph.nodes ids in
    record_cancelled (record m { graph = record (m.graph) { nodes = nodes } }) cancelled reason

pub data Mutation : Type 0 where
  adds replaces : AgentTaskNode → String → Mutation
  removes : String → String → Mutation
  changes_dependency : String → List String → Bool → String → Mutation
  cancels : List String → String → Mutation

pub mutate : GraphMutator → Mutation → GraphMutator
unfolding add_node replace_node drop_node change_dependency cancel_branch
mutate m (adds node reason) = add_node m node reason
mutate m (replaces node reason) = replace_node m node reason
mutate m (removes node_id reason) = drop_node m node_id reason
mutate m (changes_dependency node_id dependencies append reason) =
    change_dependency m node_id dependencies append reason
mutate m (cancels ids reason) = cancel_branch m ids reason

pub mutate_all : GraphMutator → List Mutation → GraphMutator
unfolding mutate
mutate_all m [] = m
mutate_all m (x ∷ xs) = mutate_all (mutate m x) xs
