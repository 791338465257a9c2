-- ===== src/LoopAgents/Examples.antt =====
-- The agent graph at concrete inputs: a review, and its critique that depends on it.
use evo_review_agent.Base.{
  ℕ, ◌≤◌, ◌<◌, String, ◌≡◌, refl, ◌↔◌, true, false, some, List, [], ◌∷◌, arith, if◌then◌else◌,
  length, any, contains, All,
}
use evo_review_agent.Base.Key.{◌==◌, text_key}
use evo_review_agent.Base.Dict.{get, Entries-get, values}
use evo_review_agent.Base.Lists.{contains-All}
use evo_review_agent.Base.Result.{ok}
use evo_review_agent.LoopAgents.TaskGraph.{AgentTaskNode, CoordinatorTaskGraph, pending, is_ready}
use evo_review_agent.LoopAgents.TaskGraph.Keyed.{IsKeyed}
use evo_review_agent.LoopAgents.Scheduler.{ConcurrencyBudget, batch_nodes, next_batch, allowed_for}
use evo_review_agent.LoopAgents.Scheduler.Batch.{IsBatch, batch_nodes-IsBatch}
use evo_review_agent.LoopAgents.Scheduler.Progress.{next_batch-progress}
use evo_review_agent.LoopAgents.Validator.{TaskGraphValidator, GraphError, validate}
use evo_review_agent.LoopAgents.Validator.Acyclic.{IsRanked, DependsOn, validate-IsSound}
use evo_review_agent.LoopAgents.Validator.Returns.{validate-returns}
use evo_review_agent.LoopAgents.Mutator.{
  graph_mutator, mutate_all, Mutation, removes, changes_dependency, cancels,
}
use evo_review_agent.LoopAgents.Mutator.History.{IsLogged, mutate_all-IsLogged}

abbrev review_node : AgentTaskNode
review_node = record {
  node_id = "review";
  task_type = "review.security";
  objective = "";
  target_capabilities = [];
  dependencies = [];
  status = pending;
  attempt = 0;
  artifact_ids = [];
  agent_id = "security-agent";
  serial = false;
  metadata = [];
}

abbrev critique_node : AgentTaskNode
critique_node = record review_node {
  node_id = "critique";
  task_type = "critique.findings";
  dependencies = "review" ∷ [];
  agent_id = "critic-agent";
}

abbrev graph : CoordinatorTaskGraph
graph = record {
  graph_id = "g";
  nodes = ("review", review_node) ∷ ("critique", critique_node) ∷ [];
  revision = 0;
  mutation_history = [];
}

abbrev budget : ConcurrencyBudget
budget = record {
  max_parallel_agents = 2;
  max_parallel_remote_calls = 1;
  max_parallel_tool_calls = 1;
  per_agent_concurrency = ("fix-agent", 1) ∷ [];
}

graph-IsKeyed : IsKeyed graph.nodes
unfolding get
graph-IsKeyed = record { distinct = (refl, (refl, tt)); keys = (refl, (refl, tt)) }

batch_nodes-IsBatch_example : IsBatch budget graph (batch_nodes budget graph)
batch_nodes-IsBatch_example = batch_nodes-IsBatch budget graph graph-IsKeyed

budget-allows : (a : String) → 1 ≤ allowed_for budget a
unfolding allowed_for get
budget-allows a = ground arith

next_batch-progress_example :
    (length (next_batch budget graph) ≡ 0) ↔ (any (is_ready graph) (values graph.nodes) ≡ false)
next_batch-progress_example = next_batch-progress budget graph (omega arith) budget-allows

abbrev validator : TaskGraphValidator
validator = record {
  available_agents = "security-agent" ∷ "critic-agent" ∷ [];
  max_nodes = 4;
  max_depth = 3;
  max_parallel_width = 2;
  known_task_types = "review.security" ∷ "critique.findings" ∷ [];
}

rank : String → ℕ
rank id = if id == "critique" then 1 else 0

Falls : String → String → Type 0
Falls id dep = ((m : AgentTaskNode) × (get graph.nodes dep ≡ some m)) × (rank dep < rank id)

graph-IsRanked : IsRanked graph.nodes rank
unfolding Falls rank get
graph-IsRanked = record {
  falls = λ id n dep here listed.
      contains-All (Falls id) n.dependencies dep
        (Entries-get (λ k m. All (Falls k) m.dependencies) graph.nodes id
          (tt, ((((review_node, refl), omega arith), tt), tt)) here)
        listed;
}

rank-low : (id : String) (n : AgentTaskNode) → get graph.nodes id ≡ some n → rank id < 3
unfolding rank
rank-low id n h = ground arith

graph-returns : (errors : List GraphError) × (validate 3 validator graph ≡ ok errors)
graph-returns = validate-returns validator graph rank 3 graph-IsRanked rank-low

validate-returns_example : (errors : List GraphError) × (validate 3 validator graph ≡ ok errors)
validate-returns_example = validate-returns validator graph rank 3 graph-IsRanked rank-low

validate-IsSound_example :
    ((id : String) (n : AgentTaskNode) (dep : String)
      → get graph.nodes id ≡ some n
      → contains n.dependencies dep ≡ true
      → (m : AgentTaskNode) × (get graph.nodes dep ≡ some m))
    × ((id : String) → DependsOn graph.nodes id id → ⊥)
validate-IsSound_example = validate-IsSound 3 validator graph (graph-returns.0) (graph-returns.1)

abbrev mutations : List Mutation
mutations =
    changes_dependency "critique" ("review" ∷ "critique" ∷ []) true ""
    ∷ cancels ("critique" ∷ []) ""
    ∷ removes "review" ""
    ∷ []

mutate_all-IsLogged_example : IsLogged graph (mutate_all (graph_mutator graph) mutations)
mutate_all-IsLogged_example = mutate_all-IsLogged graph mutations
