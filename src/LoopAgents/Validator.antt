-- ===== src/LoopAgents/Validator.antt =====
-- evoagent/loop_agents/planning/validator.py: the check of a proposed task graph. The fuel of its
-- recursive helpers stands for the frames that Python's recursion limit leaves; where it runs out
-- they raise RecursionError.
pub mod Depth
pub mod Acyclic
pub mod Within
pub mod Colors
pub mod Returns
use evo_review_agent.Base.{
  ℕ, zero, suc, ◌+◌, max, String, Bool, true, false, Option, none, some, List, [], ◌∷◌, ◌++◌, ltb,
  if◌then◌else◌, length, contains,
}
use evo_review_agent.Base.Key.{◌==◌, text_key, number_key}
use evo_review_agent.Base.Dict.{Dict, get, put, values, keys}
use evo_review_agent.Base.Result.{Result, err, ok, ◌>>=◌}
use evo_review_agent.LoopAgents.TaskGraph.{AgentTaskNode, CoordinatorTaskGraph}

pub data GraphError : Type 0 where
  no_agent unknown_task_type self_dependency : String → GraphError
  unknown_agent missing_dependency : String → String → GraphError
  has_cycle : GraphError
  too_many_nodes too_deep too_wide : ℕ → GraphError

-- The exceptions of the recursive helpers.
pub data Raised : Type 0 where
  key_error : String → Raised
  recursion_error : Raised

pub record TaskGraphValidator : Type 0 where
  pub available_agents : List String
  pub max_nodes : ℕ
  pub max_depth : ℕ
  pub max_parallel_width : ℕ
  pub known_task_types : List String

-- _TASK_TO_AGENT
abbrev task_to_agent : Dict String String
task_to_agent =
    ("review.security", "security-agent")
    ∷ ("review.reliability", "reliability-agent")
    ∷ ("critique.findings", "critic-agent")
    ∷ ("verify.findings", "verifier-agent")
    ∷ ("fix.generate", "fix-agent")
    ∷ []

text_or_empty : Option String → String
text_or_empty none = ""
text_or_empty (some s) = s

agent_of : AgentTaskNode → String
unfolding text_or_empty
agent_of n = if n.agent_id == "" then text_or_empty (get task_to_agent n.task_type) else n.agent_id

agent_error : TaskGraphValidator → AgentTaskNode → List GraphError
agent_error v n =
    if agent_of n == ""
    then no_agent n.node_id ∷ []
    else if contains v.available_agents (agent_of n)
    then []
    else unknown_agent n.node_id (agent_of n) ∷ []

-- The errors of each node, one node after the other.
errors_of : (AgentTaskNode → List GraphError) → List AgentTaskNode → List GraphError
errors_of f [] = []
errors_of f (n ∷ ns) = f n ++ errors_of f ns

validate_agents_exist : TaskGraphValidator → CoordinatorTaskGraph → List GraphError
validate_agents_exist v g = errors_of (agent_error v) (values g.nodes)

validate_task_types : TaskGraphValidator → CoordinatorTaskGraph → List GraphError
validate_task_types v g =
    errors_of
      (λ n.
        if contains v.known_task_types n.task_type then [] else unknown_task_type n.node_id ∷ [])
      (values g.nodes)

missing_of : Dict String AgentTaskNode → String → List String → List GraphError
missing_of nodes node_id [] = []
missing_of nodes node_id (d ∷ ds) =
    let rest = missing_of nodes node_id ds in
    if contains (keys nodes) d then rest else missing_dependency node_id d ∷ rest

validate_dependencies : CoordinatorTaskGraph → List GraphError
validate_dependencies g =
    errors_of (λ n. missing_of g.nodes n.node_id n.dependencies) (values g.nodes)

validate_no_self_dependency : CoordinatorTaskGraph → List GraphError
validate_no_self_dependency g =
    errors_of
      (λ n. if contains n.dependencies n.node_id then self_dependency n.node_id ∷ [] else [])
      (values g.nodes)

pub data Color : Type 0 where
  white grey black : Color

-- What `visit` returns: the colors that it leaves and whether it met a back edge.
abbrev Visited : Type 0
Visited = Result Raised (Dict String Color × Bool)

-- The loop over the dependencies of a node.
look :
    (Dict String Color → String → Visited)
    → Option Color
    → Dict String Color
    → String
    → (Dict String Color → Visited)
    → Visited
look visit none colors d rest = err (key_error d)
look visit (some grey) colors d rest = ok (colors, true)
look visit (some black) colors d rest = rest colors
look visit (some white) colors d rest =
    visit colors d >>= λ r. (if r.1 then ok (r.0, true) else rest (r.0))

scan : (Dict String Color → String → Visited) → Dict String Color → List String → Visited
unfolding look
scan visit colors [] = ok (colors, false)
scan visit colors (d ∷ ds) = look visit (get colors d) colors d (λ c. scan visit c ds)

blacken : String → Dict String Color × Bool → Visited
blacken id r = if r.1 then ok (r.0, true) else ok (put (r.0) id black, false)

visit_found :
    (Dict String Color → String → Visited)
    → Option AgentTaskNode
    → Dict String Color
    → String
    → Visited
unfolding scan blacken
visit_found visit none colors id = err (key_error id)
visit_found visit (some n) colors id = scan visit (put colors id grey) n.dependencies >>= blacken id

visit : ℕ → Dict String AgentTaskNode → Dict String Color → String → Visited
unfolding visit_found
visit zero nodes colors id = err recursion_error
visit (suc fuel) nodes colors id = visit_found (visit fuel nodes) (get nodes id) colors id

pub whiten : List String → Dict String Color
whiten [] = []
whiten (k ∷ ks) = (k, white) ∷ whiten ks

-- `any(visit(nid) for nid in graph.nodes)`, which visits nodes that are black already as well.
pub visit_all : ℕ → Dict String AgentTaskNode → Dict String Color → List String → Result Raised Bool
visit_all fuel nodes colors [] = ok false
visit_all fuel nodes colors (id ∷ ids) =
    visit fuel nodes colors id >>= λ r. (if r.1 then ok true else visit_all fuel nodes (r.0) ids)

validate_no_cycle : ℕ → CoordinatorTaskGraph → Result Raised (List GraphError)
unfolding visit_all whiten
validate_no_cycle fuel g =
    visit_all fuel g.nodes (whiten (keys g.nodes)) (keys g.nodes) >>= λ found.
    ok (if found then has_cycle ∷ [] else [])

-- The memo of `depth` and what a call of it returns.
abbrev Depths : Type 0
Depths = Result Raised (Dict String ℕ × ℕ)

-- `max` over the depths of some nodes, 0 for none.
deepest : (Dict String ℕ → String → Depths) → Dict String ℕ → List String → Depths
deepest depth memo [] = ok (memo, 0)
deepest depth memo (d ∷ ds) =
    depth memo d >>= λ r. (deepest depth (r.0) ds >>= λ s. ok (s.0, max (r.1) (s.1)))

noted : String → Dict String ℕ × ℕ → Depths
noted id r = ok (put (r.0) id (suc (r.1)), suc (r.1))

depth_new :
    (Dict String ℕ → String → Depths) → Option AgentTaskNode → Dict String ℕ → String → Depths
unfolding deepest noted
depth_new depth none memo id = err (key_error id)
depth_new depth (some n) memo id = deepest depth memo n.dependencies >>= noted id

depth_known : Option ℕ → Depths → Dict String ℕ → Depths
depth_known (some k) new memo = ok (memo, k)
depth_known none new memo = new

-- The inner `depth` of `_max_depth`, and of `_max_width`.
depth : ℕ → Dict String AgentTaskNode → Dict String ℕ → String → Depths
unfolding depth_new depth_known
depth zero nodes memo id = err recursion_error
depth (suc fuel) nodes memo id =
    let new = depth_new (depth fuel nodes) (get nodes id) memo id in
    depth_known (get memo id) new memo

pub max_depth_of : ℕ → CoordinatorTaskGraph → Result Raised ℕ
unfolding depth deepest
max_depth_of fuel g = deepest (depth fuel g.nodes) [] (keys g.nodes) >>= λ r. ok (r.1)

number_or_zero : Option ℕ → ℕ
number_or_zero none = 0
number_or_zero (some n) = n

-- The loop of `_max_width` over its layers.
layer :
    ℕ
    → Dict String AgentTaskNode
    → Dict String ℕ
    → Dict ℕ ℕ
    → List String
    → Result Raised (Dict ℕ ℕ)
layer fuel nodes memo layers [] = ok layers
layer fuel nodes memo layers (id ∷ ids) = depth fuel nodes memo id >>= λ r.
    layer fuel nodes (r.0) (put layers (r.1) (number_or_zero (get layers (r.1)) + 1)) ids

-- `max(layers.values(), default=1)`
widest : List ℕ → ℕ
widest [] = 1
widest (n ∷ []) = n
widest (n ∷ m ∷ ns) = max n (widest (m ∷ ns))

pub max_width_of : ℕ → CoordinatorTaskGraph → Result Raised ℕ
unfolding layer
max_width_of fuel g = layer fuel g.nodes [] [] (keys g.nodes) >>= λ l. ok (widest (values l))

over : ℕ → ℕ → (ℕ → GraphError) → List GraphError
over n limit e = if ltb limit n then e n ∷ [] else []

validate_budget : ℕ → TaskGraphValidator → CoordinatorTaskGraph → Result Raised (List GraphError)
unfolding max_depth_of max_width_of over
validate_budget fuel v g = max_depth_of fuel g >>= λ d.
    (max_width_of fuel g >>= λ w. ok (
      over (length (keys g.nodes)) v.max_nodes too_many_nodes
      ++ (over d v.max_depth too_deep ++ over w v.max_parallel_width too_wide)))

pub validate : ℕ → TaskGraphValidator → CoordinatorTaskGraph → Result Raised (List GraphError)
unfolding validate_no_cycle validate_budget
validate fuel v g = validate_no_cycle fuel g >>= λ cycle.
    (validate_budget fuel v g >>= λ budget. ok (
      validate_task_types v g
      ++ (validate_agents_exist v g
          ++ (validate_dependencies g ++ (validate_no_self_dependency g ++ (cycle ++ budget))))))
