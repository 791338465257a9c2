-- ===== src/LoopAgents/TaskGraph/Keyed.antt =====
-- What the operations of evoagent/loop_agents/models.py keep of the dict of nodes.
use evo_review_agent.Base.{String, ◌≡◌, refl, sym, ap, ◌∙◌, some, All}
use evo_review_agent.Base.Key.{text_key}
use evo_review_agent.Base.Dict.{
  Dict, get, put, Entries, Entries-put, Distinct, Distinct-put, Distinct-get, values,
  Entries-values, Entries-map, Entries-both,
}
use evo_review_agent.LoopAgents.TaskGraph.{AgentTaskNode}

-- Every node stands once, under its own id.
pub record IsKeyed (nodes : Dict String AgentTaskNode) : Type 0 where
  pub distinct : Distinct nodes
  pub keys : Entries (λ k n. k ≡ n.node_id) nodes

pub put-IsKeyed :
    (nodes : Dict String AgentTaskNode) (n : AgentTaskNode)
    → IsKeyed nodes
    → IsKeyed (put nodes n.node_id n)
put-IsKeyed nodes n h = record {
  distinct = Distinct-put nodes n.node_id n h.distinct;
  keys = Entries-put (λ k m. k ≡ m.node_id) nodes n.node_id n refl h.keys;
}

found_at_id :
    (nodes : Dict String AgentTaskNode) (k : String) (n : AgentTaskNode)
    → ((get nodes k ≡ some n) × (k ≡ n.node_id))
    → get nodes n.node_id ≡ some n
found_at_id nodes k n (found, same) = ap (get nodes) (sym same) ∙ found

-- Each node of the graph is the one that its id leads to.
pub IsKeyed-get :
    (nodes : Dict String AgentTaskNode)
    → IsKeyed nodes
    → All (λ n. get nodes n.node_id ≡ some n) (values nodes)
IsKeyed-get nodes h =
    Entries-values (λ n. get nodes n.node_id ≡ some n) nodes
      (Entries-map nodes (found_at_id nodes) (
        Entries-both (λ k n. get nodes k ≡ some n) (λ k n. k ≡ n.node_id) nodes
          (Distinct-get nodes h.distinct) h.keys))
