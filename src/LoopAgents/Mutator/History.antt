-- ===== src/LoopAgents/Mutator/History.antt =====
-- What GraphMutator of evoagent/loop_agents/graph_policy.py leaves in the history and in the graph.
use evo_review_agent.Base.{
  ℕ, ◌+◌, ◌≤◌, ◌<◌, String, ◌≡◌, refl, sym, ap, ◌∙◌, Bool, Option, none, some, List, [], ◌∷◌, ◌++◌,
  arith, false, contains, inl, inr, Bool-cases, if_rule,
}
use evo_review_agent.Base.Key.{◌==◌, text_key}
use evo_review_agent.Base.Dict.{Dict, get, put, get-put, get-remove}
use mathlib.Core.List.{append-nil, append_assoc}
use evo_review_agent.LoopAgents.TaskGraph.{
  AgentTaskNode, CoordinatorTaskGraph, GraphOp, add_op, remove_op, replace_op, change_dependency_op,
  cancel_branch_op, GraphChange, is_pending, rejected, add, replace, remove_node,
}
use evo_review_agent.LoopAgents.Mutator.{
  GraphMutator, graph_mutator, record_change, add_node, remove_found, drop_node, replace_node,
  change_found, change_dependency, cancel_found, cancel_all, record_cancelled, cancel_branch,
  Mutation, adds, replaces, removes, changes_dependency, cancels, mutate, mutate_all,
}

-- The revisions of the changes rise, from above one number up to another.
pub Rising : ℕ → List GraphChange → ℕ → Type 0
Rising low [] high = low ≤ high
Rising low (c ∷ cs) high = (low < c.graph_revision) × Rising c.graph_revision cs high

Rising-append :
    (low : ℕ) (cs : List GraphChange) (high : ℕ) (c : GraphChange)
    → Rising low cs high
    → high < c.graph_revision
    → Rising low (cs ++ (c ∷ [])) c.graph_revision
unfolding Rising
Rising-append low [] high c h above = (omega (arith, h, above), omega arith)
Rising-append low (d ∷ cs) high c h above =
    (h.0, Rising-append d.graph_revision cs high c h.1 above)

Rising-higher :
    (low : ℕ) (cs : List GraphChange) (high higher : ℕ)
    → Rising low cs high
    → high ≤ higher
    → Rising low cs higher
unfolding Rising
Rising-higher low [] high higher h up = omega (arith, h, up)
Rising-higher low (c ∷ cs) high higher h up =
    (h.0, Rising-higher c.graph_revision cs high higher h.1 up)

-- The change says that the node of this id was changed.
pub names : GraphOp → String → Bool
names (add_op node_id) id = node_id == id
names (remove_op node_id) id = node_id == id
names (replace_op node_id) id = node_id == id
names (change_dependency_op node_id) id = node_id == id
names (cancel_branch_op node_ids) id = contains node_ids id

-- No change says that the node was changed.
pub Unnamed : String → List GraphChange → Type 0
Unnamed id [] = Unit
Unnamed id (c ∷ cs) = (names c.op id ≡ false) × Unnamed id cs

Unnamed-append :
    (id : String) (cs : List GraphChange) (c : GraphChange)
    → Unnamed id (cs ++ (c ∷ []))
    → Unnamed id cs × (names c.op id ≡ false)
unfolding Unnamed
Unnamed-append id [] c h = (tt, h.0)
Unnamed-append id (d ∷ cs) c h =
    let (rest, last) = Unnamed-append id cs c h.1 in ((h.0, rest), last)

-- The nodes of the second graph are those of the first, up to what the change names.
Within : GraphOp → Dict String AgentTaskNode → Dict String AgentTaskNode → Type 0
Within op nodes after = (id : String) → names op id ≡ false → get after id ≡ get nodes id

put-Within :
    (nodes : Dict String AgentTaskNode) (node_id id : String) (n : AgentTaskNode)
    → (node_id == id) ≡ false
    → get (put nodes node_id n) id ≡ get nodes id
put-Within nodes node_id id n other = get-put nodes node_id id n ∙ rw other refl

contains-append :
    (xs ys : List String) (id : String)
    → contains (xs ++ ys) id ≡ false
    → (contains xs id ≡ false) × (contains ys id ≡ false)
contains-append [] ys id h = (refl, h)
contains-append (x ∷ xs) ys id h = elim (Bool-cases (x == id)) [
  | inl same ↦ ground (arith, same, h)
  | inr other ↦ let (a, b) = contains-append xs ys id (rw other at h) in (rw other a, b)
]

cancel_found-Within :
    (nodes : Dict String AgentTaskNode) (i id : String) (o : Option AgentTaskNode)
    → contains ((cancel_found nodes i o).1) id ≡ false
    → get ((cancel_found nodes i o).0) id ≡ get nodes id
unfolding cancel_found
cancel_found-Within nodes i id none h = refl
cancel_found-Within nodes i id (some n) h =
    if_rule
      (λ (x : Dict String AgentTaskNode × List String).
        contains (x.1) id ≡ false → get (x.0) id ≡ get nodes id)
      (is_pending n.status) _ _
      (λ pending k. put-Within nodes i id (record n { status = rejected }) (ground (arith, k)))
      (λ other k. refl) h

cancel_all-Within :
    (nodes : Dict String AgentTaskNode) (ids : List String) (id : String)
    → contains ((cancel_all nodes ids).1) id ≡ false
    → get ((cancel_all nodes ids).0) id ≡ get nodes id
unfolding cancel_all
cancel_all-Within nodes [] id h = refl
cancel_all-Within nodes (i ∷ ids) id h =
    let after = (cancel_found nodes i (get nodes i)).0 in
    let (here, later) =
      contains-append ((cancel_found nodes i (get nodes i)).1) ((cancel_all after ids).1) id h in
    cancel_all-Within after ids id later ∙ cancel_found-Within nodes i id (get nodes i) here

-- The changes since the mutator was made: they are those that the graph's history ends with, and their revisions rise
-- from the graph's revision at that time to the present one. A node that none of them names is as it
-- was, so that every change of the nodes is among them.
pub record IsLogged (start : CoordinatorTaskGraph) (m : GraphMutator) : Type 0 where
  pub history : m.graph.mutation_history ≡ start.mutation_history ++ m.applied
  pub rising : Rising start.revision m.applied m.graph.revision
  pub complete : (id : String) → Unnamed id m.applied → get m.graph.nodes id ≡ get start.nodes id

module _ (start : CoordinatorTaskGraph) where
  record_change-IsLogged :
      (m : GraphMutator) (g : CoordinatorTaskGraph) (op : GraphOp) (reason : String)
      → g.mutation_history ≡ m.graph.mutation_history
      → m.graph.revision ≤ g.revision
      → Within op m.graph.nodes g.nodes
      → IsLogged start m
      → IsLogged start (record_change (record m { graph = g }) op reason)
  unfolding record_change Within
  record_change-IsLogged m g op reason same up within h =
      let c : GraphChange = record { op = op; reason = reason; graph_revision = g.revision + 1 } in
      record {
        history =
            ap (λ l. l ++ (c ∷ [])) (same ∙ h.history)
            ∙ append_assoc start.mutation_history m.applied (c ∷ []);
        rising =
            Rising-append start.revision m.applied g.revision c
              (Rising-higher start.revision m.applied m.graph.revision g.revision h.rising up)
              (omega arith);
        complete = λ id unnamed.
            let (before, last) = Unnamed-append id m.applied c unnamed in
            within id last ∙ h.complete id before;
      }

  remove_found-IsLogged :
      (m : GraphMutator) (node_id : String) (o : Option AgentTaskNode) (reason : String)
      → IsLogged start m
      → IsLogged start (remove_found m node_id o reason)
  unfolding remove_found remove_node names Within
  remove_found-IsLogged m node_id none reason h = h
  remove_found-IsLogged m node_id (some n) reason h =
      record_change-IsLogged m (remove_node m.graph node_id) _ reason refl (omega arith)
        (λ id other. get-remove m.graph.nodes node_id id ∙ rw other refl) h

  change_found-IsLogged :
      (m : GraphMutator) (node_id : String) (o : Option AgentTaskNode) (dependencies : List String)
      (append : Bool) (reason : String)
      → IsLogged start m
      → IsLogged start (change_found m node_id o dependencies append reason)
  unfolding change_found names Within
  change_found-IsLogged m node_id none dependencies append reason h = h
  change_found-IsLogged m node_id (some n) dependencies append reason h =
      record_change-IsLogged m _ _ reason refl (omega arith)
        (λ id other. put-Within m.graph.nodes node_id id _ other) h

  record_cancelled-IsLogged :
      (m : GraphMutator) (nodes : Dict String AgentTaskNode) (ids : List String) (reason : String)
      → ((id : String) → contains ids id ≡ false → get nodes id ≡ get m.graph.nodes id)
      → IsLogged start m
      → IsLogged start
          (record_cancelled (record m { graph = record (m.graph) { nodes = nodes } }) ids reason)
  unfolding record_cancelled names Within
  record_cancelled-IsLogged m nodes [] reason same h = record {
    history = h.history;
    rising = h.rising;
    complete = λ id unnamed. same id refl ∙ h.complete id unnamed;
  }
  record_cancelled-IsLogged m nodes (id ∷ ids) reason same h =
      record_change-IsLogged m (record (m.graph) { nodes = nodes }) _ reason refl (omega arith) same
        h

  mutate-IsLogged :
      (m : GraphMutator) (x : Mutation) → IsLogged start m → IsLogged start (mutate m x)
  unfolding mutate add_node replace_node drop_node change_dependency cancel_branch add replace
      remove_node names Within
  mutate-IsLogged m (adds node reason) h =
      record_change-IsLogged m (add m.graph node) _ reason refl (omega arith)
        (λ id other. put-Within m.graph.nodes node.node_id id node other) h
  mutate-IsLogged m (replaces node reason) h =
      record_change-IsLogged m (replace m.graph node) _ reason refl (omega arith)
        (λ id other. put-Within m.graph.nodes node.node_id id node other) h
  mutate-IsLogged m (removes node_id reason) h = remove_found-IsLogged m node_id _ reason h
  mutate-IsLogged m (changes_dependency node_id dependencies append reason) h =
      change_found-IsLogged m node_id _ dependencies append reason h
  mutate-IsLogged m (cancels ids reason) h =
      record_cancelled-IsLogged m _ ((cancel_all m.graph.nodes ids).1) reason
        (λ id other. cancel_all-Within m.graph.nodes ids id other) h

  kept-IsLogged :
      (xs : List Mutation) (m : GraphMutator) → IsLogged start m → IsLogged start (mutate_all m xs)
  unfolding mutate_all
  kept-IsLogged [] m h = h
  kept-IsLogged (x ∷ xs) m h = kept-IsLogged xs (mutate m x) (mutate-IsLogged m x h)

-- After any mutations the graph's history is the one it had, followed by the changes that the mutator
-- applied: nothing in it is rewritten, and the revisions of the changes strictly rise, from above the
-- first revision of the graph to at most its present one. Every change of the nodes is there: a node
-- that none of these changes names is as it was at first.
pub mutate_all-IsLogged :
    (g : CoordinatorTaskGraph) (xs : List Mutation) → IsLogged g (mutate_all (graph_mutator g) xs)
unfolding graph_mutator Rising
mutate_all-IsLogged g xs = kept-IsLogged g xs (graph_mutator g) (record {
  history = sym (append-nil g.mutation_history);
  rising = omega arith;
  complete = λ id unnamed. refl;
})
