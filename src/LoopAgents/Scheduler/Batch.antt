-- ===== src/LoopAgents/Scheduler/Batch.antt =====
-- What a batch of evoagent/loop_agents/scheduler.py is made of.
use evo_review_agent.Base.{
  ℕ, ◌+◌, ◌≤◌, ◌<◌, String, ◌≡◌, refl, ◌⊎◌, inl, inr, true, false, some, List, [], ◌∷◌, ◌++◌, arith,
  leb, if◌then◌else◌, length, length-append, All, if_rule, leb-false→lt,
}
use evo_review_agent.Base.Key.{◌==◌, text_key}
use evo_review_agent.Base.Dict.{Dict, get, put, get-put, values}
use evo_review_agent.LoopAgents.TaskGraph.{AgentTaskNode, CoordinatorTaskGraph, is_ready}
use evo_review_agent.LoopAgents.TaskGraph.Keyed.{IsKeyed, IsKeyed-get}
use evo_review_agent.LoopAgents.Scheduler.{
  ConcurrencyBudget, allowed_for, ready_nodes, or_else, fill, serial_choice, batch_nodes,
}
use evo_review_agent.LoopAgents.Scheduler.Sorted.{sort_by_id-All, select-All}

-- How many nodes of the list name the agent.
abbrev pub agent_count : String → List AgentTaskNode → ℕ
agent_count a [] = 0
agent_count a (n ∷ ns) = (if n.agent_id == a then 1 else 0) + agent_count a ns

-- A node that may run: pending, with every dependency completed, and the one of the graph with its id.
pub record IsRunnable (g : CoordinatorTaskGraph) (n : AgentTaskNode) : Type 0 where
  pub is_due : is_ready g n ≡ true
  pub found : get g.nodes n.node_id ≡ some n

-- A round of nodes that may run side by side, or one serial node alone.
pub record IsBatch (b : ConcurrencyBudget) (g : CoordinatorTaskGraph) (ns : List AgentTaskNode)
    : Type 0 where
  pub runnable : All (IsRunnable g) ns
  pub together :
      ((n : AgentTaskNode) × (ns ≡ n ∷ []) × (n.serial ≡ true))
      ⊎ (All (λ n. n.serial ≡ false) ns
          × (length ns ≤ b.max_parallel_agents)
          × ((a : String) → agent_count a ns ≤ allowed_for b a))

agent_count-append :
    (a : String) (ns : List AgentTaskNode) (n : AgentTaskNode)
    → agent_count a (ns ++ (n ∷ [])) ≡ agent_count a ns + (if n.agent_id == a then 1 else 0)
agent_count-append a [] n = omega arith
agent_count-append a (m ∷ ns) n = omega (arith, agent_count-append a ns n)

All-concat {ℓ κ} :
    {A : Type ℓ} (P : A → Type κ) (xs : List A) (x : A) → All P xs → P x → All P (xs ++ (x ∷ []))
All-concat P [] x h p = (p, tt)
All-concat P (y ∷ xs) x h p = (h.0, All-concat P xs x h.1 p)

module _ (b : ConcurrencyBudget) (g : CoordinatorTaskGraph) where
  -- The variables of the loop while no serial node was chosen.
  record IsFilling (chosen : List AgentTaskNode) (counts : Dict String ℕ) : Type 0 where
    runnable : All (IsRunnable g) chosen
    parallel : All (λ n. n.serial ≡ false) chosen
    size : length chosen ≤ b.max_parallel_agents
    counted : (a : String) → or_else (get counts a) 0 ≡ agent_count a chosen
    allowed : (a : String) → agent_count a chosen ≤ allowed_for b a

  IsFilling-take :
      (chosen : List AgentTaskNode) (counts : Dict String ℕ) (n : AgentTaskNode)
      → IsFilling chosen counts
      → IsRunnable g n
      → n.serial ≡ false
      → length chosen < b.max_parallel_agents
      → or_else (get counts n.agent_id) 0 < allowed_for b n.agent_id
      → IsFilling
          (chosen ++ (n ∷ []))
          (put counts n.agent_id (or_else (get counts n.agent_id) 0 + 1))
  unfolding or_else
  IsFilling-take chosen counts n h r s room left = record {
    runnable = All-concat (IsRunnable g) chosen n h.runnable r;
    parallel = All-concat (λ m. m.serial ≡ false) chosen n h.parallel s;
    size = omega (arith, length-append chosen (n ∷ []));
    counted = λ a. ground (
      arith,
      get-put counts n.agent_id a (or_else (get counts n.agent_id) 0 + 1),
      text_key.same_iff n.agent_id a,
      h.counted a,
      agent_count-append a chosen n,
    );
    allowed = λ a. ground (
      arith,
      text_key.same_iff n.agent_id a,
      h.counted a,
      h.allowed a,
      agent_count-append a chosen n,
    );
  }

  serial-IsBatch :
      (chosen : List AgentTaskNode) (n : AgentTaskNode) (skipped : List AgentTaskNode)
      → IsRunnable g n
      → n.serial ≡ true
      → IsBatch b g skipped
      → IsBatch b g (serial_choice chosen n skipped)
  unfolding serial_choice
  serial-IsBatch [] n skipped r s h = record { runnable = (r, tt); together = inl (n, refl, s) }
  serial-IsBatch (c ∷ cs) n skipped r s h = h

  fill-IsBatch :
      (chosen : List AgentTaskNode) (counts : Dict String ℕ) (ns : List AgentTaskNode)
      → IsFilling chosen counts
      → All (IsRunnable g) ns
      → IsBatch b g (fill b chosen counts ns)
  unfolding fill
  fill-IsBatch chosen counts [] h r = record {
    runnable = h.runnable;
    together = inr (h.parallel, h.size, h.allowed);
  }
  fill-IsBatch chosen counts (n ∷ ns) h r =
      let skipped = fill-IsBatch chosen counts ns h r.1 in
      let count = or_else (get counts n.agent_id) 0 in
      let room = leb b.max_parallel_agents (length chosen) in
      if_rule (IsBatch b g) n.serial _ _
        (λ alone. serial-IsBatch chosen n (fill b chosen counts ns) r.0 alone skipped)
        (λ parallel.
          if_rule (IsBatch b g) (leb (allowed_for b n.agent_id) count) _ _ (λ full. skipped)
            (λ left.
              if_rule (IsBatch b g) room _ _ (λ full. skipped)
                (λ free.
                  fill-IsBatch (chosen ++ (n ∷ [])) (put counts n.agent_id (count + 1)) ns
                    (IsFilling-take chosen counts n h r.0 parallel
                      (leb-false→lt b.max_parallel_agents (length chosen) free)
                      (leb-false→lt (allowed_for b n.agent_id) count left))
                    r.1)))

-- A batch is one serial node alone, or at most as many nodes as the budget lets run in parallel, none
-- serial and no agent with more nodes than it may have; every node of it is a pending node of the
-- graph whose dependencies are all completed.
pub batch_nodes-IsBatch :
    (b : ConcurrencyBudget) (g : CoordinatorTaskGraph)
    → IsKeyed g.nodes
    → IsBatch b g (batch_nodes b g)
unfolding batch_nodes ready_nodes or_else get
batch_nodes-IsBatch b g h =
    let due =
      select-All (is_ready g) (λ n. get g.nodes n.node_id ≡ some n) (IsRunnable g) (values g.nodes)
        (λ n is_due found. record { is_due = is_due; found = found }) (IsKeyed-get g.nodes h) in
    fill-IsBatch b g [] [] _
      (record {
        runnable = tt;
        parallel = tt;
        size = omega arith;
        counted = λ a. refl;
        allowed = λ a. omega arith;
      })
      (sort_by_id-All (IsRunnable g) _ (sort_by_id-All (IsRunnable g) _ due))
