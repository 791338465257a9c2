-- ===== src/LoopAgents/Validator/Acyclic.antt =====
-- What a task graph is like whenever `validate` of evoagent/loop_agents/planning/validator.py returns.
use evo_review_agent.Base.{
  ℕ, ◌≤◌, ◌<◌, String, ◌≡◌, refl, sym, ap, ◌∙◌, inl, inr, true, some, List, [], ◌∷◌, arith,
  Bool-cases, some_inj, contains,
}
use evo_review_agent.Base.Key.{◌==◌, text_key, number_key}
use evo_review_agent.Base.Dict.{Dict, get, keys}
use evo_review_agent.Base.Result.{ok, >>=_returned}
use evo_review_agent.LoopAgents.TaskGraph.{AgentTaskNode, CoordinatorTaskGraph}
use evo_review_agent.LoopAgents.Validator.{
  GraphError, TaskGraphValidator, max_depth_of, validate_budget, validate_no_cycle, validate,
  number_or_zero,
}
use evo_review_agent.LoopAgents.Validator.Depth.{Deepest, IsExact, max_depth_of-memo}

-- `id` depends on `dep`, over one or more edges.
pub data DependsOn (nodes : Dict String AgentTaskNode) : String → String → Type 0 where
  direct :
      {id dep : String} (n : AgentTaskNode)
      → get nodes id ≡ some n
      → contains n.dependencies dep ≡ true
      → DependsOn nodes id dep
  through :
      {id mid dep : String}
      → DependsOn nodes id mid
      → DependsOn nodes mid dep
      → DependsOn nodes id dep

-- A height for each node, above those of its dependencies, which are nodes of the graph too.
pub record IsRanked (nodes : Dict String AgentTaskNode) (rank : String → ℕ) : Type 0 where
  pub falls :
      (id : String) (n : AgentTaskNode) (dep : String)
      → get nodes id ≡ some n
      → contains n.dependencies dep ≡ true
      → ((m : AgentTaskNode) × (get nodes dep ≡ some m)) × (rank dep < rank id)

Deepest-contains :
    (memo : Dict String ℕ) (ds : List String) (m : ℕ) (d : String)
    → Deepest memo ds m
    → contains ds d ≡ true
    → (k : ℕ) × (get memo d ≡ some k) × (k ≤ m)
unfolding Deepest
Deepest-contains memo [] m d h c = cc
Deepest-contains memo (x ∷ ds) m d (a, b, found, rest, e) c = elim (Bool-cases (x == d)) [
  | inl same ↦ (a, ap (get memo) (sym ((text_key.same_iff x d).0 same)) ∙ found, omega arith)
  | inr other ↦
      let (k, at_d, low) = Deepest-contains memo ds b d rest (rw other at c) in
      (k, at_d, omega arith)
]

-- The depth that the memo has for a node.
rank_in : Dict String ℕ → String → ℕ
rank_in memo id = number_or_zero (get memo id)

rank_in-get :
    (memo : Dict String ℕ) (id : String) (k : ℕ) → get memo id ≡ some k → rank_in memo id ≡ k
unfolding rank_in number_or_zero
rank_in-get memo id k h = ap number_or_zero h

pub contains-keys :
    (nodes : Dict String AgentTaskNode) (id : String) (n : AgentTaskNode)
    → get nodes id ≡ some n
    → contains (keys nodes) id ≡ true
unfolding get keys
contains-keys [] id n h = cc
contains-keys ((k, m) ∷ nodes) id n h = elim (Bool-cases (k == id)) [
  | inl same ↦ rw same refl
  | inr other ↦ rw other (contains-keys nodes id n (rw other at h))
]

-- A graph whose depth is computed has ranks from 1 up to its depth.
pub max_depth_of-IsRanked :
    (fuel : ℕ) (g : CoordinatorTaskGraph) (d : ℕ)
    → max_depth_of fuel g ≡ ok d
    → (rank : String → ℕ) × IsRanked g.nodes rank
      × ((id : String) (n : AgentTaskNode) → get g.nodes id ≡ some n → rank id ≤ d)
unfolding IsExact
max_depth_of-IsRanked fuel g d e =
    let (memo, exact, all_in) = max_depth_of-memo fuel g d e in
    (
      rank_in memo,
      record {
        falls = λ id n dep here listed.
            let (k, at_id, low) =
              Deepest-contains memo (keys g.nodes) d id all_in (contains-keys g.nodes id n here) in
            let (n', m, here', deps, e1) = exact id k at_id in
            let one : n' ≡ n = some_inj (sym here' ∙ here) in
            let (j, at_dep, below) =
              Deepest-contains memo n'.dependencies m dep deps
                (ap (λ (x : AgentTaskNode). contains x.dependencies dep) one ∙ listed) in
            let (n2, m2, found, deps2, e2) = exact dep j at_dep in
            (
              (n2, found),
              omega (arith, rank_in-get memo dep j at_dep, rank_in-get memo id k at_id, below, e1),
            );
      },
      λ id n here.
          let (k, at_id, low) =
            Deepest-contains memo (keys g.nodes) d id all_in (contains-keys g.nodes id n here) in
          omega (arith, rank_in-get memo id k at_id, low),
    )

DependsOn-falls :
    (nodes : Dict String AgentTaskNode) (rank : String → ℕ)
    → IsRanked nodes rank
    → {id dep : String} → DependsOn nodes id dep
    → rank dep < rank id
DependsOn-falls nodes rank r (direct n here listed) = (r.falls _ n _ here listed).1
DependsOn-falls nodes rank r (through p q) =
    omega (arith, DependsOn-falls nodes rank r p, DependsOn-falls nodes rank r q)

-- Whenever the check of a graph returns at all, with errors or without, the graph is sound: every
-- dependency of a node is a node of the graph and no node depends on itself, directly or through
-- others. So the errors for a missing dependency, for a node that depends on itself and for a cycle
-- never reach the caller.
pub validate-IsSound :
    (fuel : ℕ) (v : TaskGraphValidator) (g : CoordinatorTaskGraph) (errors : List GraphError)
    → validate fuel v g ≡ ok errors
    → ((id : String) (n : AgentTaskNode) (dep : String)
        → get g.nodes id ≡ some n
        → contains n.dependencies dep ≡ true
        → (m : AgentTaskNode) × (get g.nodes dep ≡ some m))
      × ((id : String) → DependsOn g.nodes id id → ⊥)
unfolding validate validate_budget
validate-IsSound fuel v g errors e =
    let (cycle, e0, e1) = >>=_returned (validate_no_cycle fuel g) _ e in
    let (budget, e2, e3) = >>=_returned (validate_budget fuel v g) _ e1 in
    let (d, e4, e5) = >>=_returned (max_depth_of fuel g) _ e2 in
    let (rank, ranked, low) = max_depth_of-IsRanked fuel g d e4 in
    (
      λ id n dep here listed. (ranked.falls id n dep here listed).0,
      λ id loop. absurd (omega (arith, DependsOn-falls g.nodes rank ranked loop)),
    )
