-- ===== src/LoopAgents/Validator/Within.antt =====
-- The nodes that the recursion on the graph in evoagent/loop_agents/planning/validator.py reaches.
use evo_review_agent.Base.{
  ℕ, suc, ◌<◌, String, ◌≡◌, refl, inl, inr, true, some, List, [], ◌∷◌, arith, Bool-cases, contains,
  All,
}
use evo_review_agent.Base.Key.{◌==◌, text_key, number_key}
use evo_review_agent.Base.Dict.{Dict, get, keys}
use evo_review_agent.LoopAgents.TaskGraph.{AgentTaskNode}
use evo_review_agent.LoopAgents.Validator.Acyclic.{IsRanked}

contains-head : (d : String) (ds : List String) → contains (d ∷ ds) d ≡ true
contains-head d ds = ground (arith, text_key.same_iff d d)

contains-tail :
    (d : String) (ds : List String) (x : String) → contains ds x ≡ true → contains (d ∷ ds) x ≡ true
contains-tail d ds x h = ground arith

All-contains {ℓ} :
    (P : String → Type ℓ) (ds : List String)
    → ((d : String) → contains ds d ≡ true → P d)
    → All P ds
All-contains P [] f = tt
All-contains P (d ∷ ds) f =
    (f d (contains-head d ds), All-contains P ds (λ x h. f x (contains-tail d ds x h)))

unfoldable pub IsThere : Dict String AgentTaskNode → String → Type 0
IsThere nodes k = (n : AgentTaskNode) × (get nodes k ≡ some n)

IsThere-cons :
    (nodes : Dict String AgentTaskNode) (j k : String) (m : AgentTaskNode)
    → IsThere nodes k
    → IsThere ((j, m) ∷ nodes) k
unfolding IsThere get
IsThere-cons nodes j k m (n, h) = elim (Bool-cases (j == k)) [
  | inl same ↦ (m, rw same refl)
  | inr other ↦ (n, rw other h)
]

pub All-map {ℓ κ} :
    (P : String → Type ℓ) (Q : String → Type κ) (ds : List String)
    → ((d : String) → P d → Q d)
    → All P ds
    → All Q ds
All-map P Q [] f h = tt
All-map P Q (d ∷ ds) f h = (f d h.0, All-map P Q ds f h.1)

pub keys-IsThere : (nodes : Dict String AgentTaskNode) → All (IsThere nodes) (keys nodes)
unfolding keys IsThere get
keys-IsThere [] = tt
keys-IsThere ((k, n) ∷ nodes) = (
  (n, ground (arith, text_key.same_iff k k)),
  All-map (IsThere nodes) (IsThere ((k, n) ∷ nodes)) (keys nodes)
      (λ d h. IsThere-cons nodes k d n h) (keys-IsThere nodes),
)

module _ (nodes : Dict String AgentTaskNode) (rank : String → ℕ)
    (ranked : IsRanked nodes rank) where
  -- A node whose rank is below the fuel.
  unfoldable pub Within : ℕ → String → Type 0
  Within fuel d = IsThere nodes d × (rank d < fuel)

  pub dependencies-Within :
      (fuel : ℕ) (id : String) (n : AgentTaskNode)
      → get nodes id ≡ some n
      → rank id < suc fuel
      → All (Within fuel) n.dependencies
  unfolding Within IsThere
  dependencies-Within fuel id n here low =
      All-contains (Within fuel) n.dependencies
        (λ d listed. let (there, below) = ranked.falls id n d here listed in (there, omega arith))
