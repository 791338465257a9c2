-- ===== src/LoopAgents/Validator/Returns.antt =====
-- When the recursive helpers of evoagent/loop_agents/planning/validator.py return.
use evo_review_agent.Base.{
  ℕ, zero, suc, ◌+◌, ◌<◌, max, String, ◌≡◌, refl, ap, ◌∙◌, Option, none, some, List, [], ◌∷◌, arith,
  All,
}
use evo_review_agent.Base.Key.{text_key, number_key}
use evo_review_agent.Base.Dict.{Dict, get, put, keys}
use evo_review_agent.Base.Result.{ok, >>=_returns}
use evo_review_agent.LoopAgents.TaskGraph.{AgentTaskNode, CoordinatorTaskGraph}
use evo_review_agent.LoopAgents.Validator.{
  GraphError, TaskGraphValidator, Depths, deepest, noted, depth_new, depth_known, depth,
  max_depth_of, max_width_of, layer, validate_budget, validate_no_cycle, validate, visit_all,
  whiten, number_or_zero,
}
use evo_review_agent.LoopAgents.Validator.Acyclic.{IsRanked}
use evo_review_agent.LoopAgents.Validator.Within.{
  IsThere, All-map, keys-IsThere, Within, dependencies-Within,
}
use evo_review_agent.LoopAgents.Validator.Colors.{visit_all-returns, whiten-IsColored}

module _ (nodes : Dict String AgentTaskNode) (rank : String → ℕ)
    (ranked : IsRanked nodes rank) where
  deepest-returns :
      (fuel : ℕ)
      → ((memo : Dict String ℕ) (id : String)
          → Within nodes rank ranked fuel id
          → (r : Dict String ℕ × ℕ) × (depth fuel nodes memo id ≡ ok r))
      → (ds : List String) (memo : Dict String ℕ) → All (Within nodes rank ranked fuel) ds
      → (r : Dict String ℕ × ℕ) × (deepest (depth fuel nodes) memo ds ≡ ok r)
  unfolding deepest
  deepest-returns fuel step [] memo h = ((memo, 0), refl)
  deepest-returns fuel step (d ∷ ds) memo h =
      let (r, e) = step memo d h.0 in
      let (s, e1) = deepest-returns fuel step ds (r.0) h.1 in
      ((s.0, max (r.1) (s.1)), rw e (rw e1 refl))

  depth_known-returns :
      (known : Option ℕ) (new : Depths) (memo : Dict String ℕ)
      → ((r : Dict String ℕ × ℕ) × (new ≡ ok r))
      → (r : Dict String ℕ × ℕ) × (depth_known known new memo ≡ ok r)
  unfolding depth_known
  depth_known-returns none new memo h = h
  depth_known-returns (some k) new memo h = ((memo, k), refl)

  depth-returns :
      (fuel : ℕ) (memo : Dict String ℕ) (id : String)
      → Within nodes rank ranked fuel id
      → (r : Dict String ℕ × ℕ) × (depth fuel nodes memo id ≡ ok r)
  unfolding depth depth_new Within noted IsThere
  depth-returns zero memo id h = absurd (omega (arith, h.1))
  depth-returns (suc fuel) memo id ((n, here), low) =
      let (r, e) =
        deepest-returns fuel (depth-returns fuel) n.dependencies memo
          (dependencies-Within nodes rank ranked fuel id n here low) in
      depth_known-returns (get memo id) _ memo (
        (put (r.0) id (suc (r.1)), suc (r.1)),
        ap (λ o. depth_new (depth fuel nodes) o memo id) here ∙ rw e refl,
      )

  layer-returns :
      (fuel : ℕ) (ids : List String) (memo : Dict String ℕ) (layers : Dict ℕ ℕ)
      → All (Within nodes rank ranked fuel) ids
      → (l : Dict ℕ ℕ) × (layer fuel nodes memo layers ids ≡ ok l)
  unfolding layer
  layer-returns fuel [] memo layers h = (layers, refl)
  layer-returns fuel (id ∷ ids) memo layers h =
      let (r, e) = depth-returns fuel memo id h.0 in
      let (l, e1) =
        layer-returns fuel ids (r.0) (put layers (r.1) (number_or_zero (get layers (r.1)) + 1))
          h.1 in
      (l, rw e e1)
  -- Every node of the graph has a color.

-- The check of a graph whose nodes have ranks, each above those of its dependencies, which are nodes
-- of the graph too, returns whenever the recursion limit lies above the ranks.
pub validate-returns :
    (v : TaskGraphValidator) (g : CoordinatorTaskGraph) (rank : String → ℕ) (fuel : ℕ)
    → IsRanked g.nodes rank
    → ((id : String) (n : AgentTaskNode) → get g.nodes id ≡ some n → rank id < fuel)
    → (errors : List GraphError) × (validate fuel v g ≡ ok errors)
unfolding validate validate_no_cycle validate_budget max_depth_of max_width_of IsThere Within
validate-returns v g rank fuel ranked low =
    let nodes = g.nodes in
    let ids : All (Within nodes rank ranked fuel) (keys nodes) =
      All-map (IsThere nodes) (Within nodes rank ranked fuel) (keys nodes)
        (λ d (n, here). ((n, here), low d n here)) (keys-IsThere nodes) in
    let cycle =
      >>=_returns (visit_all fuel nodes (whiten (keys nodes)) (keys nodes)) _
        (visit_all-returns nodes rank ranked fuel (keys nodes) (whiten (keys nodes)) ids
          (whiten-IsColored nodes rank ranked))
        (λ found. (_, refl)) in
    let depth_found =
      >>=_returns (deepest (depth fuel nodes) [] (keys nodes)) _
        (deepest-returns nodes rank ranked fuel (depth-returns nodes rank ranked fuel) (keys nodes)
          [] ids)
        (λ r. (_, refl)) in
    let width_found =
      >>=_returns (layer fuel nodes [] [] (keys nodes)) _
        (layer-returns nodes rank ranked fuel (keys nodes) [] [] ids) (λ l. (_, refl)) in
    >>=_returns (validate_no_cycle fuel g) _ cycle (λ c.
      >>=_returns (validate_budget fuel v g) _
        (>>=_returns (max_depth_of fuel g) _ depth_found
          (λ d. >>=_returns (max_width_of fuel g) _ width_found (λ w. (_, refl))))
        (λ b. (_, refl)))
