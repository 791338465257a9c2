-- ===== src/LoopAgents/Scheduler/Sorted.antt =====
-- What the sort of evoagent/loop_agents/scheduler.py keeps.
use evo_review_agent.Base.{
  ◌+◌, ◌≡◌, refl, inl, inr, Bool, true, List, [], ◌∷◌, arith, Bool-cases, length, All, if_rule,
  select,
}
use evo_review_agent.Base.Key.{text_key}
use evo_review_agent.LoopAgents.TaskGraph.{AgentTaskNode}
use evo_review_agent.LoopAgents.Scheduler.{not_after, insert_node, sort_by_id}

module _ {ℓ} (P : AgentTaskNode → Type ℓ) where
  insert_node-All :
      (n : AgentTaskNode) (ns : List AgentTaskNode) → P n → All P ns → All P (insert_node n ns)
  unfolding insert_node
  insert_node-All n [] p h = (p, tt)
  insert_node-All n (m ∷ ms) p h = elim (Bool-cases (not_after n.node_id m.node_id)) [
    | inl first ↦ rw first (p, h)
    | inr later ↦ rw later (h.0, insert_node-All n ms p h.1)
  ]

  pub sort_by_id-All : (ns : List AgentTaskNode) → All P ns → All P (sort_by_id ns)
  unfolding sort_by_id
  sort_by_id-All [] h = tt
  sort_by_id-All (n ∷ ns) h = insert_node-All n (sort_by_id ns) h.0 (sort_by_id-All ns h.1)

insert_node-length :
    (n : AgentTaskNode) (ns : List AgentTaskNode) → length (insert_node n ns) ≡ length ns + 1
unfolding insert_node
insert_node-length n [] = omega arith
insert_node-length n (m ∷ ms) = elim (Bool-cases (not_after n.node_id m.node_id)) [
  | inl first ↦ rw first (omega arith)
  | inr later ↦ rw later (omega (arith, insert_node-length n ms))
]

pub sort_by_id-length : (ns : List AgentTaskNode) → length (sort_by_id ns) ≡ length ns
unfolding sort_by_id
sort_by_id-length [] = refl
sort_by_id-length (n ∷ ns) =
    omega (arith, insert_node-length n (sort_by_id ns), sort_by_id-length ns)

pub select-All {ℓ κ μ} :
    {A : Type ℓ} (p : A → Bool) (P : A → Type κ) (Q : A → Type μ) (xs : List A)
    → ((x : A) → p x ≡ true → P x → Q x)
    → All P xs
    → All Q (select p xs)
select-All p P Q [] f h = tt
select-All p P Q (x ∷ xs) f h =
    if_rule (All Q) (p x) _ _ (λ kept. (f x kept h.0, select-All p P Q xs f h.1))
      (λ dropped. select-All p P Q xs f h.1)
