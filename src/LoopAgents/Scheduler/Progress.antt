-- ===== src/LoopAgents/Scheduler/Progress.antt =====
-- When evoagent/loop_agents/scheduler.py has nothing to run.
use evo_review_agent.Base.{
  ℕ, suc, ◌+◌, ◌≤◌, String, ◌≡◌, refl, ap, ◌∙◌, ◌↔◌, inl, inr, Bool, true, false, List, [], ◌∷◌,
  ◌++◌, map, arith, leb, leb→le, Bool-cases, length, length-append, any, if_rule, select,
}
use evo_review_agent.Base.Key.{text_key}
use evo_review_agent.Base.Dict.{Dict, get, put, values}
use evo_review_agent.LoopAgents.TaskGraph.{AgentTaskNode, CoordinatorTaskGraph, is_ready}
use evo_review_agent.LoopAgents.Scheduler.{
  ConcurrencyBudget, allowed_for, sort_by_id, ready_nodes, or_else, fill, serial_choice,
  batch_nodes, next_batch,
}
use evo_review_agent.LoopAgents.Scheduler.Sorted.{sort_by_id-length}

serial-grows :
    (chosen : List AgentTaskNode) (n : AgentTaskNode) (skipped : List AgentTaskNode)
    → 1 ≤ length skipped
    → 1 ≤ length (serial_choice chosen n skipped)
unfolding serial_choice
serial-grows [] n skipped h = omega arith
serial-grows (c ∷ cs) n skipped h = h

length-map {ℓ κ} :
    {A : Type ℓ} {B : Type κ} (f : A → B) (xs : List A) → length (map f xs) ≡ length xs
length-map f [] = refl
length-map f (x ∷ xs) = ap suc (length-map f xs)

select-some {ℓ} :
    {A : Type ℓ} (p : A → Bool) (xs : List A) → any p xs ≡ true → 1 ≤ length (select p xs)
select-some {A} p [] h = cc
select-some {A} p (x ∷ xs) h =
    if_rule (λ (r : List A). 1 ≤ length r) (p x) _ _ (λ kept. omega arith)
      (λ dropped. select-some p xs (rw dropped at h))

select-none {ℓ} :
    {A : Type ℓ} (p : A → Bool) (xs : List A) → any p xs ≡ false → length (select p xs) ≡ 0
select-none p [] h = refl
select-none p (x ∷ xs) h = elim (Bool-cases (p x)) [
  | inl kept ↦ cc (rw kept at h)
  | inr dropped ↦ rw dropped (select-none p xs (rw dropped at h))
]

-- Something was chosen.
abbrev Started : List AgentTaskNode → Type 0
Started ns = 1 ≤ length ns

module _ (b : ConcurrencyBudget) where
  -- The loop never drops what was chosen.
  fill-grows :
      (chosen : List AgentTaskNode) (counts : Dict String ℕ) (ns : List AgentTaskNode)
      → 1 ≤ length chosen
      → 1 ≤ length (fill b chosen counts ns)
  unfolding fill
  fill-grows chosen counts [] h = h
  fill-grows chosen counts (n ∷ ns) h =
      let count = or_else (get counts n.agent_id) 0 in
      let skipped = fill-grows chosen counts ns h in
      if_rule Started n.serial _ _ (λ alone. serial-grows chosen n _ skipped)
        (λ parallel.
          if_rule Started (leb (allowed_for b n.agent_id) count) _ _ (λ full. skipped)
            (λ left.
              if_rule Started (leb b.max_parallel_agents (length chosen)) _ _ (λ full. skipped)
                (λ free.
                  fill-grows (chosen ++ (n ∷ [])) (put counts n.agent_id (count + 1)) ns
                    (omega (arith, length-append chosen (n ∷ []))))))

  fill-starts :
      (ns : List AgentTaskNode)
      → 1 ≤ b.max_parallel_agents
      → ((a : String) → 1 ≤ allowed_for b a)
      → 1 ≤ length ns
      → 1 ≤ length (fill b [] [] ns)
  unfolding fill or_else get serial_choice
  fill-starts [] wide allowed h = elim h [ ]
  fill-starts (n ∷ ns) wide allowed h =
      if_rule Started n.serial _ _ (λ alone. omega arith)
        (λ parallel.
          if_rule Started (leb (allowed_for b n.agent_id) 0) _ _
            (λ full.
              absurd (omega (arith, leb→le (allowed_for b n.agent_id) 0 full, allowed n.agent_id)))
            (λ left.
              if_rule Started (leb b.max_parallel_agents 0) _ _
                (λ full. absurd (omega (arith, leb→le b.max_parallel_agents 0 full)))
                (λ free. fill-grows (n ∷ []) (put [] n.agent_id 1) ns (omega arith))))

  fill-none :
      (chosen : List AgentTaskNode) (counts : Dict String ℕ) (ns : List AgentTaskNode)
      → length ns ≡ 0
      → fill b chosen counts ns ≡ chosen
  unfolding fill
  fill-none chosen counts [] h = refl
  fill-none chosen counts (n ∷ ns) h = absurd (omega (arith, h))

-- Where the budget lets each agent and the round have a node, a round is empty exactly if no node of
-- the graph is pending with all its dependencies completed.
pub next_batch-progress :
    (b : ConcurrencyBudget) (g : CoordinatorTaskGraph)
    → 1 ≤ b.max_parallel_agents
    → ((a : String) → 1 ≤ allowed_for b a)
    → (length (next_batch b g) ≡ 0) ↔ (any (is_ready g) (values g.nodes) ≡ false)
unfolding next_batch batch_nodes ready_nodes
next_batch-progress b g wide allowed =
    let due = select (is_ready g) (values g.nodes) in
    let same : length (sort_by_id (sort_by_id due)) ≡ length due =
      sort_by_id-length (sort_by_id due) ∙ sort_by_id-length due in
    let whole = length-map (λ (n : AgentTaskNode). n.node_id) (batch_nodes b g) in
    (
      λ empty. elim (Bool-cases (any (is_ready g) (values g.nodes))) [
        | inl some_due ↦
            let started =
              fill-starts b (sort_by_id (sort_by_id due)) wide allowed
                (omega (arith, same, select-some (is_ready g) (values g.nodes) some_due)) in
            absurd (omega (arith, empty, whole, started))
        | inr none_due ↦ none_due
      ],
      λ none_due.
          whole
          ∙ ap (λ (r : List AgentTaskNode). length r)
              (fill-none b [] [] (sort_by_id (sort_by_id due))
                (same ∙ select-none (is_ready g) (values g.nodes) none_due)),
    )
