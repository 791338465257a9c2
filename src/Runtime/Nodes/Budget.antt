-- ===== src/Runtime/Nodes/Budget.antt =====
-- The budget that AgentRuntime of evoagent/runtime.py keeps, and when it raises for it.
use evo_review_agent.Base.{
  ℕ, zero, suc, ◌+◌, ◌≤◌, ◌<◌, String, ◌≡◌, ◌⊎◌, inl, inr, true, ◌||◌, Option, none, some, List, [],
  ◌∷◌, arith, ltb, leb, ltb→lt, leb→le, Bool-cases, if_rule,
}
use evo_review_agent.Base.Key.{text_key}
use evo_review_agent.Base.Dict.{Dict}
use evo_review_agent.Base.Result.{Result, err, ok}
use evo_review_agent.Runtime.Nodes.{
  AgentRuntime, HandlerResult, output, not_a_dict, raises, RuntimeNode, Checkpoint, Run,
  RuntimeError, cancelled, budget_exceeded, failed, Surroundings, Executed, emit, save, succeed,
  recover, fail, settle, guarded, ended, attempt_node, attempts, run_from, run_node, go_on,
  run_nodes, loaded, execute, node_started,
}

module _ {A E M : Type 0} (s : Surroundings A E M) (config : AgentRuntime) where
  -- The exceptions of the guard have their cause at the step at which the run stopped.
  pub Explained : ℕ → Result (RuntimeError E) (Unit {0}) → Type 0
  Explained steps (ok done) = Unit
  Explained steps (err cancelled) = s.is_cancelled steps ≡ true
  Explained steps (err budget_exceeded) =
      (steps ≡ config.max_steps) ⊎ (config.timeout_seconds < s.elapsed steps)
  Explained steps (err (failed e)) = Unit

  -- Within its steps, and stopped by the guard only for cause.
  pub IsBounded : Executed A E M → Type 0
  IsBounded (r, result) = (r.steps ≤ config.max_steps) × Explained r.steps result

  recover-IsBounded :
      (manager : Option M) (node : RuntimeNode A E) (attempt : ℕ) (e : E) (r : Run A M)
      (again : Run A M → Executed A E M)
      → r.steps ≤ config.max_steps
      → ((q : Run A M) → q.steps ≤ config.max_steps → IsBounded (again q))
      → IsBounded (recover s config manager node attempt e r again)
  unfolding recover IsBounded Explained
  recover-IsBounded none node attempt e r again h k = k r h
  recover-IsBounded (some m) node attempt e r again h k =
      if_rule IsBounded (s.handle m e node.name attempt r.state).2 _ _ (λ on. k _ h)
        (λ stop. (h, tt))

  fail-IsBounded :
      (node : RuntimeNode A E) (attempt : ℕ) (e : E) (r : Run A M)
      (again : Run A M → Executed A E M)
      → r.steps ≤ config.max_steps
      → ((q : Run A M) → q.steps ≤ config.max_steps → IsBounded (again q))
      → IsBounded (fail s config node attempt e r again)
  unfolding fail IsBounded Explained save emit
  fail-IsBounded node attempt e r again h k =
      if_rule IsBounded (s.non_retryable e) _ _ (λ final. (h, tt))
        (λ other. recover-IsBounded r.manager node attempt e _ again h k)

  settle-IsBounded :
      (result : HandlerResult A E) (node : RuntimeNode A E) (attempt : ℕ) (r : Run A M)
      (again : E → Run A M → Executed A E M)
      → r.steps ≤ config.max_steps
      → ((e : E) (q : Run A M) → q.steps ≤ config.max_steps → IsBounded (again e q))
      → IsBounded (settle s config result node attempt r again)
  unfolding settle succeed IsBounded Explained save emit
  settle-IsBounded (output out) node attempt r again h k = (h, tt)
  settle-IsBounded not_a_dict node attempt r again h k = fail-IsBounded node attempt _ r _ h (k _)
  settle-IsBounded (raises e) node attempt r again h k = fail-IsBounded node attempt e r _ h (k e)

  over-cause :
      (steps : ℕ)
      → steps ≤ config.max_steps
      → (leb config.max_steps steps || ltb config.timeout_seconds (s.elapsed steps)) ≡ true
      → (steps ≡ config.max_steps) ⊎ (config.timeout_seconds < s.elapsed steps)
  over-cause steps h over = elim (Bool-cases (leb config.max_steps steps)) [
    | inl all_used ↦ inl (omega (arith, leb→le config.max_steps steps all_used))
    | inr left ↦ inr (ltb→lt config.timeout_seconds (s.elapsed steps) (rw left at over))
  ]

  ended-IsBounded :
      (last : Option E) (r : Run A M) → r.steps ≤ config.max_steps → IsBounded (ended last r)
  unfolding ended IsBounded Explained
  ended-IsBounded none r h = (h, tt)
  ended-IsBounded (some e) r h = (h, tt)

  guarded-IsBounded :
      (name : String) (r : Run A M) (go : Run A M → Executed A E M)
      → r.steps ≤ config.max_steps
      → (r.steps < config.max_steps → IsBounded (go r))
      → IsBounded (guarded s config name r go)
  unfolding guarded IsBounded Explained emit
  guarded-IsBounded name r go h k =
      if_rule IsBounded (s.is_cancelled r.steps) _ _ (λ stop. (h, stop))
        (λ alive.
          if_rule IsBounded
            (leb config.max_steps r.steps || ltb config.timeout_seconds (s.elapsed r.steps)) _ _
            (λ over. (h, over-cause r.steps h over)) (λ within. k (ground arith)))

  attempt_node-IsBounded :
      (node : RuntimeNode A E) (attempt : ℕ) (again : E → Run A M → Executed A E M) (r : Run A M)
      → r.steps < config.max_steps
      → ((e : E) (q : Run A M) → q.steps ≤ config.max_steps → IsBounded (again e q))
      → IsBounded (attempt_node s config node attempt again r)
  unfolding attempt_node emit
  attempt_node-IsBounded node attempt again r room k =
      let started : Run A M =
        emit node_started node.name attempt (record r { steps = r.steps + 1 }) in
      settle-IsBounded (node.handler (r.steps + 1) r.state) node attempt started again
        (omega (arith, room)) k

  attempts-IsBounded :
      (node : RuntimeNode A E) (left attempt : ℕ) (last : Option E) (r : Run A M)
      → r.steps ≤ config.max_steps
      → IsBounded (attempts s config node left attempt last r)
  unfolding attempts
  attempts-IsBounded node zero attempt last r h = ended-IsBounded last r h
  attempts-IsBounded node (suc left) attempt last r h =
      let again : E → Run A M → Executed A E M =
        λ e next. attempts s config node left (attempt + 1) (some e) next in
      guarded-IsBounded node.name r (attempt_node s config node attempt again) h (λ room.
        attempt_node-IsBounded node attempt again r room
          (λ e q k. attempts-IsBounded node left (attempt + 1) (some e) q k))

  run_from-IsBounded :
      (cached : Option (Checkpoint A)) (node : RuntimeNode A E) (r : Run A M)
      → r.steps ≤ config.max_steps
      → IsBounded (run_from s config cached node r)
  unfolding run_from IsBounded Explained emit
  run_from-IsBounded none node r h = attempts-IsBounded node _ 1 none r h
  run_from-IsBounded (some c) node r h =
      if_rule IsBounded c.is_completed _ _ (λ restored. (h, tt))
        (λ again. attempts-IsBounded node _ (c.attempt + 1) none r h)

  go_on-IsBounded :
      (x : Executed A E M) (next : Run A M → Executed A E M)
      → IsBounded x
      → ((r : Run A M) → r.steps ≤ config.max_steps → IsBounded (next r))
      → IsBounded (go_on x next)
  unfolding go_on IsBounded
  go_on-IsBounded (r, ok done) next h k = k r h.0
  go_on-IsBounded (r, err e) next h k = h

  run_nodes-IsBounded :
      (checkpoints : Dict String (Checkpoint A)) (nodes : List (RuntimeNode A E)) (r : Run A M)
      → r.steps ≤ config.max_steps
      → IsBounded (run_nodes s config checkpoints nodes r)
  unfolding run_nodes run_node IsBounded Explained
  run_nodes-IsBounded checkpoints [] r h = (h, tt)
  run_nodes-IsBounded checkpoints (n ∷ ns) r h =
      go_on-IsBounded (run_from s config _ n r) _ (run_from-IsBounded _ n r h)
        (λ q k. run_nodes-IsBounded checkpoints ns q k)

  -- A run takes at most as many steps as the runtime may; it raises for its budget only at the last
  -- step or when the time is up, and for a cancelled task only where the check says so.
  pub execute-IsBounded :
      (initial : Dict String A) (nodes : List (RuntimeNode A E))
      (store : Option (Dict String (Checkpoint A))) (manager : Option M)
      → IsBounded (execute s config initial nodes store manager)
  unfolding execute
  execute-IsBounded initial nodes store manager =
      run_nodes-IsBounded (loaded store) nodes _ (omega arith)
