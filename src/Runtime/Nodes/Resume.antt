-- ===== src/Runtime/Nodes/Resume.antt =====
-- What a run of AgentRuntime of evoagent/runtime.py leaves for the next run of its task.
use evo_review_agent.Base.{String, ◌≡◌, refl, sym, ◌∙◌, true, none, some, List, [], ◌∷◌, All}
use evo_review_agent.Base.Key.{text_key}
use evo_review_agent.Base.Dict.{Dict, get}
use mathlib.Core.Path.{subst}
use evo_review_agent.Base.Result.{err, ok}
use evo_review_agent.Runtime.Nodes.{
  AgentRuntime, RuntimeNode, Checkpoint, Run, Surroundings, Executed, emit, run_from, run_node,
  go_on, run_nodes, loaded, execute, update, checkpoint_restored,
}
use evo_review_agent.Runtime.Nodes.Saved.{is_some, IsPlain, Saved, Keeps, run_node-Keeps}

-- All nodes have checkpoints, and no two have one name.
unfoldable pub IsPersistent : {A E : Type 0} → List (RuntimeNode A E) → Type 0
IsPersistent [] = Unit
IsPersistent (n ∷ ns) = (n.checkpoint ≡ true) × All (λ m. n.name ≡ m.name → ⊥) ns × IsPersistent ns

-- The checkpoints of the nodes, merged in their order, lead from one state to the other.
Replays :
    {A E : Type 0}
    → Dict String (Checkpoint A)
    → List (RuntimeNode A E)
    → Dict String A
    → Dict String A
    → Type 0
Replays store [] a b = a ≡ b
Replays {A} store (n ∷ ns) a b =
    (c : Checkpoint A) × (get store n.name ≡ some c)
    × (c.is_completed ≡ true)
    × Replays store ns (update a c.state) b

-- A run of the nodes that ended leaves checkpoints that replay it, and those of other nodes alone.
record Recorded {A E M : Type 0} (nodes : List (RuntimeNode A E)) (r q : Run A M) : Type 0 where
  replays : Replays (loaded q.store) nodes r.state q.state
  others :
      (k : String)
      → All (λ m. k ≡ m.name → ⊥) nodes
      → get (loaded q.store) k ≡ get (loaded r.store) k

apart-get :
    {A E M : Type 0} (nodes : List (RuntimeNode A E)) (r q : Run A M) (name : String)
    (checkpoints : Dict String (Checkpoint A)) (s : Saved name r.state (loaded r.store) q)
    → All (λ m. name ≡ m.name → ⊥) nodes
    → All (λ m. get (loaded r.store) m.name ≡ get checkpoints m.name) nodes
    → All (λ m. get (loaded q.store) m.name ≡ get checkpoints m.name) nodes
apart-get [] r q name checkpoints s apart same = tt
apart-get (n ∷ ns) r q name checkpoints s apart same =
    (s.others n.name apart.0 ∙ same.0, apart-get ns r q name checkpoints s apart.1 same.1)

Ends : {A E M : Type 0} → List (RuntimeNode A E) → Run A M → Executed A E M → Type 0
Ends nodes r (q, ok done) = Recorded nodes r q
Ends nodes r (q, err e) = Unit

join-Recorded :
    {A E M : Type 0} (n : RuntimeNode A E) (ns : List (RuntimeNode A E)) (r q : Run A M)
    (t : Run A M)
    → All (λ m. n.name ≡ m.name → ⊥) ns
    → Saved n.name r.state (loaded r.store) q
    → Recorded ns q t
    → Recorded (n ∷ ns) r t
unfolding Replays
join-Recorded n ns r q t apart saved rest = record {
  replays = (
    saved.checkpoint,
    rest.others n.name apart ∙ saved.found,
    saved.complete,
    subst (λ a. Replays (loaded t.store) ns a t.state) saved.merged rest.replays,
  );
  others = λ k away. rest.others k away.1 ∙ saved.others k (λ same. away.0 (sym same));
}

join-Ends :
    {A E M : Type 0} (n : RuntimeNode A E) (ns : List (RuntimeNode A E)) (r q : Run A M)
    (x : Executed A E M)
    → All (λ m. n.name ≡ m.name → ⊥) ns
    → Saved n.name r.state (loaded r.store) q
    → Ends ns q x
    → Ends (n ∷ ns) r x
unfolding Ends
join-Ends n ns r q (t, ok done) apart saved h = join-Recorded n ns r q t apart saved h
join-Ends n ns r q (t, err e) apart saved h = tt

after-Ends :
    {A E M : Type 0} (n : RuntimeNode A E) (ns : List (RuntimeNode A E)) (r : Run A M)
    (x : Executed A E M) (next : Run A M → Executed A E M)
    → All (λ m. n.name ≡ m.name → ⊥) ns
    → Keeps n.name r.state (loaded r.store) x
    → ((q : Run A M) → Saved n.name r.state (loaded r.store) q → Ends ns q (next q))
    → Ends (n ∷ ns) r (go_on x next)
unfolding go_on Keeps Ends
after-Ends n ns r (q, ok done) next apart saved k =
    join-Ends n ns r q (next q) apart saved (k q saved)
after-Ends n ns r (q, err e) next apart saved k = tt

module _ {A E M : Type 0} (s : Surroundings A E M) (config : AgentRuntime) where
  run_nodes-Ends :
      (checkpoints : Dict String (Checkpoint A)) (nodes : List (RuntimeNode A E)) (r : Run A M)
      → IsPersistent nodes
      → IsPlain r
      → All (λ m. get (loaded r.store) m.name ≡ get checkpoints m.name) nodes
      → Ends nodes r (run_nodes s config checkpoints nodes r)
  unfolding run_nodes Ends Replays IsPersistent
  run_nodes-Ends checkpoints [] r p h same = record { replays = refl; others = λ k apart. refl }
  run_nodes-Ends checkpoints (n ∷ ns) r p h same =
      after-Ends n ns r (run_node s config checkpoints n r) (run_nodes s config checkpoints ns) p.1
        (run_node-Keeps s config checkpoints n r p.0 h same.0)
        (λ q saved.
          run_nodes-Ends checkpoints ns q p.2 saved.plain
            (apart-get ns r q n.name checkpoints saved p.1 same.1))

-- A second run over the checkpoints: it ends well, in that state, without a step.
Replayed : {A E M : Type 0} → Run A M → Dict String A → Executed A E M → Type 0
Replayed r state (q, result) = (q.state ≡ state) × (q.steps ≡ r.steps) × (result ≡ ok tt)

module _ {A E M : Type 0} (s : Surroundings A E M) (config : AgentRuntime) where
  restored :
      (checkpoints : Dict String (Checkpoint A)) (node : RuntimeNode A E) (r : Run A M)
      (c : Checkpoint A)
      → node.checkpoint ≡ true
      → get checkpoints node.name ≡ some c
      → c.is_completed ≡ true
      → run_node s config checkpoints node r ≡ (
        emit checkpoint_restored node.name c.attempt (record r { state = update r.state c.state }),
        ok tt,
      )
  unfolding run_node run_from
  restored checkpoints node r c on found complete = rw (on, found, complete)

  run_nodes-Replayed :
      (checkpoints : Dict String (Checkpoint A)) (nodes : List (RuntimeNode A E)) (r : Run A M)
      (state : Dict String A)
      → IsPersistent nodes
      → Replays checkpoints nodes r.state state
      → Replayed r state (run_nodes s config checkpoints nodes r)
  unfolding run_nodes go_on Replays IsPersistent Replayed emit
  run_nodes-Replayed checkpoints [] r state p h = (h, refl, refl)
  run_nodes-Replayed checkpoints (n ∷ ns) r state p (c, found, complete, rest) =
      let q : Run A M =
        emit checkpoint_restored n.name c.attempt (record r { state = update r.state c.state }) in
      subst (λ x. Replayed r state (go_on x (run_nodes s config checkpoints ns)))
        (sym (restored checkpoints n r c p.0 found complete))
        (run_nodes-Replayed checkpoints ns q state p.2 rest)

same-All :
    {A E : Type 0} (store : Dict String (Checkpoint A)) (nodes : List (RuntimeNode A E))
    → All (λ m. get store m.name ≡ get store m.name) nodes
same-All store [] = tt
same-All store (n ∷ ns) = (refl, same-All store ns)

-- The nodes run again over the store that is left, from the state in which they ran.
again-Replayed :
    {A E M : Type 0} (s : Surroundings A E M) (config : AgentRuntime)
    (nodes : List (RuntimeNode A E)) (r q t : Run A M)
    → IsPersistent nodes
    → r.state ≡ t.state
    → Recorded nodes r q
    → Replayed t q.state (run_nodes s config (loaded q.store) nodes t)
again-Replayed s config nodes r q t p same h =
    run_nodes-Replayed s config (loaded q.store) nodes t q.state p
      (subst (λ a. Replays (loaded q.store) nodes a q.state) same h.replays)

-- A task that ran to its end with a checkpoint store and without a recovery manager, all of its nodes
-- with checkpoints and under different names, can be run again from the same initial state over the
-- store that it left: whatever the surroundings and the configuration of the second run, it ends
-- without an error, in the same state, and takes no step.
pub execute-resumed :
    {A E M : Type 0} (s : Surroundings A E M) (config : AgentRuntime) (again : Surroundings A E M)
    (config' : AgentRuntime) (initial : Dict String A) (nodes : List (RuntimeNode A E))
    (store : Dict String (Checkpoint A)) (q : Run A M)
    → IsPersistent nodes
    → execute s config initial nodes (some store) none ≡ (q, ok tt)
    → ((execute again config' initial nodes q.store none).0.state ≡ q.state)
      × ((execute again config' initial nodes q.store none).0.steps ≡ 0)
      × ((execute again config' initial nodes q.store none).1 ≡ ok tt)
unfolding execute is_some Replayed Ends
execute-resumed {A} {E} {M} s config again config' initial nodes store q p e =
    let r : Run A M = record {
      state = initial;
      steps = 0;
      store = some store;
      manager = none;
      events = [];
    } in
    let recorded : Recorded nodes r q = subst (Ends nodes r) e (
      run_nodes-Ends s config store nodes r p (record { stored = refl; unmanaged = refl })
        (same-All store nodes)) in
    again-Replayed again config' nodes r q
      (record { state = initial; steps = 0; store = q.store; manager = none; events = [] }) p refl
      recorded
