-- ===== src/Runtime/Nodes.antt =====
-- AgentRuntime of evoagent/runtime.py. The values of the state, the exceptions and the recovery manager
-- are parameters. A handler, the clock and the cancel check may answer differently each time: they are
-- given the number of the step. Of an event its details are left out, and of a handler what it changes
-- in the state in place; the checkpoint store does not raise.
pub mod Budget
pub mod Saved
pub mod Resume
use evo_review_agent.Base.{
  ℕ, zero, suc, ◌+◌, String, Bool, true, false, ◌&&◌, ◌||◌, Option, none, some, List, [], ◌∷◌, ◌++◌,
  ltb, leb, if◌then◌else◌,
}
use evo_review_agent.Base.Key.{text_key}
use evo_review_agent.Base.Dict.{Dict, get, put}
use evo_review_agent.Base.Result.{Result, err, ok}
use evo_review_agent.Policy.Models.{ExecutionPolicy}

pub record AgentRuntime : Type 0 where
  pub max_steps : ℕ
  pub timeout_seconds : ℕ
  pub node_retries : ℕ

with_policy : Option ExecutionPolicy → AgentRuntime → AgentRuntime
with_policy none r = r
with_policy (some p) r = record {
  max_steps = p.budget.max_steps;
  timeout_seconds = p.budget.max_wall_time_seconds;
  node_retries = p.retry.max_retries;
}

-- `__init__`; `none` stands for its ValueError.
pub agent_runtime : ℕ → ℕ → ℕ → Option ExecutionPolicy → Option AgentRuntime
unfolding with_policy
agent_runtime max_steps timeout_seconds node_retries policy =
    let r = with_policy policy (record {
      max_steps = max_steps;
      timeout_seconds = timeout_seconds;
      node_retries = node_retries;
    }) in
    if leb 1 r.max_steps && leb 1 r.timeout_seconds then some r else none

-- state.update(output)
unfoldable pub update {ℓ} : {A : Type ℓ} → Dict String A → Dict String A → Dict String A
update state [] = state
update state ((k, v) ∷ output) = update (put state k v) output

pub data HandlerResult (A E : Type 0) : Type 0 where
  output : Dict String A → HandlerResult A E
  not_a_dict : HandlerResult A E
  raises : E → HandlerResult A E

pub record RuntimeNode (A E : Type 0) : Type 0 where
  pub name : String
  pub handler : ℕ → Dict String A → HandlerResult A E
  pub retries : Option ℕ
  pub checkpoint : Bool

pub record Checkpoint (A : Type 0) : Type 0 where
  pub state : Dict String A
  pub is_completed : Bool
  pub attempt : ℕ

pub data EventKind : Type 0 where
  cancelled_event budget_exhausted checkpoint_restored node_started : EventKind
  node_completed node_failed : EventKind

pub record RuntimeEvent : Type 0 where
  pub kind : EventKind
  pub node : String
  pub step : ℕ
  pub attempt : ℕ

-- The variables of `execute`; `store` is none without a checkpoint store or a task id, and `manager`
-- none without a recovery manager.
pub record Run (A M : Type 0) : Type 0 where
  pub state : Dict String A
  pub steps : ℕ
  pub store : Option (Dict String (Checkpoint A))
  pub manager : Option M
  pub events : List RuntimeEvent

pub data RuntimeError (E : Type 0) : Type 0 where
  cancelled budget_exceeded : RuntimeError E
  failed : E → RuntimeError E

-- What the runtime is given from outside: the cancel check and the clock, by the number of the step;
-- which exceptions are not retried; the TypeError for an output that is no dict; and `handle` of the
-- recovery manager, with the state that it leaves, its updates included, and whether to go on.
pub record Surroundings (A E M : Type 0) : Type 0 where
  pub is_cancelled : ℕ → Bool
  pub elapsed : ℕ → ℕ
  pub non_retryable : E → Bool
  pub type_error : String → E
  pub handle : M → E → String → ℕ → Dict String A → M × Dict String A × Bool

abbrev pub Executed : Type 0 → Type 0 → Type 0 → Type 0
Executed A E M = Run A M × Result (RuntimeError E) (Unit {0})

emit : {A M : Type 0} → EventKind → String → ℕ → Run A M → Run A M
emit kind node attempt r = record r {
  events =
      r.events ++ (record { kind = kind; node = node; step = r.steps; attempt = attempt } ∷ []);
}

save_in :
    {A : Type 0}
    → String
    → Checkpoint A
    → Option (Dict String (Checkpoint A))
    → Option (Dict String (Checkpoint A))
save_in name c none = none
save_in name c (some store) = some (put store name c)

-- `save_checkpoint`, if the node has checkpoints
save : {A E M : Type 0} → RuntimeNode A E → Checkpoint A → Run A M → Run A M
unfolding save_in
save node c r = record r {
  store = if node.checkpoint then save_in node.name c r.store else r.store;
}

-- The end of an attempt that returned a dict.
succeed : {A E M : Type 0} → RuntimeNode A E → ℕ → Dict String A → Run A M → Executed A E M
unfolding save emit
succeed node attempt out r = (
  emit node_completed node.name attempt (
      save node (record { state = out; is_completed = true; attempt = attempt })
        (record r { state = update r.state out })),
  ok tt,
)

-- `if last_error is not None: raise last_error`
ended : {A E M : Type 0} → Option E → Run A M → Executed A E M
ended none r = (r, ok tt)
ended (some e) r = (r, err (failed e))

go_on : {A E M : Type 0} → Executed A E M → (Run A M → Executed A E M) → Executed A E M
go_on (r, ok done) next = next r
go_on (r, err e) next = (r, err e)

unfoldable pub loaded :
    {A : Type 0} → Option (Dict String (Checkpoint A)) → Dict String (Checkpoint A)
loaded none = []
loaded (some store) = store

module _ {A E M : Type 0} (s : Surroundings A E M) (config : AgentRuntime) where
  -- The recovery after a failure: `again` is the rest of the loop.
  recover :
      Option M → RuntimeNode A E → ℕ → E → Run A M → (Run A M → Executed A E M) → Executed A E M
  recover none node attempt e r again = again r
  recover (some m) node attempt e r again =
      let h = s.handle m e node.name attempt r.state in
      let r' = record r { manager = some (h.0); state = h.1 } in
      if h.2 then again r' else (r', err (failed e))

  -- The end of an attempt that raised.
  fail : RuntimeNode A E → ℕ → E → Run A M → (Run A M → Executed A E M) → Executed A E M
  unfolding recover save emit
  fail node attempt e r again =
      if s.non_retryable e
      then (r, err (failed e))
      else recover r.manager node attempt e
          (emit node_failed node.name attempt
            (save node (record { state = []; is_completed = false; attempt = attempt }) r))
          again

  settle :
      HandlerResult A E
      → RuntimeNode A E
      → ℕ
      → Run A M
      → (E → Run A M → Executed A E M)
      → Executed A E M
  unfolding succeed fail
  settle (output out) node attempt r again = succeed node attempt out r
  settle not_a_dict node attempt r again =
      fail node attempt (s.type_error node.name) r (again (s.type_error node.name))
  settle (raises e) node attempt r again = fail node attempt e r (again e)

  -- `guard`, with what follows it.
  guarded : String → Run A M → (Run A M → Executed A E M) → Executed A E M
  unfolding emit
  guarded node r go =
      if s.is_cancelled r.steps
      then (emit cancelled_event node 0 r, err cancelled)
      else if leb config.max_steps r.steps || ltb config.timeout_seconds (s.elapsed r.steps)
      then (emit budget_exhausted node 0 r, err budget_exceeded)
      else go r

  -- One attempt, after the guard.
  attempt_node : RuntimeNode A E → ℕ → (E → Run A M → Executed A E M) → Run A M → Executed A E M
  unfolding settle emit
  attempt_node node attempt again q =
      let started = emit node_started node.name attempt (record q { steps = q.steps + 1 }) in
      settle (node.handler started.steps q.state) node attempt started again

  -- The loop over the attempts of a node, of which so many are left.
  attempts : RuntimeNode A E → ℕ → ℕ → Option E → Run A M → Executed A E M
  unfolding guarded attempt_node ended
  attempts node zero attempt last r = ended last r
  attempts node (suc left) attempt last r =
      guarded node.name r
        (attempt_node node attempt (λ e next. attempts node left (attempt + 1) (some e) next))

  retries_of : Option ℕ → ℕ
  retries_of none = config.node_retries
  retries_of (some n) = n

  run_from : Option (Checkpoint A) → RuntimeNode A E → Run A M → Executed A E M
  unfolding attempts retries_of emit
  run_from none node r = attempts node (retries_of node.retries + 1) 1 none r
  run_from (some c) node r =
      if c.is_completed
      then (
        emit checkpoint_restored node.name c.attempt (record r { state = update r.state c.state }),
        ok tt,
      )
      else attempts node (retries_of node.retries + 1) (c.attempt + 1) none r

  -- One round of the loop over the nodes.
  pub run_node : Dict String (Checkpoint A) → RuntimeNode A E → Run A M → Executed A E M
  unfolding run_from
  run_node checkpoints node r =
      run_from (if node.checkpoint then get checkpoints node.name else none) node r

  run_nodes : Dict String (Checkpoint A) → List (RuntimeNode A E) → Run A M → Executed A E M
  unfolding run_node go_on
  run_nodes checkpoints [] r = (r, ok tt)
  run_nodes checkpoints (n ∷ ns) r = go_on (run_node checkpoints n r) (run_nodes checkpoints ns)

  unfoldable pub execute :
      Dict String A
      → List (RuntimeNode A E)
      → Option (Dict String (Checkpoint A))
      → Option M
      → Executed A E M
  unfolding run_nodes loaded
  execute initial nodes store manager =
      run_nodes (loaded store) nodes
        (record { state = initial; steps = 0; store = store; manager = manager; events = [] })
