-- ===== src/Runtime/Examples.antt =====
-- The runtime at concrete inputs: a task of two nodes, of which the second fails once, and a model that
-- asks for the same tool again and again.
use evo_review_agent.Base.{
  ℕ, String, ◌≡◌, refl, ◌≢◌, Bool, true, false, none, some, List, [], ◌∷◌, ◌++◌, arith, leb,
  if◌then◌else◌,
}
use evo_review_agent.Base.Key.{text_key}
use evo_review_agent.Base.Dict.{get, put}
use evo_review_agent.Runtime.Nodes.{
  update, AgentRuntime, output, raises, Run, RuntimeNode, Surroundings, execute,
}
use evo_review_agent.Runtime.Nodes.Budget.{IsBounded, execute-IsBounded}
use evo_review_agent.Runtime.Nodes.Resume.{IsPersistent, execute-resumed}
use evo_review_agent.Base.Result.{ok}
use evo_review_agent.Base.Slices.{replicate, take, set_of, last_items}
use evo_review_agent.Recovery.NoProgress.{AgentAction, fingerprint, detect}
use evo_review_agent.Runtime.Loop.{AgentLoop, object, returned, Given, run}
use evo_review_agent.Runtime.Loop.Budget.{IsFinished, run-IsFinished}
use evo_review_agent.Runtime.Loop.Progress.{run-never_repeats}

abbrev surroundings : Surroundings ℕ Bool ℕ
surroundings = record {
  is_cancelled = λ n. false;
  elapsed = λ n. n;
  non_retryable = λ e. e;
  type_error = λ name. true;
  handle = λ m e name attempt state. (m, state, true);
}

abbrev config : AgentRuntime
config = record { max_steps = 5; timeout_seconds = 9; node_retries = 2 }

abbrev plan_node : RuntimeNode ℕ Bool
plan_node = record {
  name = "plan";
  handler = λ n state. output (("files", 2) ∷ []);
  retries = none;
  checkpoint = true;
}

abbrev review_node : RuntimeNode ℕ Bool
review_node = record {
  name = "review";
  handler = λ n state. if leb n 2 then raises false else output (("findings", n) ∷ []);
  retries = some 1;
  checkpoint = true;
}

abbrev nodes : List (RuntimeNode ℕ Bool)
nodes = plan_node ∷ review_node ∷ []

final_state :
    (execute surroundings config [] nodes (some []) none).0.state
    ≡ ("files", 2) ∷ ("findings", 3) ∷ []
unfolding execute update get put
final_state = refl

execute-IsBounded_example :
    IsBounded surroundings config (execute surroundings config [] nodes (some []) none)
execute-IsBounded_example = execute-IsBounded surroundings config [] nodes (some []) none

plan-not_review : plan_node.name ≡ review_node.name → ⊥
plan-not_review same = ground (arith, text_key.same_iff plan_node.name review_node.name, same)

nodes-IsPersistent : IsPersistent nodes
unfolding IsPersistent
nodes-IsPersistent = (refl, (plan-not_review, tt), (refl, tt, tt))

abbrev first_run : Run ℕ ℕ
first_run = (execute surroundings config [] nodes (some []) none).0

first_run-ended : execute surroundings config [] nodes (some []) none ≡ (first_run, ok tt)
unfolding execute update get put
first_run-ended = refl

abbrev cancelled_later : Surroundings ℕ Bool ℕ
cancelled_later = record surroundings { is_cancelled = λ n. true }

execute-resumed_example :
    ((execute cancelled_later
        (record config { max_steps = 1 })
        []
        nodes
        first_run.store
        none).0.state
      ≡ first_run.state)
    × ((execute cancelled_later
          (record config { max_steps = 1 })
          []
          nodes
          first_run.store
          none).0.steps
        ≡ 0)
    × ((execute cancelled_later (record config { max_steps = 1 }) [] nodes first_run.store none).1
        ≡ ok tt)
execute-resumed_example =
    execute-resumed surroundings config cancelled_later (record config { max_steps = 1 }) [] nodes
      [] first_run nodes-IsPersistent first_run-ended

abbrev given : Given String ℕ
given = record {
  stepper = λ step seen.
      object (record { kind = "tool"; output = 0; tool = "grep"; arguments = some "x" });
  elapsed = λ n. n;
  invoke = λ step tool arguments. returned (step ∷ []);
  stable_args = λ a. a;
}

abbrev grep_loop : AgentLoop
grep_loop = record {
  max_steps = 4;
  timeout_seconds = 45;
  max_tool_calls = some 6;
  max_observation_chars = 256;
  no_progress_detector = record { window = 5; max_duplicates = 3 };
}

abbrev grep_call : AgentAction String
grep_call = record { action = "tool"; tool = "grep"; arguments = "x" }

asked_twice : (run given grep_loop []).0.invoked ≡ grep_call ∷ grep_call ∷ []
unfolding run detect take replicate set_of last_items
asked_twice = refl

run-IsFinished_example : IsFinished given grep_loop 0 (run given grep_loop [])
run-IsFinished_example = run-IsFinished given grep_loop []

run-never_repeats_example : (run given grep_loop []).0.invoked ≢ ([] ++ replicate 3 grep_call) ++ []
unfolding replicate
run-never_repeats_example =
    run-never_repeats given grep_loop [] [] (replicate 3 grep_call) []
      (fingerprint given.stable_args grep_call) (omega arith) (omega arith) refl
