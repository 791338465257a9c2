-- ===== src/TaskQueue/Examples.antt =====
-- The queue at concrete inputs: a message that fails twice and is replayed, and one that succeeds.
use evo_review_agent.Base.{String, true, Option, some, List, [], ◌∷◌}
use evo_review_agent.Base.Key.{text_key}
use evo_review_agent.TaskQueue.{
  Event, submits, replays, works, fires, closes, done, transient, task_queue, run,
}
use evo_review_agent.TaskQueue.Accounts.{IsAccounted, run-IsAccounted}
use evo_review_agent.TaskQueue.Handlings.Bound.{IsBounded, run-IsBounded}

abbrev task_id_of : String → Option String
task_id_of payload = some payload

abbrev events : List (Event String)
events =
    submits "a" "" "u1" 0
    ∷ submits "b" "" "u2" 1
    ∷ works 0 (transient []) 2
    ∷ works 0 done 3
    ∷ fires 0
    ∷ works 0 (transient []) 4
    ∷ replays "a" "u3" 5
    ∷ closes
    ∷ []

run-IsAccounted_example : IsAccounted "a" (run task_id_of (task_queue 2 true) events)
run-IsAccounted_example = run-IsAccounted task_id_of 2 true events "a"

run-IsBounded_example : IsBounded 2 "a" (run task_id_of (task_queue 2 true) events)
run-IsBounded_example = run-IsBounded task_id_of 2 true events "a"
