-- ===== src/Runtime/Loop.antt =====
-- AgentLoop of evoagent/runtime.py. The model, the clock, the tools and the dump of arguments as JSON are
-- parameters; the model and the clock are given the number of the step. A text that is cut off is a list
-- of characters, here of their codes. Of an event its details are left out.
pub mod Budget
pub mod Progress
use evo_review_agent.Base.{
  ℕ, zero, suc, ◌+◌, max, String, Bool, false, not, ◌&&◌, Option, none, some, List, [], ◌∷◌, ◌++◌,
  ltb, leb, if◌then◌else◌, length,
}
use evo_review_agent.Base.Key.{◌==◌, text_key}
use evo_review_agent.Base.Result.{Result, err, ok}
use evo_review_agent.Base.Slices.{take}
use evo_review_agent.Policy.Models.{ExecutionPolicy}
use evo_review_agent.Recovery.Failures.{FailureType, retryable_for_backoff}
use evo_review_agent.Recovery.Classifier.{Raised, classify}
use evo_review_agent.Recovery.NoProgress.{
  NoProgressDetector, AgentAction, no_progress_detector, detect,
}

pub record AgentLoop : Type 0 where
  pub max_steps : ℕ
  pub timeout_seconds : ℕ
  pub max_tool_calls : Option ℕ
  pub max_observation_chars : ℕ
  pub no_progress_detector : NoProgressDetector

or_detector : Option NoProgressDetector → NoProgressDetector
or_detector none = no_progress_detector 5 3
or_detector (some d) = d

-- `__init__`, behind the choice of the budgets
checked_loop : ℕ → ℕ → Option ℕ → ℕ → Option NoProgressDetector → Option AgentLoop
unfolding or_detector
checked_loop max_steps timeout_seconds calls chars detector =
    if leb 1 max_steps && leb 1 timeout_seconds
    then some (record {
      max_steps = max_steps;
      timeout_seconds = timeout_seconds;
      max_tool_calls = calls;
      max_observation_chars = max 256 chars;
      no_progress_detector = or_detector detector;
    })
    else none

-- `__init__`; `none` stands for its ValueErrors.
pub agent_loop : ℕ → ℕ → ℕ → Option ExecutionPolicy → Option NoProgressDetector → Option AgentLoop
unfolding checked_loop
agent_loop max_steps timeout_seconds chars none detector =
    checked_loop max_steps timeout_seconds none chars detector
agent_loop max_steps timeout_seconds chars (some p) detector =
    checked_loop p.budget.max_steps p.budget.max_wall_time_seconds (some p.budget.max_tool_calls)
      chars detector

-- What the model answers. A kind and a tool stand as they are when stripped, a kind in lower case too;
-- arguments are none if they are not an object.
pub record Action (A V : Type 0) : Type 0 where
  pub kind : String
  pub output : V
  pub tool : String
  pub arguments : Option A

pub data Answer (A V : Type 0) : Type 0 where
  stepper_raises : Raised → Answer A V
  not_an_object : Answer A V
  object : Action A V → Answer A V

-- What a tool does: the text of its value, or an exception. The AgentLoopNoProgress is told apart.
pub data ToolResult : Type 0 where
  returned : List ℕ → ToolResult
  no_progress_raised : ToolResult
  raised : Raised → ToolResult

pub data Observed : Type 0 where
  result : List ℕ → Observed
  failure : List ℕ → FailureType → Bool → Observed

pub record Observation : Type 0 where
  pub step : ℕ
  pub tool : String
  pub observed : Observed

pub record AgentLoopResult (V : Type 0) : Type 0 where
  pub output : V
  pub steps : ℕ
  pub observations : List Observation

pub data LoopError : Type 0 where
  time_exceeded tool_calls_exceeded steps_exceeded not_object arguments_not_object : LoopError
  unsupported_action no_progress : String → LoopError
  tool_no_progress : LoopError
  stepper_failed : Raised → LoopError

pub data LoopEvent : Type 0 where
  action_event : String → LoopEvent
  time_exhausted calls_exhausted steps_exhausted : LoopEvent
  no_progress_event : String → LoopEvent
  observation_event : LoopEvent

-- The variables of `run`. `invoked` is what the tools were asked, `steps` the answers of the model.
pub record LoopState (A : Type 0) : Type 0 where
  pub steps : ℕ
  pub observations : List Observation
  pub actions : List (AgentAction A)
  pub invoked : List (AgentAction A)
  pub events : List (ℕ × LoopEvent)

abbrev pub Looped : Type 0 → Type 0 → Type 0
Looped A V = LoopState A × Result LoopError (AgentLoopResult V)

pub record Given (A V : Type 0) : Type 0 where
  pub stepper : ℕ → List Observation → Answer A V
  pub elapsed : ℕ → ℕ
  pub invoke : ℕ → String → A → ToolResult
  pub stable_args : A → String

emit : {A : Type 0} → ℕ → LoopEvent → LoopState A → LoopState A
emit step e r = record r { events = r.events ++ ((step, e) ∷ []) }

observe : {A : Type 0} → ℕ → String → Observed → LoopState A → LoopState A
unfolding emit
observe step tool o r = emit step observation_event (record r {
  observations = r.observations ++ (record { step = step; tool = tool; observed = o } ∷ []);
})

spent : {A : Type 0} → Option ℕ → LoopState A → Bool
spent none r = false
spent (some n) r = leb n (length r.observations)

module _ {A V : Type 0} (g : Given A V) (config : AgentLoop) where
  -- The observation of what the tool did.
  observed : ℕ → String → ToolResult → LoopState A → (LoopState A → Looped A V) → Looped A V
  unfolding observe take
  observed step tool (returned text) r next =
      next (observe step tool (result (take config.max_observation_chars text)) r)
  observed step tool no_progress_raised r next = (r, err tool_no_progress)
  observed step tool (raised e) r next =
      let type = classify (some e) [] [] false in
      next (observe step tool (failure (take 1000 e.message) type (retryable_for_backoff type)) r)

  -- A call of a tool whose arguments are an object.
  call_tool : ℕ → AgentAction A → LoopState A → (LoopState A → Looped A V) → Looped A V
  unfolding observed emit
  call_tool step a r next =
      let seen = record r { actions = r.actions ++ (a ∷ []) } in
      if detect g.stable_args config.no_progress_detector seen.actions
      then (emit step (no_progress_event a.tool) seen, err (no_progress a.tool))
      else observed step a.tool (g.invoke step a.tool a.arguments)
          (record seen { invoked = r.invoked ++ (a ∷ []) }) next

  with_arguments : ℕ → String → Option A → LoopState A → (LoopState A → Looped A V) → Looped A V
  unfolding call_tool
  with_arguments step tool none r next = (r, err arguments_not_object)
  with_arguments step tool (some arguments) r next =
      call_tool step (record { action = "tool"; tool = tool; arguments = arguments }) r next

  -- The action that the model chose.
  act : ℕ → Action A V → LoopState A → (LoopState A → Looped A V) → Looped A V
  unfolding with_arguments spent emit
  act step a q next =
      let r = emit step (action_event a.kind) q in
      if a.kind == "final"
      then (r, ok (record { output = a.output; steps = step; observations = r.observations }))
      else if not (a.kind == "tool")
      then (r, err (unsupported_action a.kind))
      else if spent config.max_tool_calls r
      then (emit step calls_exhausted r, err tool_calls_exceeded)
      else with_arguments step a.tool a.arguments r next

  answered : ℕ → Answer A V → LoopState A → (LoopState A → Looped A V) → Looped A V
  unfolding act
  answered step (stepper_raises e) r next = (r, err (stepper_failed e))
  answered step not_an_object r next = (r, err not_object)
  answered step (object a) r next = act step a r next

  -- One round of the loop.
  round : ℕ → LoopState A → (LoopState A → Looped A V) → Looped A V
  unfolding answered emit
  round step r next =
      if ltb config.timeout_seconds (g.elapsed step)
      then (emit step time_exhausted r, err time_exceeded)
      else answered step (g.stepper step r.observations) (record r { steps = step }) next

  -- `range(step, max_steps + 1)`, of which so many are left.
  rounds : ℕ → ℕ → LoopState A → Looped A V
  unfolding round
  rounds zero step r = (emit config.max_steps steps_exhausted r, err steps_exceeded)
  rounds (suc left) step r = round step r (rounds left (step + 1))

  unfoldable pub run : List Observation → Looped A V
  unfolding rounds
  run observations =
      rounds config.max_steps 1
        (record { steps = 0; observations = observations; actions = []; invoked = []; events = [] })
