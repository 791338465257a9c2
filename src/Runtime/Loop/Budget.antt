-- ===== src/Runtime/Loop/Budget.antt =====
-- The budgets that AgentLoop.run of evoagent/runtime.py keeps, and why it ends.
use evo_review_agent.Base.{
  ℕ, zero, suc, ◌+◌, ◌≤◌, ◌<◌, max, String, ◌≡◌, refl, sym, ap, true, false, not, Option, none,
  some, List, [], ◌∷◌, ◌++◌, arith, ltb, ltb→lt, leb→le, length, length-append, if_rule,
  leb-false→lt,
}
use evo_review_agent.Base.Key.{◌==◌, text_key}
use mathlib.Core.Path.{subst}
use evo_review_agent.Base.Result.{Result, err, ok}
use evo_review_agent.Recovery.NoProgress.{AgentAction, detect}
use evo_review_agent.Runtime.Loop.{
  AgentLoop, Action, Answer, stepper_raises, not_an_object, object, ToolResult, returned,
  no_progress_raised, raised, Observed, Observation, AgentLoopResult, LoopError, time_exceeded,
  tool_calls_exceeded, steps_exceeded, action_event, calls_exhausted, LoopState, Looped, Given,
  emit, observe, spent, observed, call_tool, with_arguments, act, answered, round, rounds, run,
}

-- With so many observations the limit on tool calls was not passed, unless it was from the start.
pub Within : Option ℕ → ℕ → ℕ → Type 0
Within none start n = Unit
Within (some limit) start n = n ≤ max limit start

module _ {A V : Type 0} (g : Given A V) (config : AgentLoop) (start : ℕ) where
  -- Why the loop ended as it did.
  pub Explained : LoopState A → Result LoopError (AgentLoopResult V) → Type 0
  Explained r (ok res) =
      (a : Action A V) × (g.stepper r.steps r.observations ≡ object a)
      × ((a.kind == "final") ≡ true)
      × (res ≡ record { output = a.output; steps = r.steps; observations = r.observations })
  Explained r (err steps_exceeded) =
      (r.steps ≡ config.max_steps) × (length r.invoked ≡ config.max_steps)
  Explained r (err tool_calls_exceeded) =
      (limit : ℕ) × (config.max_tool_calls ≡ some limit) × (limit ≤ length r.observations)
  Explained r (err time_exceeded) = config.timeout_seconds < g.elapsed (r.steps + 1)
  Explained r (err e) = Unit

  -- The loop took no more steps than it may and asked the tools at most once for each; each call left
  -- at most one observation, and the limit on them was kept; and it ended for a reason.
  pub record IsFinished (x : Looped A V) : Type 0 where
    pub steps : x.0.steps ≤ config.max_steps
    pub calls : length x.0.invoked ≤ x.0.steps
    pub kept : length x.0.observations ≤ start + length x.0.invoked
    pub within : Within config.max_tool_calls start (length x.0.observations)
    pub explained : Explained x.0 x.1

  -- Before a round, all steps so far were calls with their observations.
  record Before (step : ℕ) (r : LoopState A) : Type 0 where
    done : r.steps + 1 ≡ step
    calls : length r.invoked ≡ r.steps
    kept : length r.observations ≡ start + r.steps
    within : Within config.max_tool_calls start (length r.observations)

  -- In the round of a step.
  record At (step : ℕ) (r : LoopState A) : Type 0 where
    now : r.steps ≡ step
    calls : length r.invoked + 1 ≡ step
    kept : length r.observations + 1 ≡ start + step
    within : Within config.max_tool_calls start (length r.observations)
    fits : step ≤ config.max_steps

  -- A call that ends the loop, or any other end in the middle of a round.
  stopped :
      (step : ℕ) (r : LoopState A) (x : Result LoopError (AgentLoopResult V))
      → At step r
      → Explained r x
      → IsFinished (r, x)
  stopped step r x h why = record {
    steps = omega (arith, h.now, h.fits);
    calls = omega (arith, h.now, h.calls);
    kept = omega (arith, h.now, h.calls, h.kept);
    within = h.within;
    explained = why;
  }

  spent-cases :
      (limit : Option ℕ) (r : LoopState A)
      → spent limit r ≡ false
      → Within limit start (length r.observations)
      → Within limit start (length r.observations + 1)
  unfolding spent Within
  spent-cases none r free h = tt
  spent-cases (some n) r free h = omega (arith, leb-false→lt n (length r.observations) free)

  spent-limit :
      (limit : Option ℕ) (r : LoopState A)
      → spent limit r ≡ true
      → (n : ℕ) × (limit ≡ some n) × (n ≤ length r.observations)
  unfolding spent
  spent-limit none r h = cc
  spent-limit (some n) r h = (n, refl, leb→le n (length r.observations) h)

  weaker : (limit : Option ℕ) (n : ℕ) → Within limit start (n + 1) → Within limit start n
  unfolding Within
  weaker none n h = tt
  weaker (some l) n h = omega (arith, h)

  -- Behind a call of a tool.
  record Called (step : ℕ) (r : LoopState A) : Type 0 where
    now : r.steps ≡ step
    calls : length r.invoked ≡ step
    kept : length r.observations + 1 ≡ start + step
    within : Within config.max_tool_calls start (length r.observations + 1)
    fits : step ≤ config.max_steps

  module _ (step : ℕ) (next : LoopState A → Looped A V)
      (k : (q : LoopState A) → Before (step + 1) q → IsFinished (next q)) where
    observe-IsFinished :
        (tool : String) (o : Observed) (r : LoopState A)
        → Called step r
        → IsFinished (next (observe step tool o r))
    unfolding observe emit
    observe-IsFinished tool o r h =
        let seen : Observation = record { step = step; tool = tool; observed = o } in
        let longer : length (r.observations ++ (seen ∷ [])) ≡ length r.observations + 1 =
          length-append r.observations (seen ∷ []) in
        k (observe step tool o r) (record {
          done = omega (arith, h.now);
          calls = omega (arith, h.now, h.calls);
          kept = omega (arith, h.now, h.kept, longer);
          within = subst (Within config.max_tool_calls start) (sym longer) h.within;
        })

    observed-IsFinished :
        (tool : String) (o : ToolResult) (r : LoopState A)
        → Called step r
        → IsFinished (observed g config step tool o r next)
    unfolding observed Explained
    observed-IsFinished tool (returned text) r h = observe-IsFinished tool _ r h
    observed-IsFinished tool no_progress_raised r h = record {
      steps = omega (arith, h.now, h.fits);
      calls = omega (arith, h.now, h.calls);
      kept = omega (arith, h.calls, h.kept);
      within = weaker config.max_tool_calls (length r.observations) h.within;
      explained = tt;
    }
    observed-IsFinished tool (raised e) r h = observe-IsFinished tool _ r h

    call_tool-IsFinished :
        (a : AgentAction A) (r : LoopState A)
        → At step r
        → Within config.max_tool_calls start (length r.observations + 1)
        → IsFinished (call_tool g config step a r next)
    unfolding call_tool emit Explained
    call_tool-IsFinished a r h room =
        let longer = length-append r.invoked (a ∷ []) in
        if_rule IsFinished
          (detect g.stable_args config.no_progress_detector (r.actions ++ (a ∷ []))) _ _
          (λ stuck.
            stopped step _ _
              (record {
                now = h.now;
                calls = h.calls;
                kept = h.kept;
                within = h.within;
                fits = h.fits;
              })
              tt)
          (λ fine. observed-IsFinished a.tool (g.invoke step a.tool a.arguments) _ (record {
            now = h.now;
            calls = omega (arith, longer, h.calls);
            kept = h.kept;
            within = room;
            fits = h.fits;
          }))

    with_arguments-IsFinished :
        (tool : String) (arguments : Option A) (r : LoopState A)
        → At step r
        → Within config.max_tool_calls start (length r.observations + 1)
        → IsFinished (with_arguments g config step tool arguments r next)
    unfolding with_arguments Explained
    with_arguments-IsFinished tool none r h room = stopped step r _ h tt
    with_arguments-IsFinished tool (some arguments) r h room =
        call_tool-IsFinished (record { action = "tool"; tool = tool; arguments = arguments }) r h
          room

    act-IsFinished :
        (a : Action A V) (q : LoopState A)
        → g.stepper q.steps q.observations ≡ object a
        → At step q
        → IsFinished (act g config step a q next)
    unfolding act emit Explained
    act-IsFinished a q asked h =
        let r : LoopState A = emit step (action_event a.kind) q in
        let here : At step r = record {
          now = h.now;
          calls = h.calls;
          kept = h.kept;
          within = h.within;
          fits = h.fits;
        } in
        if_rule IsFinished (a.kind == "final") _ _
          (λ final. stopped step r _ here (
            a,
            asked,
            final,
            ap {B = AgentLoopResult V}
                (λ n. record { output = a.output; steps = n; observations = q.observations })
                (sym h.now),
          ))
          (λ other.
            if_rule IsFinished (not (a.kind == "tool")) _ _ (λ unknown. stopped step r _ here tt)
              (λ known.
                if_rule IsFinished (spent config.max_tool_calls r) _ _
                  (λ full.
                    stopped step (emit step calls_exhausted r) _
                      (record {
                        now = h.now;
                        calls = h.calls;
                        kept = h.kept;
                        within = h.within;
                        fits = h.fits;
                      })
                      (spent-limit config.max_tool_calls r full))
                  (λ free.
                    with_arguments-IsFinished a.tool a.arguments r here
                      (spent-cases config.max_tool_calls r free h.within))))

    answered-IsFinished :
        (o : Answer A V) (q : LoopState A)
        → g.stepper q.steps q.observations ≡ o
        → At step q
        → IsFinished (answered g config step o q next)
    unfolding answered Explained
    answered-IsFinished (stepper_raises e) q asked h = stopped step q _ h tt
    answered-IsFinished not_an_object q asked h = stopped step q _ h tt
    answered-IsFinished (object a) q asked h = act-IsFinished a q asked h

    round-IsFinished :
        (r : LoopState A)
        → step ≤ config.max_steps
        → Before step r
        → IsFinished (round g config step r next)
    unfolding round emit Explained
    round-IsFinished r fits h =
        if_rule IsFinished (ltb config.timeout_seconds (g.elapsed step)) _ _
          (λ late. record {
            steps = omega (arith, fits, h.done);
            calls = omega (arith, h.calls);
            kept = omega (arith, h.calls, h.kept);
            within = h.within;
            explained =
                subst (λ n. config.timeout_seconds < g.elapsed n) (sym h.done)
                  (ltb→lt config.timeout_seconds (g.elapsed step) late);
          })
          (λ timely.
            answered-IsFinished (g.stepper step r.observations) (record r { steps = step }) refl
              (record {
                now = refl;
                calls = omega (arith, h.calls, h.done);
                kept = omega (arith, h.kept, h.done);
                within = h.within;
                fits = fits;
              }))

  rounds-IsFinished :
      (left step : ℕ) (r : LoopState A)
      → left + step ≡ config.max_steps + 1
      → Before step r
      → IsFinished (rounds g config left step r)
  unfolding rounds emit Explained
  rounds-IsFinished zero step r sum h = record {
    steps = omega (arith, h.done, sum);
    calls = omega (arith, h.calls);
    kept = omega (arith, h.calls, h.kept);
    within = h.within;
    explained = (omega (arith, h.done, sum), omega (arith, h.done, h.calls, sum));
  }
  rounds-IsFinished (suc left) step r sum h =
      round-IsFinished step (rounds g config left (step + 1))
        (λ q before. rounds-IsFinished left (step + 1) q (omega (arith, sum)) before) r
        (omega (arith, sum)) h

starts-Within : (limit : Option ℕ) (n : ℕ) → Within limit n n
unfolding Within
starts-Within none n = tt
starts-Within (some l) n = omega arith

-- Whatever the model, the tools and the clock do, the loop returns: it took at most `max_steps` steps,
-- asked the tools at most once for each, kept at most one observation for each call, and no more than
-- the limit on tool calls unless there were more from the start. Its result is what the model gave in
-- the last step as final; it gives up for want of steps only after asking a tool in every step, for the
-- limit on calls only with as many observations, and for time only after the timeout.
pub run-IsFinished :
    {A V : Type 0} (g : Given A V) (config : AgentLoop) (observations : List Observation)
    → IsFinished g config (length observations) (run g config observations)
unfolding run
run-IsFinished g config observations =
    rounds-IsFinished g config (length observations) config.max_steps 1 _ refl (record {
      done = refl;
      calls = refl;
      kept = omega arith;
      within = starts-Within config.max_tool_calls (length observations);
    })
