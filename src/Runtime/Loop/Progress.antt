-- ===== src/Runtime/Loop/Progress.antt =====
-- What the agent loop of evoagent/runtime.py never asks its tools.
use evo_review_agent.Base.{
  ℕ, zero, suc, ◌+◌, ◌≤◌, String, ◌≡◌, refl, sym, ap, ◌∙◌, ◌≢◌, inl, inr, false, not, Option, none,
  some, List, [], ◌∷◌, ◌++◌, map, arith, ltb, length, length-append, if_rule,
}
use evo_review_agent.Base.Key.{◌==◌, text_key}
use mathlib.Core.List.{map-append}
use evo_review_agent.Base.Slices.{replicate, append-split, length-map, length-replicate}
use evo_review_agent.Recovery.NoProgress.{AgentAction, detect}
use evo_review_agent.Recovery.NoProgress.{fingerprint}
use evo_review_agent.Recovery.NoProgress.Detection.{detect-repeats}
use evo_review_agent.Runtime.Loop.{
  AgentLoop, Action, Answer, stepper_raises, not_an_object, object, ToolResult, returned,
  no_progress_raised, raised, Observation, action_event, LoopState, Looped, Given, emit, observe,
  spent, observed, call_tool, with_arguments, act, answered, round, rounds, run,
}

module _ {A V : Type 0} (g : Given A V) (config : AgentLoop) where
  -- The detector saw no loop in any beginning of the calls.
  Unlooped : List (AgentAction A) → Type 0
  Unlooped l =
      (ys zs : List (AgentAction A))
      → l ≡ ys ++ zs
      → 1 ≤ length ys
      → detect g.stable_args config.no_progress_detector ys ≡ false

  IsFree : Looped A V → Type 0
  IsFree x = Unlooped x.0.invoked

  -- Before a round all actions were calls.
  record Before (r : LoopState A) : Type 0 where
    all_called : r.actions ≡ r.invoked
    free : Unlooped r.invoked

  more-Unlooped :
      (l : List (AgentAction A)) (a : AgentAction A)
      → Unlooped l
      → detect g.stable_args config.no_progress_detector (l ++ (a ∷ [])) ≡ false
      → Unlooped (l ++ (a ∷ []))
  unfolding Unlooped
  more-Unlooped l a h new ys zs e some_of = elim (append-split l a ys zs e) [
    | inl whole ↦ ap (detect g.stable_args config.no_progress_detector) whole ∙ new
    | inr (rest, e') ↦ h ys rest e' some_of
  ]

  module _ (step : ℕ) (next : LoopState A → Looped A V)
      (k : (q : LoopState A) → Before q → IsFree (next q)) where
    observed-IsFree :
        (tool : String) (o : ToolResult) (r : LoopState A)
        → Before r
        → IsFree (observed g config step tool o r next)
    unfolding observed observe emit IsFree
    observed-IsFree tool (returned text) r h =
        k _ (record { all_called = h.all_called; free = h.free })
    observed-IsFree tool no_progress_raised r h = h.free
    observed-IsFree tool (raised e) r h = k _ (record { all_called = h.all_called; free = h.free })

    call_tool-IsFree :
        (a : AgentAction A) (r : LoopState A) → Before r → IsFree (call_tool g config step a r next)
    unfolding call_tool emit IsFree
    call_tool-IsFree a r h =
        if_rule IsFree (detect g.stable_args config.no_progress_detector (r.actions ++ (a ∷ []))) _
          _ (λ stuck. h.free)
          (λ fine. observed-IsFree a.tool (g.invoke step a.tool a.arguments) _ (record {
            all_called = ap (λ l. l ++ (a ∷ [])) h.all_called;
            free = more-Unlooped r.invoked a h.free (
                ap (λ l. detect g.stable_args config.no_progress_detector (l ++ (a ∷ [])))
                  (sym h.all_called)
                ∙ fine);
          }))

    with_arguments-IsFree :
        (tool : String) (arguments : Option A) (r : LoopState A)
        → Before r
        → IsFree (with_arguments g config step tool arguments r next)
    unfolding with_arguments IsFree
    with_arguments-IsFree tool none r h = h.free
    with_arguments-IsFree tool (some arguments) r h = call_tool-IsFree _ r h

    act-IsFree : (a : Action A V) (q : LoopState A) → Before q → IsFree (act g config step a q next)
    unfolding act emit IsFree
    act-IsFree a q h =
        if_rule IsFree (a.kind == "final") _ _ (λ final. h.free)
          (λ other.
            if_rule IsFree (not (a.kind == "tool")) _ _ (λ unknown. h.free)
              (λ known.
                if_rule IsFree (spent config.max_tool_calls (emit step (action_event a.kind) q)) _ _
                  (λ full. h.free)
                  (λ room.
                    with_arguments-IsFree a.tool a.arguments _
                      (record { all_called = h.all_called; free = h.free }))))

    answered-IsFree :
        (o : Answer A V) (q : LoopState A) → Before q → IsFree (answered g config step o q next)
    unfolding answered IsFree
    answered-IsFree (stepper_raises e) q h = h.free
    answered-IsFree not_an_object q h = h.free
    answered-IsFree (object a) q h = act-IsFree a q h

    round-IsFree : (r : LoopState A) → Before r → IsFree (round g config step r next)
    unfolding round emit IsFree
    round-IsFree r h =
        if_rule IsFree (ltb config.timeout_seconds (g.elapsed step)) _ _ (λ late. h.free)
          (λ timely.
            answered-IsFree (g.stepper step r.observations) _
              (record { all_called = h.all_called; free = h.free }))

  rounds-IsFree :
      (left step : ℕ) (r : LoopState A) → Before r → IsFree (rounds g config left step r)
  unfolding rounds emit IsFree
  rounds-IsFree zero step r h = h.free
  rounds-IsFree (suc left) step r h =
      round-IsFree step _ (λ q before. rounds-IsFree left (step + 1) q before) r h

nothing-Unlooped : {A V : Type 0} (g : Given A V) (config : AgentLoop) → Unlooped g config []
unfolding Unlooped
nothing-Unlooped g config [] zs e h = absurd (omega (arith, h))
nothing-Unlooped g config (y ∷ ys) zs e h = cc

-- With a detector whose window is no shorter than its limit, the tools are never asked that many times
-- in a row for the same: no such stretch of calls, which have one fingerprint, lies among those of a run.
pub run-never_repeats :
    {A V : Type 0} (g : Given A V) (config : AgentLoop) (observations : List Observation)
    (before same after : List (AgentAction A)) (f : String)
    → 1 ≤ config.no_progress_detector.max_duplicates
    → config.no_progress_detector.max_duplicates ≤ config.no_progress_detector.window
    → map (fingerprint g.stable_args) same ≡ replicate config.no_progress_detector.max_duplicates f
    → (run g config observations).0.invoked ≢ (before ++ same) ++ after
unfolding run IsFree Unlooped
run-never_repeats g config observations before same after f positive fits copies e =
    let d = config.no_progress_detector in
    let start : Before g config _ = record {
      all_called = refl;
      free = nothing-Unlooped g config;
    } in
    let free =
      rounds-IsFree g config config.max_steps 1
        (record { steps = 0; observations = observations; actions = []; invoked = []; events = [] })
        start in
    let stuck =
      detect-repeats g.stable_args d (before ++ same) (map (fingerprint g.stable_args) before) f
        positive fits
        (map-append (fingerprint g.stable_args) before same
          ∙ ap (λ l. map (fingerprint g.stable_args) before ++ l) copies) in
    let long : length (before ++ same) ≡ length before + d.max_duplicates =
      length-append before same
      ∙ ap (λ n. length before + n)
          (sym (length-map (fingerprint g.stable_args) same)
            ∙ ap length copies
            ∙ length-replicate d.max_duplicates f) in
    let unseen = free (before ++ same) after e (omega (arith, long, positive)) in
    ground (arith, unseen, stuck)
