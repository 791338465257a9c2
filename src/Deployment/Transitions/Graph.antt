-- ===== src/Deployment/Transitions/Graph.antt =====
-- The state diagram of a deployment (evoagent/policy_evolution/deployment.py).
use evo_review_agent.Base.{ℕ, String, ◌≡◌, refl, Bool, true, false, ◌||◌, Option, none, some}
use evo_review_agent.Base.Key.{text_key}
use evo_review_agent.Base.Dict.{get}
use evo_review_agent.Deployment.Records.{
  DeploymentState, draft, replay_passed, shadow, canary, promoted, rolled_back, paused, CanaryStage,
  PolicyDeployment, scope_key, DeploymentError, illegal_state,
}
use evo_review_agent.Base.Result.{Result, err}
use evo_review_agent.Deployment.Manager.{
  PolicyDeploymentManager, Method, commit, require_found, require, expect,
}
use evo_review_agent.Deployment.Transitions.{
  is_draft, is_replay_passed, is_shadow, is_canary, replay_pass, to_shadow, start_canary, promote,
  rollback, pause, advance_stage, started, climb, advance,
}

infix 40 ◌⟶◌
pub data ◌⟶◌ : DeploymentState → DeploymentState → Type 0 where
  replay : draft ⟶ replay_passed
  observe : replay_passed ⟶ shadow
  begin : shadow ⟶ canary
  stay : canary ⟶ canary
  adopt : canary ⟶ promoted
  fail_replayed : replay_passed ⟶ rolled_back
  fail_shadow : shadow ⟶ rolled_back
  fail_canary : canary ⟶ rolled_back
  pause_shadow : shadow ⟶ paused
  pause_canary : canary ⟶ paused

ruleset edges = (
  replay, observe, begin, stay, adopt, fail_replayed, fail_shadow, fail_canary, pause_shadow,
  pause_canary,
)

-- A transition method as an event of the manager.
pub data Event : Type 0 where
  replay_pass_event shadow_event promote_event pause_event : Event
  start_event : ℕ → ℕ → Event
  rollback_event : String → Event
  advance_event : Bool → Bool → Bool → Event

unfoldable pub transition : Event → ℕ → String → Method PolicyDeployment
transition replay_pass_event now = replay_pass
transition shadow_event now = to_shadow
transition promote_event now = promote now
transition pause_event now = pause
transition (start_event staged entered) now = start_canary staged entered
transition (rollback_event reason) now = rollback reason
transition (advance_event sample duration safety) now = advance_stage sample duration safety now

-- The outcome of a transition on the deployment `d` that stands under `id` in `m`: either it raised
-- and changed nothing, or it returned the deployment that it left under `id` and nowhere else, and
-- the state of that one is a successor of the state of `d`.
pub data Outcome (m : PolicyDeploymentManager) (id : String) (d : PolicyDeployment)
    : PolicyDeploymentManager × Result DeploymentError PolicyDeployment → Type 0 where
  refused : (e : DeploymentError) → Outcome m id d (m, err e)
  moved : (d' : PolicyDeployment) → d.state ⟶ d'.state → Outcome m id d (commit id d' m)

-- The outcome of the part of a method behind its check of the state.
expect-Outcome :
    (m : PolicyDeploymentManager) (id : String) (d : PolicyDeployment) (b : Bool)
    (rest : Method PolicyDeployment)
    → (b ≡ true → Outcome m id d (rest m))
    → Outcome m id d (expect b rest m)
unfolding expect
expect-Outcome m id d true rest h = h refl
expect-Outcome m id d false rest h = refused illegal_state

replay_edge : (s : DeploymentState) → is_draft s ≡ true → s ⟶ replay_passed
replay_edge draft h = replay
replay_edge _ h = cc

observe_edge : (s : DeploymentState) → is_replay_passed s ≡ true → s ⟶ shadow
observe_edge replay_passed h = observe
observe_edge _ h = cc

begin_edge : (s : DeploymentState) → is_shadow s ≡ true → s ⟶ canary
begin_edge shadow h = begin
begin_edge _ h = cc

adopt_edge : (s : DeploymentState) → is_canary s ≡ true → s ⟶ promoted
adopt_edge canary h = adopt
adopt_edge _ h = cc

stay_edge : (s : DeploymentState) → is_canary s ≡ true → s ⟶ canary
stay_edge canary h = stay
stay_edge _ h = cc

hold_edge : (s : DeploymentState) → is_canary s ≡ true → s ⟶ s
hold_edge canary h = stay
hold_edge _ h = cc

fail_edge :
    (s : DeploymentState)
    → (is_canary s || (is_shadow s || is_replay_passed s)) ≡ true
    → s ⟶ rolled_back
fail_edge canary h = fail_canary
fail_edge shadow h = fail_shadow
fail_edge replay_passed h = fail_replayed
fail_edge _ h = cc

pause_edge : (s : DeploymentState) → (is_canary s || is_shadow s) ≡ true → s ⟶ paused
pause_edge canary h = pause_canary
pause_edge shadow h = pause_shadow
pause_edge _ h = cc

module _ (m : PolicyDeploymentManager) (id : String) (d : PolicyDeployment)
    (found : get m.deployments id ≡ some d) where
  require-Outcome :
      (rest : PolicyDeployment → Method PolicyDeployment)
      → Outcome m id d (rest d m)
      → Outcome m id d (require id rest m)
  unfolding require require_found
  require-Outcome rest h = rw (found, require_found) h

  promote-Outcome : (now : ℕ) → Outcome m id d (promote now id m)
  unfolding promote
  promote-Outcome now =
      require-Outcome _ (expect-Outcome m id d _ _ λ c. moved _ (adopt_edge d.state c))

  rollback-Outcome : (reason : String) → Outcome m id d (rollback reason id m)
  unfolding rollback
  rollback-Outcome reason =
      require-Outcome _ (expect-Outcome m id d _ _ λ c. moved _ (fail_edge d.state c))

  climb-Outcome :
      (o : Option CanaryStage) (now : ℕ)
      → is_canary d.state ≡ true
      → Outcome m id d (climb o now id d m)
  unfolding climb
  climb-Outcome none now c = promote-Outcome now
  climb-Outcome (some stage) now c = moved _ (hold_edge d.state c)

  advance-Outcome :
      (sample duration safety : Bool) (now : ℕ)
      → is_canary d.state ≡ true
      → Outcome m id d (advance sample duration safety now id d m)
  unfolding advance
  advance-Outcome sample duration false now c = rollback-Outcome _
  advance-Outcome true true true now c = climb-Outcome _ now c
  advance-Outcome true false true now c = moved _ (hold_edge d.state c)
  advance-Outcome false duration true now c = moved _ (hold_edge d.state c)

  -- Every transition of a deployment that is there either raises and changes nothing, or moves it
  -- along an edge of the diagram and changes no other deployment, no pointer and no policy.
  pub transition-Outcome : (e : Event) (now : ℕ) → Outcome m id d (transition e now id m)
  unfolding transition replay_pass to_shadow start_canary pause advance_stage started
  transition-Outcome replay_pass_event now =
      require-Outcome _ (expect-Outcome m id d _ _ λ c. moved _ (replay_edge d.state c))
  transition-Outcome shadow_event now =
      require-Outcome _ (expect-Outcome m id d _ _ λ c. moved _ (observe_edge d.state c))
  transition-Outcome promote_event now = promote-Outcome now
  transition-Outcome pause_event now =
      require-Outcome _ (expect-Outcome m id d _ _ λ c. moved _ (pause_edge d.state c))
  transition-Outcome (start_event staged entered) now =
      require-Outcome _ (expect-Outcome m id d _ _ λ c. moved _ (begin_edge d.state c))
  transition-Outcome (rollback_event reason) now = rollback-Outcome reason
  transition-Outcome (advance_event sample duration safety) now =
      require-Outcome _
        (expect-Outcome m id d _ _ λ c. advance-Outcome sample duration safety now c)

-- From a terminal state no transition returns: it raises and changes nothing.
abbrev pub IsTerminal : DeploymentState → Type 0
IsTerminal promoted = Unit
IsTerminal rolled_back = Unit
IsTerminal paused = Unit
IsTerminal _ = ⊥

no_edge : {s t : DeploymentState} → IsTerminal s → ¬ (s ⟶ t)
no_edge h replay = h
no_edge h observe = h
no_edge h begin = h
no_edge h stay = h
no_edge h adopt = h
no_edge h fail_replayed = h
no_edge h fail_shadow = h
no_edge h fail_canary = h
no_edge h pause_shadow = h
no_edge h pause_canary = h

refused_at :
    {m : PolicyDeploymentManager} {id : String} {d : PolicyDeployment}
    {r : PolicyDeploymentManager × Result DeploymentError PolicyDeployment}
    → IsTerminal d.state
    → Outcome m id d r
    → (e : DeploymentError) × (r ≡ (m, err e))
refused_at h (refused e) = (e, refl)
refused_at h (moved d' edge) = absurd (no_edge h edge)

-- A deployment that was promoted, rolled back or paused stays as it is: every transition of it raises
-- and leaves the manager unchanged.
pub transition-terminal :
    (m : PolicyDeploymentManager) (id : String) (d : PolicyDeployment) (e : Event) (now : ℕ)
    → get m.deployments id ≡ some d
    → IsTerminal d.state
    → (x : DeploymentError) × (transition e now id m ≡ (m, err x))
transition-terminal m id d e now found h = refused_at h (transition-Outcome m id d found e now)
