-- ===== src/Deployment/Transitions.antt =====
-- The transitions of PolicyDeploymentManager (evoagent/policy_evolution/deployment.py), from
-- `replay_pass` to `pause`. The clock's readings are arguments.
pub mod Graph
pub mod Invariant
use evo_review_agent.Base.{
  ℕ, zero, suc, ◌+◌, String, Bool, true, false, not, ◌&&◌, ◌||◌, Option, none, some, List, [], ◌∷◌,
  if◌then◌else◌,
}
use evo_review_agent.Base.Key.{text_key}
use evo_review_agent.Deployment.Records.{
  DeploymentState, draft, replay_passed, shadow, canary, promoted, rolled_back, paused, CanaryStage,
  replay_gate_passed, moved_to_shadow, gates_not_met, promoted_to_active, deployment_paused,
  canary_started, advanced_to, rolled_back_for, PolicyDeployment, scope_key,
}
use evo_review_agent.Deployment.Manager.{Ladder, Method, commit, require, expect, noted}

abbrev is_draft : DeploymentState → Bool
is_draft draft = true
is_draft _ = false

abbrev is_replay_passed : DeploymentState → Bool
is_replay_passed replay_passed = true
is_replay_passed _ = false

abbrev is_shadow : DeploymentState → Bool
is_shadow shadow = true
is_shadow _ = false

abbrev is_canary : DeploymentState → Bool
is_canary canary = true
is_canary _ = false

abbrev pub item_at : List CanaryStage → ℕ → Option CanaryStage
item_at [] i = none
item_at (s ∷ ss) zero = some s
item_at (s ∷ ss) (suc i) = item_at ss i

-- The item of `_stages` at an index, if it has one there.
unfoldable pub stage_at : Ladder CanaryStage → ℕ → Option CanaryStage
stage_at stages zero = some stages.first
stage_at stages (suc i) = item_at stages.later i

pub replay_pass : String → Method PolicyDeployment
replay_pass id = require id λ d.
    expect (is_draft d.state)
      (commit id (record d { state = replay_passed; notes = noted d replay_gate_passed }))

pub to_shadow : String → Method PolicyDeployment
to_shadow id = require id λ d.
    expect (is_replay_passed d.state)
      (commit id (record d { state = shadow; notes = noted d moved_to_shadow }))

-- The deployment after `start_canary`, with the first stage.
started : PolicyDeployment → CanaryStage → ℕ → ℕ → PolicyDeployment
started d stage staged entered = record d {
  state = canary;
  stage_index = some 0;
  traffic_share = stage.traffic_share;
  staged_at = some staged;
  stage_entered_at = some entered;
  notes = noted d (canary_started stage.traffic_share);
}

pub start_canary : ℕ → ℕ → String → Method PolicyDeployment
start_canary staged entered id =
    require id
      λ d. expect (is_shadow d.state) λ m. commit id (started d m.stages.first staged entered) m

pub promote : ℕ → String → Method PolicyDeployment
promote now id = require id λ d. expect (is_canary d.state) (
    commit id (record d {
      state = promoted;
      traffic_share = 100;
      promoted_at = some now;
      notes = noted d promoted_to_active;
    }))

pub rollback : String → String → Method PolicyDeployment
rollback reason id = require id λ d.
    expect (is_canary d.state || (is_shadow d.state || is_replay_passed d.state)) (
      commit id (record d {
        state = rolled_back;
        traffic_share = 0;
        notes = noted d (rolled_back_for reason);
      }))

pub pause : String → Method PolicyDeployment
pause id = require id λ d.
    expect (is_canary d.state || is_shadow d.state) (
      commit id (record d { state = paused; traffic_share = 0; notes = noted d deployment_paused }))

-- `deployment.stage_index + 1`
next_index : Option ℕ → ℕ
next_index none = 0
next_index (some i) = i + 1

-- The step up the ladder: past its end the deployment is promoted.
climb : Option CanaryStage → ℕ → String → PolicyDeployment → Method PolicyDeployment
climb none now id d = promote now id
climb (some stage) now id d = commit id (record d {
  stage_index = some (next_index d.stage_index);
  traffic_share = stage.traffic_share;
  stage_entered_at = some now;
  notes = noted d (advanced_to stage.traffic_share);
})

-- `advance_stage` past the check of the state
advance : Bool → Bool → Bool → ℕ → String → PolicyDeployment → Method PolicyDeployment
advance sample_ok duration_ok safety_pass now id d m =
    if not safety_pass
    then rollback "hard safety gate failed during canary" id m
    else if not (sample_ok && duration_ok)
    then commit id (record d { notes = noted d gates_not_met }) m
    else climb (stage_at m.stages (next_index d.stage_index)) now id d m

pub advance_stage : Bool → Bool → Bool → ℕ → String → Method PolicyDeployment
advance_stage sample_ok duration_ok safety_pass now id =
    require id λ d. expect (is_canary d.state) (advance sample_ok duration_ok safety_pass now id d)
