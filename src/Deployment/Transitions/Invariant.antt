-- ===== src/Deployment/Transitions/Invariant.antt =====
-- What holds of every deployment of a manager between two calls
-- (evoagent/policy_evolution/deployment.py).
use evo_review_agent.Base.{
  ℕ, String, ◌≡◌, refl, ◌∙◌, Bool, true, false, Option, none, some, List, [], ◌∷◌,
}
use evo_review_agent.Base.Key.{text_key}
use evo_review_agent.Base.Dict.{Dict, get}
use evo_review_agent.Deployment.Records.{
  DeploymentState, draft, replay_passed, canary, promoted, CanaryStage, PolicyDeployment,
  ExposureRecord, Scope, scope_key, DeploymentError,
}
use evo_review_agent.Base.Result.{Result}
use evo_review_agent.Policy.Models.{ExecutionPolicy}
use evo_review_agent.Deployment.Manager.{
  PolicyDeploymentManager, Ladder, Method, register_policy, flush, commit, create, init,
  require_found, require, expect,
}
use evo_review_agent.Base.Dict.{Entries, Entries-put, Entries-get}
use evo_review_agent.Deployment.Transitions.{
  is_draft, is_replay_passed, is_canary, replay_pass, to_shadow, start_canary, promote, rollback,
  pause, advance_stage, started, climb, advance, stage_at, next_index,
}
use evo_review_agent.Deployment.Transitions.Graph.{
  Event, replay_pass_event, shadow_event, promote_event, pause_event, start_event, rollback_event,
  advance_event, transition,
}

-- In a canary the share is that of the stage that the deployment has reached, a promoted deployment
-- has all of the traffic, and any other has none.
abbrev pub ShareFits : Ladder CanaryStage → DeploymentState → Option ℕ → ℕ → Type 0
ShareFits stages canary index share =
    (i : ℕ) × (s : CanaryStage) × (index ≡ some i)
    × (stage_at stages i ≡ some s)
    × (share ≡ s.traffic_share)
ShareFits stages promoted index share = share ≡ 100
ShareFits stages _ index share = share ≡ 0

-- A deployment as it stands under its key.
pub record IsValid (stages : Ladder CanaryStage) (key : String) (d : PolicyDeployment)
    : Type 0 where
  pub own_key : d.deployment_id ≡ key
  pub share_fits : ShareFits stages d.state d.stage_index d.traffic_share

abbrev pub AllValid : PolicyDeploymentManager → Type 0
AllValid m = Entries (IsValid m.stages) m.deployments

-- A result whose manager has the stages of `m`, and only valid deployments.
pub record Keeps (m : PolicyDeploymentManager)
    (r : PolicyDeploymentManager × Result DeploymentError PolicyDeployment) : Type 0 where
  pub same_stages : r.0.stages ≡ m.stages
  pub valid : Entries (IsValid m.stages) r.0.deployments

draft_share :
    (stages : Ladder CanaryStage) (index : Option ℕ) {share : ℕ} (s : DeploymentState)
    → is_draft s ≡ true
    → ShareFits stages s index share
    → share ≡ 0
draft_share stages index draft c h = h
draft_share stages index _ c h = cc

replayed_share :
    (stages : Ladder CanaryStage) (index : Option ℕ) {share : ℕ} (s : DeploymentState)
    → is_replay_passed s ≡ true
    → ShareFits stages s index share
    → share ≡ 0
replayed_share stages index replay_passed c h = h
replayed_share stages index _ c h = cc

module _ (m : PolicyDeploymentManager) (id : String) (all_valid : AllValid m) where
  commit-Keeps : (d : PolicyDeployment) → IsValid m.stages id d → Keeps m (commit id d m)
  unfolding commit flush
  commit-Keeps d v = record {
    same_stages = refl;
    valid = Entries-put _ m.deployments id d v all_valid;
  }

  expect-Keeps :
      (b : Bool) (rest : Method PolicyDeployment)
      → (b ≡ true → Keeps m (rest m))
      → Keeps m (expect b rest m)
  unfolding expect
  expect-Keeps true rest h = h refl
  expect-Keeps false rest h = record { same_stages = refl; valid = all_valid }

  require_found-Keeps :
      (o : Option PolicyDeployment) (rest : PolicyDeployment → Method PolicyDeployment)
      → get m.deployments id ≡ o
      → ((d : PolicyDeployment) → IsValid m.stages id d → Keeps m (rest d m))
      → Keeps m (require_found o rest m)
  unfolding require_found
  require_found-Keeps none rest e h = record { same_stages = refl; valid = all_valid }
  require_found-Keeps (some d) rest e h = h d (Entries-get _ m.deployments id all_valid e)

  require-Keeps :
      (rest : PolicyDeployment → Method PolicyDeployment)
      → ((d : PolicyDeployment) → IsValid m.stages id d → Keeps m (rest d m))
      → Keeps m (require id rest m)
  unfolding require
  require-Keeps rest h = require_found-Keeps _ rest refl h

  promote-Keeps : (now : ℕ) → Keeps m (promote now id m)
  unfolding promote
  promote-Keeps now = require-Keeps _ λ d v.
      expect-Keeps _ _ λ c. commit-Keeps _ (record { own_key = v.own_key; share_fits = refl })

  rollback-Keeps : (reason : String) → Keeps m (rollback reason id m)
  unfolding rollback
  rollback-Keeps reason = require-Keeps _ λ d v.
      expect-Keeps _ _ λ c. commit-Keeps _ (record { own_key = v.own_key; share_fits = refl })

  climb-Keeps :
      (o : Option CanaryStage) (now : ℕ) (d : PolicyDeployment)
      → stage_at m.stages (next_index d.stage_index) ≡ o
      → is_canary d.state ≡ true
      → IsValid m.stages id d
      → Keeps m (climb o now id d m)
  unfolding climb
  climb-Keeps none now d e c v = promote-Keeps now
  climb-Keeps (some stage) now d e c v = commit-Keeps _ (record {
    own_key = v.own_key;
    share_fits = at_canary d.state c (next_index d.stage_index, stage, refl, e, refl);
  })
    where
      at_canary :
          (s : DeploymentState)
          → is_canary s ≡ true
          → ShareFits m.stages canary (some (next_index d.stage_index)) stage.traffic_share
          → ShareFits m.stages s (some (next_index d.stage_index)) stage.traffic_share
      at_canary canary c h = h
      at_canary _ c h = cc

  advance-Keeps :
      (sample duration safety : Bool) (now : ℕ) (d : PolicyDeployment)
      → is_canary d.state ≡ true
      → IsValid m.stages id d
      → Keeps m (advance sample duration safety now id d m)
  unfolding advance
  advance-Keeps sample duration false now d c v = rollback-Keeps _
  advance-Keeps true true true now d c v = climb-Keeps _ now d refl c v
  advance-Keeps true false true now d c v =
      commit-Keeps _ (record { own_key = v.own_key; share_fits = v.share_fits })
  advance-Keeps false duration true now d c v =
      commit-Keeps _ (record { own_key = v.own_key; share_fits = v.share_fits })

  -- Every transition keeps every deployment valid, also where it raises.
  pub transition-Keeps : (e : Event) (now : ℕ) → Keeps m (transition e now id m)
  unfolding transition replay_pass to_shadow start_canary pause advance_stage started stage_at
  transition-Keeps replay_pass_event now = require-Keeps _ λ d v. expect-Keeps _ _ λ c.
      commit-Keeps _ (record {
        own_key = v.own_key;
        share_fits = draft_share _ d.stage_index d.state c v.share_fits;
      })
  transition-Keeps shadow_event now = require-Keeps _ λ d v. expect-Keeps _ _ λ c.
      commit-Keeps _ (record {
        own_key = v.own_key;
        share_fits = replayed_share _ d.stage_index d.state c v.share_fits;
      })
  transition-Keeps promote_event now = promote-Keeps now
  transition-Keeps pause_event now = require-Keeps _ λ d v.
      expect-Keeps _ _ λ c. commit-Keeps _ (record { own_key = v.own_key; share_fits = refl })
  transition-Keeps (start_event staged entered) now = require-Keeps _ λ d v. expect-Keeps _ _ λ c.
      commit-Keeps _
        (record { own_key = v.own_key; share_fits = (0, m.stages.first, refl, refl, refl) })
  transition-Keeps (rollback_event reason) now = rollback-Keeps reason
  transition-Keeps (advance_event sample duration safety) now =
      require-Keeps _ λ d v. expect-Keeps _ _ λ c. advance-Keeps sample duration safety now d c v

-- A deployment is created valid, and the others stay so.
pub create-Keeps :
    (digest : String → ℕ → String → String) (candidate_policy baseline_policy : ExecutionPolicy)
    (scope : Scope) (hypothesis : Option String) (now : ℕ) (m : PolicyDeploymentManager)
    → AllValid m
    → AllValid (create digest candidate_policy baseline_policy scope hypothesis now m).0
unfolding create register_policy commit flush
create-Keeps digest candidate_policy baseline_policy scope hypothesis now m h =
    Entries-put _ m.deployments _ _ (record { own_key = refl; share_fits = refl }) h

-- A call on the manager: the creation of a deployment, or a transition of the one with an id.
pub data Call : Type 0 where
  creates : ExecutionPolicy → ExecutionPolicy → Scope → Option String → ℕ → Call
  transitions : Event → ℕ → String → Call

-- One call, whatever it raises.
unfoldable pub step :
    (String → ℕ → String → String) → Call → PolicyDeploymentManager → PolicyDeploymentManager
step digest (creates candidate_policy baseline_policy scope hypothesis now) m =
    (create digest candidate_policy baseline_policy scope hypothesis now m).0
step digest (transitions e now id) m = (transition e now id m).0

-- Any sequence of calls.
unfoldable pub run :
    (String → ℕ → String → String) → List Call → PolicyDeploymentManager → PolicyDeploymentManager
run digest [] m = m
run digest (c ∷ rest) m = run digest rest (step digest c m)

-- The stages are those that the manager was made with, and every deployment is valid for them.
pub record Holds (stages : Ladder CanaryStage) (m : PolicyDeploymentManager) : Type 0 where
  pub same_stages : m.stages ≡ stages
  pub valid : Entries (IsValid stages) m.deployments

step-Holds :
    (digest : String → ℕ → String → String) (stages : Ladder CanaryStage) (c : Call)
    (m : PolicyDeploymentManager)
    → Holds stages m
    → Holds stages (step digest c m)
unfolding step create register_policy commit flush
step-Holds digest stages (creates candidate_policy baseline_policy scope hypothesis now) m h =
    record {
      same_stages = h.same_stages;
      valid =
          Entries-put _ m.deployments _ _ (record { own_key = refl; share_fits = refl }) h.valid;
    }
step-Holds digest stages (transitions e now id) m h =
    let k = transition-Keeps m id (rw h.same_stages h.valid) e now in
    record { same_stages = k.same_stages ∙ h.same_stages; valid = rw (← h.same_stages) k.valid }

run-Holds :
    (digest : String → ℕ → String → String) (stages : Ladder CanaryStage) (calls : List Call)
    (m : PolicyDeploymentManager)
    → Holds stages m
    → Holds stages (run digest calls m)
unfolding run
run-Holds digest stages [] m h = h
run-Holds digest stages (c ∷ rest) m h =
    run-Holds digest stages rest (step digest c m) (step-Holds digest stages c m h)

-- After any sequence of creations and transitions of a new manager, refused ones among them, every
-- deployment stands under its own id and has the share of the traffic that its state calls for: that
-- of the stage it has reached in a canary, all of it once promoted, and none otherwise.
pub run-AllValid :
    (digest : String → ℕ → String → String) (ladder : List ℕ)
    (repo : Option (Dict String PolicyDeployment))
    (exposure_repo : Option (Dict String ExposureRecord)) (min_sample min_duration : ℕ)
    (calls : List Call)
    → AllValid (run digest calls (init ladder repo exposure_repo min_sample min_duration))
unfolding init
run-AllValid digest ladder repo exposure_repo min_sample min_duration calls =
    let start = init ladder repo exposure_repo min_sample min_duration in
    let h = run-Holds digest start.stages calls start (record { same_stages = refl; valid = tt }) in
    rw h.same_stages h.valid
