-- ===== src/Deployment/Examples.antt =====
-- The theorems on deployments at concrete inputs.
use evo_review_agent.Base.{
  ℕ, String, ◌≡◌, refl, ap, true, Option, none, some, List, [], ◌∷◌, if◌then◌else◌,
}
use evo_review_agent.Base.Key.{◌==◌, text_key}
use evo_review_agent.Base.Dict.{Dict, get}
use evo_review_agent.Deployment.Records.{
  draft, canary, rolled_back, CanaryStage, PolicyDeployment, Scope, scope_key,
}
use evo_review_agent.Deployment.Manager.{
  PolicyDeploymentManager, Ladder, stages_of, default_ladder, drafted, init, create,
}
use evo_review_agent.Policy.Models.{low, high}
use evo_review_agent.Policy.Defaults.{default_policy}
use evo_review_agent.Deployment.Transitions.Graph.{
  replay_pass_event, start_event, pause_event, shadow_event, advance_event, transition, Outcome,
  transition-Outcome,
}
use evo_review_agent.Deployment.Transitions.{stage_at}
use evo_review_agent.Deployment.Transitions.Invariant.{
  AllValid, IsValid, Call, creates, transitions, run, run-AllValid,
}
use evo_review_agent.Deployment.Routing.{route, resolve_policy, active_deployment}
use evo_review_agent.Deployment.Routing.Laws.{policy_of, returned, route-resolve_policy}
use evo_review_agent.Deployment.Routing.Lanes.{BySharing, route-by_share}
use evo_review_agent.Deployment.Routing.Tenants.{create-replaces_other_tenant}
use evo_review_agent.Deployment.Restore.{restore_active_deployments, rows_of}
use evo_review_agent.Deployment.Restore.Latest.{IsLatest, id_of, restore-IsLatest}

abbrev scope_a : Scope
scope_a = record { tenant_id = "a"; repository = "r"; risk_level = "high" }

abbrev scope_b : Scope
scope_b = record { tenant_id = "b"; repository = "r"; risk_level = "high" }

abbrev trial : PolicyDeployment
trial = record (drafted "d1" (default_policy high) (default_policy low) scope_a none 7) {
  policy_id = "system-high";
  baseline_policy_id = "system-low";
  state = canary;
  stage_index = some 1;
  traffic_share = 10;
}

abbrev stages : Ladder CanaryStage
stages = stages_of 5 60 default_ladder

-- A manager with one deployment, at its second stage.
abbrev manager : PolicyDeploymentManager
manager = record {
  stages = stages;
  repo = some (("d1", trial) ∷ []);
  exposure_repo = none;
  deployments = ("d1", trial) ∷ [];
  exposure = [];
  active = (scope_a, "d1") ∷ [];
  policies = ("system-low", default_policy low) ∷ ("system-high", default_policy high) ∷ [];
}

abbrev digest : String → ℕ
digest _ = 307

found : get manager.deployments "d1" ≡ some trial
unfolding get
found = refl

transition-Outcome_example :
    Outcome manager "d1" trial (transition (advance_event true true true) 9 "d1" manager)
transition-Outcome_example =
    transition-Outcome manager "d1" trial found (advance_event true true true) 9

abbrev over : PolicyDeployment
over = record trial { state = rolled_back; traffic_share = 0 }

abbrev ended : PolicyDeploymentManager
ended = record manager { deployments = ("d1", over) ∷ [] }

ended_found : get ended.deployments "d1" ≡ some over
unfolding get
ended_found = refl

trial-IsValid : IsValid stages "d1" trial
unfolding stage_at
trial-IsValid = record {
  own_key = refl;
  share_fits = (
    1,
    record { traffic_share = 10; min_sample = 5; min_duration_seconds = 60 },
    refl,
    refl,
    refl,
  );
}

route-resolve_policy_example :
    ((route digest scope_a "t" manager).0 ≡ (resolve_policy digest scope_a "t" manager).0)
    × (policy_of (route digest scope_a "t" manager).1
        ≡ returned (resolve_policy digest scope_a "t" manager).1)
route-resolve_policy_example = route-resolve_policy digest scope_a "t" manager

active_trial : active_deployment manager scope_a ≡ some trial
unfolding active_deployment get
active_trial = refl

has_low : get manager.policies "system-low" ≡ some (default_policy low)
unfolding get
has_low = refl

has_high : get manager.policies "system-high" ≡ some (default_policy high)
unfolding get
has_high = refl

route-by_share_example :
    BySharing digest trial "t"
      (default_policy low)
      (default_policy high)
      (route digest scope_a "t" manager).1
route-by_share_example =
    route-by_share digest manager scope_a "t" "d1" trial (default_policy low) (default_policy high)
      active_trial trial-IsValid has_low has_high

abbrev id_digest : String → ℕ → String → String
id_digest _ _ _ = "d1"

pointer : get manager.active scope_a ≡ some "d1"
unfolding get
pointer = refl

create-replaces_other_tenant_example :
    (d : PolicyDeployment) × (active_deployment
        (create id_digest (default_policy high) (default_policy low) scope_b none 8 manager).0
        scope_a
      ≡ some d)
    × (d.state ≡ draft)
    × (d.tenant_id ≡ "b")
create-replaces_other_tenant_example =
    create-replaces_other_tenant id_digest (default_policy high) (default_policy low) scope_a
      scope_b none 8 manager
      (λ e. cc ((text_key.same_iff "a" "b").1 (ap (λ (s : Scope). s.tenant_id) e))) refl
      (λ e. cc ((text_key.same_iff "d1" "").1 e)) pointer

abbrev table : Dict String PolicyDeployment
table = ("d1", trial) ∷ []

restore-IsLatest_example :
    (o : Option PolicyDeployment) × (get (restore_active_deployments none manager).0.active scope_a
      ≡ id_of o)
    × IsLatest scope_a o (rows_of table)
restore-IsLatest_example = restore-IsLatest none manager table scope_a refl

-- Two drafts, the first of which climbs in its canary and is paused.
abbrev calls : List Call
calls =
    creates (default_policy high) (default_policy low) scope_a none 8
    ∷ transitions (advance_event true true true) 9 "d1"
    ∷ transitions replay_pass_event 9 "d1"
    ∷ transitions shadow_event 9 "d1"
    ∷ transitions (start_event 10 10) 10 "d1"
    ∷ transitions (advance_event true true true) 11 "d1"
    ∷ creates (default_policy low) (default_policy low) scope_b none 12
    ∷ transitions pause_event 13 "d1"
    ∷ []

run-AllValid_example : AllValid (
    run
      (λ id version level. if id == "system-high" then "d1" else "d2")
      calls
      (init [] none none 5 60))
run-AllValid_example =
    run-AllValid (λ id version level. if id == "system-high" then "d1" else "d2") [] none none 5 60
      calls
