-- ===== src/Deployment/Restore/Latest.antt =====
-- Which deployment each scope leads to after a restart
-- (evoagent/policy_evolution/deployment.py).
use evo_review_agent.Base.{
  ◌≤◌, String, ◌≡◌, refl, ap, ◌∙◌, inl, inr, true, ◌&&◌, Option, none, some, List, [], ◌∷◌, arith,
  if◌then◌else◌, Bool-cases, All,
}
use evo_review_agent.Base.Key.{◌==◌, text_key}
use evo_review_agent.Base.Dict.{Dict, get, get-put}
use evo_review_agent.Deployment.Records.{PolicyDeployment, Scope, scope_key, scope_of}
use evo_review_agent.Policy.Models.{ExecutionPolicy}
use evo_review_agent.Deployment.Manager.{PolicyDeploymentManager}
use evo_review_agent.Deployment.Restore.{
  is_live, Restoring, newer, point, restore_row, restore_rows, rows_of, pointers, restore_from,
  restart_recover_exposure, restore_active_deployments,
}

-- What the scope leads to after one more row.
step : Scope → Option PolicyDeployment → PolicyDeployment → Option PolicyDeployment
step scope o d = if is_live d.state && (scope_of d == scope && newer o d) then some d else o

-- The deployment that a scope ends with, from the one that it leads to now and the rows to come.
pick : Scope → Option PolicyDeployment → List PolicyDeployment → Option PolicyDeployment
pick scope o [] = o
pick scope o (d ∷ rows) = pick scope (step scope o d) rows

get-point :
    (d : PolicyDeployment) (active : Dict Scope PolicyDeployment) (scope : Scope)
    → get (point d active) scope ≡ step scope (get active scope) d
unfolding point step
get-point d active scope =
    ground (arith, get-put active (scope_of d) scope d, scope_key.same_iff (scope_of d) scope)

get-restore_rows :
    (loader : Option (String → Option ExecutionPolicy)) (scope : Scope)
    (rows : List PolicyDeployment) (s : Restoring)
    → get (restore_rows loader s rows).active scope ≡ pick scope (get s.active scope) rows
unfolding restore_rows restore_row pick
get-restore_rows loader scope [] s = refl
get-restore_rows loader scope (d ∷ rows) s =
    get-restore_rows loader scope rows (restore_row loader d s)
    ∙ ap (λ o. pick scope o rows) (get-point d s.active scope)

-- A live row of the scope.
abbrev pub Rival : Scope → PolicyDeployment → Type 0
Rival scope r = (is_live r.state ≡ true) × (scope_of r ≡ scope)

-- `o` is the newest live row of the scope: none of the rows is a rival if there is none, and no rival
-- was created later if there is one.
abbrev pub IsLatest : Scope → Option PolicyDeployment → List PolicyDeployment → Type 0
IsLatest scope none rows = All (λ r. ¬ (Rival scope r)) rows
IsLatest scope (some d) rows =
    Rival scope d × All (λ r. Rival scope r → r.created_at ≤ d.created_at) rows

Dominates : Scope → Option PolicyDeployment → PolicyDeployment → Type 0
Dominates scope none r = ¬ (Rival scope r)
Dominates scope (some y) r = Rival scope r → r.created_at ≤ y.created_at

-- `o` leads to a live deployment of the scope, or to none.
Sound : Scope → Option PolicyDeployment → Type 0
Sound scope none = Unit
Sound scope (some y) = Rival scope y

-- `p` is at least as new as `o`.
Newer : Option PolicyDeployment → Option PolicyDeployment → Type 0
Newer none p = Unit
Newer (some x) none = ⊥
Newer (some x) (some y) = x.created_at ≤ y.created_at

Newer-refl : (o : Option PolicyDeployment) → Newer o o
unfolding Newer
Newer-refl none = tt
Newer-refl (some x) = omega arith

Newer-trans : (o p q : Option PolicyDeployment) → Newer o p → Newer p q → Newer o q
unfolding Newer
Newer-trans none p q h k = tt
Newer-trans (some x) none q h k = absurd h
Newer-trans (some x) (some y) none h k = k
Newer-trans (some x) (some y) (some z) h k = omega arith

Dominates-Newer :
    (scope : Scope) (o p : Option PolicyDeployment) (r : PolicyDeployment)
    → Newer o p
    → Dominates scope o r
    → Dominates scope p r
unfolding Newer Dominates
Dominates-Newer scope none none r h d = d
Dominates-Newer scope none (some y) r h d = λ rival. absurd (d rival)
Dominates-Newer scope (some x) none r h d = absurd h
Dominates-Newer scope (some x) (some y) r h d = λ rival. omega (arith, d rival)

-- The three things that a step does.
step-Newer :
    (scope : Scope) (o : Option PolicyDeployment) (d : PolicyDeployment) → Newer o (step scope o d)
unfolding step Newer newer
step-Newer scope none d = tt
step-Newer scope (some x) d =
    elim (Bool-cases (is_live d.state && (scope_of d == scope && newer (some x) d))) [
      | inl taken ↦ rw taken (ground arith)
      | inr left ↦ rw left (omega arith)
    ]

step-Sound :
    (scope : Scope) (o : Option PolicyDeployment) (d : PolicyDeployment)
    → Sound scope o
    → Sound scope (step scope o d)
unfolding step Sound
step-Sound scope o d h = elim (Bool-cases (is_live d.state && (scope_of d == scope && newer o d))) [
  | inl taken ↦ rw taken (ground arith, (scope_key.same_iff (scope_of d) scope).0 (ground arith))
  | inr left ↦ rw left h
]

step-Dominates :
    (scope : Scope) (o : Option PolicyDeployment) (d : PolicyDeployment)
    → Dominates scope (step scope o d) d
unfolding step Dominates newer
step-Dominates scope none d =
    elim (Bool-cases (is_live d.state && (scope_of d == scope && newer none d))) [
      | inl taken ↦ rw taken (λ rival. omega arith)
      | inr left ↦
          rw left (λ rival. ground (arith, (scope_key.same_iff (scope_of d) scope).1 rival.1))
    ]
step-Dominates scope (some x) d =
    elim (Bool-cases (is_live d.state && (scope_of d == scope && newer (some x) d))) [
      | inl taken ↦ rw taken (λ rival. omega arith)
      | inr left ↦
          rw left (λ rival. ground (arith, (scope_key.same_iff (scope_of d) scope).1 rival.1))
    ]

pick-Newer :
    (scope : Scope) (rows : List PolicyDeployment) (o : Option PolicyDeployment)
    → Newer o (pick scope o rows)
unfolding pick
pick-Newer scope [] o = Newer-refl o
pick-Newer scope (d ∷ rows) o =
    Newer-trans o (step scope o d) _ (step-Newer scope o d) (pick-Newer scope rows (step scope o d))

pick-Sound :
    (scope : Scope) (rows : List PolicyDeployment) (o : Option PolicyDeployment)
    → Sound scope o
    → Sound scope (pick scope o rows)
unfolding pick
pick-Sound scope [] o h = h
pick-Sound scope (d ∷ rows) o h = pick-Sound scope rows (step scope o d) (step-Sound scope o d h)

pick-Dominates :
    (scope : Scope) (rows : List PolicyDeployment) (o : Option PolicyDeployment)
    → All (Dominates scope (pick scope o rows)) rows
unfolding pick
pick-Dominates scope [] o = tt
pick-Dominates scope (d ∷ rows) o = (
  Dominates-Newer scope (step scope o d) _ d (pick-Newer scope rows (step scope o d))
      (step-Dominates scope o d),
  pick-Dominates scope rows (step scope o d),
)

IsLatest-of :
    (scope : Scope) (p : Option PolicyDeployment) (rows : List PolicyDeployment)
    → Sound scope p
    → All (Dominates scope p) rows
    → IsLatest scope p rows
unfolding Sound Dominates
IsLatest-of scope none rows s h = h
IsLatest-of scope (some y) rows s h = (s, h)

abbrev pub id_of : Option PolicyDeployment → Option String
id_of none = none
id_of (some d) = some d.deployment_id

get-pointers :
    (d : Dict Scope PolicyDeployment) (scope : Scope) → get (pointers d) scope ≡ id_of (get d scope)
unfolding pointers get
get-pointers [] scope = refl
get-pointers ((s, d) ∷ rest) scope = ground (arith, get-pointers rest scope)

-- After a restart every scope leads to the newest of its persisted deployments that are neither
-- rolled back nor paused, and to none if there is no such deployment.
pub restore-IsLatest :
    (loader : Option (String → Option ExecutionPolicy)) (m : PolicyDeploymentManager)
    (table : Dict String PolicyDeployment) (scope : Scope)
    → m.repo ≡ some table
    → (o : Option PolicyDeployment) × (get (restore_active_deployments loader m).0.active scope
        ≡ id_of o)
      × IsLatest scope o (rows_of table)
unfolding restore_active_deployments restore_from restart_recover_exposure get
restore-IsLatest loader m table scope has_repo =
    let start : Restoring = record {
      deployments = m.deployments;
      policies = m.policies;
      active = [];
    } in
    let o = pick scope none (rows_of table) in
    (
      o,
      rw (has_repo, restore_from)
          (get-pointers (restore_rows loader start (rows_of table)).active scope
            ∙ ap id_of (get-restore_rows loader scope (rows_of table) start)),
      IsLatest-of scope o (rows_of table)
          (pick-Sound scope (rows_of table) none (unfold Sound in tt))
          (pick-Dominates scope (rows_of table) none),
    )
