-- ===== src/Procedure/Lifecycle/Diagram.antt =====
-- The transitions of evoagent/procedure/lifecycle.py against the diagram at its head.
use evo_review_agent.Base.{
  ◌++◌, String, ◌≡◌, refl, sym, ◌⊎◌, inl, inr, Bool, true, false, ◌||◌, Option, [], ◌∷◌, arith,
  if◌then◌else◌, Bool-cases, contains, if_rule,
}
use evo_review_agent.Base.Key.{◌==◌, text_key}
use mathlib.Core.Path.{subst}
use evo_review_agent.Base.Lists.{contains-All}
use evo_review_agent.Base.Result.{err, ok}
use evo_review_agent.Procedure.Lifecycle.{
  CandidateStatus, draft, static_validated, replay_passed, holdout_passed, shadow, canary, active,
  rejected, rolled_back, status_key, is_same, is_same_iff, number, forward, is_failure_exit,
  ProcedureCandidate, CandidateTransitionError, Moved, move, transition,
}

-- The stages before activation, from which a candidate may be rejected.
unfoldable pub IsGate : CandidateStatus → Type 0
IsGate active = ⊥
IsGate rejected = ⊥
IsGate rolled_back = ⊥
IsGate _ = Unit

-- The diagram at the head of the file.
pub data Step : CandidateStatus → CandidateStatus → Type 0 where
  validated : Step draft static_validated
  replayed : Step static_validated replay_passed
  held_out : Step replay_passed holdout_passed
  shadowed : Step holdout_passed shadow
  to_canary : Step shadow canary
  activated : Step canary active
  regressed : Step active rolled_back
  refused : (s : CandidateStatus) → IsGate s → Step s rejected

exit-rejected : (s : CandidateStatus) → is_failure_exit s rejected ≡ true → Step s rejected
unfolding is_failure_exit IsGate is_same number
exit-rejected draft h = refused draft tt
exit-rejected static_validated h = refused static_validated tt
exit-rejected replay_passed h = refused replay_passed tt
exit-rejected holdout_passed h = refused holdout_passed tt
exit-rejected shadow h = refused shadow tt
exit-rejected canary h = refused canary tt
exit-rejected active h = ground arith
exit-rejected rejected h = ground arith
exit-rejected rolled_back h = ground arith

exit-rolled_back : (s : CandidateStatus) → is_failure_exit s rolled_back ≡ true → Step s rolled_back
unfolding is_failure_exit is_same number
exit-rolled_back s h = elim (Bool-cases (s == active)) [
  | inl at_active ↦
      subst (λ t. Step t rolled_back) (sym ((is_same_iff s active).0 at_active)) regressed
  | inr other ↦ ground (arith, other, h)
]

contains-one :
    (s t : CandidateStatus) (P : CandidateStatus → Type 0) → P s → contains (s ∷ []) t ≡ true → P t
contains-one s t P p h = contains-All P (s ∷ []) t (p, tt) h

forward-Step : (s t : CandidateStatus) → contains (forward s) t ≡ true → Step s t
unfolding forward
forward-Step draft t h = contains-one static_validated t (Step draft) validated h
forward-Step static_validated t h = contains-one replay_passed t (Step static_validated) replayed h
forward-Step replay_passed t h = contains-one holdout_passed t (Step replay_passed) held_out h
forward-Step holdout_passed t h = contains-one shadow t (Step holdout_passed) shadowed h
forward-Step shadow t h = contains-one canary t (Step shadow) to_canary h
forward-Step canary t h = contains-one active t (Step canary) activated h
forward-Step active t h = ground (arith, h)
forward-Step rejected t h = ground (arith, h)
forward-Step rolled_back t h = ground (arith, h)

exit-Step :
    (s t : CandidateStatus)
    → (t == rejected || t == rolled_back) ≡ true
    → is_failure_exit s t ≡ true
    → Step s t
exit-Step s t out h = elim (Bool-cases (t == rejected)) [
  | inl at_rejected ↦
      let e = (is_same_iff t rejected).0 at_rejected in
      subst (Step s) (sym e) (exit-rejected s (subst (λ u. is_failure_exit s u ≡ true) e h))
  | inr other ↦
      let e = (is_same_iff t rolled_back).0 (ground (arith, other, out)) in
      subst (Step s) (sym e) (exit-rolled_back s (subst (λ u. is_failure_exit s u ≡ true) e h))
]

allowed : CandidateStatus → CandidateStatus → Bool
allowed s t =
    if t == rejected || t == rolled_back then is_failure_exit s t else contains (forward s) t

-- What the code tests where the diagram has an arrow.
Passes : CandidateStatus → CandidateStatus → Type 0
Passes s t = ((s == t) ≡ false) × (allowed s t ≡ true)

gate-Passes : (s : CandidateStatus) → IsGate s → Passes s rejected
unfolding Passes allowed is_failure_exit IsGate is_same number
gate-Passes draft g = (refl, refl)
gate-Passes static_validated g = (refl, refl)
gate-Passes replay_passed g = (refl, refl)
gate-Passes holdout_passed g = (refl, refl)
gate-Passes shadow g = (refl, refl)
gate-Passes canary g = (refl, refl)
gate-Passes active g = absurd g
gate-Passes rejected g = absurd g
gate-Passes rolled_back g = absurd g

Step-Passes : {s t : CandidateStatus} → Step s t → Passes s t
unfolding Passes allowed is_failure_exit forward is_same number
Step-Passes validated = (refl, refl)
Step-Passes replayed = (refl, refl)
Step-Passes held_out = (refl, refl)
Step-Passes shadowed = (refl, refl)
Step-Passes to_canary = (refl, refl)
Step-Passes activated = (refl, refl)
Step-Passes regressed = (refl, refl)
Step-Passes (refused s g) = gate-Passes s g

clash : {s t : CandidateStatus} → Step s t → (((s == t) ≡ true) ⊎ (allowed s t ≡ false)) → ⊥
unfolding Passes
clash step (inl same) = ground (arith, same, (Step-Passes step).0)
clash step (inr stopped) = ground (arith, stopped, (Step-Passes step).1)

-- What a transition does: it moves the candidate along the diagram and writes that down, or raises
-- and leaves it as it is where the diagram has no such arrow.
pub data Follows {S : Type 0} (c : ProcedureCandidate S) (to : CandidateStatus)
    (evidence : Option String) : Moved S → Type 0 where
  moved :
      Step c.status to
      → Follows c to evidence (
        record c {
          status = to;
          history =
              c.history
              ++ (record { from_status = c.status; to_status = to; evidence = evidence } ∷ []);
        },
        ok tt,
      )
  raised :
      (e : CandidateTransitionError) → (Step c.status to → ⊥) → Follows c to evidence (c, err e)

-- A transition along an arrow of the diagram succeeds, sets the status and adds itself to the history;
-- any other raises and changes nothing.
pub transition-Follows :
    {S : Type 0} (c : ProcedureCandidate S) (to : CandidateStatus) (evidence : Option String)
    → Follows c to evidence (transition c to evidence)
unfolding transition allowed move
transition-Follows c to evidence =
    let Good : Moved _ → Type 0 = Follows c to evidence in
    if_rule Good (c.status == to) _ _ (λ same. raised _ (λ step. clash step (inl same)))
      (λ other.
        if_rule Good (to == rejected || to == rolled_back) _ _
          (λ out.
            if_rule Good (is_failure_exit c.status to) _ _
              (λ may. moved (exit-Step c.status to out may))
              (λ may_not. raised _ (λ step. clash step (inr (rw out may_not)))))
          (λ on.
            if_rule Good (contains (forward c.status) to) _ _
              (λ may. moved (forward-Step c.status to may))
              (λ may_not. raised _ (λ step. clash step (inr (rw on may_not))))))
