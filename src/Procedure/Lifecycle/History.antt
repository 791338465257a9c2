-- ===== src/Procedure/Lifecycle/History.antt =====
-- What the history of a candidate of evoagent/procedure/lifecycle.py says.
use evo_review_agent.Base.{String, ◌≡◌, refl, sym, ap, Option, List, [], ◌∷◌, ◌++◌, map}
use evo_review_agent.Base.Key.{text_key}
use mathlib.Core.Path.{subst}
use mathlib.Core.List.{map-append}
use evo_review_agent.Procedure.Lifecycle.Diagram.{
  IsGate, Step, validated, replayed, held_out, shadowed, to_canary, activated, regressed, refused,
  Follows, moved, raised, transition-Follows,
}
use evo_review_agent.Procedure.Lifecycle.{
  CandidateStatus, draft, static_validated, replay_passed, holdout_passed, shadow, canary, active,
  rejected, rolled_back, status_key, Transition, ProcedureCandidate, Moved, move, Call, validates,
  replays, holds_out, shadows, canaries, activates, rejects, rolls_back, moves, call, run,
  static_validate, replay_pass, holdout_pass, enter_shadow, enter_canary, activate, reject,
  rollback,
}

-- The lives of a candidate: its status and its history after arrows of the diagram.
data Life : CandidateStatus → List Transition → Type 0 where
  born : Life draft []
  grows :
      (s t : CandidateStatus) (h : List Transition) (evidence : Option String)
      → Life s h
      → Step s t
      → Life t (h ++ (record { from_status = s; to_status = t; evidence = evidence } ∷ []))

transition-Life :
    {S : Type 0} (c : ProcedureCandidate S) (to : CandidateStatus) (evidence : Option String)
    (x : Moved S)
    → Follows c to evidence x
    → Life c.status c.history
    → Life x.0.status x.0.history
unfolding move
transition-Life c to evidence x (moved step) h = grows c.status to c.history evidence h step
transition-Life c to evidence x (raised e stopped) h = h

call-Life :
    {S : Type 0} (c : ProcedureCandidate S) (x : Call)
    → Life c.status c.history
    → Life (call c x).0.status (call c x).0.history
unfolding call static_validate replay_pass holdout_pass enter_shadow enter_canary activate reject
    rollback
call-Life c (validates e) h = transition-Life c static_validated e _ (transition-Follows c _ e) h
call-Life c (replays e) h = transition-Life c replay_passed e _ (transition-Follows c _ e) h
call-Life c (holds_out e) h = transition-Life c holdout_passed e _ (transition-Follows c _ e) h
call-Life c (shadows e) h = transition-Life c shadow e _ (transition-Follows c _ e) h
call-Life c (canaries e) h = transition-Life c canary e _ (transition-Follows c _ e) h
call-Life c (activates e) h = transition-Life c active e _ (transition-Follows c _ e) h
call-Life c (rejects e) h = transition-Life c rejected e _ (transition-Follows c _ e) h
call-Life c (rolls_back e) h = transition-Life c rolled_back e _ (transition-Follows c _ e) h
call-Life c (moves to e) h = transition-Life c to e _ (transition-Follows c to e) h

run-Life :
    {S : Type 0} (c : ProcedureCandidate S) (calls : List Call)
    → Life c.status c.history
    → Life (run c calls).status (run c calls).history
unfolding run
run-Life c [] h = h
run-Life c (x ∷ xs) h = run-Life (call c x).0 xs (call-Life c x h)

-- The stages up to a status, in their order.
stages : CandidateStatus → List CandidateStatus
stages draft = []
stages static_validated = static_validated ∷ []
stages replay_passed = static_validated ∷ replay_passed ∷ []
stages holdout_passed = static_validated ∷ replay_passed ∷ holdout_passed ∷ []
stages shadow = static_validated ∷ replay_passed ∷ holdout_passed ∷ shadow ∷ []
stages canary = static_validated ∷ replay_passed ∷ holdout_passed ∷ shadow ∷ canary ∷ []
stages active = static_validated ∷ replay_passed ∷ holdout_passed ∷ shadow ∷ canary ∷ active ∷ []
stages rejected = []
stages rolled_back =
    static_validated ∷ replay_passed ∷ holdout_passed ∷ shadow ∷ canary ∷ active ∷ rolled_back ∷ []

-- What a candidate of this status went through: all stages up to it; if it is rejected, all up to one
-- before activation, and then its rejection.
pub WentThrough : CandidateStatus → List CandidateStatus → Type 0
WentThrough rejected h = (s : CandidateStatus) × IsGate s × (h ≡ stages s ++ (rejected ∷ []))
WentThrough s h = h ≡ stages s

gate-WentThrough :
    (s : CandidateStatus) (h : List CandidateStatus) → IsGate s → WentThrough s h → h ≡ stages s
unfolding WentThrough IsGate
gate-WentThrough draft h g w = w
gate-WentThrough static_validated h g w = w
gate-WentThrough replay_passed h g w = w
gate-WentThrough holdout_passed h g w = w
gate-WentThrough shadow h g w = w
gate-WentThrough canary h g w = w
gate-WentThrough active h g w = absurd g
gate-WentThrough rejected h g w = absurd g
gate-WentThrough rolled_back h g w = absurd g

Step-WentThrough :
    (s t : CandidateStatus) (h : List CandidateStatus)
    → Step s t
    → WentThrough s h
    → WentThrough t (h ++ (t ∷ []))
unfolding WentThrough stages
Step-WentThrough s t h validated w = ap (λ l. l ++ (static_validated ∷ [])) w
Step-WentThrough s t h replayed w = ap (λ l. l ++ (replay_passed ∷ [])) w
Step-WentThrough s t h held_out w = ap (λ l. l ++ (holdout_passed ∷ [])) w
Step-WentThrough s t h shadowed w = ap (λ l. l ++ (shadow ∷ [])) w
Step-WentThrough s t h to_canary w = ap (λ l. l ++ (canary ∷ [])) w
Step-WentThrough s t h activated w = ap (λ l. l ++ (active ∷ [])) w
Step-WentThrough s t h regressed w = ap (λ l. l ++ (rolled_back ∷ [])) w
Step-WentThrough s t h (refused s' g) w =
    (s', g, ap (λ l. l ++ (rejected ∷ [])) (gate-WentThrough s' h g w))

Life-WentThrough :
    {s : CandidateStatus} {h : List Transition}
    → Life s h
    → WentThrough s (map (λ t. t.to_status) h)
unfolding WentThrough stages
Life-WentThrough born = refl
Life-WentThrough (grows s t h e l step) =
    subst (WentThrough t) (sym (map-append (λ (x : Transition). x.to_status) h _))
      (Step-WentThrough s t (map (λ x. x.to_status) h) step (Life-WentThrough l))

-- After any calls, refused ones among them, a candidate that began as a draft without a history went
-- through all stages up to its status in their order and through nothing else: an active one passed
-- every gate, a rolled back one was active before, and a rejected one passed the gates up to one before activation.
pub run-WentThrough :
    {S : Type 0} (c : ProcedureCandidate S) (calls : List Call)
    → c.status ≡ draft
    → c.history ≡ []
    → WentThrough (run c calls).status (map (λ t. t.to_status) (run c calls).history)
run-WentThrough c calls new fresh = Life-WentThrough (
    run-Life c calls
      (subst (λ s. Life s c.history) (sym new) (subst (Life draft) (sym fresh) born)))
