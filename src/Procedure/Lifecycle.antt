-- ===== src/Procedure/Lifecycle.antt =====
-- evoagent/procedure/lifecycle.py: the gates that a procedure candidate passes. The skill of a
-- candidate is a parameter.
pub mod Diagram
pub mod History
use evo_review_agent.Base.{
  ℕ, zero, suc, String, ◌≡◌, refl, sym, ap, ◌∙◌, ◌↔◌, Bool, true, ◌&&◌, ◌||◌, Option, none, some,
  List, [], ◌∷◌, ◌++◌, eqb, if◌then◌else◌, eqb_iff, contains,
}
use evo_review_agent.Base.Key.{Key, ◌==◌, text_key}
use evo_review_agent.Base.Result.{Result, err, ok}

pub data CandidateStatus : Type 0 where
  draft static_validated replay_passed holdout_passed shadow canary active : CandidateStatus
  rejected rolled_back : CandidateStatus

-- The identity test of the members.
number : CandidateStatus → ℕ
number draft = 0
number static_validated = 1
number replay_passed = 2
number holdout_passed = 3
number shadow = 4
number canary = 5
number active = 6
number rejected = 7
number rolled_back = 8

next : CandidateStatus → CandidateStatus
next draft = static_validated
next static_validated = replay_passed
next replay_passed = holdout_passed
next holdout_passed = shadow
next shadow = canary
next canary = active
next active = rejected
next _ = rolled_back

status_at : ℕ → CandidateStatus
unfolding next
status_at zero = draft
status_at (suc n) = next (status_at n)

status_at-number : (s : CandidateStatus) → status_at (number s) ≡ s
unfolding status_at number
status_at-number draft = refl
status_at-number static_validated = refl
status_at-number replay_passed = refl
status_at-number holdout_passed = refl
status_at-number shadow = refl
status_at-number canary = refl
status_at-number active = refl
status_at-number rejected = refl
status_at-number rolled_back = refl

pub is_same : CandidateStatus → CandidateStatus → Bool
unfolding number
is_same s t = eqb (number s) (number t)

pub is_same_iff : (s t : CandidateStatus) → (is_same s t ≡ true) ↔ (s ≡ t)
unfolding is_same
is_same_iff s t = (
  λ same.
      sym (status_at-number s)
      ∙ ap status_at ((eqb_iff (number s) (number t)).0 same)
      ∙ status_at-number t,
  λ same. (eqb_iff (number s) (number t)).1 (ap number same),
)

instance abbrev pub status_key : Key CandidateStatus
status_key = record { same = is_same; same_iff = is_same_iff }

-- _FORWARD
forward : CandidateStatus → List CandidateStatus
forward draft = static_validated ∷ []
forward static_validated = replay_passed ∷ []
forward replay_passed = holdout_passed ∷ []
forward holdout_passed = shadow ∷ []
forward shadow = canary ∷ []
forward canary = active ∷ []
forward _ = []

-- _FAILURE_EXITS
abbrev failure_exits : List CandidateStatus
failure_exits = draft ∷ static_validated ∷ replay_passed ∷ holdout_passed ∷ shadow ∷ canary ∷ []

pub record Transition : Type 0 where
  pub from_status : CandidateStatus
  pub to_status : CandidateStatus
  pub evidence : Option String

pub record ProcedureCandidate (S : Type 0) : Type 0 where
  pub skill : S
  pub status : CandidateStatus
  pub hypothesis_id : Option String
  pub parent_version : Option ℕ
  pub history : List Transition

-- The three messages of CandidateTransitionError.
pub data CandidateTransitionError : Type 0 where
  already : CandidateStatus → CandidateTransitionError
  cannot_move illegal_transition : CandidateStatus → CandidateStatus → CandidateTransitionError

abbrev pub Moved : Type 0 → Type 0
Moved S = ProcedureCandidate S × Result CandidateTransitionError (Unit {0})

override : {A : Type 0} → Option A → Option A → Option A
override none old = old
override (some new) old = some new

-- `__init__` of the lifecycle
pub lifecycle :
    {S : Type 0} → ProcedureCandidate S → Option String → Option ℕ → ProcedureCandidate S
unfolding override
lifecycle c hypothesis_id parent_version = record c {
  hypothesis_id = override hypothesis_id c.hypothesis_id;
  parent_version = override parent_version c.parent_version;
}

is_failure_exit : CandidateStatus → CandidateStatus → Bool
is_failure_exit current to =
    (current == active && to == rolled_back) || (to == rejected && contains failure_exits current)

pub move : {S : Type 0} → ProcedureCandidate S → CandidateStatus → Option String → Moved S
move c to evidence = (
  record c {
    status = to;
    history =
        c.history ++ (record { from_status = c.status; to_status = to; evidence = evidence } ∷ []);
  },
  ok tt,
)

pub transition : {S : Type 0} → ProcedureCandidate S → CandidateStatus → Option String → Moved S
unfolding is_failure_exit forward move
transition c to evidence =
    if c.status == to
    then (c, err (already c.status))
    else if to == rejected || to == rolled_back
    then (if is_failure_exit c.status to
        then move c to evidence
        else (c, err (cannot_move c.status to)))
    else if contains (forward c.status) to
    then move c to evidence
    else (c, err (illegal_transition c.status to))

static_validate : {S : Type 0} → ProcedureCandidate S → Option String → Moved S
static_validate c evidence = transition c static_validated evidence

replay_pass : {S : Type 0} → ProcedureCandidate S → Option String → Moved S
replay_pass c evidence = transition c replay_passed evidence

holdout_pass : {S : Type 0} → ProcedureCandidate S → Option String → Moved S
holdout_pass c evidence = transition c holdout_passed evidence

enter_shadow : {S : Type 0} → ProcedureCandidate S → Option String → Moved S
enter_shadow c evidence = transition c shadow evidence

enter_canary : {S : Type 0} → ProcedureCandidate S → Option String → Moved S
enter_canary c evidence = transition c canary evidence

activate : {S : Type 0} → ProcedureCandidate S → Option String → Moved S
activate c evidence = transition c active evidence

reject : {S : Type 0} → ProcedureCandidate S → Option String → Moved S
reject c evidence = transition c rejected evidence

rollback : {S : Type 0} → ProcedureCandidate S → Option String → Moved S
rollback c evidence = transition c rolled_back evidence

-- The methods of the lifecycle that a caller may use.
pub data Call : Type 0 where
  validates replays holds_out shadows canaries activates rejects rolls_back : Option String → Call
  moves : CandidateStatus → Option String → Call

call : {S : Type 0} → ProcedureCandidate S → Call → Moved S
unfolding static_validate replay_pass holdout_pass enter_shadow enter_canary activate reject
    rollback
call c (validates e) = static_validate c e
call c (replays e) = replay_pass c e
call c (holds_out e) = holdout_pass c e
call c (shadows e) = enter_shadow c e
call c (canaries e) = enter_canary c e
call c (activates e) = activate c e
call c (rejects e) = reject c e
call c (rolls_back e) = rollback c e
call c (moves to e) = transition c to e

-- The candidate after some calls, also those that raise.
pub run : {S : Type 0} → ProcedureCandidate S → List Call → ProcedureCandidate S
unfolding call
run c [] = c
run c (x ∷ xs) = run (call c x).0 xs
