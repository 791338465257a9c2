-- ===== src/Recovery/NoProgress.antt =====
-- evoagent/recovery/no_progress.py: the detection of a loop in the actions of an agent. How the
-- arguments are dumped as JSON is a parameter.
pub mod Detection
use evo_review_agent.Base.{
  ℕ, max, String, Bool, true, false, ◌&&◌, List, [], ◌∷◌, map, ltb, leb, eqb, if◌then◌else◌, length,
  ◌<>◌,
}
use evo_review_agent.Base.Key.{◌==◌, text_key}
use evo_review_agent.Base.Slices.{last_items, set_of}

pub record NoProgressDetector : Type 0 where
  pub window : ℕ
  pub max_duplicates : ℕ

-- `__init__`
pub no_progress_detector : ℕ → ℕ → NoProgressDetector
no_progress_detector window max_duplicates = record {
  window = max 2 window;
  max_duplicates = max 2 max_duplicates;
}

pub record AgentAction (A : Type 0) : Type 0 where
  pub action : String
  pub tool : String
  pub arguments : A

unfoldable pub fingerprint : {A : Type 0} → (A → String) → AgentAction A → String
fingerprint stable_args a = a.action <> "|" <> a.tool <> "|" <> stable_args a.arguments

-- The comparison of each item with the one at its index modulo 2.
pub alternates : String → String → List String → Bool
alternates a b [] = true
alternates a b (x ∷ xs) = x == a && alternates b a xs

pub from_two : List String → Bool
unfolding alternates
from_two (a ∷ b ∷ rest) = alternates a b (a ∷ b ∷ rest)
from_two _ = true

pub is_two_cycle : List String → Bool
unfolding set_of from_two
is_two_cycle recent =
    if ltb (length recent) 4
    then false
    else if ltb 2 (length (set_of recent))
    then false
    else from_two recent

-- The answer for the fingerprints of the recent actions
pub looks_stuck : NoProgressDetector → List String → Bool
unfolding is_two_cycle last_items
looks_stuck d [] = false
looks_stuck d recent =
    if leb d.max_duplicates (length recent)
      && eqb (length (set_of (last_items d.max_duplicates recent))) 1
    then true
    else is_two_cycle recent

unfoldable pub detect :
    {A : Type 0} → (A → String) → NoProgressDetector → List (AgentAction A) → Bool
unfolding looks_stuck fingerprint
detect stable_args d actions =
    looks_stuck d (map (fingerprint stable_args) (last_items d.window actions))
