-- ===== src/Base/Lists.antt =====
-- Lists measured by native numbers, Python's `any`, `all` and `in` over them, and the predicate that
-- holds of each item.
use Prim.Native.Nat.{ℕ, suc, ◌+◌}
use mathlib.Core.Path.{◌≡◌}
use mathlib.Core.Bool.{Bool, true, false, ◌&&◌, ◌||◌}
use mathlib.Core.List.{List, [], ◌∷◌, ◌++◌}
use native.Mathlib.Omega.{arith}
use mathlib.Core.Path.{subst}
use mathlib.Core.Logic.{inl, inr}
use evo_review_agent.Base.Tests.{if◌then◌else◌, Bool-cases}
use evo_review_agent.Base.Key.{Key, ◌==◌}

module _ {ℓ} {A : Type ℓ} where
  abbrev pub length : List A → ℕ
  length [] = 0
  length (x ∷ xs) = suc (length xs)

  pub length-append : (xs ys : List A) → length (xs ++ ys) ≡ length xs + length ys
  length-append [] ys = omega arith
  length-append (x ∷ xs) ys = omega (arith, length-append xs ys)

  abbrev pub any : (A → Bool) → List A → Bool
  any p [] = false
  any p (x ∷ xs) = p x || any p xs

  abbrev pub all : (A → Bool) → List A → Bool
  all p [] = true
  all p (x ∷ xs) = p x && all p xs

  -- `[x for x in xs if p(x)]`
  abbrev pub select : (A → Bool) → List A → List A
  select p [] = []
  select p (x ∷ xs) = let rest = select p xs in if p x then x ∷ rest else rest

-- `x in xs`
abbrev pub contains {ℓ} : {A : Type ℓ} ⦃e : Key A⦄ → List A → A → Bool
contains [] a = false
contains (x ∷ xs) a = x == a || contains xs a

-- Every item satisfies `P`.
abbrev pub All {ℓ κ} : {A : Type ℓ} → (A → Type κ) → List A → Type κ
All P [] = Unit
All P (x ∷ xs) = P x × All P xs

-- What holds of every item holds of one that the list contains.
pub contains-All {ℓ κ} :
    {A : Type ℓ} ⦃e : Key A⦄ (P : A → Type κ) (xs : List A) (a : A)
    → All P xs
    → contains xs a ≡ true
    → P a
contains-All P [] a h found = cc
contains-All ⦃e⦄ P (x ∷ xs) a h found = elim (Bool-cases (x == a)) [
  | inl same ↦ subst P ((e.same_iff x a).0 same) h.0
  | inr other ↦ contains-All P xs a h.1 (rw other at found)
]
