-- ===== src/Base/Slices.antt =====
-- Python's slices of lists, the set of a list's items, and repeated items.
use Prim.Native.Nat.{ℕ, zero, suc, ◌≤◌, ◌<◌, min}
use mathlib.Core.Path.{◌≡◌, refl, sym, ◌∙◌, ap}
use mathlib.Core.Bool.{true}
use mathlib.Core.Logic.{◌⊎◌, inl, inr}
use mathlib.Core.List.{List, [], ◌∷◌, ◌++◌, map, tail-eq_of_cons-eq}
use native.Mathlib.Omega.{arith}
use evo_review_agent.Base.Tests.{if◌then◌else◌, Bool-cases, leb, leb→le, leb-false→lt}
use evo_review_agent.Base.Lists.{length, length-append, contains}
use evo_review_agent.Base.Key.{Key}

-- `xs[:n]`
unfoldable pub take {ℓ} : {A : Type ℓ} → ℕ → List A → List A
take zero xs = []
take (suc n) [] = []
take (suc n) (x ∷ xs) = x ∷ take n xs

-- `xs[-n:]` of a positive `n`
unfoldable pub last_items {ℓ} : {A : Type ℓ} → ℕ → List A → List A
last_items n [] = []
last_items n (x ∷ xs) =
    let rest = last_items n xs in if leb (length (x ∷ xs)) n then x ∷ xs else rest

unfoldable pub replicate {ℓ} : {A : Type ℓ} → ℕ → A → List A
replicate zero a = []
replicate (suc n) a = a ∷ replicate n a

-- The items without repetitions, as in a set.
unfoldable pub set_of {ℓ} : {A : Type ℓ} ⦃e : Key A⦄ → List A → List A
set_of [] = []
set_of (x ∷ xs) = let rest = set_of xs in if contains rest x then rest else x ∷ rest

pub length-map {ℓ κ} :
    {A : Type ℓ} {B : Type κ} (f : A → B) (xs : List A) → length (map f xs) ≡ length xs
length-map f [] = refl
length-map f (x ∷ xs) = ap suc (length-map f xs)

module _ {ℓ} {A : Type ℓ} where
  -- Either all items of the list are its last ones, or those of its tail are.
  last_items-cases :
      (n : ℕ) (x : A) (xs : List A)
      → ((suc (length xs) ≤ n) × (last_items n (x ∷ xs) ≡ x ∷ xs))
        ⊎ ((n < suc (length xs)) × (last_items n (x ∷ xs) ≡ last_items n xs))
  unfolding last_items
  last_items-cases n x xs = elim (Bool-cases (leb (suc (length xs)) n)) [
    | inl all_of ↦ inl (leb→le (suc (length xs)) n all_of, rw all_of refl)
    | inr fewer ↦ inr (leb-false→lt (suc (length xs)) n fewer, rw fewer refl)
  ]

  pub last_items-length : (n : ℕ) (xs : List A) → length (last_items n xs) ≡ min n (length xs)
  unfolding last_items
  last_items-length n [] = omega arith
  last_items-length n (x ∷ xs) = elim (last_items-cases n x xs) [
    | inl (h, e) ↦ ap length e ∙ omega (arith, h)
    | inr (h, e) ↦ ap length e ∙ omega (arith, h, last_items-length n xs)
  ]

  -- A list that is no longer is its own last items.
  pub last_items-all : (n : ℕ) (xs : List A) → length xs ≤ n → last_items n xs ≡ xs
  unfolding last_items
  last_items-all n [] h = refl
  last_items-all n (x ∷ xs) h = elim (last_items-cases n x xs) [
    | inl (whole, e) ↦ e
    | inr (shorter, e) ↦ absurd (omega (arith, shorter, h))
  ]

  -- The last of the last are the last.
  pub last_items-last_items :
      (m n : ℕ) (xs : List A) → m ≤ n → last_items m (last_items n xs) ≡ last_items m xs
  unfolding last_items
  last_items-last_items m n [] h = refl
  last_items-last_items m n (x ∷ xs) h = elim (last_items-cases n x xs) [
    | inl (whole, e) ↦ ap (last_items m) e
    | inr (shorter, e) ↦ elim (last_items-cases m x xs) [
      | inl (all_of, e') ↦ absurd (omega (arith, shorter, all_of, h))
      | inr (fewer, e') ↦ ap (last_items m) e ∙ last_items-last_items m n xs h ∙ sym e'
    ]
  ]

  pub last_items-behind : (xs ys : List A) → last_items (length ys) (xs ++ ys) ≡ ys
  last_items-behind [] ys = last_items-all (length ys) ys (omega arith)
  last_items-behind (x ∷ xs) ys = elim (last_items-cases (length ys) x (xs ++ ys)) [
    | inl (whole, e) ↦ absurd (omega (arith, whole, length-append xs ys))
    | inr (shorter, e) ↦ e ∙ last_items-behind xs ys
  ]

  pub length-replicate : (n : ℕ) (a : A) → length (replicate n a) ≡ n
  unfolding replicate
  length-replicate zero a = refl
  length-replicate (suc n) a = ap suc (length-replicate n a)

  -- A list with one more item ends where the item is or before it.
  pub append-split :
      (l : List A) (a : A) (ys zs : List A)
      → l ++ (a ∷ []) ≡ ys ++ zs
      → (ys ≡ l ++ (a ∷ [])) ⊎ ((rest : List A) × (l ≡ ys ++ rest))
  append-split l a [] zs h = inr (l, refl)
  append-split [] a (y ∷ []) zs h = inl cc
  append-split [] a (y ∷ z ∷ ys) zs h = cc
  append-split (x ∷ l) a (y ∷ ys) zs h = elim (append-split l a ys zs (tail-eq_of_cons-eq h)) [
    | inl whole ↦ inl cc
    | inr (rest, e) ↦ inr (rest, cc)
  ]

pub last_items-map {ℓ κ} :
    {A : Type ℓ} {B : Type κ} (f : A → B) (n : ℕ) (xs : List A)
    → map f (last_items n xs) ≡ last_items n (map f xs)
unfolding last_items
last_items-map f n [] = refl
last_items-map f n (x ∷ xs) = elim (last_items-cases n x xs) [
  | inl (whole, e) ↦
      ap (map f) e ∙ sym (last_items-all n (map f (x ∷ xs)) (omega (arith, whole, length-map f xs)))
  | inr (shorter, e) ↦ elim (last_items-cases n (f x) (map f xs)) [
    | inl (all_of, e') ↦ absurd (omega (arith, all_of, shorter, length-map f xs))
    | inr (fewer, e') ↦ ap (map f) e ∙ last_items-map f n xs ∙ sym e'
  ]
]

module _ {ℓ} {A : Type ℓ} ⦃e : Key A⦄ where
  set_of-known : (xs : List A) (a : A) → contains (set_of xs) a ≡ true → set_of (a ∷ xs) ≡ set_of xs
  unfolding set_of
  set_of-known xs a h = rw h refl

  -- The set of a repeated item has one element.
  pub set_of-replicate : (n : ℕ) (a : A) → set_of (replicate (suc n) a) ≡ a ∷ []
  unfolding set_of replicate
  set_of-replicate zero a = refl
  set_of-replicate (suc n) a =
      let one = set_of-replicate n a in
      let known : contains (a ∷ []) a ≡ true = ground (arith, e.same_iff a a) in
      set_of-known (replicate (suc n) a) a (ap (λ s. contains s a) one ∙ known) ∙ one
