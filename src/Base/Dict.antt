-- ===== src/Base/Dict.antt =====
-- Python's `dict`: an association list in order of insertion. A write to a key that is there keeps
-- its place, and a new key goes last.
use mathlib.Core.Path.{◌≡◌, refl}
use mathlib.Core.Option.{Option, none, some}
use mathlib.Core.List.{List, [], ◌∷◌}
use native.Mathlib.Omega.{arith}
use evo_review_agent.Base.Key.{Key, ◌==◌}
use mathlib.Core.Logic.{inl, inr}
use mathlib.Core.Path.{subst}
use evo_review_agent.Base.Lists.{All}
use evo_review_agent.Base.Tests.{if◌then◌else◌, Bool-cases, some_inj}

abbrev pub Dict {ℓ} : Type 0 → Type ℓ → Type ℓ
Dict K V = List (K × V)

module _ {ℓ} {K : Type 0} {V : Type ℓ} ⦃e : Key K⦄ where
  -- d.get(k)
  unfoldable pub get : Dict K V → K → Option V
  get [] k = none
  get ((j, v) ∷ d) k = if j == k then some v else get d k

  -- d[k] = v
  unfoldable pub put : Dict K V → K → V → Dict K V
  put [] k v = (k, v) ∷ []
  put ((j, w) ∷ d) k v = if j == k then (j, v) ∷ d else (j, w) ∷ put d k v

  -- d.pop(k, None)
  unfoldable pub remove : Dict K V → K → Dict K V
  remove [] k = []
  remove ((j, w) ∷ d) k = let rest = remove d k in if j == k then rest else (j, w) ∷ rest

  pub get-put :
      (d : Dict K V) (k j : K) (v : V) → get (put d k v) j ≡ (if k == j then some v else get d j)
  unfolding get put
  get-put [] k j v = refl
  get-put ((i, w) ∷ d) k j v =
      ground (arith, e.same_iff k j, e.same_iff i k, e.same_iff i j, get-put d k j v)

  pub get-remove :
      (d : Dict K V) (k j : K) → get (remove d k) j ≡ (if k == j then none else get d j)
  unfolding get remove
  get-remove [] k j = ground arith
  get-remove ((i, w) ∷ d) k j =
      ground (arith, e.same_iff k j, e.same_iff i k, e.same_iff i j, get-remove d k j)

  pub get-put_self : (d : Dict K V) (k : K) (v : V) → get (put d k v) k ≡ some v
  get-put_self d k v = ground (arith, get-put d k k v, e.same_iff k k)

-- Every entry of the dict satisfies `P`.
abbrev pub Entries {ℓ κ} : {K : Type 0} {V : Type ℓ} → (K → V → Type κ) → Dict K V → Type κ
Entries P [] = Unit
Entries P ((k, v) ∷ d) = P k v × Entries P d

module _ {ℓ κ} {K : Type 0} {V : Type ℓ} ⦃e : Key K⦄ (P : K → V → Type κ) where
  pub Entries-put : (d : Dict K V) (k : K) (v : V) → P k v → Entries P d → Entries P (put d k v)
  unfolding put
  Entries-put [] k v p h = (p, tt)
  Entries-put ((j, w) ∷ d) k v p h = elim (Bool-cases (j == k)) [
    | inl same ↦ rw same (rw ((e.same_iff j k).0 same) p, h.1)
    | inr other ↦ rw other (h.0, Entries-put d k v p h.1)
  ]

  pub Entries-get : (d : Dict K V) (k : K) {v : V} → Entries P d → get d k ≡ some v → P k v
  unfolding get
  Entries-get [] k h found = cc
  Entries-get ((j, w) ∷ d) k h found = elim (Bool-cases (j == k)) [
    | inl same ↦ rw (← (e.same_iff j k).0 same) (subst (P j) (some_inj (rw same at found)) h.0)
    | inr other ↦ Entries-get d k h.1 (rw other at found)
  ]

module _ {ℓ} {K : Type 0} {V : Type ℓ} ⦃e : Key K⦄ where
  -- Writing the same value again changes nothing.
  pub put-put_self : (d : Dict K V) (k : K) (v : V) → put (put d k v) k v ≡ put d k v
  unfolding put
  put-put_self [] k v = ground (arith, e.same_iff k k)
  put-put_self ((j, w) ∷ d) k v = ground (arith, e.same_iff j k, put-put_self d k v)

-- `list(d)`
unfoldable pub keys {ℓ} : {K : Type 0} {V : Type ℓ} → Dict K V → List K
keys [] = []
keys ((k, v) ∷ d) = k ∷ keys d

-- `list(d.values())`
unfoldable pub values {ℓ} : {K : Type 0} {V : Type ℓ} → Dict K V → List V
values [] = []
values ((k, v) ∷ d) = v ∷ values d

module _ {ℓ κ μ} {K : Type 0} {V : Type ℓ} {P : K → V → Type κ} {Q : K → V → Type μ} where
  pub Entries-map : (d : Dict K V) → ((k : K) (v : V) → P k v → Q k v) → Entries P d → Entries Q d
  Entries-map [] f h = tt
  Entries-map ((k, v) ∷ d) f h = (f k v h.0, Entries-map d f h.1)

pub Entries-both {ℓ κ μ} :
    {K : Type 0} {V : Type ℓ} (P : K → V → Type κ) (Q : K → V → Type μ) (d : Dict K V)
    → Entries P d
    → Entries Q d
    → Entries (λ k v. P k v × Q k v) d
Entries-both P Q [] p q = tt
Entries-both P Q ((k, v) ∷ d) p q = ((p.0, q.0), Entries-both P Q d p.1 q.1)

pub Entries-values {ℓ κ} :
    {K : Type 0} {V : Type ℓ} (P : V → Type κ) (d : Dict K V)
    → Entries (λ k v. P v) d
    → All P (values d)
unfolding values
Entries-values P [] h = tt
Entries-values P ((k, v) ∷ d) h = (h.0, Entries-values P d h.1)

module _ {ℓ} {K : Type 0} {V : Type ℓ} ⦃e : Key K⦄ where
  -- No key stands twice: what Python's dict keeps.
  abbrev pub Distinct : Dict K V → Type ℓ
  Distinct [] = Unit
  Distinct ((k, v) ∷ d) = (get d k ≡ none) × Distinct d

  pub Distinct-put : (d : Dict K V) (k : K) (v : V) → Distinct d → Distinct (put d k v)
  unfolding get put
  Distinct-put [] k v h = (refl, tt)
  Distinct-put ((j, w) ∷ d) k v h = elim (Bool-cases (j == k)) [
    | inl same ↦ rw same (h.0, h.1)
    | inr other ↦ rw other (
      ground (arith, get-put d k j v, e.same_iff k j, e.same_iff j k, h.0),
      Distinct-put d k v h.1,
    )
  ]

  found_behind :
      (d : Dict K V) (k j : K) (v w : V)
      → get d k ≡ none
      → get d j ≡ some w
      → get ((k, v) ∷ d) j ≡ some w
  unfolding get
  found_behind d k j v w fresh found = elim (Bool-cases (k == j)) [
    | inl same ↦ cc ((e.same_iff k j).0 same)
    | inr other ↦ rw other found
  ]

  -- What stands in the dict is what is found under its key.
  pub Distinct-get : (d : Dict K V) → Distinct d → Entries (λ k v. get d k ≡ some v) d
  unfolding get
  Distinct-get [] h = tt
  Distinct-get ((k, v) ∷ d) h = (
    ground (arith, e.same_iff k k),
    Entries-map d (λ j w found. found_behind d k j v w h.0 found) (Distinct-get d h.1),
  )

-- What holds of every key holds of a key that is found.
pub keys-get {ℓ κ} :
    {K : Type 0} {V : Type ℓ} ⦃e : Key K⦄ (P : K → Type κ) (d : Dict K V) (k : K) {v : V}
    → All P (keys d)
    → get d k ≡ some v
    → P k
unfolding keys get
keys-get P [] k h found = cc
keys-get ⦃e⦄ P ((j, w) ∷ d) k h found = elim (Bool-cases (j == k)) [
  | inl same ↦ subst P ((e.same_iff j k).0 same) h.0
  | inr other ↦ keys-get P d k h.1 (rw other at found)
]
