-- ===== src/Base/Result.antt =====
-- A call that returns or raises: `err` carries the exception.
use mathlib.Core.Path.{◌≡◌, refl}

pub data Result {ℓ κ} (E : Type κ) (A : Type ℓ) : Type (ℓ ⊔ κ) where
  err : E → Result E A
  ok : A → Result E A

pub ok_inj {ℓ κ} : {E : Type κ} {A : Type ℓ} {a b : A} → ◌≡◌ {A = Result E A} (ok a) (ok b) → a ≡ b
ok_inj e = cc

module _ {ℓ κ μ} {E : Type κ} {A : Type ℓ} {B : Type μ} where
  infixl 5 ◌>>=◌
  abbrev pub ◌>>=◌ : Result E A → (A → Result E B) → Result E B
  ◌>>=◌ (err raised) next = err raised
  ◌>>=◌ (ok value) next = next value

  -- A block returned only if its first call did, and the rest returned on that call's value.
  pub >>=_returned :
      (first : Result E A) (next : A → Result E B) {result : B}
      → (first >>= next) ≡ ok result
      → (value : A) × (first ≡ ok value) × (next value ≡ ok result)
  >>=_returned (err raised) next h = cc
  >>=_returned (ok value) next h = (value, refl, h)

  -- A block returns if its first call does, and the rest on any value.
  pub >>=_returns :
      (first : Result E A) (next : A → Result E B)
      → ((value : A) × (first ≡ ok value))
      → ((value : A) → (result : B) × (next value ≡ ok result))
      → (result : B) × ((first >>= next) ≡ ok result)
  >>=_returns (err raised) next (value, e) h = cc
  >>=_returns (ok v) next first h = h v
