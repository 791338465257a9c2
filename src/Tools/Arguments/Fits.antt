-- ===== src/Tools/Arguments/Fits.antt =====
-- Which values the tests of one argument in evoagent/runtime.py let through.
use evo_review_agent.Base.{
  ◌+◌, ◌*◌, ◌^◌, ◌<◌, String, ◌≡◌, refl, ap, ◌↔◌, ◌⊎◌, inl, inr, Bool, true, false, Option, none,
  some, arith, some_inj,
}
use evo_review_agent.Base.Key.{text_key}
use evo_review_agent.Tools.Arguments.{
  Integer, pos, plus_part, minus_part, Number, finite, plus_infinity, minus_infinity, not_a_number,
  less, ValueType, string_type, integer_type, number_type, boolean_type, object_type, array_type,
  Value, text, boolean, integer, floating, object, array, has_type, Spec, type_ok, number_of,
  is_below, check_value,
}

-- The values of a type; an integer is a number too, a boolean is none.
abbrev pub HasType : ValueType → Value → Type 0
HasType string_type v = (s : String) × (v ≡ text s)
HasType integer_type v = (n : Integer) × (v ≡ integer n)
HasType number_type v = ((n : Integer) × (v ≡ integer n)) ⊎ ((n : Number) × (v ≡ floating n))
HasType boolean_type v = (b : Bool) × (v ≡ boolean b)
HasType object_type v = v ≡ object
HasType array_type v = v ≡ array

-- The order of the numbers: of two finite ones it is that of the integers over a common
-- denominator, and what is not a number is in no order to another.
abbrev pub IsLess : Number → Number → Type 0
IsLess (finite a j) (finite b k) =
    plus_part a * 2 ^ k + minus_part b * 2 ^ j < plus_part b * 2 ^ j + minus_part a * 2 ^ k
IsLess (finite a j) plus_infinity = Unit
IsLess minus_infinity (finite b k) = Unit
IsLess minus_infinity plus_infinity = Unit
IsLess _ _ = ⊥

-- The number that a value is; true is 1 and false is 0.
abbrev pub Counts : Value → Number → Type 0
Counts (integer m) n = finite m 0 ≡ n
Counts (floating m) n = m ≡ n
Counts (boolean true) n = finite (pos 1) 0 ≡ n
Counts (boolean false) n = finite (pos 0) 0 ≡ n
Counts _ n = ⊥

-- The value is of the type that the specification names, and within its bounds, if it is a number.
pub record Fits (spec : Spec) (v : Value) : Type 0 where
  pub typed : (t : ValueType) → spec.type ≡ some t → HasType t v
  pub above : (n bound : Number) → Counts v n → spec.minimum ≡ some bound → ¬ IsLess n bound
  pub below : (n bound : Number) → Counts v n → spec.maximum ≡ some bound → ¬ IsLess bound n

has_type-HasType : (t : ValueType) (v : Value) → has_type t v ≡ true → HasType t v
unfolding has_type
has_type-HasType string_type (text s) h = (s, refl)
has_type-HasType integer_type (integer n) h = (n, refl)
has_type-HasType number_type (integer n) h = inl (n, refl)
has_type-HasType number_type (floating n) h = inr (n, refl)
has_type-HasType boolean_type (boolean b) h = (b, refl)
has_type-HasType object_type object h = refl
has_type-HasType array_type array h = refl
has_type-HasType _ _ h = cc

HasType-has_type : (t : ValueType) (v : Value) → HasType t v → has_type t v ≡ true
unfolding has_type
HasType-has_type string_type v (s, e) = rw e refl
HasType-has_type integer_type v (n, e) = rw e refl
HasType-has_type number_type v (inl (n, e)) = rw e refl
HasType-has_type number_type v (inr (n, e)) = rw e refl
HasType-has_type boolean_type v (b, e) = rw e refl
HasType-has_type object_type v e = rw e refl
HasType-has_type array_type v e = rw e refl

type_ok_iff :
    (o : Option ValueType) (v : Value)
    → (type_ok o v ≡ true) ↔ ((t : ValueType) → o ≡ some t → HasType t v)
unfolding type_ok
type_ok_iff none v = (λ h t e. cc, λ h. refl)
type_ok_iff (some u) v =
    (λ h t e. rw (← some_inj e) (has_type-HasType u v h), λ h. HasType-has_type u v (h u refl))

less_iff : (a b : Number) → (less a b ≡ false) ↔ (¬ IsLess a b)
unfolding less
less_iff (finite a j) (finite b k) = (λ h l. ground (arith, h, l), λ h. ground (arith, h))
less_iff (finite a j) plus_infinity = (λ h l. cc, λ h. absurd (h tt))
less_iff minus_infinity (finite b k) = (λ h l. cc, λ h. absurd (h tt))
less_iff minus_infinity plus_infinity = (λ h l. cc, λ h. absurd (h tt))
less_iff (finite a j) minus_infinity = (λ h l. l, λ h. refl)
less_iff (finite a j) not_a_number = (λ h l. l, λ h. refl)
less_iff plus_infinity b = (λ h l. l, λ h. refl)
less_iff not_a_number b = (λ h l. l, λ h. refl)
less_iff minus_infinity minus_infinity = (λ h l. l, λ h. refl)
less_iff minus_infinity not_a_number = (λ h l. l, λ h. refl)

number_of-Counts : (v : Value) (n : Number) → Counts v n → number_of v ≡ some n
unfolding number_of
number_of-Counts (integer m) n e = ap some e
number_of-Counts (floating m) n e = ap some e
number_of-Counts (boolean true) n e = ap some e
number_of-Counts (boolean false) n e = ap some e
number_of-Counts _ n e = absurd e

Counts-number_of : (v : Value) (n : Number) → number_of v ≡ some n → Counts v n
unfolding number_of
Counts-number_of (integer m) n e = some_inj e
Counts-number_of (floating m) n e = some_inj e
Counts-number_of (boolean true) n e = some_inj e
Counts-number_of (boolean false) n e = some_inj e
Counts-number_of _ n e = cc

is_below_iff :
    (x y : Option Number)
    → (is_below x y ≡ false) ↔ ((a b : Number) → x ≡ some a → y ≡ some b → ¬ IsLess a b)
unfolding is_below
is_below_iff none y = (λ h a b e f. cc, λ h. refl)
is_below_iff (some a) none = (λ h a b e f. cc, λ h. refl)
is_below_iff (some a) (some b) = (
  λ h c d e f. rw (← some_inj e, ← some_inj f) ((less_iff a b).0 h),
  λ h. (less_iff a b).1 (h a b refl refl),
)

-- The tests of one argument are passed exactly by what fits.
pub check_value-Fits :
    (spec : Spec) (key : String) (v : Value) → (check_value spec key v ≡ none) ↔ Fits spec v
unfolding check_value
check_value-Fits spec key v =
    let typed = type_ok_iff spec.type v in
    let above = is_below_iff (number_of v) spec.minimum in
    let below = is_below_iff spec.maximum (number_of v) in
    (
      λ e. record {
        typed = typed.0 (ground arith);
        above = λ n bound c f. above.0 (ground arith) n bound (number_of-Counts v n c) f;
        below = λ n bound c f. below.0 (ground arith) bound n f (number_of-Counts v n c);
      },
      λ f. ground (
        arith,
        typed.1 f.typed,
        above.1 (λ n bound e m. f.above n bound (Counts-number_of v n e) m),
        below.1 (λ bound n m e. f.below n bound (Counts-number_of v n e) m),
      ),
    )
