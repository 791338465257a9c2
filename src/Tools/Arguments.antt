-- ===== src/Tools/Arguments.antt =====
-- The tool catalog of evoagent/runtime.py: the check of the arguments of a call against the schema of
-- its tool. A finite number is an integer over a power of two, which every float is, so that the
-- comparisons with the bounds are exact.
pub mod Fits
pub mod Validate
use evo_review_agent.Base.{
  ℕ, String, Bool, true, false, not, ◌&&◌, Option, none, some, List, [], ◌∷◌, ltb, if◌then◌else◌,
  ◌+◌, ◌*◌, ◌^◌,
}
use evo_review_agent.Base.Key.{text_key}
use evo_review_agent.Base.Dict.{Dict, get}

-- `negsuc n` is -(n + 1)
pub data Integer : Type 0 where
  pos : ℕ → Integer
  negsuc : ℕ → Integer

abbrev pub plus_part : Integer → ℕ
plus_part (pos n) = n
plus_part (negsuc n) = 0

abbrev pub minus_part : Integer → ℕ
minus_part (pos n) = 0
minus_part (negsuc n) = n + 1

-- `finite m k` is m / 2 ^ k
pub data Number : Type 0 where
  finite : Integer → ℕ → Number
  plus_infinity minus_infinity not_a_number : Number

-- `a < b`; what is not a number is neither below nor above another.
unfoldable pub less : Number → Number → Bool
less (finite a j) (finite b k) =
    ltb (plus_part a * 2 ^ k + minus_part b * 2 ^ j) (plus_part b * 2 ^ j + minus_part a * 2 ^ k)
less (finite a j) plus_infinity = true
less minus_infinity (finite b k) = true
less minus_infinity plus_infinity = true
less _ _ = false

pub data Value : Type 0 where
  null object array : Value
  text : String → Value
  boolean : Bool → Value
  integer : Integer → Value
  floating : Number → Value

-- The entry of a property: the type that it names, if it is one of the six, and its bounds.
pub data ValueType : Type 0 where
  string_type integer_type number_type boolean_type object_type array_type : ValueType

pub record Spec : Type 0 where
  pub type : Option ValueType
  pub minimum : Option Number
  pub maximum : Option Number

pub record Schema : Type 0 where
  pub properties : Dict String Spec
  pub required : List String
  pub additional_properties : Bool

pub data ArgumentError : Type 0 where
  missing_required unknown_arguments : ArgumentError
  wrong_type below_minimum exceeds_maximum : String → ArgumentError

-- `isinstance` of a value, a boolean being no number.
unfoldable pub has_type : ValueType → Value → Bool
has_type string_type (text s) = true
has_type integer_type (integer n) = true
has_type number_type (integer n) = true
has_type number_type (floating n) = true
has_type boolean_type (boolean b) = true
has_type object_type object = true
has_type array_type array = true
has_type _ _ = false

unfoldable pub type_ok : Option ValueType → Value → Bool
type_ok none v = true
type_ok (some t) v = has_type t v

-- The number that the bounds are compared with; in Python a boolean is one too.
unfoldable pub number_of : Value → Option Number
number_of (integer n) = some (finite n 0)
number_of (floating n) = some n
number_of (boolean true) = some (finite (pos 1) 0)
number_of (boolean false) = some (finite (pos 0) 0)
number_of _ = none

unfoldable pub is_below : Option Number → Option Number → Bool
is_below (some v) (some bound) = less v bound
is_below _ _ = false

abbrev pub no_spec : Spec
no_spec = record { type = none; minimum = none; maximum = none }

abbrev pub spec_of : Option Spec → Spec
spec_of none = no_spec
spec_of (some s) = s

-- The tests of one argument.
unfoldable pub check_value : Spec → String → Value → Option ArgumentError
check_value spec key v =
    if not (type_ok spec.type v)
    then some (wrong_type key)
    else if is_below (number_of v) spec.minimum
    then some (below_minimum key)
    else if is_below spec.maximum (number_of v)
    then some (exceeds_maximum key)
    else none

-- The first of two complaints.
unfoldable pub first_error : Option ArgumentError → Option ArgumentError → Option ArgumentError
first_error (some e) rest = some e
first_error none rest = rest

-- The loop over the arguments.
unfoldable pub check_values : Dict String Spec → Dict String Value → Option ArgumentError
unfolding check_value first_error
check_values properties [] = none
check_values properties ((key, v) ∷ rest) =
    first_error (check_value (spec_of (get properties key)) key v) (check_values properties rest)

unfoldable pub has_key : Option Value → Bool
has_key none = false
has_key (some v) = true

unfoldable pub has_spec : Option Spec → Bool
has_spec none = false
has_spec (some s) = true

-- `required.difference(arguments)` is empty
unfoldable pub has_required : List String → Dict String Value → Bool
has_required [] arguments = true
has_required (key ∷ keys) arguments = has_key (get arguments key) && has_required keys arguments

-- `set(arguments).difference(properties)` is empty
unfoldable pub all_known : Dict String Spec → Dict String Value → Bool
all_known properties [] = true
all_known properties ((key, v) ∷ rest) = has_spec (get properties key) && all_known properties rest

-- `_validate`; `none` is its normal return.
unfoldable pub validate : Schema → Dict String Value → Option ArgumentError
validate schema arguments =
    if not (has_required schema.required arguments)
    then some missing_required
    else if not schema.additional_properties && not (all_known schema.properties arguments)
    then some unknown_arguments
    else check_values schema.properties arguments
