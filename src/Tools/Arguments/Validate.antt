-- ===== src/Tools/Arguments/Validate.antt =====
-- Which arguments the `_validate` of evoagent/runtime.py lets through.
use evo_review_agent.Base.{
  String, ◌≡◌, refl, ◌↔◌, inl, inr, true, false, Option, none, some, List, [], ◌∷◌, arith, All,
  Bool-cases, some_inj,
}
use evo_review_agent.Base.Key.{text_key}
use evo_review_agent.Base.Dict.{Entries, Dict, get}
use evo_review_agent.Tools.Arguments.{
  Value, Spec, Schema, ArgumentError, type_ok, is_below, spec_of, check_value, first_error,
  check_values, has_key, has_spec, has_required, all_known, validate,
}
use evo_review_agent.Tools.Arguments.Fits.{Fits, check_value-Fits}

-- The arguments that a schema describes.
pub record Conforms (schema : Schema) (arguments : Dict String Value) : Type 0 where
  pub complete : All (λ key. (v : Value) × (get arguments key ≡ some v)) schema.required
  pub known :
      schema.additional_properties ≡ false
      → Entries (λ key v. (s : Spec) × (get schema.properties key ≡ some s)) arguments
  pub fitting :
      Entries (λ key v. (s : Spec) → get schema.properties key ≡ some s → Fits s v) arguments

first_error-none :
    (a b : Option ArgumentError) → (first_error a b ≡ none) ↔ ((a ≡ none) × (b ≡ none))
unfolding first_error
first_error-none none b = (λ e. (refl, e), λ p. p.1)
first_error-none (some a) b = (λ e. cc, λ p. p.0)

-- A key that has no entry in the schema admits every value.
check_entry-Fits :
    (o : Option Spec) (key : String) (v : Value)
    → (check_value (spec_of o) key v ≡ none) ↔ ((s : Spec) → o ≡ some s → Fits s v)
unfolding check_value type_ok is_below
check_entry-Fits none key v = (λ e s f. cc, λ h. ground arith)
check_entry-Fits (some spec) key v = (
  λ e s f. rw (← some_inj f) ((check_value-Fits spec key v).0 e),
  λ h. (check_value-Fits spec key v).1 (h spec refl),
)

check_values-Entries :
    (properties : Dict String Spec) (arguments : Dict String Value)
    → (check_values properties arguments ≡ none)
      ↔ Entries (λ key v. (s : Spec) → get properties key ≡ some s → Fits s v) arguments
unfolding check_values
check_values-Entries properties [] = (λ e. tt, λ e. refl)
check_values-Entries properties ((key, v) ∷ rest) =
    let one = check_entry-Fits (get properties key) key v in
    let others = check_values-Entries properties rest in
    let both =
      first_error-none (check_value (spec_of (get properties key)) key v)
        (check_values properties rest) in
    (
      λ e. (one.0 ((both.0 e).0), others.0 ((both.0 e).1)),
      λ p. both.1 (one.1 (p.0), others.1 (p.1)),
    )

has_key_iff : (o : Option Value) → (has_key o ≡ true) ↔ ((v : Value) × (o ≡ some v))
unfolding has_key
has_key_iff none = (λ h. cc, λ h. ground (arith, h.1))
has_key_iff (some v) = (λ h. (v, refl), λ h. refl)

has_spec_iff : (o : Option Spec) → (has_spec o ≡ true) ↔ ((s : Spec) × (o ≡ some s))
unfolding has_spec
has_spec_iff none = (λ h. cc, λ h. ground (arith, h.1))
has_spec_iff (some s) = (λ h. (s, refl), λ h. refl)

has_required_iff :
    (keys : List String) (arguments : Dict String Value)
    → (has_required keys arguments ≡ true)
      ↔ All (λ key. (v : Value) × (get arguments key ≡ some v)) keys
unfolding has_required
has_required_iff [] arguments = (λ h. tt, λ h. refl)
has_required_iff (key ∷ keys) arguments =
    let one = has_key_iff (get arguments key) in
    let others = has_required_iff keys arguments in
    (
      λ h. (one.0 (ground arith), others.0 (ground arith)),
      λ p. ground (arith, one.1 (p.0), others.1 (p.1)),
    )

all_known_iff :
    (properties : Dict String Spec) (arguments : Dict String Value)
    → (all_known properties arguments ≡ true)
      ↔ Entries (λ key v. (s : Spec) × (get properties key ≡ some s)) arguments
unfolding all_known
all_known_iff properties [] = (λ h. tt, λ h. refl)
all_known_iff properties ((key, v) ∷ rest) =
    let one = has_spec_iff (get properties key) in
    let others = all_known_iff properties rest in
    (
      λ h. (one.0 (ground arith), others.0 (ground arith)),
      λ p. ground (arith, one.1 (p.0), others.1 (p.1)),
    )

-- A call's arguments pass the check exactly if they are what the schema describes: every required
-- one is there, none is unknown unless the schema allows more, and each that has an entry is of the
-- type that the entry names and, if it is a number, within the entry's bounds.
pub validate_iff :
    (schema : Schema) (arguments : Dict String Value)
    → (validate schema arguments ≡ none) ↔ Conforms schema arguments
unfolding validate
validate_iff schema arguments =
    let required = has_required_iff schema.required arguments in
    let known = all_known_iff schema.properties arguments in
    let values = check_values-Entries schema.properties arguments in
    (
      λ e. record {
        complete = required.0 (ground arith);
        known = λ k. known.0 (ground arith);
        fitting = values.0 (ground arith);
      },
      λ c. elim (Bool-cases schema.additional_properties) [
        | inl more ↦ ground (arith, more, required.1 c.complete, values.1 c.fitting)
        | inr closed ↦
            ground
              (arith, closed, required.1 c.complete, known.1 (c.known closed), values.1 c.fitting)
      ],
    )
