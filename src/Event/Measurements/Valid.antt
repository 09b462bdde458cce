-- ===== src/Event/Measurements/Valid.antt =====
-- What a measurement keeps to once it has been validated.
use text.Mathlib.TextEquality.{eq_iff}
use openleadr_python.Base.{
  String, ◌≡◌, refl, ap, subst, ◌∙◌, ◌⊎◌, inl, inr, true, Option, none, some, arith, Bool-cases,
  if◌then◌else◌,
}
use openleadr_python.Base.Exec.{ok, raise, value_error}
use openleadr_python.Event.Objects.{same_text}
use openleadr_python.Event.Preflight.{and_then}
use openleadr_python.Event.Preflight.Loops.{and_then_ok}
use openleadr_python.Event.Measurements.{
  MeasurementDict, PowerDict, text_lookup, acceptable_units, measurement_descriptions,
  set_description, correct_description, same_lower, check_unit, check_known, is_complete, is_power,
  check_attributes, check_power, validate_texts, validate_report_measurement_dict,
}
use openleadr_python.Event.Measurements.Checks.{
  IsKnown, check_power_ok, HasTexts, check_known-HasTexts,
}

-- A measurement with a known name, its description and one of its units, or a custom one; the
-- attributes of one that is a power are complete.
pub record IsValid (m : MeasurementDict) : Type 0 where
  pub name : String
  pub description : String
  pub unit : String
  pub named : m.name ≡ some name
  pub described : m.description ≡ some description
  pub measured : m.unit ≡ some unit
  pub known : IsKnown name description unit ⊎ (name ≡ "customUnit")
  pub powered :
      is_power name ≡ true
      → (p : PowerDict) × (m.power_attributes ≡ some (some p)) × (is_complete p ≡ true)

pub same_text_refl : (t : String) → same_text t t ≡ true
same_text_refl t = (eq_iff t t).1 refl

texts-IsValid :
    (given : String) (m q n : MeasurementDict)
    → HasTexts given m q
    → check_power given q ≡ ok n
    → IsValid n
texts-IsValid given m q n t h =
    let (same, powered) = check_power_ok given q n h in
    subst IsValid same (record {
      name = t.name;
      description = t.description;
      unit = t.unit;
      named = t.named;
      described = t.described;
      measured = t.measured;
      known = t.known;
      powered = λ p. elim t.same_name [
        | inl k ↦ powered (subst (λ x. is_power x ≡ true) k p)
        | inr k ↦ absurd (custom_power (subst (λ x. is_power x ≡ true) k p))
      ];
    })
  where
    custom_power : ¬ (is_power "customUnit" ≡ true)
    custom_power e = ground (arith, e)

validate_texts-IsValid :
    (a b c : Option String) (m n : MeasurementDict)
    → m.name ≡ a
    → m.description ≡ b
    → m.unit ≡ c
    → validate_texts a b c m ≡ ok n
    → IsValid n
validate_texts-IsValid (some name) (some description) (some unit) m n a b c h =
    let (q, texts, rest) =
      and_then_ok (check_known (text_lookup name measurement_descriptions) name description unit m)
        (check_power name) n h in
    texts-IsValid name m q n (check_known-HasTexts name description unit m q a b c texts) rest
validate_texts-IsValid none _ _ m n a b c h = absurd (ground (arith, h))
validate_texts-IsValid (some _) none _ m n a b c h = absurd (ground (arith, h))
validate_texts-IsValid (some _) (some _) none m n a b c h = absurd (ground (arith, h))

-- A measurement that is accepted is valid as it is left.
pub validate-IsValid :
    (m n : MeasurementDict) → validate_report_measurement_dict m ≡ ok n → IsValid n
unfolding validate_report_measurement_dict
validate-IsValid m n h = validate_texts-IsValid m.name m.description m.unit m n refl refl refl h

power_fixed :
    (name : String) (m : MeasurementDict)
    → (is_power name ≡ true
        → (p : PowerDict) × (m.power_attributes ≡ some (some p)) × (is_complete p ≡ true))
    → check_power name m ≡ ok m
power_fixed name m powered = elim (Bool-cases (is_power name)) [
  | inl k ↦
      let (p, given, complete) = powered k in
      ap (λ b. if b then check_attributes m.power_attributes m else ok m) k
      ∙ ap (λ o. check_attributes o m) given
      ∙ ap (λ b. if b then ok m else raise value_error) complete
  | inr k ↦ ap (λ b. if b then check_attributes m.power_attributes m else ok m) k
]

known_fixed :
    (name description unit : String) (m : MeasurementDict)
    → IsKnown name description unit ⊎ (name ≡ "customUnit")
    → check_known (text_lookup name measurement_descriptions) name description unit m ≡ ok m
unfolding check_known correct_description
known_fixed name description unit m (inl (k, (units, j, u))) =
    ap (λ o. check_known o name description unit m) k
    ∙ ap
        (λ b.
          and_then
            (if b
              then ok m
              else if same_lower description description
              then ok (set_description description m)
              else raise value_error)
            (check_unit (text_lookup name acceptable_units) unit))
        (same_text_refl description)
    ∙ ap (λ o. check_unit o unit m) j
    ∙ ap (λ b. if b then ok m else raise value_error) u
known_fixed name description unit m (inr k) =
    ap (λ x. check_known (text_lookup x measurement_descriptions) x description unit m) k

-- A valid measurement is accepted, and left as it is.
pub IsValid-validate : (m : MeasurementDict) → IsValid m → validate_report_measurement_dict m ≡ ok m
unfolding validate_report_measurement_dict
IsValid-validate m v =
    ap (λ o. validate_texts o m.description m.unit m) v.named
    ∙ ap (λ o. validate_texts (some v.name) o m.unit m) v.described
    ∙ ap (λ o. validate_texts (some v.name) (some v.description) o m) v.measured
    ∙ ap (λ r. and_then r (check_power v.name)) (known_fixed v.name v.description v.unit m v.known)
    ∙ power_fixed v.name m v.powered
