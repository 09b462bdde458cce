-- ===== src/Event/Measurements/Checks.antt =====
-- What each check of a measurement makes of one that it lets through.
use text.Mathlib.TextEquality.{eq_iff}
use openleadr_python.Base.{
  String, ◌≡◌, refl, sym, ap, subst, ◌∙◌, ◌⊎◌, inl, inr, Bool, true, false, Option, none, some,
  List, arith, Bool-cases, Option-cases, if◌then◌else◌,
}
use openleadr_python.Base.Exec.{Result, ok, raise, value_error}
use openleadr_python.Event.Objects.{same_text, is_member}
use openleadr_python.Event.Preflight.Loops.{and_then_ok, ok-inj}
use openleadr_python.Event.Measurements.{
  MeasurementDict, PowerDict, text_lookup, acceptable_units, measurement_descriptions,
  set_description, set_name, correct_description, same_lower, check_unit, check_known, is_complete,
  is_power, check_attributes, check_power,
}

-- A known name goes with its description and one of its units.
abbrev pub IsKnown : (name description unit : String) → Type 0
IsKnown name description unit =
    (text_lookup name measurement_descriptions ≡ some description)
    × ((units : List String) × (text_lookup name acceptable_units ≡ some units)
        × (is_member unit units ≡ true))

-- What `check_power` lets through is unchanged.
pub check_attributes_ok :
    (o : Option (Option PowerDict)) (m n : MeasurementDict)
    → check_attributes o m ≡ ok n
    → (m ≡ n) × ((p : PowerDict) × (o ≡ some (some p)) × (is_complete p ≡ true))
check_attributes_ok none m n h = absurd (ground (arith, h))
check_attributes_ok (some none) m n h = absurd (ground (arith, h))
check_attributes_ok (some (some p)) m n h = elim (Bool-cases (is_complete p)) [
  | inl k ↦ (ok-inj (sym (ap (λ b. if b then ok m else raise value_error) k) ∙ h), (p, refl, k))
  | inr k ↦ absurd (ground (arith, h))
]

pub check_power_ok :
    (name : String) (m n : MeasurementDict)
    → check_power name m ≡ ok n
    → (m ≡ n)
      × (is_power name ≡ true
          → (p : PowerDict) × (m.power_attributes ≡ some (some p)) × (is_complete p ≡ true))
check_power_ok name m n h = elim (Bool-cases (is_power name)) [
  | inl k ↦
      let (same, complete) =
        check_attributes_ok m.power_attributes m n
          (sym (ap (λ b. if b then check_attributes m.power_attributes m else ok m) k) ∙ h) in
      (same, λ _. complete)
  | inr k ↦ (
    ok-inj (sym (ap (λ b. if b then check_attributes m.power_attributes m else ok m) k) ∙ h),
    λ j. absurd (ground (arith, j, k)),
  )
]

pub correct_description_ok :
    (required description : String) (m n : MeasurementDict)
    → m.description ≡ some description
    → correct_description required description m ≡ ok n
    → n ≡ set_description required m
unfolding correct_description
correct_description_ok required description m n d h =
    elim (Bool-cases (same_text description required)) [
      | inl k ↦
          sym (ok-inj (sym (ap (λ b. if b then ok m else other) k) ∙ h))
          ∙ ap (λ o. record m { description = o }) (d ∙ ap some ((eq_iff description required).0 k))
      | inr k ↦ sym (
          ok-inj (
            accepted (same_lower description required)
              (sym (ap (λ b. if b then ok m else other) k) ∙ h)))
    ]
  where
    other : Result MeasurementDict
    other =
        if same_lower description required
        then ok (set_description required m)
        else raise value_error

    accepted :
        (b : Bool)
        → (if b then ok (set_description required m) else raise value_error) ≡ ok n
        → ok (set_description required m) ≡ ok n
    accepted true e = e
    accepted false e = absurd (ground (arith, e))

pub check_unit_ok :
    (o : Option (List String)) (unit : String) (m n : MeasurementDict)
    → check_unit o unit m ≡ ok n
    → (m ≡ n) × ((units : List String) × (o ≡ some units) × (is_member unit units ≡ true))
check_unit_ok none unit m n h = absurd (ground (arith, h))
check_unit_ok (some units) unit m n h = elim (Bool-cases (is_member unit units)) [
  | inl k ↦ (ok-inj (sym (ap (λ b. if b then ok m else raise value_error) k) ∙ h), (units, refl, k))
  | inr k ↦ absurd (ground (arith, h))
]

-- What passes the check of the texts.
pub record HasTexts (given : String) (m n : MeasurementDict) : Type 0 where
  pub name : String
  pub description : String
  pub unit : String
  pub named : n.name ≡ some name
  pub described : n.description ≡ some description
  pub measured : n.unit ≡ some unit
  pub known : IsKnown name description unit ⊎ (name ≡ "customUnit")
  pub same_name : (name ≡ given) ⊎ (name ≡ "customUnit")
  pub attributes : n.power_attributes ≡ m.power_attributes

pub check_known-HasTexts :
    (name description unit : String) (m n : MeasurementDict)
    → m.name ≡ some name
    → m.description ≡ some description
    → m.unit ≡ some unit
    → check_known (text_lookup name measurement_descriptions) name description unit m ≡ ok n
    → HasTexts name m n
unfolding check_known
check_known-HasTexts name description unit m n a b c h =
    elim (Option-cases (text_lookup name measurement_descriptions)) [
      | inl k ↦ custom (sym (ap (λ o. check_known o name description unit m) k) ∙ h)
      | inr (required, k) ↦
          let (q, hq, rest) =
            and_then_ok (correct_description required description m)
              (check_unit (text_lookup name acceptable_units) unit) n
              (sym (ap (λ o. check_known o name description unit m) k) ∙ h) in
          let (same, found) = check_unit_ok (text_lookup name acceptable_units) unit q n rest in
          let written = correct_description_ok required description m q b hq in
          subst (HasTexts name m) (sym written ∙ same) (record {
            name = name;
            description = required;
            unit = unit;
            named = a;
            described = refl;
            measured = c;
            known = inl (k, found);
            same_name = inl refl;
            attributes = refl;
          })
    ]
  where
    custom :
        (if same_text name "customUnit" then ok m else ok (set_name "customUnit" m)) ≡ ok n
        → HasTexts name m n
    custom e = elim (Bool-cases (same_text name "customUnit")) [
      | inl k ↦
          subst (HasTexts name m) (ok-inj (sym (ap (λ x. if x then ok m else renamed) k) ∙ e))
            (record {
              name = name;
              description = description;
              unit = unit;
              named = a;
              described = b;
              measured = c;
              known = inr ((eq_iff name "customUnit").0 k);
              same_name = inl refl;
              attributes = refl;
            })
      | inr k ↦
          subst (HasTexts name m) (ok-inj (sym (ap (λ x. if x then ok m else renamed) k) ∙ e))
            (record {
              name = "customUnit";
              description = description;
              unit = unit;
              named = refl;
              described = b;
              measured = c;
              known = inr refl;
              same_name = inr refl;
              attributes = refl;
            })
    ]
      where
        renamed : Result MeasurementDict
        renamed = ok (set_name "customUnit" m)
