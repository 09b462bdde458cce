-- ===== src/Event/Objects/Opts.antt =====
-- openleadr/objects.py: the opt of a VEN, and what its constructor checks.
use text.Mathlib.Text.{starts_with}
use openleadr_python.Base.{
  ℕ, String, ◌≡◌, refl, subst, inl, inr, Bool, true, false, not, ◌&&◌, ◌||◌, Option, none, some,
  List, [], ◌∷◌, is_some, arith, Bool-cases, if◌then◌else◌,
}
use openleadr_python.Base.Exec.{Result, ok, raise, value_error}
use openleadr_python.Event.{Instant, Duration, Target, TargetsByType}
use openleadr_python.Event.Objects.{is_member, both_targets, or_now}
use openleadr_python.Event.Objects.Consistent.{
  GivenGroups, Agree, BothAgree, both_targets-BothAgree,
}

pub record VavailabilityComponent : Type 0 where
  pub dtstart : Instant
  pub duration : Duration

pub record Vavailability : Type 0 where
  pub components : List VavailabilityComponent

pub record Opt : Type 0 where
  pub opt_type : String
  pub opt_reason : String
  pub opt_id : Option ℕ
  pub created_date_time : Option Instant
  pub event_id : Option ℕ
  pub modification_number : Option ℕ
  pub vavailability : Option Vavailability
  pub targets : Option (List Target)
  pub targets_by_type : Option TargetsByType
  pub market_context : Option ℕ
  pub signal_target_mrid : Option String

-- enums.OPT.values
abbrev pub opt_types : List String
opt_types = "optIn" ∷ "optOut" ∷ []

-- enums.OPT_REASON.values
abbrev pub opt_reasons : List String
opt_reasons =
    "economic" ∷ "emergency" ∷ "mustRun" ∷ "notParticipating" ∷ "outageRunStatus" ∷ "overrideStatus"
    ∷ "participating" ∷ "x-schedule" ∷ []

-- enums.SIGNAL_TARGET_MRID.values
abbrev pub signal_target_mrids : List String
signal_target_mrids =
    "Thermostat" ∷ "Strip_Heater" ∷ "Baseboard_Heater" ∷ "Water_Heater" ∷ "Pool_Pump" ∷ "Sauna"
    ∷ "Hot_tub" ∷ "Smart_Appliance" ∷ "Irrigation_Pump" ∷ "Managed_Commercial_and_Industrial_Loads"
    ∷ "Simple_Residential_On_Off_Loads" ∷ "Exterior_Lighting" ∷ "Interior_Lighting"
    ∷ "Electric_Vehicle" ∷ "Generation_Systems" ∷ "Load_Control_Switch" ∷ "Smart_Inverter" ∷ "EVSE"
    ∷ "RESU" ∷ "Energy_Management_System" ∷ "Smart_Energy_Module" ∷ "Storage" ∷ []

abbrev pub is_mrid : Option String → Bool
is_mrid none = true
is_mrid (some s) = is_member s signal_target_mrids || starts_with s "x-"

abbrev pub or_zero : Option ℕ → Option ℕ
or_zero none = some 0
or_zero (some n) = some n

abbrev pub opt_with : Instant → Opt → Result (List Target × TargetsByType) → Result Opt
opt_with now o (raise e) = raise e
opt_with now o (ok (l, d)) = ok (record o {
  created_date_time = or_now now o.created_date_time;
  modification_number = or_zero o.modification_number;
  targets = some l;
  targets_by_type = some d;
})

-- `Opt.__post_init__`
unfoldable pub make_opt : Instant → Opt → Result Opt
make_opt now o =
    if not (is_member o.opt_type opt_types)
    then raise value_error
    else if not (is_member o.opt_reason opt_reasons)
    then raise value_error
    else if not (is_mrid o.signal_target_mrid)
    then raise value_error
    else if not (is_some o.event_id) && not (is_some o.vavailability)
    then raise value_error
    else if is_some o.event_id && is_some o.vavailability
    then raise value_error
    else opt_with now o (both_targets o.targets o.targets_by_type)

-- The opt is of a known type and for a known reason, is about an event or about times but not both,
-- and both forms of its targets are there and agree.
pub record IsProper (o : Opt) : Type 0 where
  pub known_type : is_member o.opt_type opt_types ≡ true
  pub known_reason : is_member o.opt_reason opt_reasons ≡ true
  pub one_subject : is_some o.event_id ≡ not (is_some o.vavailability)
  pub some_targets :
      (l : List Target) × (d : TargetsByType) × (o.targets ≡ some l)
      × (o.targets_by_type ≡ some d)
      × Agree l d

abbrev MadeProper : Result Opt → Type 0
MadeProper (raise e) = Unit
MadeProper (ok o) = IsProper o

opposite : (a b : Bool) → (not a && not b) ≡ false → (a && b) ≡ false → a ≡ not b
opposite true true h k = absurd (ground arith)
opposite true false h k = refl
opposite false true h k = refl
opposite false false h k = absurd (ground arith)

opt_with-MadeProper :
    (now : Instant) (o : Opt) (x : Result (List Target × TargetsByType))
    → is_member o.opt_type opt_types ≡ true
    → is_member o.opt_reason opt_reasons ≡ true
    → is_some o.event_id ≡ not (is_some o.vavailability)
    → BothAgree x
    → MadeProper (opt_with now o x)
opt_with-MadeProper now o (raise e) a b c h = tt
opt_with-MadeProper now o (ok (l, d)) a b c h = record {
  known_type = a;
  known_reason = b;
  one_subject = c;
  some_targets = (l, d, refl, refl, h);
}

make_opt-MadeProper :
    (now : Instant) (o : Opt) → GivenGroups o.targets_by_type → MadeProper (make_opt now o)
unfolding make_opt
make_opt-MadeProper now o g = elim (Bool-cases (is_member o.opt_type opt_types)) [
  | inr a ↦ rw (make_opt, a) tt
  | inl a ↦ elim (Bool-cases (is_member o.opt_reason opt_reasons)) [
    | inr b ↦ rw (make_opt, a, b) tt
    | inl b ↦ elim (Bool-cases (is_mrid o.signal_target_mrid)) [
      | inr c ↦ rw (make_opt, a, b, c) tt
      | inl c ↦ elim (Bool-cases (not (is_some o.event_id) && not (is_some o.vavailability))) [
        | inl d ↦ rw (make_opt, a, b, c, d) tt
        | inr d ↦ elim (Bool-cases (is_some o.event_id && is_some o.vavailability)) [
          | inl e ↦ rw (make_opt, a, b, c, d, e) tt
          | inr e ↦
              rw (make_opt, a, b, c, d, e)
                (opt_with-MadeProper now o (both_targets o.targets o.targets_by_type) a b
                  (opposite (is_some o.event_id) (is_some o.vavailability) d e)
                  (both_targets-BothAgree o.targets o.targets_by_type g))
        ]
      ]
    ]
  ]
]

-- An opt whose constructor returns is of a known type and for a known reason, is about an event or
-- about times but not about both, and has both forms of its targets, which agree, where a group that
-- is a single text counts as the list of it. Groups that are given have to have different keys, and
-- each has to be a list that is not empty or a single text.
pub make_opt-IsProper :
    (now : Instant) (o p : Opt) → GivenGroups o.targets_by_type → make_opt now o ≡ ok p → IsProper p
make_opt-IsProper now o p g h = subst MadeProper h (make_opt-MadeProper now o g)
