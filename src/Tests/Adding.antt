-- ===== src/Tests/Adding.antt =====
-- Adding datapoints to the client's reports at concrete inputs.
use openleadr_python.Base.{ℕ, String, ◌≡◌, refl, true, Option, none, some, []}
use openleadr_python.Base.Int.{pos}
use openleadr_python.Base.Exec.{Result, ok, raise, value_error}
use openleadr_python.Base.Dict.{lookup}
use openleadr_python.Event.Measurements.{MeasurementDict}
use openleadr_python.Event.Preflight.{namespace_of}
use openleadr_python.Ven.Reports.Add.Items.{first_items, make_item}
use openleadr_python.Ven.Reports.Add.{
  upper_is, item_base, set_scale, prepare, offer_datapoint, add_report,
}
use openleadr_python.Ven.Reports.Add.Input.{
  Offers, by_name, SamplingArgument, Arguments, check_names, check_mode,
}

abbrev no_dict : MeasurementDict
no_dict = record {
  name = none;
  description = none;
  unit = none;
  power_attributes = none;
  ns = none;
}

abbrev nothing_offered : Offers
nothing_offered = record {
  reports = [];
  report_callbacks = [];
  items = first_items;
  dicts = λ _. no_dict;
}

-- A datapoint of a measurement, with a scale
abbrev asked : String → String → Arguments
asked name scale = record {
  callback = 3;
  callback_takes_period = true;
  resource_id = 5;
  measurement = by_name name;
  data_collection_mode = "incremental";
  report_specifier_id = none;
  r_id = none;
  report_name = "TELEMETRY_USAGE";
  reading_type = "Direct Read";
  report_type = "reading";
  report_duration = none;
  report_dtstart = none;
  sampling_rate = SamplingArgument.default_rate;
  scale = some scale;
  unit = none;
  market_context = none;
  generated_specifier_id = 900;
  generated_r_id = 901;
}

abbrev kilo : Result (Option ℕ × ℕ) × Offers
kilo = add_report (pos 0) (asked "voltage" "k") nothing_offered

abbrev mega : Result (Option ℕ × ℕ) × Offers
mega = add_report (pos 1) (asked "Voltage" "M") kilo.1

abbrev scale_of_voltage : Offers → Option String
scale_of_voltage s = elim (lookup 0 s.items.objects) [ none ↦ none | some x ↦ x.scale ]

kilo_added : (kilo.0 ≡ ok (some 900, 901)) × (scale_of_voltage kilo.1 ≡ some "k")
kilo_added =
    unfold add_report check_names check_mode prepare item_base upper_is set_scale offer_datapoint
      make_item namespace_of in
    (refl, refl)

-- The second datapoint changes the scale of the first, and no report's id is returned for it.
mega_added : (mega.0 ≡ ok (none, 901)) × (scale_of_voltage mega.1 ≡ some "M")
mega_added =
    unfold add_report check_names check_mode prepare item_base upper_is set_scale offer_datapoint
      make_item namespace_of in
    (refl, refl)

-- PULSE_COUNT has no scale, which counts as a wrong one, and None is refused as well.
pulses_refused :
    add_report (pos 0) (asked "pulse_count" "none") nothing_offered
    ≡ (raise value_error, nothing_offered)
pulses_refused =
    unfold add_report check_names check_mode prepare item_base upper_is set_scale make_item
      namespace_of in
    refl
