-- ===== src/Tests/Offers.antt =====
-- The checks of offered reports at concrete inputs.
use openleadr_python.Base.{String, ◌≡◌, ◌↔◌, refl, true, none, some, List, [], ◌∷◌, All}
use openleadr_python.Base.Exec.{ok, raise, value_error}
use openleadr_python.Event.Preflight.{namespace_of}
use openleadr_python.Event.Measurements.{
  MeasurementDict, same_lower, correct_description, check_known, validate_report_measurement_dict,
}
use openleadr_python.Event.Measurements.Register.{
  OfferedReport, IsRegistrable, prefix_name, register_one, preflight_register_report,
  preflight_register_report-IsRegistrable,
}

-- A measurement with the given name, description and unit, and all power attributes.
abbrev measurement : String → String → String → MeasurementDict
measurement n d u = record {
  name = some n;
  description = some d;
  unit = some u;
  power_attributes = some (some (record { hertz = some 50; voltage = some 230; ac = some true }));
  ns = none;
}

abbrev offer : String → MeasurementDict → OfferedReport
offer n m = record { report_name = n; measurements = some m ∷ none ∷ [] }

-- The name gets its prefix, and the description its case.
offer_corrected :
    preflight_register_report
      (offer "TELEMETRY_USAGE" (measurement "powerReal" "realPOWER" "W") ∷ [])
    ≡ ok (
        offer "METADATA_TELEMETRY_USAGE"
          (record (measurement "powerReal" "RealPower" "W") { ns = some "power" })
        ∷ [])
offer_corrected =
    unfold preflight_register_report register_one prefix_name validate_report_measurement_dict
      check_known correct_description same_lower namespace_of in
    refl

-- The table of namespaces has no 'currencyPerKW', so no such measurement can be offered.
price_refused :
    preflight_register_report
      (offer "TELEMETRY_USAGE" (measurement "currencyPerKW" "currencyPerKW" "EUR") ∷ [])
    ≡ raise value_error
price_refused =
    unfold preflight_register_report register_one prefix_name validate_report_measurement_dict
      check_known correct_description same_lower namespace_of in
    refl

abbrev offers : List OfferedReport
offers = offer "TELEMETRY_USAGE" (measurement "powerReal" "realPOWER" "W") ∷ []

preflight_register_report-IsRegistrable_example :
    ((preflight_register_report offers ≡ ok offers) ↔ All IsRegistrable offers)
    × ((m : List OfferedReport) → preflight_register_report offers ≡ ok m → All IsRegistrable m)
preflight_register_report-IsRegistrable_example = preflight_register_report-IsRegistrable offers
