-- ===== src/Event/Measurements.antt =====
-- The measurements of openleadr/enums.py and what utils.validate_report_measurement_dict asks of
-- one. Texts are compared without their case as Python's `lower` does it for ASCII.
pub mod Checks
pub mod Valid
pub mod Register
use Prim.Native.Char.{code}
use Prim.Native.String.{[] as empty, ◌∷◌ as ◌then◌}
use text.Mathlib.Text.{find?}
use openleadr_python.Base.{
  ℕ, ◌+◌, String, Bool, true, false, not, ◌&&◌, ◌||◌, Option, none, some, List, [], ◌∷◌, leb, ◌==◌,
  is_some, if◌then◌else◌,
}
use openleadr_python.Base.Exec.{Result, ok, raise, value_error, key_error, type_error}
use openleadr_python.Event.Objects.{same_text, is_member}
use openleadr_python.Event.Preflight.{and_then}

-- enums._CURRENCIES
abbrev pub currencies : List String
currencies =
    "AFN" ∷ "ALL" ∷ "AMD" ∷ "ANG" ∷ "AOA" ∷ "ARS" ∷ "AUD" ∷ "AWG" ∷ "AZN" ∷ "BAM" ∷ "BBD" ∷ "BDT"
    ∷ "BGN" ∷ "BHD" ∷ "BIF" ∷ "BMD" ∷ "BND" ∷ "BOB" ∷ "BOV" ∷ "BRL" ∷ "BSD" ∷ "BTN" ∷ "BWP" ∷ "BYR"
    ∷ "BZD" ∷ "CAD" ∷ "CDF" ∷ "CHE" ∷ "CHF" ∷ "CHW" ∷ "CLF" ∷ "CLP" ∷ "CNY" ∷ "COP" ∷ "COU" ∷ "CRC"
    ∷ "CUC" ∷ "CUP" ∷ "CVE" ∷ "CZK" ∷ "DJF" ∷ "DKK" ∷ "DOP" ∷ "DZD" ∷ "EEK" ∷ "EGP" ∷ "ERN" ∷ "ETB"
    ∷ "EUR" ∷ "FJD" ∷ "FKP" ∷ "GBP" ∷ "GEL" ∷ "GHS" ∷ "GIP" ∷ "GMD" ∷ "GNF" ∷ "GTQ" ∷ "GWP" ∷ "GYD"
    ∷ "HKD" ∷ "HNL" ∷ "HRK" ∷ "HTG" ∷ "HUF" ∷ "IDR" ∷ "ILS" ∷ "INR" ∷ "IQD" ∷ "IRR" ∷ "ISK" ∷ "JMD"
    ∷ "JOD" ∷ "JPY" ∷ "KES" ∷ "KGS" ∷ "KHR" ∷ "KMF" ∷ "KPW" ∷ "KRW" ∷ "KWD" ∷ "KYD" ∷ "KZT" ∷ "LAK"
    ∷ "LBP" ∷ "LKR" ∷ "LRD" ∷ "LSL" ∷ "LTL" ∷ "LVL" ∷ "LYD" ∷ "MAD" ∷ "MAD" ∷ "MDL" ∷ "MGA" ∷ "MKD"
    ∷ "MMK" ∷ "MNT" ∷ "MOP" ∷ "MRO" ∷ "MUR" ∷ "MVR" ∷ "MWK" ∷ "MXN" ∷ "MXV" ∷ "MYR" ∷ "MZN" ∷ "NAD"
    ∷ "NGN" ∷ "NIO" ∷ "NOK" ∷ "NPR" ∷ "NZD" ∷ "OMR" ∷ "PAB" ∷ "PEN" ∷ "PGK" ∷ "PHP" ∷ "PKR" ∷ "PLN"
    ∷ "PYG" ∷ "QAR" ∷ "RON" ∷ "RSD" ∷ "RUB" ∷ "RWF" ∷ "SAR" ∷ "SBD" ∷ "SCR" ∷ "SDG" ∷ "SEK" ∷ "SGD"
    ∷ "SHP" ∷ "SLL" ∷ "SOS" ∷ "SRD" ∷ "STD" ∷ "SVC" ∷ "SYP" ∷ "SZL" ∷ "THB" ∷ "TJS" ∷ "TMT" ∷ "TND"
    ∷ "TOP" ∷ "TRY" ∷ "TTD" ∷ "TWD" ∷ "TZS" ∷ "UAH" ∷ "UGX" ∷ "USD" ∷ "USN" ∷ "USS" ∷ "UYI" ∷ "UYU"
    ∷ "UZS" ∷ "VEF" ∷ "VND" ∷ "VUV" ∷ "WST" ∷ "XAF" ∷ "XAG" ∷ "XAU" ∷ "XBA" ∷ "XBB" ∷ "XBC" ∷ "XBD"
    ∷ "XCD" ∷ "XDR" ∷ "XFU" ∷ "XOF" ∷ "XPD" ∷ "XPF" ∷ "XPF" ∷ "XPF" ∷ "XPT" ∷ "XTS" ∷ "XXX" ∷ "YER"
    ∷ "ZAR" ∷ "ZMK" ∷ "ZWL" ∷ []

-- enums._ACCEPTABLE_UNITS
abbrev pub acceptable_units : List (String × List String)
acceptable_units =
    ("currency", currencies)
    ∷ ("currencyPerKW", currencies)
    ∷ ("currencyPerKWh", currencies)
    ∷ ("currencyPerThm", currencies)
    ∷ ("current", "A" ∷ [])
    ∷ ("energyApparent", "VAh" ∷ [])
    ∷ ("energyReactive", "VARh" ∷ [])
    ∷ ("energyReal", "Wh" ∷ [])
    ∷ ("frequency", "Hz" ∷ [])
    ∷ ("powerApparent", "VA" ∷ [])
    ∷ ("powerReactive", "VAR" ∷ [])
    ∷ ("powerReal", "W" ∷ [])
    ∷ ("pulseCount", "count" ∷ [])
    ∷ ("temperature", "celsius" ∷ "fahrenheit" ∷ [])
    ∷ ("Therm", "thm" ∷ [])
    ∷ ("voltage", "V" ∷ [])
    ∷ []

-- enums._MEASUREMENT_DESCRIPTIONS
abbrev pub measurement_descriptions : List (String × String)
measurement_descriptions =
    ("currency", "currency")
    ∷ ("currencyPerKW", "currencyPerKW")
    ∷ ("currencyPerKWh", "currencyPerKWh")
    ∷ ("currencyPerThm", "currency")
    ∷ ("current", "Current")
    ∷ ("energyApparent", "ApparentEnergy")
    ∷ ("energyReactive", "ReactiveEnergy")
    ∷ ("energyReal", "RealEnergy")
    ∷ ("frequency", "Frequency")
    ∷ ("powerApparent", "ApparentPower")
    ∷ ("powerReactive", "ReactivePower")
    ∷ ("powerReal", "RealPower")
    ∷ ("pulseCount", "pulse count")
    ∷ ("temperature", "temperature")
    ∷ ("Therm", "Therm")
    ∷ ("voltage", "Voltage")
    ∷ []

abbrev pub text_lookup {ℓ} : {A : Type ℓ} → String → List (String × A) → Option A
text_lookup k [] = none
text_lookup k ((j, a) ∷ l) = if same_text k j then some a else text_lookup k l

abbrev pub lower : ℕ → ℕ
lower c = if leb 65 c && leb c 90 then c + 32 else c

-- `s.lower() == t.lower()`
unfoldable pub same_lower : String → String → Bool
same_lower empty empty = true
same_lower empty (d then t) = false
same_lower (c then s) empty = false
same_lower (c then s) (d then t) = lower (code c) == lower (code d) && same_lower s t

-- The keys of a dict of power attributes.
pub record PowerDict : Type 0 where
  pub hertz : Option ℕ
  pub voltage : Option ℕ
  pub ac : Option Bool

-- The keys of a measurement that is a dict; the value of one may be None.
pub record MeasurementDict : Type 0 where
  pub name : Option String
  pub description : Option String
  pub unit : Option String
  pub power_attributes : Option (Option PowerDict)
  pub ns : Option String

abbrev pub set_description : String → MeasurementDict → MeasurementDict
set_description t m = record m { description = some t }

abbrev pub set_name : String → MeasurementDict → MeasurementDict
set_name t m = record m { name = some t }

-- The description that goes with the name, if need be in its correct case.
unfoldable pub correct_description :
    (required description : String) → MeasurementDict → Result MeasurementDict
unfolding same_lower
correct_description required description m =
    if same_text description required
    then ok m
    else if same_lower description required
    then ok (set_description required m)
    else raise value_error

abbrev pub check_unit : Option (List String) → String → MeasurementDict → Result MeasurementDict
check_unit none unit m = raise key_error
check_unit (some units) unit m = if is_member unit units then ok m else raise value_error

-- A name that is not known becomes 'customUnit'.
unfoldable pub check_known :
    Option String → (name description unit : String) → MeasurementDict → Result MeasurementDict
unfolding correct_description
check_known none name description unit m =
    if same_text name "customUnit" then ok m else ok (set_name "customUnit" m)
check_known (some required) name description unit m =
    and_then (correct_description required description m)
      (check_unit (text_lookup name acceptable_units) unit)

abbrev pub is_complete : PowerDict → Bool
is_complete p = is_some p.voltage && (is_some p.ac && is_some p.hertz)

-- `'power' in name`
abbrev pub is_power : String → Bool
is_power name = is_some (find? name "power")

abbrev pub check_attributes : Option (Option PowerDict) → MeasurementDict → Result MeasurementDict
check_attributes none m = raise value_error
check_attributes (some none) m = raise type_error
check_attributes (some (some p)) m = if is_complete p then ok m else raise value_error

-- The name that counts is the one that was given.
abbrev pub check_power : String → MeasurementDict → Result MeasurementDict
check_power name m = if is_power name then check_attributes m.power_attributes m else ok m

abbrev pub validate_texts :
    Option String → Option String → Option String → MeasurementDict → Result MeasurementDict
validate_texts (some name) (some description) (some unit) m =
    and_then (check_known (text_lookup name measurement_descriptions) name description unit m)
      (check_power name)
validate_texts _ _ _ m = raise value_error

-- The dict as its checks leave it, which may be refused after it has been corrected.
abbrev pub correct_texts :
    Option String → Option String → Option String → MeasurementDict → MeasurementDict
correct_texts (some name) (some description) (some unit) m =
    elim (text_lookup name measurement_descriptions) [
      | none ↦ if same_text name "customUnit" then m else set_name "customUnit" m
      | some required ↦
          if same_text description required
          then m
          else if same_lower description required
          then set_description required m
          else m
    ]
correct_texts _ _ _ m = m

unfoldable pub corrected : MeasurementDict → MeasurementDict
unfolding same_lower
corrected m = correct_texts m.name m.description m.unit m

-- What is returned is the dict as it is left; `corrected` is also what is left of one that is
-- refused.
unfoldable pub validate_report_measurement_dict : MeasurementDict → Result MeasurementDict
unfolding check_known
validate_report_measurement_dict m = validate_texts m.name m.description m.unit m
