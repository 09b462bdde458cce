-- ===== src/Ven/Reports/Add/Input.antt =====
-- The arguments of `add_report`, and the checks of them that look at nothing else.
use Prim.Native.String.{◌∷◌ as ◌then◌}
use text.Mathlib.Text.{starts_with}
use openleadr_python.Base.{
  ℕ, String, Bool, ◌&&◌, ◌||◌, Option, none, some, List, [], ◌∷◌, ◌==◌, if◌then◌else◌,
}
use openleadr_python.Base.Exec.{Result, ok, raise, value_error, type_error}
use openleadr_python.Event.{Instant, Duration}
use openleadr_python.Event.Objects.{same_text, is_member}
use openleadr_python.Event.Measurements.{MeasurementDict}
use openleadr_python.Event.Measurements.Register.{report_names}
use openleadr_python.Ven.Reports.{DataCollectionMode, full, incremental}
use openleadr_python.Ven.Reports.Add.Items.{ItemStore}

-- enums.READING_TYPE.values
abbrev pub reading_types : List String
reading_types =
    "Allocated" ∷ "Contract" ∷ "Derived" ∷ "Direct Read" ∷ "Estimated" ∷ "Hybrid" ∷ "Mean" ∷ "Net"
    ∷ "Peak" ∷ "Projected" ∷ "Summed" ∷ "x-notApplicable" ∷ "x-RMS" ∷ []

-- enums.REPORT_TYPE.values
abbrev pub report_types : List String
report_types =
    "availableEnergyStorage" ∷ "avgDemand" ∷ "avgUsage" ∷ "baseline" ∷ "deltaDemand"
    ∷ "deltaSetPoint" ∷ "deltaUsage" ∷ "demand" ∷ "deviation" ∷ "downRegulationCapacityAvailable"
    ∷ "level" ∷ "operatingState" ∷ "percentDemand" ∷ "percentUsage" ∷ "powerFactor" ∷ "price"
    ∷ "reading" ∷ "regulationSetpoint" ∷ "setPoint" ∷ "storedEnergy" ∷ "targetEnergyStorage"
    ∷ "upRegulationCapacityAvailable" ∷ "usage" ∷ "x-resourceStatus" ∷ []

-- enums.SI_SCALE_CODE.values
abbrev pub scale_codes : List String
scale_codes = "G" ∷ "M" ∷ "T" ∷ "c" ∷ "d" ∷ "k" ∷ "m" ∷ "micro" ∷ "n" ∷ "none" ∷ "p" ∷ []

pub record SamplingRate : Type 0 where
  pub min_period : Duration
  pub max_period : Duration
  pub on_change : Bool

pub record Description : Type 0 where
  pub r_id : ℕ
  pub market_context : Option ℕ
  pub reading_type : String
  pub resource_id : ℕ
  pub report_type : String
  pub sampling_rate : SamplingRate
  pub measurement : Option ℕ

pub record Offer : Type 0 where
  pub report_specifier_id : ℕ
  pub report_name : String
  pub report_descriptions : List Description
  pub created_date_time : Instant
  pub dtstart : Instant
  pub duration : Duration
  pub data_collection_mode : DataCollectionMode

-- `self.report_callbacks`, by the ids of the report and the datapoint
abbrev pub CallbackTable : Type 0
CallbackTable = List ((ℕ × ℕ) × ℕ)

abbrev pub same_key : ℕ × ℕ → ℕ × ℕ → Bool
same_key (a, b) (c, d) = a == c && b == d

abbrev pub get_callback : ℕ × ℕ → CallbackTable → Option ℕ
get_callback k [] = none
get_callback k ((j, f) ∷ l) = if same_key k j then some f else get_callback k l

abbrev pub set_callback : ℕ × ℕ → ℕ → CallbackTable → CallbackTable
set_callback k f [] = (k, f) ∷ []
set_callback k f ((j, g) ∷ l) =
    let rest = set_callback k f l in if same_key k j then (k, f) ∷ l else (j, g) ∷ rest

-- The state: the reports, the callbacks, the measurement objects and, by their addresses, the dicts
-- that are given as measurements.
pub record Offers : Type 0 where
  pub reports : List Offer
  pub report_callbacks : CallbackTable
  pub items : ItemStore
  pub dicts : ℕ → MeasurementDict

-- The argument for the measurement: None, a text, an object, or a dict.
pub data MeasurementArgument : Type 0 where
  absent : MeasurementArgument
  by_name : String → MeasurementArgument
  by_object : ℕ → MeasurementArgument
  by_dict : ℕ → MeasurementArgument

pub data SamplingArgument : Type 0 where
  default_rate : SamplingArgument
  every : Duration → SamplingArgument
  rate : SamplingRate → SamplingArgument

-- The arguments that the code reads, and the ids that are generated. `callback_takes_period`: the
-- callback has parameters date_from, date_to and sampling_interval.
pub record Arguments : Type 0 where
  pub callback : ℕ
  pub callback_takes_period : Bool
  pub resource_id : ℕ
  pub measurement : MeasurementArgument
  pub data_collection_mode : String
  pub report_specifier_id : Option ℕ
  pub r_id : Option ℕ
  pub report_name : String
  pub reading_type : String
  pub report_type : String
  pub report_duration : Option Duration
  pub report_dtstart : Option Instant
  pub sampling_rate : SamplingArgument
  pub scale : Option String
  pub unit : Option String
  pub market_context : Option ℕ
  pub generated_specifier_id : ℕ
  pub generated_r_id : ℕ

abbrev pub is_allowed : String → List String → Bool
is_allowed t values = is_member t values || starts_with t "x-"

-- None is none of the codes.
abbrev pub check_scale : Option String → Result String
check_scale none = raise value_error
check_scale (some c) = if is_member c scale_codes then ok c else raise value_error

-- The scale that is given, if the names are allowed.
unfoldable pub check_names : Arguments → Result String
check_names a =
    if is_allowed a.report_name report_names
      && (is_allowed a.reading_type reading_types && is_allowed a.report_type report_types)
    then check_scale a.scale
    else raise value_error

unfoldable pub check_mode : Arguments → Result DataCollectionMode
check_mode a =
    if same_text a.data_collection_mode "incremental"
    then ok incremental
    else if same_text a.data_collection_mode "full"
    then (if a.callback_takes_period then ok full else raise type_error)
    else raise value_error
