-- ===== src/Ven/Reports/Add.antt =====
-- openleadr/client.py: `add_report`, which adds a datapoint to the reports that the client offers.
-- A Measurement is an object, which the datapoints refer to by its address: those of
-- enums.MEASUREMENTS are shared by all reports. Ids are never empty texts; a name is compared with
-- its upper case as Python's `upper` gives it for ASCII.
pub mod Input
pub mod Datapoints
pub mod Items
pub mod Prepared
pub mod Adds
use Prim.Native.Char.{code}
use Prim.Native.String.{[] as empty, ◌∷◌ as ◌then◌}
use text.Mathlib.Text.{starts_with}
use openleadr_python.Base.{
  ℕ, suc, ◌+◌, ◌-◌, String, Bool, true, false, ◌&&◌, ◌||◌, Option, none, some, List, [], ◌∷◌, ◌++◌,
  find, is_some, leb, ◌==◌, if◌then◌else◌,
}
use openleadr_python.Base.Int.{pos}
use openleadr_python.Base.Exec.{
  Exec, Result, ok, raise, value_error, type_error, attribute_error, pure, throw, lift, modify,
  ◌>>=◌, ◌>>◌,
}
use openleadr_python.Base.Dict.{lookup, insert}
use openleadr_python.Event.{Instant, Duration}
use openleadr_python.Event.Objects.{same_text, is_member}
use openleadr_python.Event.Preflight.{and_then}
use openleadr_python.Event.Measurements.{
  MeasurementDict, corrected, validate_report_measurement_dict,
}
use openleadr_python.Event.Measurements.Register.{report_names}
use openleadr_python.Ven.Reports.{DataCollectionMode, full, incremental}
use openleadr_python.Ven.Reports.Add.Items.{Item, ItemStore, custom_item, measurement_members}
use openleadr_python.Ven.Reports.Add.Input.{
  reading_types, report_types, scale_codes, SamplingRate, Description, Offer, CallbackTable,
  same_key, get_callback, set_callback, Offers, MeasurementArgument, SamplingArgument, Arguments,
  is_allowed, check_scale, check_names, check_mode, absent, by_name, by_object, by_dict,
  default_rate, every, rate,
}

abbrev pub is_status : Arguments → Bool
is_status a = same_text a.report_name "TELEMETRY_STATUS"

abbrev pub upper : ℕ → ℕ
upper c = if leb 97 c && leb c 122 then c - 32 else c

-- `s.upper() == t`
unfoldable pub upper_is : String → String → Bool
upper_is empty empty = true
upper_is empty (d then t) = false
upper_is (c then s) empty = false
upper_is (c then s) (d then t) = upper (code c) == code d && upper_is s t

abbrev pub find_member : String → List (String × ℕ) → Option ℕ
find_member t [] = none
find_member t ((name, p) ∷ l) = if upper_is t name then some p else find_member t l

abbrev pub put_item : Item → Offers → Offers
put_item x s = record s {
  items = record { objects = insert s.items.next x s.items.objects; next = suc s.items.next };
}

-- A name that is no member's makes an object of its own.
abbrev pub member_or : String → Option String → String → Option ℕ → Exec Offers (Option ℕ)
member_or t unit scale none s = (ok (some s.items.next), put_item (custom_item t unit scale) s)
member_or t unit scale (some p) s = (ok (some p), s)

-- The dict itself is corrected.
abbrev pub correct_dict : ℕ → Offers → Offers
correct_dict p s = record s { dicts = λ q. if q == p then corrected (s.dicts p) else s.dicts q }

-- With a dict, which is validated and corrected in place, the code calls `object.PowerAttributes`,
-- which there is not.
abbrev pub item_of : MeasurementArgument → Option String → String → Exec Offers (Option ℕ)
item_of absent unit scale s = (raise attribute_error, s)
item_of (by_object p) unit scale s = (ok (some p), s)
item_of (by_dict p) unit scale s = (
  and_then (validate_report_measurement_dict (s.dicts p)) (λ _. raise attribute_error),
  correct_dict p s,
)
item_of (by_name t) unit scale s = member_or t unit scale (find_member t measurement_members) s

-- The measurement that the datapoint refers to
unfoldable pub item_base : String → Arguments → Exec Offers (Option ℕ)
unfolding upper_is
item_base scale a s = if is_status a then (ok none, s) else item_of a.measurement a.unit scale s

abbrev pub set_item : ℕ → Item → Offers → Offers
set_item p x s = record s { items = record s.items { objects = insert p x s.items.objects } }

-- The object itself gets the scale. One without a scale, or None, has none to be set.
abbrev pub scale_item : String → ℕ → Item → Option String → Exec Offers (Unit {0})
scale_item scale p x none s = (raise value_error, s)
scale_item scale p x (some _) s = (ok tt, set_item p (record x { scale = some scale }) s)

abbrev pub scale_found : String → ℕ → Option Item → Exec Offers (Unit {0})
scale_found scale p none s = (raise attribute_error, s)
scale_found scale p (some x) s = scale_item scale p x x.scale s

unfoldable pub set_scale : String → Option ℕ → Exec Offers (Unit {0})
set_scale scale none s = (ok tt, s)
set_scale scale (some p) s = scale_found scale p (lookup p s.items.objects) s

-- A unit that does not fit is only warned of, but None has no unit to compare with.
abbrev pub check_unit : Option ℕ → Option String → Result (Unit {0})
check_unit none (some u) = raise attribute_error
check_unit _ _ = ok tt

-- The measurement, with the scale and the unit that are asked for.
abbrev pub finish : String → Option String → Option ℕ → Exec Offers (Option ℕ)
finish scale unit item = do set_scale scale item; lift (check_unit item unit); pure item

unfoldable pub prepare : String → Arguments → Exec Offers (Option ℕ)
unfolding item_base set_scale
prepare scale a = do item ← item_base scale a; finish scale a.unit item

abbrev pub given_or {ℓ} : {A : Type ℓ} → A → Option A → A
given_or a none = a
given_or a (some b) = b

abbrev pub rate_of : SamplingArgument → SamplingRate
rate_of default_rate = record {
  min_period = pos 10000000;
  max_period = pos 3600000000;
  on_change = false;
}
rate_of (every d) = record { min_period = d; max_period = d; on_change = false }
rate_of (rate r) = r

abbrev pub id_is : Option ℕ → Offer → Bool
id_is none o = true
id_is (some k) o = o.report_specifier_id == k

-- `find_by` on the name, and on the id if one is given
abbrev pub is_wanted : Arguments → Offer → Bool
is_wanted a o = same_text o.report_name a.report_name && id_is a.report_specifier_id o

abbrev pub new_offer : Instant → DataCollectionMode → Arguments → Offer
new_offer now mode a = record {
  report_specifier_id = given_or a.generated_specifier_id a.report_specifier_id;
  report_name = a.report_name;
  report_descriptions = [];
  created_date_time = now;
  dtstart = given_or now a.report_dtstart;
  duration = given_or (pos 3600000000) a.report_duration;
  data_collection_mode = mode;
}

abbrev pub r_id_of : Arguments → ℕ
r_id_of a = given_or a.generated_r_id a.r_id

abbrev pub description_of : Arguments → Option ℕ → Description
description_of a item = record {
  r_id = r_id_of a;
  market_context = a.market_context;
  reading_type = a.reading_type;
  resource_id = a.resource_id;
  report_type = a.report_type;
  sampling_rate = rate_of a.sampling_rate;
  measurement = item;
}

abbrev pub describe : Description → Offer → Offer
describe d o = record o { report_descriptions = o.report_descriptions ++ d ∷ [] }

-- The report that was found gets the datapoint, where it stands.
abbrev pub describe_first : Arguments → Description → List Offer → List Offer
describe_first a d [] = []
describe_first a d (o ∷ l) =
    let rest = describe_first a d l in if is_wanted a o then describe d o ∷ l else o ∷ rest

abbrev pub add_to : ℕ → Arguments → List Offer → Offers → Offers
add_to k a reports s = record s {
  reports = reports;
  report_callbacks = set_callback (k, r_id_of a) a.callback s.report_callbacks;
}

-- What is returned is the id that was given or generated: none for a report found by its name.
abbrev pub offer_in :
    Instant → DataCollectionMode → Arguments → Option ℕ → Option Offer → Exec Offers (Option ℕ × ℕ)
offer_in now mode a item (some o) s = (
  ok (a.report_specifier_id, r_id_of a),
  add_to o.report_specifier_id a (describe_first a (description_of a item) s.reports) s,
)
offer_in now mode a item none s = (
  ok (some (new_offer now mode a).report_specifier_id, r_id_of a),
  add_to (new_offer now mode a).report_specifier_id a
      (s.reports ++ describe (description_of a item) (new_offer now mode a) ∷ []) s,
)

unfoldable pub offer_datapoint :
    Instant → DataCollectionMode → Arguments → Option ℕ → Exec Offers (Option ℕ × ℕ)
offer_datapoint now mode a item s = offer_in now mode a item (find (is_wanted a) s.reports) s

unfoldable pub add_report : Instant → Arguments → Exec Offers (Option ℕ × ℕ)
unfolding check_names check_mode prepare offer_datapoint
add_report now a = do
  scale ← lift (check_names a)
  mode ← lift (check_mode a)
  item ← prepare scale a
  offer_datapoint now mode a item
