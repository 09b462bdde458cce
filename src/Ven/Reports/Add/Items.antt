-- ===== src/Ven/Reports/Add/Items.antt =====
-- The measurement objects that datapoints refer to: objects.Measurement with its `__post_init__`,
-- and enums.MEASUREMENTS.
use openleadr_python.Base.{
  ℕ, String, true, Option, none, some, List, [], ◌∷◌, if◌then◌else◌, is_some,
}
use openleadr_python.Base.Dict.{Dict}
use openleadr_python.Event.{PowerAttributes}
use openleadr_python.Event.Preflight.{namespace_of}
use openleadr_python.Event.Measurements.{text_lookup, acceptable_units, measurement_descriptions}

pub record Item : Type 0 where
  pub name : String
  pub description : String
  pub unit : Option String
  pub acceptable_units : List String
  pub scale : Option String
  pub power_attributes : Option PowerAttributes
  pub pulse_factor : Option ℕ
  pub ns : String

-- The objects by their addresses, and an address that is free.
pub record ItemStore : Type 0 where
  pub objects : Dict Item
  pub next : ℕ

abbrev pub or_text : String → Option String → String
or_text t none = t
or_text t (some s) = s

-- `Measurement.__post_init__`: a name without a namespace becomes 'customUnit', whose namespace is
-- 'oadr'.
unfoldable pub make_item : Item → Item
make_item x =
    if is_some (namespace_of x.name)
    then (record x { ns = or_text "oadr" (namespace_of x.name) })
    else (record x { name = "customUnit"; ns = or_text "oadr" (namespace_of "customUnit") })

abbrev first_of : List String → Option String
first_of [] = none
first_of (t ∷ l) = some t

abbrev units_of : String → List String
units_of n = elim (text_lookup n acceptable_units) [ none ↦ [] | some l ↦ l ]

-- A member with the description and the units that the tables have for the name.
abbrev member : String → Option String → Option PowerAttributes → Option ℕ → Item
member n scale attributes factor = make_item (record {
  name = n;
  description = or_text n (text_lookup n measurement_descriptions);
  unit = first_of (units_of n);
  acceptable_units = units_of n;
  scale = scale;
  power_attributes = attributes;
  pulse_factor = factor;
  ns = "power";
})

abbrev plain : String → Item
plain n = member n (some "none") none none

abbrev powered : String → Item
powered n = member n (some "none") (some (record { hertz = 50; voltage = 230; ac = true })) none

abbrev pulses : String → Item
pulses n = member n none none (some 1000)

-- The names of enums.MEASUREMENTS, with the addresses of their objects
abbrev pub measurement_members : List (String × ℕ)
measurement_members =
    ("VOLTAGE", 0)
    ∷ ("CURRENT", 1)
    ∷ ("ENERGY_REAL", 2)
    ∷ ("REAL_ENERGY", 3)
    ∷ ("ACTIVE_ENERGY", 4)
    ∷ ("ENERGY_REACTIVE", 5)
    ∷ ("REACTIVE_ENERGY", 6)
    ∷ ("ENERGY_APPARENT", 7)
    ∷ ("APPARENT_ENERGY", 8)
    ∷ ("ACTIVE_POWER", 9)
    ∷ ("REAL_POWER", 10)
    ∷ ("POWER_REAL", 11)
    ∷ ("REACTIVE_POWER", 12)
    ∷ ("POWER_REACTIVE", 13)
    ∷ ("APPARENT_POWER", 14)
    ∷ ("POWER_APPARENT", 15)
    ∷ ("FREQUENCY", 16)
    ∷ ("PULSE_COUNT", 17)
    ∷ ("TEMPERATURE", 18)
    ∷ ("THERM", 19)
    ∷ ("CURRENCY", 20)
    ∷ ("CURRENCY_PER_KW", 21)
    ∷ ("CURRENCY_PER_KWH", 22)
    ∷ ("CURRENCY_PER_THM", 23)
    ∷ []

abbrev pub first_items : ItemStore
first_items = record {
  objects =
      (0, plain "voltage")
      ∷ (1, plain "current")
      ∷ (2, plain "energyReal")
      ∷ (3, plain "energyReal")
      ∷ (4, plain "energyReal")
      ∷ (5, plain "energyReactive")
      ∷ (6, plain "energyReactive")
      ∷ (7, plain "energyApparent")
      ∷ (8, plain "energyApparent")
      ∷ (9, powered "powerReal")
      ∷ (10, powered "powerReal")
      ∷ (11, powered "powerReal")
      ∷ (12, powered "powerReactive")
      ∷ (13, powered "powerReactive")
      ∷ (14, powered "powerApparent")
      ∷ (15, powered "powerApparent")
      ∷ (16, plain "frequency")
      ∷ (17, pulses "pulseCount")
      ∷ (18, plain "temperature")
      ∷ (19, plain "Therm")
      ∷ (20, plain "currency")
      ∷ (21, plain "currencyPerKW")
      ∷ (22, plain "currencyPerKWh")
      ∷ (23, plain "currencyPerThm")
      ∷ [];
  next = 24;
}

-- A measurement that is in no table
abbrev pub custom_item : String → Option String → String → Item
custom_item description unit scale = make_item (record {
  name = "customUnit";
  description = description;
  unit = unit;
  acceptable_units = [];
  scale = some scale;
  power_attributes = none;
  pulse_factor = none;
  ns = "power";
})
