-- ===== src/Event/Objects.antt =====
-- openleadr/objects.py: what the constructors of signals and events check and fill in.
pub mod Consistent
pub mod Periods
pub mod Opts
use text.Mathlib.Text.{starts_with, ◌==◌ as str_eq}
use openleadr_python.Base.{
  ℕ, String, string_discrete, Bool, true, false, not, ◌&&◌, ◌||◌, Option, none, some, List, [], ◌∷◌,
  ◌++◌, map, any, length, ltb, ◌==◌, if◌then◌else◌,
}
use openleadr_python.Base.Int.{ℤ, ◌-ℤ◌}
use openleadr_python.Base.Exec.{Result, ok, raise, value_error}
use openleadr_python.Base.Dict.{lookup}
use openleadr_python.Event.{
  Instant, Target, Group, value_list, single_text, other_group, TargetsByType, EventDescriptor,
  EventSignal, Event, ActivePeriod, Interval, set_event_status,
}
use openleadr_python.Event.Status.{determine_event_status}
use openleadr_python.Event.Period.{Span, span_of_interval, span_end, min_of, max_of, plain_period}
use openleadr_python.Event.Targets.{group_targets_by_type, ungroup_targets_by_type}

-- enums.SIGNAL_NAME.values
abbrev pub signal_names : List String
signal_names =
    "SIMPLE" ∷ "simple" ∷ "ELECTRICITY_PRICE" ∷ "ENERGY_PRICE" ∷ "DEMAND_CHARGE" ∷ "BID_PRICE"
    ∷ "BID_LOAD" ∷ "BID_ENERGY" ∷ "CHARGE_STATE" ∷ "LOAD_DISPATCH" ∷ "LOAD_CONTROL" ∷ []

-- enums.SIGNAL_TYPE.values
abbrev pub signal_types : List String
signal_types =
    "delta" ∷ "level" ∷ "multiplier" ∷ "price" ∷ "priceMultiplier" ∷ "priceRelative" ∷ "setpoint"
    ∷ "x-loadControlCapacity" ∷ "x-loadControlLevelOffset" ∷ "x-loadControlPercentOffset"
    ∷ "x-loadControlSetpoint" ∷ []

abbrev pub same_text : String → String → Bool
same_text s t = str_eq s t

-- `text in values`
abbrev pub is_member : String → List String → Bool
is_member s = any (same_text s)

abbrev pub same_values : List ℕ → List ℕ → Bool
same_values [] [] = true
same_values [] (y ∷ l) = false
same_values (x ∷ k) [] = false
same_values (x ∷ k) (y ∷ l) = x == y && same_values k l

-- A list, a text and another value are never equal.
abbrev pub same_group : Group → Group → Bool
same_group (value_list k) (value_list l) = same_values k l
same_group (single_text v) (single_text w) = v == w
same_group (other_group m) (other_group n) = m == n
same_group _ _ = false

abbrev pub has_values : Option Group → Group → Bool
has_values none l = false
has_values (some k) l = same_group k l

abbrev pub includes : TargetsByType → TargetsByType → Bool
includes [] d = true
includes ((k, l) ∷ c) d = has_values (lookup k d) l && includes c d

-- `==` on dicts, whatever the order of their keys
abbrev pub same_groups : TargetsByType → TargetsByType → Bool
same_groups c d = includes c d && includes d c

-- `EventSignal.__post_init__`. Targets that are given alone may be of one type only, and their
-- groups are not kept.
abbrev pub check_signal_targets : EventSignal → Result EventSignal
check_signal_targets g = elim g.targets [
  | none ↦ elim g.targets_by_type [
    | none ↦ ok g
    | some d ↦ ok (record g { targets = some (ungroup_targets_by_type d) })
  ]
  | some l ↦ elim g.targets_by_type [
    | none ↦ if ltb 1 (length (group_targets_by_type l)) then raise value_error else ok g
    | some d ↦ if same_groups (group_targets_by_type l) d then ok g else raise value_error
  ]
]

unfoldable pub make_event_signal : EventSignal → Result EventSignal
make_event_signal g =
    if is_member g.signal_type signal_types
    then if is_member g.signal_name signal_names || starts_with g.signal_name "x-"
      then check_signal_targets g
      else raise value_error
    else raise value_error

-- `EventDescriptor.__post_init__`
abbrev pub or_now : Instant → Option Instant → Option Instant
or_now now none = some now
or_now now (some t) = some t

unfoldable pub make_event_descriptor : Instant → EventDescriptor → EventDescriptor
make_event_descriptor now d = record d {
  modification_date_time = or_now now d.modification_date_time;
  created_date_time = or_now now d.created_date_time;
}

abbrev pub signal_spans : List EventSignal → List Span
signal_spans [] = []
signal_spans (g ∷ l) = map span_of_interval g.intervals ++ signal_spans l

-- The period of an event that comes without one; `min` of nothing is a ValueError.
unfoldable pub period_of_spans : List Span → Result ActivePeriod
period_of_spans [] = raise value_error
period_of_spans (s ∷ l) =
    let start = min_of s.dtstart (map Span.dtstart l) in
    ok (
      plain_period
        (record { dtstart = start; duration = max_of (span_end s) (map span_end l) -ℤ start }))

abbrev pub period_or : List EventSignal → Option ActivePeriod → Result ActivePeriod
period_or l none = period_of_spans (signal_spans l)
period_or l (some p) = ok p

-- The two forms of the targets, each made from the other if it is missing.
unfoldable pub both_targets :
    Option (List Target) → Option TargetsByType → Result (List Target × TargetsByType)
both_targets none none = raise value_error
both_targets (some l) none = ok (l, group_targets_by_type l)
both_targets none (some d) = ok (ungroup_targets_by_type d, d)
both_targets (some l) (some d) =
    if same_groups (group_targets_by_type l) d then ok (l, d) else raise value_error

-- The arguments of `Event(…)`.
pub record EventArguments : Type 0 where
  pub event_descriptor : EventDescriptor
  pub event_signals : List EventSignal
  pub targets : Option (List Target)
  pub targets_by_type : Option TargetsByType
  pub active_period : Option ActivePeriod
  pub response_required : Option String

abbrev pub event_with :
    Instant → EventArguments → ActivePeriod → List Target × TargetsByType → Event
event_with now a p (l, d) = set_event_status (determine_event_status now p) (record {
  event_descriptor = a.event_descriptor;
  event_signals = a.event_signals;
  targets = some l;
  targets_by_type = some d;
  active_period = p;
  response_required = a.response_required;
})

-- `Event.__post_init__`
unfoldable pub make_event : Instant → EventArguments → Result Event
unfolding period_of_spans both_targets
make_event now a = elim (period_or a.event_signals a.active_period) [
  | raise e ↦ raise e
  | ok p ↦ elim (both_targets a.targets a.targets_by_type) [
    | raise e ↦ raise e
    | ok x ↦ ok (event_with now a p x)
  ]
]
