-- ===== src/Event.antt =====
-- The event data of openleadr/objects.py, which the server and the client both handle.
pub mod Durations
pub mod Datetimes
pub mod Status
pub mod Period
pub mod Order
pub mod Targets
pub mod Objects
pub mod Preflight
pub mod Measurements
use native.Mathlib.Decide.{ℕ_discrete}
use openleadr_python.Base.{ℕ, String, Bool, Option, List, string_discrete, ◌==◌}
use openleadr_python.Base.Int.{ℤ}
use openleadr_python.Base.Dict.{Dict}

-- Identifiers, and texts that are only carried and compared, are numbers. A point in time and a
-- duration are counts of microseconds. A payload value is a count of thousandths.
abbrev pub Instant : Type 0
Instant = ℤ

abbrev pub Duration : Type 0
Duration = ℤ

-- enums.EVENT_STATUS
pub data EventStatus : Type 0 where
  none_status far near active completed cancelled : EventStatus

-- A target gives, by the type of the target, a value or None.
abbrev pub Target : Type 0
Target = List (ℕ × Option ℕ)

-- What the grouped form gives for a type of target: a list of values, a single text, or something
-- else.
pub data Group : Type 0 where
  value_list : List ℕ → Group
  single_text other_group : ℕ → Group

abbrev pub TargetsByType : Type 0
TargetsByType = Dict Group

pub record EventDescriptor : Type 0 where
  pub event_id : ℕ
  pub modification_number : ℕ
  pub market_context : ℕ
  pub event_status : EventStatus
  pub created_date_time : Option Instant
  pub modification_date_time : Option Instant
  pub priority : Option ℕ
  pub test_event : Bool
  pub vtn_comment : Option ℕ

pub record ActivePeriod : Type 0 where
  pub dtstart : Instant
  pub duration : Duration
  pub tolerance : Option ℕ
  pub notification_period : Option Duration
  pub ramp_up_period : Option Duration
  pub recovery_period : Option Duration

pub record Interval : Type 0 where
  pub dtstart : Instant
  pub duration : Duration
  pub signal_payload : ℤ
  pub uid : Option ℕ

pub record PowerAttributes : Type 0 where
  pub hertz : ℕ
  pub voltage : ℕ
  pub ac : Bool

pub record Measurement : Type 0 where
  pub name : String
  pub description : String
  pub unit : String
  pub acceptable_units : List String
  pub scale : Option String
  pub power_attributes : Option PowerAttributes
  pub pulse_factor : Option ℕ
  pub ns : String

pub record EventSignal : Type 0 where
  pub intervals : List Interval
  pub signal_name : String
  pub signal_type : String
  pub signal_id : ℕ
  pub current_value : Option ℤ
  pub targets : Option (List Target)
  pub targets_by_type : Option TargetsByType
  pub measurement : Option Measurement

pub record Event : Type 0 where
  pub event_descriptor : EventDescriptor
  pub event_signals : List EventSignal
  pub targets : Option (List Target)
  pub targets_by_type : Option TargetsByType
  pub active_period : ActivePeriod
  pub response_required : Option String

pub EventStatus-discrete : Discrete EventStatus
EventStatus-discrete = hlevel

pub EventSignal-discrete : Discrete EventSignal
EventSignal-discrete = hlevel (ℕ_discrete, string_discrete)

-- Two events are equal when all their fields are, as for dicts and dataclasses.
unfoldable pub Event-discrete : Discrete Event
Event-discrete = hlevel (ℕ_discrete, string_discrete, EventSignal-discrete, EventStatus-discrete)

-- The stages of an event, in order; the last one is outside the clock's reach.
abbrev pub stage : EventStatus → ℕ
stage none_status = 0
stage far = 1
stage near = 2
stage active = 3
stage completed = 4
stage cancelled = 5

-- `==` on statuses
abbrev pub same_status : EventStatus → EventStatus → Bool
same_status a b = stage a == stage b

abbrev pub event_id : Event → ℕ
event_id e = e.event_descriptor.event_id

abbrev pub event_status : Event → EventStatus
event_status e = e.event_descriptor.event_status

abbrev pub is_active : EventStatus → Bool
is_active active = Bool.true
is_active _ = Bool.false

abbrev pub is_completed : EventStatus → Bool
is_completed completed = Bool.true
is_completed _ = Bool.false

abbrev pub is_cancelled : EventStatus → Bool
is_cancelled cancelled = Bool.true
is_cancelled _ = Bool.false

-- Writing one field of the descriptor, as `setmember(event, 'event_descriptor.…', value)` does.
abbrev pub set_event_status : EventStatus → Event → Event
set_event_status s e = record e {
  event_descriptor = record e.event_descriptor { event_status = s };
}
