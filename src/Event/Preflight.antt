-- ===== src/Event/Preflight.antt =====
-- openleadr/preflight.py: `_preflight_oadrDistributeEvent`, the checks and corrections of a message
-- with events before it is sent. An event is a dict. Its keys for the targets may be missing; each of
-- its other keys is there, and may be None where that is handled like a missing key.
pub mod Loops
pub mod Signals
pub mod Namespaces
pub mod Rules
pub mod Groups
pub mod Forms
pub mod Conforms
use openleadr_python.Base.{
  ℕ, String, Bool, true, false, not, ◌&&◌, ◌||◌, Option, none, some, List, [], ◌∷◌, map, all, any,
  if◌then◌else◌,
}
use openleadr_python.Base.Int.{ℤ, pos, ◌+ℤ◌, leb_ℤ}
use openleadr_python.Base.Exec.{Result, ok, raise, value_error, type_error, attribute_error}
use openleadr_python.Event.{
  Instant, Duration, Event, EventStatus, none_status, far, near, active, completed, cancelled,
  EventSignal, Interval, Measurement, Target, TargetsByType, event_status,
}
use openleadr_python.Event.Objects.{same_text, is_member, same_groups}
use openleadr_python.Event.Targets.{group_targets_by_type, ungroup_targets_by_type}

abbrev pub and_then {ℓ κ} : {A : Type ℓ} {B : Type κ} → Result A → (A → Result B) → Result B
and_then (ok a) f = f a
and_then (raise e) f = raise e

-- A loop that changes each element in place, and may raise.
abbrev pub each {ℓ} : {A : Type ℓ} → (A → Result A) → List A → Result (List A)
each f [] = ok []
each f (x ∷ l) = and_then (f x) (λ y. and_then (each f l) (λ m. ok (y ∷ m)))

abbrev pub same_ℤ : ℤ → ℤ → Bool
same_ℤ a b = leb_ℤ a b && leb_ℤ b a

-- The sum of the durations of a signal's intervals
unfoldable pub total : List Interval → Duration
total [] = pos 0
total (i ∷ l) = i.duration +ℤ total l

abbrev pub signal_durations : List EventSignal → List Duration
signal_durations [] = []
signal_durations (g ∷ l) = total g.intervals ∷ signal_durations l

abbrev pub set_duration : Duration → Event → Event
set_duration d e = record e { active_period = record e.active_period { duration = d } }

abbrev pub adjust : List Duration → Event → Result Event
adjust [] e = ok e
adjust (d ∷ l) e = if all (same_ℤ d) (d ∷ l) then ok (set_duration d e) else raise value_error

-- Rule 8: the active period lasts as long as the intervals of each signal.
unfoldable pub adjust_duration : Event → Result Event
unfolding total
adjust_duration e =
    if all (same_ℤ e.active_period.duration) (signal_durations e.event_signals)
    then ok e
    else adjust (signal_durations e.event_signals) e

abbrev pub is_simple : EventSignal → Bool
is_simple g = same_text g.signal_name "SIMPLE"

-- 0, 1, 2 or 3; values are counted in thousandths.
abbrev pub is_level : Interval → Bool
is_level i = any (same_ℤ i.signal_payload) (pos 0 ∷ pos 1000 ∷ pos 2000 ∷ pos 3000 ∷ [])

-- Rule 9
abbrev pub levels_allowed : EventSignal → Bool
levels_allowed g = not (is_simple g) || all is_level g.intervals

unfoldable pub check_levels : Event → Result Event
check_levels e = if all levels_allowed e.event_signals then ok e else raise value_error

-- enums.EVENT_STATUS
abbrev pub status_text : EventStatus → String
status_text none_status = "none"
status_text far = "far"
status_text near = "near"
status_text active = "active"
status_text completed = "completed"
status_text cancelled = "cancelled"

abbrev pub is_zero_value : Option ℤ → Bool
is_zero_value none = false
is_zero_value (some x) = same_ℤ x (pos 0)

-- Rule 14: the status is held against 'ACTIVE', which no status is. A value of None is not 0.
unfoldable pub correct_current : EventStatus → EventSignal → EventSignal
correct_current status g =
    if not (is_zero_value g.current_value)
      && (is_simple g && not (same_text (status_text status) "ACTIVE"))
    then (record g { current_value = some (pos 0) })
    else g

abbrev pub correct_currents : Event → Event
correct_currents e = record e {
  event_signals = map (correct_current (event_status e)) e.event_signals;
}

-- enums._MEASUREMENT_NAMESPACES: the names of the two namespaces
abbrev pub oadr_names : List String
oadr_names =
    "currency" ∷ "currencyPerWK" ∷ "currencyPerKWh" ∷ "currencyPerThm" ∷ "current" ∷ "frequency"
    ∷ "pulseCount" ∷ "temperature" ∷ "Therm" ∷ "customUnit" ∷ []

abbrev pub power_names : List String
power_names =
    "energyApparent" ∷ "energyReactive" ∷ "energyReal" ∷ "powerApparent" ∷ "powerReactive"
    ∷ "powerReal" ∷ "voltage" ∷ []

unfoldable pub namespace_of : String → Option String
namespace_of name =
    if is_member name oadr_names
    then some "oadr"
    else if is_member name power_names
    then some "power"
    else none

abbrev pub set_ns : Measurement → EventSignal → Option String → Result EventSignal
set_ns m g none = raise value_error
set_ns m g (some ns) = ok (record g { measurement = some (record m { ns = ns }) })

unfoldable pub add_ns : EventSignal → Result EventSignal
unfolding namespace_of
add_ns g = elim g.measurement [ none ↦ ok g | some m ↦ set_ns m g (namespace_of m.name) ]

abbrev pub set_signals : Event → List EventSignal → Result Event
set_signals e l = ok (record e { event_signals = l })

unfoldable pub add_namespaces : Event → Result Event
unfolding add_ns
add_namespaces e = and_then (each add_ns e.event_signals) (set_signals e)

abbrev pub is_required_text : String → Bool
is_required_text t = same_text t "never" || same_text t "always"

unfoldable pub correct_required : Option String → Option String
correct_required none = some "always"
correct_required (some t) = if is_required_text t then some t else some "always"

abbrev pub created_or : Instant → Option Instant → Option Instant
created_or now none = some now
created_or now (some t) = some t

-- A response is required always or never, and the descriptor has a time of creation.
unfoldable pub correct_members : Instant → Event → Event
unfolding correct_required
correct_members now e = record e {
  response_required = correct_required e.response_required;
  event_descriptor = record e.event_descriptor {
    created_date_time = created_or now e.event_descriptor.created_date_time;
  };
}

abbrev pub groups_are : TargetsByType → Option TargetsByType → Bool
groups_are d none = false
groups_are d (some c) = same_groups d c

-- An event of the message, and whether it has the keys for the two forms of its targets.
pub record EventDict : Type 0 where
  pub has_targets : Bool
  pub has_targets_by_type : Bool
  pub event : Event

abbrev pub with_targets : EventDict → List Target → EventDict
with_targets s l = record s { has_targets = true; event = record s.event { targets = some l } }

-- Two forms of the targets have to be consistent; None has no targets to go through, nor groups.
-- A missing form of the targets is made from the groups.
unfoldable pub check_targets : EventDict → Result EventDict
check_targets s =
    if s.has_targets && s.has_targets_by_type
    then elim s.event.targets [
      | none ↦ raise type_error
      | some l ↦
          if groups_are (group_targets_by_type l) s.event.targets_by_type
          then ok s
          else raise value_error
    ]
    else if s.has_targets_by_type && not s.has_targets
    then elim s.event.targets_by_type [
      | none ↦ raise attribute_error
      | some d ↦ ok (with_targets s (ungroup_targets_by_type d))
    ]
    else ok s

abbrev pub set_event : EventDict → Event → Result EventDict
set_event s e = ok (record s { event = e })

abbrev pub on_event : (Event → Result Event) → EventDict → Result EventDict
on_event f s = and_then (f s.event) (set_event s)

abbrev pub change_event : (Event → Event) → EventDict → EventDict
change_event f s = record s { event = f s.event }

abbrev pub last_checks : Instant → List EventDict → Result (List EventDict)
last_checks now l = each check_targets (map (change_event (correct_members now)) l)

abbrev pub value_checks : Instant → List EventDict → Result (List EventDict)
value_checks now l =
    and_then (each (on_event add_namespaces) (map (change_event correct_currents) l))
      (last_checks now)

abbrev pub level_checks : Instant → List EventDict → Result (List EventDict)
level_checks now l = and_then (each (on_event check_levels) l) (value_checks now)

-- The passes over the events of the message, one after the other.
unfoldable pub preflight : Instant → List EventDict → Result (List EventDict)
unfolding adjust_duration check_levels correct_current add_namespaces correct_members check_targets
preflight now l = and_then (each (on_event adjust_duration) l) (level_checks now)
