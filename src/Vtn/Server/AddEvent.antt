-- ===== src/Vtn/Server/AddEvent.antt =====
-- openleadr/server.py: `add_event`, which makes an event with one signal and queues it.
pub mod Queued
use text.Mathlib.Text.{starts_with}
use openleadr_python.Base.{
  ℕ, ◌≡◌, refl, sym, ap, subst, ◌∙◌, String, Bool, true, false, not, ◌&&◌, ◌||◌, Option, none, some,
  List, [], ◌∷◌, ◌++◌, map, arith, Bool-cases, Option-cases, if◌then◌else◌,
}
use openleadr_python.Base.Exec.{
  Exec, Result, Result-cases, Error, ok, raise, value_error, continue, pure, ◌>>=◌,
}
use openleadr_python.Base.Int.{◌-ℤ◌}
use openleadr_python.Event.{
  Instant, Duration, Target, TargetsByType, EventDescriptor, Event, EventSignal, Interval,
  ActivePeriod, far, event_id,
}
use openleadr_python.Event.Period.{
  Span, span_end, span_of_interval, get_active_period_from_intervals, plain_period,
}
use openleadr_python.Event.Targets.{ungroup_targets_by_type, group_targets_by_type}
use openleadr_python.Event.Objects.{
  is_member, same_text, signal_names, signal_types, make_event_signal, make_event_descriptor,
  EventArguments, make_event, event_with, both_targets,
}
use openleadr_python.Vtn.EventService.{Polling, Callback, internal, external}
use openleadr_python.Vtn.Server.{
  Server, add_raw_event, check_callback, period_of_signals, signal_periods,
}
use openleadr_python.Vtn.Server.Queue.{added, Adds, added-Adds}

-- The arguments, with the ids that are generated for the event and its signal.
pub record Arguments : Type 0 where
  pub ven_id : ℕ
  pub signal_name : String
  pub signal_type : String
  pub intervals : List Interval
  pub callback : Option Callback
  pub delivery_callback : Option ℕ
  pub event_id : Option ℕ
  pub targets : Option (List Target)
  pub targets_by_type : Option TargetsByType
  pub target : Option Target
  pub response_required : String
  pub market_context : ℕ
  pub notification_period : Option Duration
  pub ramp_up_period : Option Duration
  pub recovery_period : Option Duration
  pub generated_event_id : ℕ
  pub generated_signal_id : ℕ

abbrev pub id_of : Arguments → ℕ
id_of a = elim a.event_id [ none ↦ a.generated_event_id | some k ↦ k ]

-- The target type 'ven_id'
abbrev pub ven_id_type : ℕ
ven_id_type = 0

abbrev pub targets_or :
    ℕ → Option (List Target) → Option TargetsByType → Option Target → List Target
targets_or v _ _ (some t) = t ∷ []
targets_or v none none none = ((ven_id_type, some v) ∷ []) ∷ []
targets_or v _ (some d) none = ungroup_targets_by_type d
targets_or v (some l) none none = l

abbrev pub is_empty : List Interval → Bool
is_empty [] = true
is_empty (_ ∷ _) = false

-- The checks of the arguments. The pattern for the market context matches every text.
unfoldable pub is_accepted : Arguments → Bool
is_accepted a =
    (same_text a.response_required "always" || same_text a.response_required "never")
    && (is_member a.signal_type signal_types
        && ((is_member a.signal_name signal_names || starts_with a.signal_name "x-")
            && not (is_empty a.intervals)))

abbrev pub signal_of : Arguments → EventSignal
signal_of a = record {
  intervals = a.intervals;
  signal_name = a.signal_name;
  signal_type = a.signal_type;
  signal_id = a.generated_signal_id;
  current_value = none;
  targets = none;
  targets_by_type = none;
  measurement = none;
}

abbrev pub descriptor_of : Instant → Arguments → EventDescriptor
descriptor_of now a = record {
  event_id = id_of a;
  modification_number = 0;
  market_context = a.market_context;
  event_status = far;
  created_date_time = some now;
  modification_date_time = none;
  priority = none;
  test_event = false;
  vtn_comment = none;
}

abbrev pub period_of : Arguments → Span → ActivePeriod
period_of a p = record (plain_period p) {
  ramp_up_period = a.ramp_up_period;
  notification_period = a.notification_period;
  recovery_period = a.recovery_period;
}

abbrev pub arguments_of : Instant → Arguments → EventSignal → Span → EventArguments
arguments_of now a g p = record {
  event_descriptor = make_event_descriptor now (descriptor_of now a);
  event_signals = g ∷ [];
  targets = some (targets_or a.ven_id a.targets a.targets_by_type a.target);
  targets_by_type = none;
  active_period = some (period_of a p);
  response_required = some a.response_required;
}

unfoldable pub event_of : Instant → Arguments → Result Event
unfolding make_event_signal make_event_descriptor make_event get_active_period_from_intervals
event_of now a = elim (make_event_signal (signal_of a)) [
  | raise e ↦ raise e
  | ok g ↦ elim (get_active_period_from_intervals (map span_of_interval a.intervals)) [
    | raise e ↦ raise e
    | ok p ↦ make_event now (arguments_of now a g p)
  ]
]

abbrev pub queue_event : Arguments → Result Event → Exec Server (Option ℕ)
queue_event a (raise e) s = (raise e, s)
queue_event a (ok e) s =
    (add_raw_event a.ven_id e a.callback a.delivery_callback >>= λ _. pure (some (id_of a))) s

abbrev pub check_arguments : Instant → Arguments → Exec Server (Option ℕ)
check_arguments now a s =
    if is_accepted a then queue_event a (event_of now a) s else (raise value_error, s)

-- With an on_poll handler of the user, nothing is added and None is returned.
abbrev pub add_event_by : Polling → Instant → Arguments → Exec Server (Option ℕ)
add_event_by external now a s = (ok none, s)
add_event_by internal now a s = check_arguments now a s

unfoldable pub add_event : Instant → Arguments → Exec Server (Option ℕ)
unfolding is_accepted event_of
add_event now a s = add_event_by s.event_service.polling_method now a s
