-- ===== src/Tests.antt =====
-- Sample data, and the theorems at concrete inputs.
pub mod Event
pub mod Vtn
pub mod Ven
pub mod Messaging
pub mod Reports
pub mod Samples
pub mod Requests
pub mod Opts
pub mod Preflight
pub mod Journey
pub mod Client
pub mod Handler
pub mod Mailbox
pub mod Durations
pub mod Offers
pub mod Adding
use openleadr_python.Base.{ℕ, Bool, Option, none, some, List, [], ◌∷◌}
use openleadr_python.Base.Int.{ℤ, pos}
use openleadr_python.Event.{
  Event as EventData, EventStatus, EventSignal, Interval, ActivePeriod, far, near, active,
  completed, cancelled,
}

abbrev pub second : ℤ
second = pos 1000000

-- A period of ten seconds from second 100 on, with a ramp-up of five seconds.
abbrev pub ramped_period : ActivePeriod
ramped_period = record {
  dtstart = pos 100000000;
  duration = pos 10000000;
  tolerance = none;
  notification_period = none;
  ramp_up_period = some (pos 5000000);
  recovery_period = none;
}

abbrev pub sample_interval : Interval
sample_interval = record {
  dtstart = pos 100000000;
  duration = pos 10000000;
  signal_payload = pos 1000;
  uid = some 1;
}

abbrev pub sample_signal : EventSignal
sample_signal = record {
  intervals = sample_interval ∷ [];
  signal_name = "SIMPLE";
  signal_type = "level";
  signal_id = 7;
  current_value = some (pos 0);
  targets = none;
  targets_by_type = none;
  measurement = none;
}

-- An event with an id, a modification number and a status.
abbrev pub event : ℕ → ℕ → EventStatus → EventData
event k n s = record {
  event_descriptor = record {
    event_id = k;
    modification_number = n;
    market_context = 0;
    event_status = s;
    created_date_time = none;
    modification_date_time = none;
    priority = some 2;
    test_event = Bool.false;
    vtn_comment = none;
  };
  event_signals = sample_signal ∷ [];
  targets = none;
  targets_by_type = none;
  active_period = ramped_period;
  response_required = some "always";
}
