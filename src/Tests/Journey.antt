-- ===== src/Tests/Journey.antt =====
-- The theorems on adding an event and on its way through both sides at concrete inputs.
use openleadr_python.Base.{ℕ, ◌≡◌, refl, true, false, none, some, [], ◌∷◌, ◌++◌}
use openleadr_python.Base.Int.{pos, ◌+ℤ◌, ◌-ℤ◌}
use openleadr_python.Base.Exec.{ok, raise, value_error}
use openleadr_python.Event.{Event as EventData, far}
use openleadr_python.Event.Status.{determine_event_status}
use openleadr_python.Event.Order.{Given, nothing}
use openleadr_python.Event.Period.{Span, get_active_period_from_intervals}
use openleadr_python.Vtn.EventService.{function, opt_in, answered, distribute_event, created_event}
use openleadr_python.Vtn.Server as Server
use openleadr_python.Vtn.Server.{
  PollResult, reply, poll, add_raw_event, check_callback, period_of_signals, signal_periods,
}
use openleadr_python.Vtn.Server.AddEvent.{Arguments, is_accepted, add_event}
use openleadr_python.Vtn.Server.AddEvent.Queued.{IsQueued, add_event-IsQueued}
use openleadr_python.Ven.Events as Ven
use openleadr_python.Journey.Sent.{all_taken_in, message_responses, sent_event}
use openleadr_python.Journey.Answered.{event_reaches_callback}
use openleadr_python.Tests.{event, sample_interval}
use openleadr_python.Tests.Ven.{handlers}

abbrev arguments : Arguments
arguments = record {
  ven_id = 1;
  signal_name = "SIMPLE";
  signal_type = "level";
  intervals = sample_interval ∷ [];
  callback = some (function 8 true);
  delivery_callback = none;
  event_id = none;
  targets = none;
  targets_by_type = none;
  target = none;
  response_required = "always";
  market_context = 0;
  notification_period = none;
  ramp_up_period = none;
  recovery_period = none;
  generated_event_id = 7;
  generated_signal_id = 8;
}

add_event-IsQueued_example :
    (is_accepted arguments ≡ true
      → IsQueued arguments Server.init (add_event (pos 0) arguments Server.init))
    × (is_accepted arguments ≡ false
        → add_event (pos 0) arguments Server.init ≡ (raise value_error, Server.init))
add_event-IsQueued_example =
    add_event-IsQueued (pos 0) arguments Server.init refl (unfold check_callback in refl)

abbrev wanted : EventData
wanted = record (event 7 0 far) { response_required = some "always" }

abbrev span : Span
span = record { dtstart = pos 100000000; duration = pos 10000000 }

wanted_span : period_of_signals wanted.event_signals ≡ ok span
wanted_span =
    unfold period_of_signals signal_periods get_active_period_from_intervals ◌+ℤ◌ ◌-ℤ◌ in refl

abbrev nobody : ℕ → Given
nobody _ = nothing

abbrev no_poll : ℕ → PollResult
no_poll _ = PollResult.nothing

event_reaches_callback_example :
    let t = (add_raw_event 1 wanted (some (function 8 true)) none Server.init).1 in
    let (polled_reply, u) = poll nobody no_poll (pos 97000000) 1 t in
    let sent = sent_event (pos 97000000) wanted span in
    let message = (Ven.on_event handlers (pos 97000000) 30 (sent ∷ []) Ven.init).0 in
    (polled_reply ≡ reply (distribute_event (sent ∷ [])))
    × ((created_event 1 (all_taken_in (message_responses message)) u.event_service).1.calls
        ≡ u.event_service.calls ++ answered 8 1 7 opt_in ∷ [])
event_reaches_callback_example =
    event_reaches_callback 1 8 wanted span none (pos 97000000) Server.init nobody no_poll refl
      wanted_span (unfold determine_event_status ◌+ℤ◌ in refl) refl handlers 30 opt_in Ven.init refl
      refl refl refl refl
