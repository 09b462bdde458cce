-- ===== src/Tests/Vtn.antt =====
-- The theorems on the server at concrete inputs.
use openleadr_python.Base.{ℕ, ◌≡◌, ◌≢◌, refl, none, List, [], ◌∷◌, ◌++◌, map, All}
use openleadr_python.Base.Int.{ℤ, pos, ◌+ℤ◌, ◌-ℤ◌}
use openleadr_python.Base.Exec.{ok}
use openleadr_python.Event.{Event as EventData, event_id, event_status, far, near, cancelled}
use openleadr_python.Event.Status.{determine_event_status}
use openleadr_python.Event.Period.{Span, get_active_period_from_intervals}
use openleadr_python.Event.Order.{Given, nothing, update_status}
use openleadr_python.Vtn.EventService
use openleadr_python.Vtn.EventService.{
  EventService, Response, distribute_event, empty_response, queue, store_queue, request_event,
  take_events, EventResponse, opt_in, answer, find_answered, matches, has_id, Callback, future,
}
use openleadr_python.Vtn.EventService.Delivery.{
  Delivers, request_event-Delivers, request_event_single, open_events,
}
use openleadr_python.Vtn.EventService.Answers.{
  Accepts, answer-Accepts, SameEffects, answer_all, callback_used_once,
}
use openleadr_python.Vtn.Server
use openleadr_python.Vtn.Server.{
  Server, add_raw_event, check_callback, period_of_signals, signal_periods, with_defaults, cancel,
  cancel_event, poll, PollResult, reply, Reply,
}
use openleadr_python.Vtn.Server.Queue.{add_raw_event_never_near}
use openleadr_python.Vtn.Server.Reach.{Reach, poll_brings_own_events}
use openleadr_python.Tests.{event}

abbrev no_request : ℕ → Given
no_request _ = nothing

abbrev no_poll : ℕ → PollResult
no_poll _ = PollResult.nothing

-- Two events for the VEN 1, with a future for an answer to the second.
abbrev service : EventService
service = record EventService.init {
  events = (1, event 5 0 far ∷ event 6 0 cancelled ∷ []) ∷ [];
  event_callbacks = (6, future 3) ∷ [];
}

abbrev single : EventService
single = record EventService.init { events = (1, event 5 0 far ∷ []) ∷ [] }

abbrev server : Server
server = record Server.init { event_service = service }

abbrev answer_6 : EventResponse
answer_6 = record { event_id = 6; modification_number = 0; opt_type = opt_in }

abbrev answer_9 : EventResponse
answer_9 = record { event_id = 9; modification_number = 0; opt_type = opt_in }

request_event-Delivers_example :
    let (r, t) = request_event no_request (pos 97000000) 1 service in
    Delivers (pos 97000000) 1 (event 5 0 far ∷ event 6 0 cancelled ∷ []) service r t
request_event-Delivers_example =
    request_event-Delivers no_request (pos 97000000) 1 service (event 5 0 far) (event 6 0 cancelled)
      [] refl refl

-- At second 120 the event has ended.
request_event_single_example :
    let (r, t) = request_event no_request (pos 120000000) 1 single in
    let left = open_events (update_status (pos 120000000) (event 5 0 far) ∷ []) in
    (r ≡ distribute_event left) × (queue 1 t ≡ left)
request_event_single_example =
    request_event_single no_request (pos 120000000) 1 single (event 5 0 far) refl refl

answer-Accepts_example :
    ((answer 1 answer_6 service).0 ≡ ok tt)
    × Accepts 1 answer_6 (event 6 0 cancelled) service (answer 1 answer_6 service).1
answer-Accepts_example =
    answer-Accepts 1 answer_6 service (event 5 0 far ∷ event 6 0 cancelled ∷ [])
      (event 6 0 cancelled) refl refl

callback_used_once_example :
    let t = answer_all ((1, answer_9) ∷ (1, answer_6) ∷ []) (answer 1 answer_6 service).1 in
    SameEffects (answer 2 answer_6 t).1 t
callback_used_once_example =
    callback_used_once 1 2 answer_6 answer_6 service ((1, answer_9) ∷ (1, answer_6) ∷ [])
      answer-Accepts_example.0 refl

addition_succeeds : (add_raw_event 1 (event 7 0 far) none none server).0 ≡ ok 7
addition_succeeds =
    unfold add_raw_event check_callback period_of_signals signal_periods
      get_active_period_from_intervals in
    refl

add_raw_event_never_near_example :
    (x : EventData) × (queue 1 (add_raw_event 1 (event 7 0 far) none none server).1.event_service
      ≡ queue 1 server.event_service ++ x ∷ [])
    × (x.active_period.ramp_up_period ≡ none)
    × ((now : ℤ) → event_status (update_status now x) ≢ near)
add_raw_event_never_near_example =
    add_raw_event_never_near 1 (event 7 0 far) none none server addition_succeeds

-- The events 5 and 8 are for the VEN 1.
abbrev Granted : ℕ → ℕ → Type 0
Granted v k = (v ≡ 1)

abbrev grown : Server
grown =
    (add_raw_event 1 (event 8 0 far) none none
      (add_raw_event 1 (event 5 0 far) none none Server.init).1).1

grown-Reach : Reach no_request no_poll Granted grown
grown-Reach =
    Reach.add 1 (event 8 0 far) none none refl
      (Reach.add 1 (event 5 0 far) none none refl Reach.start)

abbrev grown_period : Span
grown_period = record { dtstart = pos 100000000; duration = pos 10000000 }

abbrev grown_events : List EventData
grown_events =
    map (update_status (pos 97000000))
      (with_defaults grown_period (event 5 0 far) ∷ with_defaults grown_period (event 8 0 far) ∷ [])

grown-poll :
    (poll no_request no_poll (pos 97000000) 1 grown).0 ≡ reply (distribute_event grown_events)
grown-poll =
    unfold ◌+ℤ◌ ◌-ℤ◌ determine_event_status poll request_event take_events add_raw_event
      check_callback period_of_signals signal_periods get_active_period_from_intervals in
    refl

poll_brings_own_events_example : All (λ e. Granted 1 (event_id e)) grown_events
poll_brings_own_events_example =
    poll_brings_own_events no_request no_poll Granted (pos 97000000) 1 grown_events grown-Reach
      grown-poll
