-- ===== src/Vtn/Server.antt =====
-- The event queue of openleadr/server.py and the poll service: events are added and cancelled,
-- and a VEN that polls is given them once they have changed.
pub mod Polls
pub mod Queue
pub mod AddEvent
pub mod Cancel
pub mod Keeps
pub mod Isolation
pub mod Methods
pub mod Reach
pub mod Mailbox
use Prim.Native.Nat.{◌+◌}
use text.Mathlib.Text.{◌==◌ as str_eq}
use openleadr_python.Base.{
  ℕ, zero, suc, String, Bool, true, false, Option, none, some, List, [], ◌∷◌, ◌++◌, map, find,
  if◌then◌else◌,
}
use openleadr_python.Base.Exec.{
  Exec, Result, ok, raise, key_error, value_error, index_error, pure, throw, gets, or_throw, lift,
  modify, ◌>>=◌, ◌>>◌,
}
use openleadr_python.Base.Dict.{Dict, lookup, lookup_or, contains, insert}
use openleadr_python.Event.{
  Instant, Event, EventDescriptor, EventSignal, event_id, event_status, cancelled,
}
use openleadr_python.Event.Period.{
  Span, span_of_interval, get_active_period_from_intervals, plain_period,
}
use openleadr_python.Event.Order.{Given}
use openleadr_python.Vtn.EventService
use openleadr_python.Vtn.EventService.{
  EventService, Polling, internal, external, Callback, future, function, Response, empty_response,
  distribute_event, EventResponse, queue, store_queue, has_id, request_event, created_event,
}

pub record PollService : Type 0 where
  pub polling_method : Polling
  pub events_updated : Dict Bool

pub record Server : Type 0 where
  pub event_service : EventService
  pub poll_service : PollService

abbrev pub init : Server
init = record {
  event_service = EventService.init;
  poll_service = record { polling_method = internal; events_updated = [] };
}

abbrev pub flag : ℕ → Bool → Server → Server
flag ven_id b s = record s {
  poll_service = record s.poll_service {
    events_updated = insert ven_id b s.poll_service.events_updated;
  };
}

abbrev pub on_events : (EventService → EventService) → Server → Server
on_events f s = record s { event_service = f s.event_service }

-- A callback for an event that wants a response: a future, or a function whose parameters are
-- named as they have to be.
unfoldable pub check_callback : String → Option Callback → Result (Unit {0})
check_callback required (some (function f named)) =
    if str_eq required "always" then (if named then ok tt else raise value_error) else ok tt
check_callback required _ = ok tt

-- The period of each signal's intervals, and the period of all those.
unfoldable pub signal_periods : List EventSignal → Result (List Span)
signal_periods [] = ok []
signal_periods (g ∷ l) =
    elim (get_active_period_from_intervals (map span_of_interval g.intervals)) [
      | raise e ↦ raise e
      | ok p ↦ elim (signal_periods l) [ raise e ↦ raise e | ok ps ↦ ok (p ∷ ps) ]
    ]

unfoldable pub period_of_signals : List EventSignal → Result Span
unfolding signal_periods
period_of_signals signals = elim (signal_periods signals) [
  | raise e ↦ raise e
  | ok periods ↦ get_active_period_from_intervals periods
]

abbrev pub default_priority : Option ℕ → Option ℕ
default_priority none = some 0
default_priority (some n) = some n

-- The code looks for an `active_period` in the event's descriptor, which never has one: so the
-- period is always made anew, from the signals.
abbrev pub with_defaults : Span → Event → Event
with_defaults period e = record e {
  event_descriptor = record e.event_descriptor {
    priority = default_priority e.event_descriptor.priority;
  };
  active_period = plain_period period;
}

abbrev pub open_queue : ℕ → EventService → EventService
open_queue ven_id s = if contains ven_id s.events then s else store_queue ven_id [] s

abbrev pub append_event : ℕ → Event → EventService → EventService
append_event ven_id e s = store_queue ven_id (queue ven_id s ++ e ∷ []) s

abbrev pub add_callback : ℕ → Option Callback → EventService → EventService
add_callback k none s = s
add_callback k (some c) s = record s { event_callbacks = insert k c s.event_callbacks }

abbrev pub add_delivery : ℕ → Option ℕ → EventService → EventService
add_delivery k none s = s
add_delivery k (some f) s = record s {
  event_delivery_callbacks = insert k f s.event_delivery_callbacks;
}

unfoldable pub add_raw_event : ℕ → Event → Option Callback → Option ℕ → Exec Server ℕ
unfolding check_callback period_of_signals
add_raw_event ven_id e callback delivery_callback = do
  required ← or_throw key_error e.response_required
  lift (check_callback required callback)
  modify (on_events (open_queue ven_id))
  period ← lift (period_of_signals e.event_signals)
  modify (on_events (append_event ven_id (with_defaults period e)))
  modify (flag ven_id true)
  modify (on_events (add_callback (event_id e) callback))
  modify (on_events (add_delivery (event_id e) delivery_callback))
  pure (event_id e)

-- The change that `cancel_event` makes to the event.
abbrev pub cancel : Event → Event
cancel e = record e {
  event_descriptor = record e.event_descriptor {
    event_status = cancelled;
    modification_number = e.event_descriptor.modification_number + 1;
  };
}

-- A change to the object that `find_by` finds.
unfoldable pub update_first : (Event → Bool) → (Event → Event) → List Event → List Event
update_first p f [] = []
update_first p f (e ∷ l) = if p e then f e ∷ l else e ∷ update_first p f l

unfoldable pub cancel_event : ℕ → ℕ → Server → Server
unfolding update_first
cancel_event ven_id k s = elim (lookup ven_id s.event_service.events) [
  | none ↦ s
  | some l ↦ elim (find (has_id k) l) [
    | none ↦ s
    | some e ↦
        flag ven_id true (on_events (store_queue ven_id (update_first (has_id k) cancel l)) s)
  ]
]

-- What the user's `on_poll` handler may return.
pub data PollResult : Type 0 where
  nothing : PollResult
  message : Response → PollResult
  event_list : List Event → PollResult
  event_dict event_object : Event → PollResult
  other : PollResult

-- The payload of the reply: a message, a bare list of events, or what the handler returned.
pub data Reply : Type 0 where
  reply : Response → Reply
  bare_list : List Event → Reply
  unknown : Reply

unfoldable pub external_reply : PollResult → Reply
external_reply nothing = reply empty_response
external_reply (message r) = reply r
external_reply (event_list l) = bare_list l
external_reply (event_dict e) = reply (distribute_event (e ∷ []))
external_reply (event_object e) = reply (distribute_event (e ∷ []))
external_reply other = unknown

module _ (on_request_event : ℕ → Given) (on_poll : ℕ → PollResult) where
  -- `self.event_service.request_event({'ven_id': …})`, and the flag is cleared
  abbrev pub poll_events : Instant → ℕ → Server → Response × Server
  poll_events now ven_id s =
      let (r, t) = request_event on_request_event now ven_id s.event_service in
      (r, flag ven_id false (record s { event_service = t }))

  abbrev pub reply_of : Response × Server → Reply × Server
  reply_of (r, s) = (reply r, s)

  unfoldable pub poll : Instant → ℕ → Server → Reply × Server
  unfolding external_reply
  poll now ven_id s = elim s.poll_service.polling_method [
    | external ↦ (external_reply (on_poll ven_id), s)
    | internal ↦
        if lookup_or ven_id false s.poll_service.events_updated
        then reply_of (poll_events now ven_id s)
        else (reply empty_response, s)
  ]

-- `add_handler('on_poll', …)` takes the queues out of use.
abbrev pub use_on_poll : Server → Server
use_on_poll s = record {
  event_service = record s.event_service { polling_method = external };
  poll_service = record s.poll_service { polling_method = external };
}
