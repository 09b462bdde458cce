-- ===== src/Vtn/EventService.antt =====
-- openleadr/service/event_service.py: the queues of events, one for each VEN, their delivery, and
-- the VENs' answers.
pub mod Delivery
pub mod Answers
use mathlib.Core.List.{erase}
use openleadr_python.Base.{
  ℕ, Bool, true, false, not, ◌&&◌, Option, none, some, List, [], ◌∷◌, ◌++◌, map, elem, find,
  remove_first, ◌==◌, if◌then◌else◌,
}
use openleadr_python.Base.Exec.{
  Exec, ok, raise, type_error, key_error, invalid_id, pure, throw, gets, or_throw, modify, ◌>>=◌,
  ◌>>◌, for_each,
}
use openleadr_python.Base.Dict.{Dict, lookup, lookup_or, contains, insert, erase as pop_key}
use openleadr_python.Event.{
  Instant, Event, Event-discrete, event_id, event_status, is_completed, is_cancelled,
}
use openleadr_python.Event.Order.{
  Given, Ordered, same, fresh, nothing, items, update_status, order_updated, order_events,
}

pub data Polling : Type 0 where
  internal external : Polling

-- enums.OPT
pub data Opt : Type 0 where
  opt_in opt_out : Opt

-- A future, by its number, or a function, with whether its parameters have the wanted names.
pub data Callback : Type 0 where
  future : ℕ → Callback
  function : ℕ → Bool → Callback

-- A call of a function that the user has registered.
pub data Call : Type 0 where
  delivered : ℕ → Call
  answered : (callback ven_id event_id : ℕ) → Opt → Call
  on_created_event : (ven_id event_id : ℕ) → Opt → Call

-- `futures` holds the results that futures have been given, and `calls` the calls made so far.
pub record EventService : Type 0 where
  pub polling_method : Polling
  pub events : Dict (List Event)
  pub completed_event_ids : Dict (List ℕ)
  pub event_callbacks : Dict Callback
  pub event_delivery_callbacks : Dict ℕ
  pub futures : Dict Opt
  pub calls : List Call

abbrev pub init : EventService
init = record {
  polling_method = internal;
  events = [];
  completed_event_ids = [];
  event_callbacks = [];
  event_delivery_callbacks = [];
  futures = [];
  calls = [];
}

pub data Response : Type 0 where
  empty_response : Response
  distribute_event : List Event → Response

abbrev pub queue : ℕ → EventService → List Event
queue ven_id s = lookup_or ven_id [] s.events

abbrev pub call : Call → EventService → EventService
call c s = record s { calls = s.calls ++ c ∷ [] }

-- `self.completed_event_ids[ven_id].append(event_id)`, and the queue without the first event
-- that is equal to this one
abbrev pub retire : ℕ → Event → EventService → EventService
retire ven_id e s = record s {
  completed_event_ids =
      insert ven_id (lookup_or ven_id [] s.completed_event_ids ++ event_id e ∷ [])
        s.completed_event_ids;
  events = insert ven_id (erase Event-discrete (queue ven_id s) e) s.events;
}

-- The loop of `request_event` over the ordered events.
unfoldable pub drop_completed : ℕ → List Event → EventService → EventService
drop_completed ven_id [] s = s
drop_completed ven_id (e ∷ l) s =
    drop_completed ven_id l (if is_completed (event_status e) then retire ven_id e s else s)

-- The list that the loop leaves behind: a list that is the queue itself has lost what was popped.
unfoldable pub after_loop : ℕ → Ordered → EventService → List Event
after_loop ven_id (same l) s = queue ven_id s
after_loop ven_id (fresh l) s = l

-- The statuses are brought up to date in the queue itself.
abbrev pub store_queue : ℕ → List Event → EventService → EventService
store_queue ven_id l s = record s { events = insert ven_id l s.events }

-- What is sent from a queue that is not empty.
unfoldable pub take_events : Instant → ℕ → List Event → EventService → List Event × EventService
unfolding drop_completed after_loop order_updated
take_events now ven_id l s =
    let updated = map (update_status now) l in
    let ordered = order_updated none none updated in
    let t = drop_completed ven_id (items ordered) (store_queue ven_id updated s) in
    (after_loop ven_id ordered t, t)

unfoldable pub fire_deliveries : List Event → EventService → EventService
fire_deliveries [] s = s
fire_deliveries (e ∷ l) s =
    fire_deliveries l (elim (lookup (event_id e) s.event_delivery_callbacks) [
      | none ↦ s
      | some f ↦ call (delivered f) s
    ])

unfoldable pub distribute : Option (List Event) → EventService → Response × EventService
unfolding fire_deliveries
distribute none s = (empty_response, s)
distribute (some l) s = (distribute_event l, fire_deliveries l s)

abbrev pub distribute_taken : List Event × EventService → Response × EventService
distribute_taken (sent, t) = distribute (some sent) t

abbrev pub delivered_events : Option Ordered → Option (List Event)
delivered_events none = none
delivered_events (some o) = some (items o)

-- `on_request_event` is the user's handler, for servers that keep no queue.
module _ (on_request_event : ℕ → Given) where
  unfoldable pub request_event : Instant → ℕ → EventService → Response × EventService
  unfolding take_events distribute order_events
  request_event now ven_id s = elim s.polling_method [
    | internal ↦ elim (queue ven_id s) [
      | [] ↦ distribute none s
      | e ∷ l ↦ distribute_taken (take_events now ven_id (e ∷ l) s)
    ]
    | external ↦
        distribute (delivered_events (order_events now none none (on_request_event ven_id))) s
  ]

pub record EventResponse : Type 0 where
  pub event_id : ℕ
  pub modification_number : ℕ
  pub opt_type : Opt

-- `find_by` on the id and the modification number
abbrev pub matches : EventResponse → Event → Bool
matches r e =
    event_id e == r.event_id && e.event_descriptor.modification_number == r.modification_number

abbrev pub has_id : ℕ → Event → Bool
has_id k e = event_id e == k

-- The event that is answered; `getmember(None, …)` is a TypeError.
unfoldable pub find_answered : ℕ → EventResponse → Exec EventService Event
find_answered ven_id r = do
  l ← or_throw key_error (← gets (λ s. lookup ven_id s.events))
  known ← gets (λ s. elem r.event_id (lookup_or ven_id [] s.completed_event_ids))
  elim (find (matches r) l) [
    | some e ↦ pure e
    | none ↦ if known then throw type_error else throw invalid_id
  ]

-- A cancelled event whose cancellation is confirmed leaves the queue.
unfoldable pub confirm_cancelled : ℕ → EventResponse → Event → EventService → EventService
confirm_cancelled ven_id r e s =
    if is_cancelled (event_status e)
    then store_queue ven_id (remove_first (has_id r.event_id) (queue ven_id s)) s
    else s

-- The callback for the event is taken out and used; a future takes only one result.
unfoldable pub use_callback : ℕ → EventResponse → EventService → EventService
use_callback ven_id r s = elim (lookup r.event_id s.event_callbacks) [
  | none ↦ s
  | some c ↦
      let t = (record s { event_callbacks = pop_key r.event_id s.event_callbacks }) in
      elim c [
        | future f ↦
            if contains f s.futures
            then t
            else (record t { futures = insert f r.opt_type s.futures })
        | function f _ ↦ call (answered f ven_id r.event_id r.opt_type) t
      ]
]

unfoldable pub answer : ℕ → EventResponse → Exec EventService (Unit {0})
unfolding find_answered confirm_cancelled use_callback
answer ven_id r = do
  e ← find_answered ven_id r
  modify (confirm_cancelled ven_id r e)
  modify (use_callback ven_id r)

unfoldable pub created_event : ℕ → List EventResponse → Exec EventService Response
unfolding answer
created_event ven_id responses s = elim s.polling_method [
  | internal ↦ (for_each (answer ven_id) responses >> pure empty_response) s
  | external ↦
      (for_each
            (λ r. modify (
              call (on_created_event ven_id (EventResponse.event_id r) (EventResponse.opt_type r))))
            responses
          >> pure empty_response)
        s
]
