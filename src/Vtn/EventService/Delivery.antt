-- ===== src/Vtn/EventService/Delivery.antt =====
-- What `request_event` sends and keeps.
use mathlib.Core.List.{Perm, erase, append-nil, append_assoc}
use mathlib.Core.List.Perm
use openleadr_python.Base.{
  ℕ, ◌≡◌, ◌≢◌, refl, sym, ap, ◌∙◌, inl, inr, Bool, true, false, not, some, List, [], ◌∷◌, ◌++◌, map,
  arith, select, Bool-cases, Option-cases, if◌then◌else◌,
}
use openleadr_python.Base.Dict.{lookup, lookup_or, lookup-insert_ne, lookup_or-insert_self}
use openleadr_python.Base.Sort.{Sorted}
use openleadr_python.Base.Erase.{erase_each, erase_each-reject, select-perm}
use openleadr_python.Event.{Instant, Event, Event-discrete, event_id, event_status, is_completed}
use openleadr_python.Event.Order.{Given, update_status, order_updated, sorted_events}
use openleadr_python.Event.Order.Laws.{Before, sorted_events-perm, sorted_events-Sorted}
use openleadr_python.Vtn.EventService.{
  EventService, internal, Response, distribute_event, queue, retire, drop_completed, after_loop,
  store_queue, take_events, fire_deliveries, distribute, request_event, call, delivered,
  distribute_taken,
}

abbrev pub is_done : Event → Bool
is_done e = is_completed (event_status e)

abbrev pub done_events : List Event → List Event
done_events = select is_done

abbrev pub open_events : List Event → List Event
open_events = select (λ e. not (is_done e))

abbrev pub completed_ids : ℕ → EventService → List ℕ
completed_ids v s = lookup_or v [] s.completed_event_ids

module _ (v : ℕ) where
  queue-store : (l : List Event) (s : EventService) → queue v (store_queue v l s) ≡ l
  queue-store l s = lookup_or-insert_self v l [] s.events

  queue-retire :
      (e : Event) (s : EventService) → queue v (retire v e s) ≡ erase Event-discrete (queue v s) e
  queue-retire e s = lookup_or-insert_self v (erase Event-discrete (queue v s) e) [] s.events

  ids-retire :
      (e : Event) (s : EventService)
      → completed_ids v (retire v e s) ≡ completed_ids v s ++ event_id e ∷ []
  ids-retire e s =
      lookup_or-insert_self v (completed_ids v s ++ event_id e ∷ []) [] s.completed_event_ids

  others-retire :
      (w : ℕ) (e : Event) (s : EventService)
      → w ≢ v
      → lookup w (retire v e s).events ≡ lookup w s.events
  others-retire w e s ne = lookup-insert_ne w v (erase Event-discrete (queue v s) e) s.events ne

  pub drop_done :
      (e : Event) (l : List Event) (s : EventService)
      → is_done e ≡ true
      → drop_completed v (e ∷ l) s ≡ drop_completed v l (retire v e s)
  unfolding drop_completed
  drop_done e l s k = ap (λ b. drop_completed v l (if b then retire v e s else s)) k

  pub drop_open :
      (e : Event) (l : List Event) (s : EventService)
      → is_done e ≡ false
      → drop_completed v (e ∷ l) s ≡ drop_completed v l s
  unfolding drop_completed
  drop_open e l s k = ap (λ b. drop_completed v l (if b then retire v e s else s)) k

  -- The loop empties the queue of the completed events of the list, notes their ids, and leaves
  -- the queues of the other VENs alone.
  queue-drop_completed :
      (l : List Event) (s : EventService)
      → queue v (drop_completed v l s) ≡ erase_each Event-discrete is_done l (queue v s)
  unfolding drop_completed
  queue-drop_completed [] s = refl
  queue-drop_completed (e ∷ l) s = elim (Bool-cases (is_done e)) [
    | inl k ↦ rw (drop_done e l s k, queue-drop_completed l (retire v e s), queue-retire e s, k)
    | inr k ↦ rw (drop_open e l s k, queue-drop_completed l s, k)
  ]

  ids-drop_completed :
      (l : List Event) (s : EventService)
      → completed_ids v (drop_completed v l s) ≡ completed_ids v s ++ map event_id (done_events l)
  unfolding drop_completed
  ids-drop_completed [] s = sym (append-nil _)
  ids-drop_completed (e ∷ l) s = elim (Bool-cases (is_done e)) [
    | inl k ↦
        rw (drop_done e l s k, ids-drop_completed l (retire v e s), ids-retire e s, k)
          (append_assoc (completed_ids v s) (event_id e ∷ []) (map event_id (done_events l)))
    | inr k ↦ rw (drop_open e l s k, ids-drop_completed l s, k)
  ]

  pub others-drop_completed :
      (w : ℕ) (l : List Event) (s : EventService)
      → w ≢ v
      → lookup w (drop_completed v l s).events ≡ lookup w s.events
  unfolding drop_completed
  others-drop_completed w [] s ne = refl
  others-drop_completed w (e ∷ l) s ne = elim (Bool-cases (is_done e)) [
    | inl k ↦
        rw (drop_done e l s k, others-drop_completed w l (retire v e s) ne, others-retire w e s ne)
    | inr k ↦ rw (drop_open e l s k, others-drop_completed w l s ne)
  ]

-- Calling the delivery callbacks changes nothing but the calls made.
pub fire_deliveries_frame :
    (l : List Event) (s : EventService)
    → ((fire_deliveries l s).events ≡ s.events)
      × ((fire_deliveries l s).completed_event_ids ≡ s.completed_event_ids)
unfolding fire_deliveries
fire_deliveries_frame [] s = (refl, refl)
fire_deliveries_frame (e ∷ l) s =
    elim (Option-cases (lookup (event_id e) s.event_delivery_callbacks)) [
      | inl k ↦ rw (k, fire_deliveries) (fire_deliveries_frame l s)
      | inr (f, k) ↦ rw (k, fire_deliveries) (fire_deliveries_frame l (call (delivered f) s))
    ]

-- What a request does to the server, if the queue of the VEN holds the events `l`.
pub record Delivers (now : Instant) (v : ℕ) (l : List Event) (s : EventService) (r : Response)
    (t : EventService) : Type 0 where
  pub sent : List Event
  pub answer : r ≡ distribute_event sent
  pub complete : Perm sent (map (update_status now) l)
  pub in_order : Sorted Before sent
  pub kept : queue v t ≡ open_events (map (update_status now) l)
  pub noted : completed_ids v t ≡ completed_ids v s ++ map event_id (done_events sent)
  pub others : (w : ℕ) → w ≢ v → lookup w t.events ≡ lookup w s.events

-- A server that keeps the queues itself takes the events of a queue that is not empty.
pub request_event_internal :
    (h : ℕ → Given) (now : Instant) (v : ℕ) (s : EventService) (e : Event) (l : List Event)
    → s.polling_method ≡ internal
    → queue v s ≡ e ∷ l
    → request_event h now v s ≡ distribute_taken (take_events now v (e ∷ l) s)
unfolding request_event
request_event_internal h now v s e l polling q = ground arith

-- The events that are taken from a queue of two or more, and the state that is left.
module _ (now : Instant) (v : ℕ) (s : EventService) (e f : Event) (l : List Event) where
  abbrev updated_queue : List Event
  updated_queue = map (update_status now) (e ∷ f ∷ l)

  abbrev after_taking : EventService
  after_taking = drop_completed v (sorted_events updated_queue) (store_queue v updated_queue s)

  take_events_many : take_events now v (e ∷ f ∷ l) s ≡ (sorted_events updated_queue, after_taking)
  unfolding take_events order_updated after_loop
  take_events_many = refl

  queue-after_taking : queue v after_taking ≡ open_events updated_queue
  queue-after_taking =
      rw
        (
          queue-drop_completed v (sorted_events updated_queue) (store_queue v updated_queue s),
          queue-store v updated_queue s,
        )
        (erase_each-reject Event-discrete is_done (sorted_events updated_queue) updated_queue
          (select-perm Event-discrete is_done (sorted_events-perm updated_queue)))

  -- Delivering these events has the effects of a delivery.
  Delivers-many :
      let (r, t) = distribute (some (sorted_events updated_queue)) after_taking in
      Delivers now v (e ∷ f ∷ l) s r t
  unfolding distribute
  Delivers-many = record {
    sent = sorted_events updated_queue;
    answer = refl;
    complete = sorted_events-perm updated_queue;
    in_order = sorted_events-Sorted updated_queue;
    kept =
        rw (fire_deliveries_frame (sorted_events updated_queue) after_taking).0 queue-after_taking;
    noted =
        rw (fire_deliveries_frame (sorted_events updated_queue) after_taking).1
          (ids-drop_completed v (sorted_events updated_queue) (store_queue v updated_queue s));
    others = λ w ne. rw (fire_deliveries_frame (sorted_events updated_queue) after_taking).0 (
        others-drop_completed v w (sorted_events updated_queue) (store_queue v updated_queue s) ne
        ∙ lookup-insert_ne w v updated_queue s.events ne);
  }

module _ (now : Instant) (v : ℕ) (s : EventService) (e : Event) where
  abbrev after_taking_one : EventService
  after_taking_one =
      drop_completed v (update_status now e ∷ []) (store_queue v (update_status now e ∷ []) s)

  take_events_one : take_events now v (e ∷ []) s ≡ (queue v after_taking_one, after_taking_one)
  unfolding take_events order_updated after_loop
  take_events_one = refl

  queue-after_taking_one : queue v after_taking_one ≡ open_events (update_status now e ∷ [])
  queue-after_taking_one =
      rw
        (
          queue-drop_completed v (update_status now e ∷ [])
              (store_queue v (update_status now e ∷ []) s),
          queue-store v (update_status now e ∷ []) s,
        )
        (erase_each-reject Event-discrete is_done (update_status now e ∷ [])
          (update_status now e ∷ []) (Perm.refl _))

  distribute_one :
      let (r, t) = distribute (some (queue v after_taking_one)) after_taking_one in
      let left = open_events (update_status now e ∷ []) in
      (r ≡ distribute_event left) × (queue v t ≡ left)
  unfolding distribute
  distribute_one = (
    ap distribute_event queue-after_taking_one,
    rw (fire_deliveries_frame (queue v after_taking_one) after_taking_one).0 queue-after_taking_one,
  )

module _ (on_request_event : ℕ → Given) (now : Instant) (v : ℕ) (s : EventService) where
  -- A request for the events of a VEN whose queue holds two or more of them sends all of them,
  -- with their statuses brought up to date and in the order of delivery. The completed ones leave
  -- the queue, and their ids are noted; the others stay. No other VEN's queue changes.
  pub request_event-Delivers :
      (e f : Event) (l : List Event)
      → s.polling_method ≡ internal
      → queue v s ≡ e ∷ f ∷ l
      → let (r, t) = request_event on_request_event now v s in Delivers now v (e ∷ f ∷ l) s r t
  request_event-Delivers e f l polling q =
      rw
        (
          request_event_internal on_request_event now v s e (f ∷ l) polling q,
          take_events_many now v s e f l,
        )
        (Delivers-many now v s e f l)

  -- A queue that holds one event only is the very list that is sent. So an event that is not
  -- completed is sent, and stays; but a completed one is popped from what is sent too: the VEN
  -- gets an empty list of events, and is never told of the completion.
  pub request_event_single :
      (e : Event)
      → s.polling_method ≡ internal
      → queue v s ≡ e ∷ []
      → let (r, t) = request_event on_request_event now v s in
        let left = open_events (update_status now e ∷ []) in
        (r ≡ distribute_event left) × (queue v t ≡ left)
  request_event_single e polling q =
      rw (request_event_internal on_request_event now v s e [] polling q, take_events_one now v s e)
        (distribute_one now v s e)
