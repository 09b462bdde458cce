-- ===== src/Vtn/Server/Methods.antt =====
-- The operations of the event service leave the way in which the server is polled alone.
use openleadr_python.Base.{
  ℕ, ◌≡◌, refl, ◌∙◌, inl, inr, none, some, List, [], ◌∷◌, map, arith, Bool-cases, Option-cases,
}
use openleadr_python.Base.Exec.{pure, ◌>>◌, for_each}
use openleadr_python.Base.Dict.{lookup}
use openleadr_python.Event.{Instant, Event, event_id}
use openleadr_python.Event.Order.{Given, items, order_updated, update_status}
use openleadr_python.Vtn.EventService.{
  EventService, internal, empty_response, EventResponse, queue, retire, call, delivered,
  drop_completed, fire_deliveries, distribute, take_events, store_queue, request_event, answer,
  created_event, confirm_cancelled, use_callback,
}
use openleadr_python.Vtn.Server.Isolation.{List-cases, request_event_empty}
use openleadr_python.Vtn.EventService.Delivery.{
  is_done, drop_done, drop_open, request_event_internal,
}

-- No operation of the event service changes how the server is polled.
method-drop_completed :
    (v : ℕ) (q : List Event) (s : EventService)
    → (drop_completed v q s).polling_method ≡ s.polling_method
unfolding drop_completed
method-drop_completed v [] s = refl
method-drop_completed v (e ∷ q) s = elim (Bool-cases (is_done e)) [
  | inl k ↦ rw (drop_done v e q s k) (method-drop_completed v q (retire v e s))
  | inr k ↦ rw (drop_open v e q s k) (method-drop_completed v q s)
]

method-fire_deliveries :
    (l : List Event) (s : EventService) → (fire_deliveries l s).polling_method ≡ s.polling_method
unfolding fire_deliveries
method-fire_deliveries [] s = refl
method-fire_deliveries (e ∷ l) s =
    elim (Option-cases (lookup (event_id e) s.event_delivery_callbacks)) [
      | inl k ↦ rw (k, fire_deliveries) (method-fire_deliveries l s)
      | inr (f, k) ↦ rw (k, fire_deliveries) (method-fire_deliveries l (call (delivered f) s))
    ]

method-take_events :
    (now : Instant) (v : ℕ) (l : List Event) (s : EventService)
    → (take_events now v l s).1.polling_method ≡ s.polling_method
unfolding take_events
method-take_events now v l s =
    method-drop_completed v (items (order_updated none none (map (update_status now) l)))
      (store_queue v (map (update_status now) l) s)

method-distribute :
    (l : List Event) (s : EventService)
    → (distribute (some l) s).1.polling_method ≡ s.polling_method
unfolding distribute
method-distribute l s = method-fire_deliveries l s

pub method-request :
    (h : ℕ → Given) (now : Instant) (v : ℕ) (s : EventService)
    → s.polling_method ≡ internal
    → (request_event h now v s).1.polling_method ≡ internal
method-request h now v s i = elim (List-cases (queue v s)) [
  | inl k ↦ rw (request_event_empty h now v s i k) i
  | inr (e, l, k) ↦ rw (request_event_internal h now v s e l i k) (
      method-distribute (take_events now v (e ∷ l) s).0 (take_events now v (e ∷ l) s).1
      ∙ method-take_events now v (e ∷ l) s
      ∙ i)
]

pub method-answer :
    (v : ℕ) (r : EventResponse) (e : Event) (s : EventService)
    → (use_callback v r (confirm_cancelled v r e s)).polling_method ≡ s.polling_method
unfolding use_callback confirm_cancelled
method-answer v r e s = ground arith

pub created_event_internal :
    (v : ℕ) (l : List EventResponse) (s : EventService)
    → s.polling_method ≡ internal
    → created_event v l s ≡ (for_each (answer v) l >> pure empty_response) s
unfolding created_event
created_event_internal v l s i = ground arith
