-- ===== src/Journey/Served.antt =====
-- What the server does with an event that is alone in its queue, and with the answer to it.
use openleadr_python.Base.{
  ℕ, ◌≡◌, refl, ◌∙◌, inl, inr, true, false, Option, none, some, List, [], ◌∷◌, ◌++◌, arith,
  Option-cases,
}
use openleadr_python.Base.Dict.{lookup, lookup-insert_self, lookup_or-insert_self}
use openleadr_python.Event.{Instant, Event, event_id, event_status, is_completed, is_cancelled}
use openleadr_python.Event.Order.{Given, update_status, order_updated}
use openleadr_python.Vtn.EventService.{
  EventService, Callback, function, Opt, internal, answered, call, delivered, queue, store_queue,
  distribute_event, EventResponse, fire_deliveries, request_event, matches, confirm_cancelled,
  use_callback, take_events, drop_completed, after_loop, distribute, created_event,
}
use openleadr_python.Vtn.EventService.Delivery.{request_event_internal}
use openleadr_python.Vtn.EventService.Answers.{answer-eq}
use openleadr_python.Vtn.Server.{add_delivery, add_callback}
use openleadr_python.Ven.Events as Ven

pub callbacks-fire_deliveries :
    (l : List Event) (s : EventService)
    → ((fire_deliveries l s).event_callbacks ≡ s.event_callbacks)
      × ((fire_deliveries l s).polling_method ≡ s.polling_method)
unfolding fire_deliveries
callbacks-fire_deliveries [] s = (refl, refl)
callbacks-fire_deliveries (e ∷ l) s =
    elim (Option-cases (lookup (event_id e) s.event_delivery_callbacks)) [
      | inl k ↦ rw (k, fire_deliveries) (callbacks-fire_deliveries l s)
      | inr (f, k) ↦ rw (k, fire_deliveries) (callbacks-fire_deliveries l (call (delivered f) s))
    ]

-- A queue with one event that has not ended sends it, and keeps it.
module _ (h : ℕ → Given) (now : Instant) (v : ℕ) (s : EventService) (y : Event) where
  abbrev kept : EventService
  kept = store_queue v (update_status now y ∷ []) s

  pub request_event_one :
      s.polling_method ≡ internal
      → queue v s ≡ y ∷ []
      → is_completed (event_status (update_status now y)) ≡ false
      → request_event h now v s ≡ (
        distribute_event (update_status now y ∷ []),
        fire_deliveries (update_status now y ∷ []) kept,
      )
  request_event_one i q n =
      request_event_internal h now v s y [] i q
      ∙ unfold take_events order_updated after_loop drop_completed distribute in
        rw (n, lookup_or-insert_self v (update_status now y ∷ []) [] s.events) refl

pub matches_itself :
    (x : Event) (a : Opt)
    → matches
        (record {
          event_id = event_id x;
          modification_number = Ven.modification_number x;
          opt_type = a;
        })
        x
      ≡ true
matches_itself x a = ground arith

pub lookup-added_callback :
    (k : ℕ) (c : Callback) (d : Option ℕ) (s : EventService)
    → lookup k (add_delivery k d (add_callback k (some c) s)).event_callbacks ≡ some c
lookup-added_callback k c none s = lookup-insert_self k c s.event_callbacks
lookup-added_callback k c (some f) s = lookup-insert_self k c s.event_callbacks

-- An answer to the only event of a queue, which is not cancelled, calls the event's function.
module _ (v f : ℕ) (x : Event) (r : EventResponse) (s : EventService) where
  use_callback-calls :
      lookup r.event_id s.event_callbacks ≡ some (function f true)
      → (use_callback v r s).calls ≡ s.calls ++ answered f v r.event_id r.opt_type ∷ []
  unfolding use_callback
  use_callback-calls h = rw (use_callback, h) refl

  confirm_not_cancelled : is_cancelled (event_status x) ≡ false → confirm_cancelled v r x s ≡ s
  unfolding confirm_cancelled
  confirm_not_cancelled h = rw (confirm_cancelled, h) refl

  pub created_event-calls :
      s.polling_method ≡ internal
      → lookup v s.events ≡ some (x ∷ [])
      → matches r x ≡ true
      → is_cancelled (event_status x) ≡ false
      → lookup r.event_id s.event_callbacks ≡ some (function f true)
      → (created_event v (r ∷ []) s).1.calls ≡ s.calls ++ answered f v r.event_id r.opt_type ∷ []
  unfolding created_event
  created_event-calls i q m n l =
      rw (created_event, i, answer-eq v r s (x ∷ []) x q (rw m refl), confirm_not_cancelled n)
        (use_callback-calls l)
