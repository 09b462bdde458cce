-- ===== src/Vtn/Server/Queue.antt =====
-- What adding and cancelling an event do to the queue of its VEN.
use openleadr_python.Base.{
  ℕ, ◌≡◌, ◌≢◌, refl, ap, ◌∙◌, ◌⊎◌, inl, inr, true, Option, none, some, [], ◌∷◌, ◌++◌, arith,
  Option-cases,
}
use openleadr_python.Base.Exec.{Result-cases, ok}
use openleadr_python.Base.Dict.{
  lookup, lookup_or, lookup-insert_self, lookup-insert_ne, lookup_or-insert_self,
}
use openleadr_python.Event.{Instant, Event, event_id, event_status, near}
use openleadr_python.Event.Status.{determine_event_status}
use openleadr_python.Event.Order.{update_status}
use openleadr_python.Event.Period.{Span}
use openleadr_python.Vtn.EventService.{EventService, Callback, queue}
use openleadr_python.Vtn.Server.{
  Server, flag, on_events, check_callback, period_of_signals, with_defaults, open_queue,
  append_event, add_callback, add_delivery, add_raw_event,
}

-- The state after an event has been added to the queue of `v`.
abbrev pub added : ℕ → Event → Option Callback → Option ℕ → Span → Server → Server
added v e c d p s = on_events (add_delivery (event_id e) d) (
    on_events (add_callback (event_id e) c)
      (flag v true (on_events (append_event v (with_defaults p e)) (on_events (open_queue v) s))))

-- The call succeeds only if the callback is fit and the signals have a period.
pub add_raw_event_ok :
    (v : ℕ) (e : Event) (c : Option Callback) (d : Option ℕ) (s : Server) {k : ℕ}
    → (add_raw_event v e c d s).0 ≡ ok k
    → (p : Span) × (period_of_signals e.event_signals ≡ ok p)
      × (add_raw_event v e c d s ≡ (ok (event_id e), added v e c d p s))
unfolding add_raw_event
add_raw_event_ok v e c d s h = elim (Result-cases (period_of_signals e.event_signals)) [
  | inl (p, k) ↦ (p, k, ground arith)
  | inr (error, k) ↦ absurd (ground arith)
]

-- A call that raises has done nothing, or has only made sure that the VEN has a queue.
pub add_raw_event_cases :
    (v : ℕ) (e : Event) (c : Option Callback) (d : Option ℕ) (s : Server)
    → ((add_raw_event v e c d s).1 ≡ s)
      ⊎ (((add_raw_event v e c d s).1 ≡ on_events (open_queue v) s)
          ⊎ ((p : Span) × ((add_raw_event v e c d s).1 ≡ added v e c d p s)))
unfolding add_raw_event
add_raw_event_cases v e c d s = elim (Option-cases e.response_required) [
  | inl k ↦ inl (ground arith)
  | inr (required, k) ↦ elim (Result-cases (check_callback required c)) [
    | inr (error, m) ↦ inl (ground arith)
    | inl (_, m) ↦ elim (Result-cases (period_of_signals e.event_signals)) [
      | inr (error, n) ↦ inr (inl (ground arith))
      | inl (p, n) ↦ inr (inr (p, ground arith))
    ]
  ]
]

-- The queue of `v` gets the event at its end, with the period that its signals span and a default
-- priority; the VEN is flagged for its next poll; no other VEN's queue or flag changes.
pub record Adds (v : ℕ) (e : Event) (p : Span) (s t : Server) : Type 0 where
  pub queued : queue v t.event_service ≡ queue v s.event_service ++ with_defaults p e ∷ []
  pub flagged : lookup v t.poll_service.events_updated ≡ some true
  pub other_queues :
      (w : ℕ) → w ≢ v → lookup w t.event_service.events ≡ lookup w s.event_service.events
  pub other_flags :
      (w : ℕ)
      → w ≢ v
      → lookup w t.poll_service.events_updated ≡ lookup w s.poll_service.events_updated
  pub polling : t.event_service.polling_method ≡ s.event_service.polling_method
  pub poll_method : t.poll_service.polling_method ≡ s.poll_service.polling_method

module _ (v : ℕ) (s : EventService) where
  queue-open_queue : queue v (open_queue v s) ≡ queue v s
  queue-open_queue = ground (arith, lookup-insert_self v [] s.events)

  others-open_queue : (w : ℕ) → w ≢ v → lookup w (open_queue v s).events ≡ lookup w s.events
  others-open_queue w ne = ground (arith, lookup-insert_ne w v [] s.events)

  polling-open_queue : (open_queue v s).polling_method ≡ s.polling_method
  polling-open_queue = ground arith

module _ (k : ℕ) (c : Option Callback) (d : Option ℕ) (s : EventService) where
  callbacks_frame :
      ((add_delivery k d (add_callback k c s)).events ≡ s.events)
      × ((add_delivery k d (add_callback k c s)).polling_method ≡ s.polling_method)
  callbacks_frame = ground arith

pub added-Adds :
    (v : ℕ) (e : Event) (c : Option Callback) (d : Option ℕ) (p : Span) (s : Server)
    → Adds v e p s (added v e c d p s)
added-Adds v e c d p s = record {
  queued =
      ap (lookup_or v []) (callbacks_frame (event_id e) c d appended).0
      ∙ lookup_or-insert_self v (queue v opened ++ with_defaults p e ∷ []) [] opened.events
      ∙ ap (λ q. q ++ with_defaults p e ∷ []) (queue-open_queue v s.event_service);
  flagged = lookup-insert_self v true s.poll_service.events_updated;
  other_queues = λ w ne.
      ap (lookup w) (callbacks_frame (event_id e) c d appended).0
      ∙ lookup-insert_ne w v (queue v opened ++ with_defaults p e ∷ []) opened.events ne
      ∙ others-open_queue v s.event_service w ne;
  other_flags = λ w ne. lookup-insert_ne w v true s.poll_service.events_updated ne;
  polling = (callbacks_frame (event_id e) c d appended).1 ∙ polling-open_queue v s.event_service;
  poll_method = refl;
}
  where
    opened : EventService
    opened = open_queue v s.event_service

    appended : EventService
    appended = append_event v (with_defaults p e) opened

-- A successful `add_raw_event` puts the event at the end of the VEN's queue with the period that
-- its signals span and a default priority, flags the VEN for its next poll, and changes no other
-- VEN's queue or flag.
pub add_raw_event-Adds :
    (v : ℕ) (e : Event) (c : Option Callback) (d : Option ℕ) (s : Server) {k : ℕ}
    → (add_raw_event v e c d s).0 ≡ ok k
    → (p : Span) × (period_of_signals e.event_signals ≡ ok p)
      × Adds v e p s (add_raw_event v e c d s).1
add_raw_event-Adds v e c d s h =
    let (p, k, done) = add_raw_event_ok v e c d s h in (p, k, rw done (added-Adds v e c d p s))

-- Whatever ramp-up period an event was given, the one that a successful `add_raw_event` puts at the
-- end of the VEN's queue has no ramp-up period, and the clock never brings it near.
pub add_raw_event_never_near :
    (v : ℕ) (e : Event) (c : Option Callback) (d : Option ℕ) (s : Server) {k : ℕ}
    → (add_raw_event v e c d s).0 ≡ ok k
    → (x : Event) × (queue v (add_raw_event v e c d s).1.event_service
        ≡ queue v s.event_service ++ x ∷ [])
      × (x.active_period.ramp_up_period ≡ none)
      × ((now : Instant) → event_status (update_status now x) ≢ near)
add_raw_event_never_near v e c d s h =
    let (p, _, adds) = add_raw_event-Adds v e c d s h in
    (with_defaults p e, adds.queued, refl, λ now. never p now)
  where
    never : (p : Span) (now : Instant) → event_status (update_status now (with_defaults p e)) ≢ near
    never p now = unfold update_status determine_event_status in ground arith
