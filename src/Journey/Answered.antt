-- ===== src/Journey/Answered.antt =====
-- From `add_raw_event` to the callback.
use openleadr_python.Base.{
  ℕ, ◌≡◌, refl, ap, sym, ◌∙◌, true, false, not, ◌&&◌, Option, none, some, [], ◌∷◌, ◌++◌, find,
}
use openleadr_python.Base.Exec.{ok}
use openleadr_python.Base.Dict.{lookup, lookup-insert_self}
use openleadr_python.Event.{Instant, Event, event_id, event_status, is_completed, is_cancelled}
use openleadr_python.Event.Status.{determine_event_status}
use openleadr_python.Event.Order.{Given}
use openleadr_python.Event.Period.{Span, plain_period}
use openleadr_python.Vtn.EventService.{
  EventService, function, Opt, internal, answered, queue, store_queue, distribute_event,
  EventResponse, fire_deliveries, request_event, created_event,
}
use openleadr_python.Vtn.EventService.Delivery.{fire_deliveries_frame}
use openleadr_python.Vtn.Server.{
  Server, PollResult, reply, with_defaults, period_of_signals, add_raw_event, poll, append_event,
  open_queue, check_callback,
}
use openleadr_python.Vtn.Server.Queue.{added, added-Adds}
use openleadr_python.Vtn.Server.Polls.{poll_flagged}
use openleadr_python.Ven.Events as Ven
use openleadr_python.Journey.Sent.{
  answer_of, all_taken_in, message_responses, sent_event, period-sent_event, id-sent_event,
  required-sent_event, is_cancelled-sent_event, is_completed-sent_event, all_taken_in-response_to,
  on_event_new,
}
use openleadr_python.Journey.Served.{
  callbacks-fire_deliveries, request_event_one, matches_itself, lookup-added_callback,
  created_event-calls,
}

module _ (v f : ℕ) (e : Event) (p : Span) (d : Option ℕ) (now : Instant) (s : Server) where
  abbrev add : Server
  add = added v e (some (function f true)) d p s

  abbrev sent : Event
  sent = sent_event now e p

  -- The event service once the event has been sent
  abbrev delivered_service : EventService
  delivered_service = fire_deliveries (sent ∷ []) (store_queue v (sent ∷ []) add.event_service)

  lookup-delivered_service :
      lookup (event_id e) delivered_service.event_callbacks ≡ some (function f true)
  lookup-delivered_service =
      ap (lookup (event_id e))
        (callbacks-fire_deliveries (sent ∷ []) (store_queue v (sent ∷ []) add.event_service)).0
      ∙ lookup-added_callback (event_id e) (function f true) d
          (append_event v (with_defaults p e) (open_queue v s.event_service))

  queue-delivered_service : lookup v delivered_service.events ≡ some (sent ∷ [])
  queue-delivered_service =
      ap (lookup v)
        (fire_deliveries_frame (sent ∷ []) (store_queue v (sent ∷ []) add.event_service)).0
      ∙ lookup-insert_self v (sent ∷ []) add.event_service.events

  polling-delivered_service :
      s.event_service.polling_method ≡ internal → delivered_service.polling_method ≡ internal
  polling-delivered_service i =
      (callbacks-fire_deliveries (sent ∷ []) (store_queue v (sent ∷ []) add.event_service)).1
      ∙ (added-Adds v e (some (function f true)) d p s).polling
      ∙ i

  module _ (given : ℕ → Given) (polled : ℕ → PollResult) where
    request_event-sent :
        s.event_service.polling_method ≡ internal
        → queue v s.event_service ≡ []
        → is_completed (event_status sent) ≡ false
        → request_event given now v add.event_service
          ≡ (distribute_event (sent ∷ []), delivered_service)
    request_event-sent i q n =
        request_event_one given now v add.event_service (with_defaults p e)
          ((added-Adds v e (some (function f true)) d p s).polling ∙ i)
          ((added-Adds v e (some (function f true)) d p s).queued
            ∙ ap (λ l. l ++ with_defaults p e ∷ []) q)
          n

    poll_sends :
        s.event_service.polling_method ≡ internal
        → s.poll_service.polling_method ≡ internal
        → queue v s.event_service ≡ []
        → is_completed (event_status sent) ≡ false
        → ((poll given polled now v add).0 ≡ reply (distribute_event (sent ∷ [])))
          × ((poll given polled now v add).1.event_service ≡ delivered_service)
    poll_sends i j q n =
        let polls =
          poll_flagged given polled now v add
            ((added-Adds v e (some (function f true)) d p s).poll_method ∙ j)
            (added-Adds v e (some (function f true)) d p s).flagged in
        (
          ap (λ z. z.0) polls ∙ ap (λ z. reply z.0) (request_event-sent i q n),
          ap (λ z. Server.event_service z.1) polls ∙ ap (λ z. z.1) (request_event-sent i q n),
        )

    -- The event has not ended and is not cancelled, it wants an answer, and its signals have a
    -- period.
    module _ (required : e.response_required ≡ some "always")
        (spans : period_of_signals e.event_signals ≡ ok p)
        (going : is_completed (determine_event_status now (plain_period p)) ≡ false)
        (valid : is_cancelled (event_status e) ≡ false) where
      add_raw_event-eq : add_raw_event v e (some (function f true)) d s ≡ (ok (event_id e), add)
      unfolding add_raw_event check_callback
      add_raw_event-eq = rw (required, spans) refl

      needs_response-sent : Ven.needs_response now sent ≡ true
      needs_response-sent =
          ap
            (λ z.
              Ven.is_always z && not (is_completed (determine_event_status now sent.active_period)))
            (required-sent_event now e p ∙ required)
          ∙ ap (λ z. not (is_completed (determine_event_status now z))) (period-sent_event now e p)
          ∙ ap not going

      abbrev sent_answer : Opt → EventResponse
      sent_answer a = record {
        event_id = event_id sent;
        modification_number = Ven.modification_number sent;
        opt_type = a;
      }

      calls-delivered_service :
          (a : Opt)
          → s.event_service.polling_method ≡ internal
          → (created_event v (sent_answer a ∷ []) delivered_service).1.calls
            ≡ delivered_service.calls ++ answered f v (event_id e) a ∷ []
      calls-delivered_service a i =
          created_event-calls v f sent (sent_answer a) delivered_service
            (polling-delivered_service i) queue-delivered_service (matches_itself sent a)
            (is_cancelled-sent_event now e p valid)
            (ap (λ z. lookup z delivered_service.event_callbacks) (id-sent_event now e p)
              ∙ lookup-delivered_service)
          ∙ ap (λ z. delivered_service.calls ++ answered f v z a ∷ []) (id-sent_event now e p)

      -- On a server that keeps the queues itself, an event that its user adds for a VEN with an empty
      -- queue reaches the VEN with its next poll. A client that does not know the event asks its
      -- handler, and the handler's `optIn` or `optOut` comes back to the callback that was given
      -- with the event, with the ids of the VEN and of the event. The event wants an answer, its
      -- signals have a period that has not ended, and it is not cancelled.
      pub event_reaches_callback :
          (h : Ven.Handlers) (k : ℕ) (a : Opt) (c : Ven.Client)
          → s.event_service.polling_method ≡ internal
          → s.poll_service.polling_method ≡ internal
          → queue v s.event_service ≡ []
          → find (Ven.has_id (event_id e)) c.received_events ≡ none
          → h.on_event (Ven.receive sent c) sent ≡ ok (answer_of a)
          → let t = (add_raw_event v e (some (function f true)) d s).1 in
            let (polled_reply, u) = poll given polled now v t in
            let answers = all_taken_in (message_responses (Ven.on_event h now k (sent ∷ []) c).0) in
            (polled_reply ≡ reply (distribute_event (sent ∷ [])))
            × ((created_event v answers u.event_service).1.calls
                ≡ u.event_service.calls ++ answered f v (event_id e) a ∷ [])
      event_reaches_callback h k a c i j q unknown says = rw add_raw_event-eq (
          let sends = poll_sends i j q (is_completed-sent_event now e p going valid) in
          (
            sends.0,
            ap
                  (λ r.
                    (created_event v (all_taken_in (message_responses r))
                      (poll given polled now v add).1.event_service).1.calls)
                  (on_event_new h now k c sent a
                    (ap (λ z. find (Ven.has_id z) c.received_events) (id-sent_event now e p)
                      ∙ unknown)
                    says needs_response-sent)
                ∙ ap
                    (λ l. (created_event v l (poll given polled now v add).1.event_service).1.calls)
                    (all_taken_in-response_to k sent a)
                ∙ ap (λ z. (created_event v (sent_answer a ∷ []) z).1.calls) sends.1
                ∙ calls-delivered_service a i
                ∙ ap (λ z. EventService.calls z ++ answered f v (event_id e) a ∷ []) (sym sends.1),
          ))
