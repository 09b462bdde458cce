-- ===== src/Vtn/Server/Mailbox/Polls.antt =====
-- A poll does to the mailbox what it promises, and tells what the mailbox brings.
use mathlib.Core.List.{Perm}
use mathlib.Core.List.Perm
use openleadr_python.Base.{
  ℕ, ◌≡◌, ◌≢◌, refl, sym, ap, subst, ◌∙◌, inl, inr, Bool, true, false, none, some, List, [], ◌∷◌,
  map, arith, Bool-cases, ◌==◌, ==_iff, if◌then◌else◌,
}
use openleadr_python.Base.Dict.{lookup, lookup_or, lookup-insert_ne, lookup_or-insert_self}
use openleadr_python.Event.{Instant, Event}
use openleadr_python.Event.Order.{Given, items, update_status, order_updated}
use openleadr_python.Vtn.EventService.{
  EventService, internal, empty_response, queue, request_event, take_events, store_queue,
  distribute, distribute_taken,
}
use openleadr_python.Vtn.EventService.Delivery.{
  open_events, request_event-Delivers, request_event_single, request_event_internal,
  others-drop_completed, fire_deliveries_frame,
}
use openleadr_python.Vtn.Server.{Server, PollResult, reply, poll, poll_events, reply_of}
use openleadr_python.Vtn.Server.Isolation.{List-cases, request_event_empty}
use openleadr_python.Vtn.Server.Mailbox.{
  boxed, mailbox, collect, told, current, show, show_event, notice_of, Tells, nothing_new, told_of,
}
use openleadr_python.Vtn.Server.Mailbox.Notices.{
  boxed_cong, current-updated, shown-updated, shown-current,
}

take_others :
    (now : Instant) (v w : ℕ) (l : List Event) (s : EventService)
    → w ≢ v
    → lookup w (distribute_taken (take_events now v l s)).1.events ≡ lookup w s.events
unfolding take_events distribute
take_others now v w l s ne =
    ap (lookup w) (fire_deliveries_frame (take_events now v l s).0 (take_events now v l s).1).0
    ∙ others-drop_completed v w (items (order_updated none none (map (update_status now) l)))
        (store_queue v (map (update_status now) l) s) ne
    ∙ lookup-insert_ne w v (map (update_status now) l) s.events ne

module _ (h : ℕ → Given) (now : Instant) (v : ℕ) (s : EventService)
    (i : s.polling_method ≡ internal) where
  -- What a request leaves in the queue of the VEN.
  request_keeps_open :
      queue v (request_event h now v s).1 ≡ open_events (map (update_status now) (queue v s))
  request_keeps_open = elim (List-cases (queue v s)) [
    | inl q ↦ rw (request_event_empty h now v s i q, q) refl
    | inr (e, [], q) ↦
        (request_event_single h now v s e i q).1
        ∙ ap (λ l. open_events (map (update_status now) l)) (sym q)
    | inr (e, f ∷ l, q) ↦
        (request_event-Delivers h now v s e f l i q).kept
        ∙ ap (λ l. open_events (map (update_status now) l)) (sym q)
  ]

  request_others : (w : ℕ) → w ≢ v → lookup w (request_event h now v s).1.events ≡ lookup w s.events
  request_others w ne = elim (List-cases (queue v s)) [
    | inl q ↦ rw (request_event_empty h now v s i q) refl
    | inr (e, l, q) ↦
        ap (λ r. lookup w r.1.events) (request_event_internal h now v s e l i q)
        ∙ take_others now v w (e ∷ l) s ne
  ]

  -- What a request tells the VEN.
  request-Tells :
      Tells (reply (request_event h now v s).0) (told now (boxed (map notice_of (queue v s)) true))
  request-Tells = elim (List-cases (queue v s)) [
    | inl q ↦ rw (request_event_empty h now v s i q, q) nothing_new
    | inr (e, [], q) ↦
        rw ((request_event_single h now v s e i q).0, q)
          (told_of _ _ (
            subst (λ l. Perm l (map (show now) (current now (notice_of e ∷ []))))
              (sym (shown-current now (e ∷ []))) (Perm.refl _)))
    | inr (e, f ∷ l, q) ↦
        let delivers = request_event-Delivers h now v s e f l i q in
        rw (delivers.answer, q)
          (told_of _ _ (
            subst (Perm (map show_event delivers.sent)) (shown-updated now (e ∷ f ∷ l))
              (Perm.map show_event delivers.complete)))
  ]

module _ (h : ℕ → Given) (p : ℕ → PollResult) (now : Instant) (v : ℕ) (s : Server)
    (i : s.event_service.polling_method ≡ internal)
    (j : s.poll_service.polling_method ≡ internal) where
  abbrev is_pending : Bool
  is_pending = lookup_or v false s.poll_service.events_updated

  -- A VEN with nothing pending gets an empty reply; the others are given what they request.
  poll-eq :
      poll h p now v s
      ≡ (if is_pending then reply_of h p (poll_events h p now v s) else (reply empty_response, s))
  unfolding poll
  poll-eq = rw j refl

  own_polled : mailbox v (poll h p now v s).1 ≡ collect now (mailbox v s)
  own_polled = elim (Bool-cases is_pending) [
    | inl k ↦
        rw (poll-eq, k)
          (boxed_cong
            (ap (map notice_of) (request_keeps_open h now v s.event_service i)
              ∙ current-updated now (queue v s.event_service))
            (lookup_or-insert_self v false false s.poll_service.events_updated))
    | inr k ↦ rw (poll-eq, k) (boxed_cong refl k)
  ]

  other_polled : (w : ℕ) → w ≢ v → mailbox w (poll h p now v s).1 ≡ mailbox w s
  other_polled w ne = elim (Bool-cases is_pending) [
    | inl k ↦
        rw (poll-eq, k)
          (boxed_cong
            (ap (λ o. map notice_of (elim o [ none ↦ [] | some l ↦ l ]))
              (request_others h now v s.event_service i w ne))
            (ap (λ o. elim o [ none ↦ false | some b ↦ b ])
              (lookup-insert_ne w v false s.poll_service.events_updated ne)))
    | inr k ↦ rw (poll-eq, k) refl
  ]

  -- The reply to a poll tells the VEN what its mailbox brings.
  pub poll-Tells : Tells (poll h p now v s).0 (told now (mailbox v s))
  poll-Tells = elim (Bool-cases is_pending) [
    | inl k ↦ rw (poll-eq, k) (request-Tells h now v s.event_service i)
    | inr k ↦ rw (poll-eq, k) nothing_new
  ]

  -- A poll collects the VEN's mailbox, and changes no other one.
  pub poll-collect :
      (w : ℕ)
      → mailbox w (poll h p now v s).1 ≡ (if w == v then collect now (mailbox w s) else mailbox w s)
  poll-collect w = elim (Bool-cases (w == v)) [
    | inl q ↦ rw (q, (==_iff w v).0 q) own_polled
    | inr q ↦ rw q (other_polled w (λ k. ground arith))
  ]
