-- ===== src/Vtn/Server/Isolation.antt =====
-- Requests keep every queue to the events of its VEN, and send no others.
use mathlib.Core.List.{erase}
use openleadr_python.Base.{
  ℕ, ◌≡◌, refl, ap, sym, subst, ◌⊎◌, inl, inr, none, some, List, [], ◌∷◌, map, arith, All,
  Bool-cases, ◌==◌, ==_iff, if◌then◌else◌,
}
use openleadr_python.Base.Dict.{lookup_or, lookup-insert}
use openleadr_python.Event.{Instant, Event, Event-discrete, event_id}
use openleadr_python.Event.Order.{Given, Ordered, items, same, fresh, update_status, order_updated}
use openleadr_python.Vtn.EventService.{
  EventService, internal, Response, empty_response, distribute_event, queue, retire, store_queue,
  take_events, drop_completed, after_loop, distribute, request_event,
}
use openleadr_python.Vtn.EventService.Delivery.{
  is_done, drop_done, drop_open, fire_deliveries_frame, request_event_internal,
}
use openleadr_python.Vtn.Server.Keeps.{erase_keeps, ordered_keeps}

pub queue-store :
    (v w : ℕ) (l : List Event) (s : EventService)
    → queue w (store_queue v l s) ≡ (if w == v then l else queue w s)
queue-store v w l s = ground (arith, lookup-insert w v l s.events)

pub List-cases {ℓ} : {A : Type ℓ} (l : List A) → (l ≡ []) ⊎ ((x : A) × (r : List A) × (l ≡ x ∷ r))
List-cases [] = inl refl
List-cases (x ∷ r) = inr (x, r, refl)

pub request_event_empty :
    (h : ℕ → Given) (now : Instant) (v : ℕ) (s : EventService)
    → s.polling_method ≡ internal
    → queue v s ≡ []
    → request_event h now v s ≡ (empty_response, s)
unfolding request_event distribute
request_event_empty h now v s i q = ground arith

event_id-update_status : (now : Instant) (e : Event) → event_id (update_status now e) ≡ event_id e
unfolding update_status
event_id-update_status now e = ground arith

-- `Granted v k`: an event with the id `k` has been added for the VEN `v`.
module _ (Granted : ℕ → ℕ → Type 0) where
  abbrev pub Owned : ℕ → List Event → Type 0
  Owned v = All (λ e. Granted v (event_id e))

  -- Every queue holds only events that were added for its VEN.
  abbrev pub AllOwned : EventService → Type 0
  AllOwned s = (v : ℕ) → Owned v (queue v s)

  updated_keeps :
      (v : ℕ) (now : Instant) (l : List Event) → Owned v l → Owned v (map (update_status now) l)
  updated_keeps v now [] h = tt
  updated_keeps v now (e ∷ l) h =
      (subst (Granted v) (sym (event_id-update_status now e)) h.0, updated_keeps v now l h.1)

  -- Putting an owned list in place of one queue.
  pub store_keeps :
      (v : ℕ) (l : List Event) (s : EventService)
      → Owned v l
      → AllOwned s
      → AllOwned (store_queue v l s)
  store_keeps v l s h all w = elim (Bool-cases (w == v)) [
    | inl k ↦ rw (queue-store v w l s, k, (==_iff w v).0 k) h
    | inr k ↦ rw (queue-store v w l s, k) (all w)
  ]

  drop_keeps :
      (v : ℕ) (q : List Event) (s : EventService) → AllOwned s → AllOwned (drop_completed v q s)
  unfolding drop_completed
  drop_keeps v [] s all = all
  drop_keeps v (e ∷ q) s all = elim (Bool-cases (is_done e)) [
    | inl k ↦ rw (drop_done v e q s k) (
        drop_keeps v q (retire v e s) (
          store_keeps v (erase Event-discrete (queue v s) e) s
            (erase_keeps (λ x. Granted v (event_id x)) e (queue v s) (all v)) all))
    | inr k ↦ rw (drop_open v e q s k) (drop_keeps v q s all)
  ]

  -- What is taken from a queue is owned, and so is what stays.
  take_keeps :
      (now : Instant) (v : ℕ) (l : List Event) (s : EventService)
      → Owned v l
      → AllOwned s
      → Owned v (take_events now v l s).0 × AllOwned (take_events now v l s).1
  unfolding take_events
  take_keeps now v l s h all = (sent_owned (order_updated none none updated) ordered, kept)
    where
      updated : List Event
      updated = map (update_status now) l

      ordered : Owned v (items (order_updated none none updated))
      ordered = ordered_keeps (λ x. Granted v (event_id x)) updated (updated_keeps v now l h)

      kept :
          AllOwned
            (drop_completed v (items (order_updated none none updated)) (store_queue v updated s))
      kept =
          drop_keeps v (items (order_updated none none updated)) (store_queue v updated s)
            (store_keeps v updated s (updated_keeps v now l h) all)

      sent_owned :
          (o : Ordered)
          → Owned v (items o)
          → Owned v (
              after_loop v o (
                drop_completed v
                  (items (order_updated none none updated))
                  (store_queue v updated s)))
      sent_owned (same m) k = unfold after_loop in kept v
      sent_owned (fresh m) k = unfold after_loop in k

  -- What a response brings to a VEN.
  abbrev pub Brings : ℕ → Response → Type 0
  Brings v empty_response = Unit
  Brings v (distribute_event l) = Owned v l

  distribute_keeps :
      (v : ℕ) (l : List Event) (s : EventService)
      → Owned v l
      → AllOwned s
      → Brings v (distribute (some l) s).0 × AllOwned (distribute (some l) s).1
  unfolding distribute
  distribute_keeps v l s h all =
      (h, λ w. rw (ap (lookup_or w []) (fire_deliveries_frame l s).0) (all w))

  pub request_keeps :
      (h : ℕ → Given) (now : Instant) (v : ℕ) (s : EventService)
      → s.polling_method ≡ internal
      → AllOwned s
      → Brings v (request_event h now v s).0 × AllOwned (request_event h now v s).1
  request_keeps h now v s i all = elim (List-cases (queue v s)) [
    | inl k ↦ rw (request_event_empty h now v s i k) (tt, all)
    | inr (e, l, k) ↦
        let t = take_keeps now v (e ∷ l) s (subst (Owned v) k (all v)) all in
        rw (request_event_internal h now v s e l i k) (
          distribute_keeps v (take_events now v (e ∷ l) s).0 (take_events now v (e ∷ l) s).1 t.0
            t.1)
  ]
