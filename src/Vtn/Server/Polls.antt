-- ===== src/Vtn/Server/Polls.antt =====
-- What a VEN gets when it polls.
use mathlib.Core.List.{Perm}
use openleadr_python.Base.{
  ℕ, ◌≡◌, refl, ap, sym, subst, ◌∙◌, inl, inr, true, false, Option, some, List, [], ◌∷◌, ◌++◌, map,
  arith, Bool-cases,
}
use openleadr_python.Base.Exec.{ok}
use openleadr_python.Base.Dict.{lookup, lookup_or, lookup_or-insert_self}
use openleadr_python.Event.{Instant, Event}
use openleadr_python.Event.Order.{Given, update_status}
use openleadr_python.Event.Period.{Span}
use openleadr_python.Vtn.EventService.{Callback, internal, empty_response, distribute_event, queue}
use openleadr_python.Vtn.EventService.Delivery.{request_event-Delivers}
use openleadr_python.Vtn.Server.{
  Server, PollResult, reply, poll, poll_events, with_defaults, period_of_signals, add_raw_event,
}
use openleadr_python.Vtn.Server.Queue.{add_raw_event-Adds}

module _ (h : ℕ → Given) (p : ℕ → PollResult) (now : Instant) (v : ℕ) (s : Server) where
  pub poll_flagged :
      s.poll_service.polling_method ≡ internal
      → lookup v s.poll_service.events_updated ≡ some true
      → poll h p now v s ≡ (reply (poll_events h p now v s).0, (poll_events h p now v s).1)
  unfolding poll
  poll_flagged i f = ground arith

  poll_unflagged :
      s.poll_service.polling_method ≡ internal
      → lookup_or v false s.poll_service.events_updated ≡ false
      → poll h p now v s ≡ (reply empty_response, s)
  unfolding poll
  poll_unflagged i f = ground arith

  unflagged_after :
      s.poll_service.polling_method ≡ internal
      → (lookup_or v false (poll h p now v s).1.poll_service.events_updated ≡ false)
        × ((poll h p now v s).1.poll_service.polling_method ≡ internal)
  unfolding poll
  unflagged_after i = elim (Bool-cases (lookup_or v false s.poll_service.events_updated)) [
    | inl k ↦ rw (i, k) (lookup_or-insert_self v false false s.poll_service.events_updated, refl)
    | inr k ↦ rw (i, k) (k, refl)
  ]

-- A VEN that polls twice, with no change of its events between, gets nothing the second time, and
-- the second poll changes nothing.
pub poll_twice :
    (h : ℕ → Given) (p : ℕ → PollResult) (now later : Instant) (v : ℕ) (s : Server)
    → s.poll_service.polling_method ≡ internal
    → poll h p later v (poll h p now v s).1 ≡ (reply empty_response, (poll h p now v s).1)
poll_twice h p now later v s i =
    let (f, j) = unflagged_after h p now v s i in
    poll_unflagged h p later v (poll h p now v s).1 j f

-- After a successful `add_raw_event` for a VEN that has events in its queue, the VEN's next poll
-- delivers them all, the new one among them, with its queue's statuses brought up to date.
pub poll_after_add :
    (h : ℕ → Given) (p : ℕ → PollResult) (now : Instant) (v : ℕ) (e : Event) (c : Option Callback)
    (d : Option ℕ) (s : Server) {k : ℕ} (x : Event) (l : List Event)
    → s.event_service.polling_method ≡ internal
    → s.poll_service.polling_method ≡ internal
    → queue v s.event_service ≡ x ∷ l
    → (add_raw_event v e c d s).0 ≡ ok k
    → (period : Span) × (sent : List Event) × (period_of_signals e.event_signals ≡ ok period)
      × ((poll h p now v (add_raw_event v e c d s).1).0 ≡ reply (distribute_event sent))
      × Perm sent (map (update_status now) (x ∷ l ++ with_defaults period e ∷ []))
poll_after_add h p now v e c d s x l i j q done =
    let (period, spans, adds) = add_raw_event-Adds v e c d s done in
    let (f, rest, shape) = nonempty l (with_defaults period e) in
    let t = (add_raw_event v e c d s).1 in
    let queued = adds.queued ∙ ap (λ z. z ++ with_defaults period e ∷ []) q ∙ ap (◌∷◌ x) shape in
    let delivers =
      request_event-Delivers h now v t.event_service x f rest (adds.polling ∙ i) queued in
    (
      period,
      delivers.sent,
      spans,
      ap (λ r. r.0) (poll_flagged h p now v t (adds.poll_method ∙ j) adds.flagged)
          ∙ ap reply delivers.answer,
      subst (λ z. Perm delivers.sent (map (update_status now) (x ∷ z))) (sym shape)
          delivers.complete,
    )
  where
    nonempty : (m : List Event) (y : Event) → (f : Event) × (r : List Event) × (m ++ y ∷ [] ≡ f ∷ r)
    nonempty [] y = (y, [], refl)
    nonempty (z ∷ m) y = (z, m ++ y ∷ [], refl)
