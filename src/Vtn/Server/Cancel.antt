-- ===== src/Vtn/Server/Cancel.antt =====
-- What cancelling an event does, and that a cancelled event stays cancelled.
use openleadr_python.Base.{
  ℕ, ◌≡◌, ◌≢◌, ap, ◌∙◌, ◌⊎◌, inl, inr, true, none, some, List, [], ◌∷◌, arith, find, Option-cases,
  ◌==◌, if◌then◌else◌,
}
use openleadr_python.Base.Dict.{
  lookup, lookup_or, insert, lookup-insert_self, lookup-insert_ne, lookup_or-insert_self,
}
use openleadr_python.Event.{Instant, Event, event_status, is_cancelled}
use openleadr_python.Event.Order.{update_status}
use openleadr_python.Vtn.EventService.{queue, store_queue, has_id}
use openleadr_python.Vtn.Server.{Server, flag, on_events, cancel, update_first, cancel_event}

-- Changing the first event with an id keeps its place, and no event with another id changes.
find-update_first :
    (k j : ℕ) (l : List Event)
    → find (has_id j) (update_first (has_id k) cancel l) ≡ (
        if j == k
        then elim (find (has_id k) l) [ none ↦ none | some e ↦ some (cancel e) ]
        else find (has_id j) l)
unfolding update_first
find-update_first k j [] = ground arith
find-update_first k j (e ∷ l) = ground (arith, find-update_first k j l)

module _ (v k : ℕ) (s : Server) (l : List Event) (e : Event)
    (known : lookup v s.event_service.events ≡ some l) (found : find (has_id k) l ≡ some e) where
  pub cancel_event-eq :
      cancel_event v k s
      ≡ flag v true (on_events (store_queue v (update_first (has_id k) cancel l)) s)
  unfolding cancel_event
  cancel_event-eq = ground arith

  -- To cancel an event that is in the VEN's queue marks the first event with the id as cancelled
  -- and raises its modification number by one. The events with other ids stay as they are, the
  -- VEN is flagged for its next poll, and no other VEN's queue changes.
  pub cancel_event_marks :
      let t = cancel_event v k s in
      (find (has_id k) (queue v t.event_service) ≡ some (cancel e))
      × ((j : ℕ) → j ≢ k → find (has_id j) (queue v t.event_service) ≡ find (has_id j) l)
      × (lookup v t.poll_service.events_updated ≡ some true)
      × ((w : ℕ) → w ≢ v → lookup w t.event_service.events ≡ lookup w s.event_service.events)
  cancel_event_marks = rw cancel_event-eq (
    ap (find (has_id k)) stored ∙ find-update_first k k l ∙ ground arith,
    λ j ne. ap (find (has_id j)) stored ∙ find-update_first k j l ∙ ground arith,
    lookup-insert_self v true s.poll_service.events_updated,
    λ w ne. lookup-insert_ne w v (update_first (has_id k) cancel l) s.event_service.events ne,
  )
    where
      stored :
          lookup_or v [] (insert v (update_first (has_id k) cancel l) s.event_service.events)
          ≡ update_first (has_id k) cancel l
      stored = lookup_or-insert_self v (update_first (has_id k) cancel l) [] s.event_service.events

-- A cancellation changes nothing, or stores the queue with one event marked.
pub cancel_cases :
    (v k : ℕ) (s : Server)
    → (cancel_event v k s ≡ s)
      ⊎ ((l : List Event) × (lookup v s.event_service.events ≡ some l)
          × (cancel_event v k s
              ≡ flag v true (on_events (store_queue v (update_first (has_id k) cancel l)) s)))
unfolding cancel_event
cancel_cases v k s = elim (Option-cases (lookup v s.event_service.events)) [
  | inl e ↦ inl (ground arith)
  | inr (l, e) ↦ elim (Option-cases (find (has_id k) l)) [
    | inl f ↦ inl (ground arith)
    | inr (x, f) ↦ inr (l, e, cancel_event-eq v k s l x e f)
  ]
]

-- To cancel an event that is not in the VEN's queue changes nothing.
pub cancel_event_unknown :
    (v k : ℕ) (s : Server)
    → find (has_id k) (queue v s.event_service) ≡ none
    → cancel_event v k s ≡ s
unfolding cancel_event
cancel_event_unknown v k s h = ground arith

-- The clock never changes a cancelled event.
pub update_status_cancelled :
    (now : Instant) (e : Event) → is_cancelled (event_status e) ≡ true → update_status now e ≡ e
unfolding update_status
update_status_cancelled now e h = ground arith
