-- ===== src/Ven/Events/Cleanup.antt =====
-- The periodic tasks over the events that the client holds, and what its tasks together keep.
use openleadr_python.Base.{
  ℕ, zero, suc, ◌≡◌, refl, ap, ◌∙◌, Bool, not, none, List, [], ◌∷◌, map, find, select, length,
  arith,
}
use openleadr_python.Base.Exec.{Result, ok, raise}
use openleadr_python.Event.{Instant, Event, event_id}
use openleadr_python.Ven.Events.{
  Answer, Client, init, Handlers, has_id, is_irrelevant, clean_at, clean_below, event_cleanup,
  log_status, event_status_log, take_events, results, on_event,
}
use openleadr_python.Ven.Events.Received.{Unique, Unique-select, take_events-Unique}

module _ (now : Instant) where
  abbrev is_relevant : Event → Bool
  is_relevant e = not (is_irrelevant now e)

  clean_at-cons :
      (i : ℕ) (x : Event) (l : List Event) → clean_at now (suc i) (x ∷ l) ≡ x ∷ clean_at now i l
  clean_at-cons i x l = ground arith

  -- The rounds over a list are those over its tail, and then the one for its head.
  clean_below-cons :
      (i : ℕ) (x : Event) (l : List Event)
      → clean_below now (suc i) (x ∷ l) ≡ clean_at now 0 (x ∷ clean_below now i l)
  unfolding clean_below
  clean_below-cons zero x l = refl
  clean_below-cons (suc i) x l =
      ap (clean_below now (suc i)) (clean_at-cons i x l) ∙ clean_below-cons i x (clean_at now i l)

  clean_below-select : (l : List Event) → clean_below now (length l) l ≡ select is_relevant l
  unfolding clean_below
  clean_below-select [] = refl
  clean_below-select (x ∷ l) =
      rw (clean_below-cons (length l) x l, clean_below-select l) (ground arith)

  -- Removing by index from the end leaves exactly the events that are neither cancelled nor ended
  -- by the clock, in their order, and no index is out of range.
  pub event_cleanup_selects :
      (s : Client)
      → (event_cleanup now s).received_events
        ≡ select (λ e. not (is_irrelevant now e)) s.received_events
  unfolding event_cleanup
  event_cleanup_selects s = clean_below-select s.received_events

  event_id-log_status : (x : Event) → event_id (log_status now x) ≡ event_id x
  unfolding log_status
  event_id-log_status x = ground arith

  find-log_status :
      (k : ℕ) (l : List Event)
      → find (has_id k) l ≡ none
      → find (has_id k) (map (log_status now) l) ≡ none
  find-log_status k [] h = refl
  find-log_status k (x ∷ l) h = rw (event_id-log_status x) (ground (arith, find-log_status k l))

  log_status-Unique : (l : List Event) → Unique l → Unique (map (log_status now) l)
  log_status-Unique [] u = tt
  log_status-Unique (x ∷ l) u =
      rw (event_id-log_status x) (find-log_status (event_id x) l u.0, log_status-Unique l u.1)

-- What the client's tasks can make of its events, from the start.
pub data Reach : Client → Type 0 where
  start : Reach init
  received :
      (h : Handlers) (now : Instant) (request_id : ℕ) (l : List Event) (s : Client)
      → Reach s
      → Reach (on_event h now request_id l s).1
  logged : (now : Instant) (s : Client) → Reach s → Reach (event_status_log now s)
  cleaned : (now : Instant) (s : Client) → Reach s → Reach (event_cleanup now s)

state-results :
    (l : List Event) (x : Result (List (Event × Answer)) × Client) → (results l x).1 ≡ x.1
state-results l (ok p, s) = refl
state-results l (raise e, s) = refl

-- Whatever messages arrive, whatever the handlers do, and whenever the periodic tasks run, no two
-- of the events that the client holds have the same id.
pub received_ids_differ : (s : Client) → Reach s → Unique s.received_events
unfolding on_event event_status_log
received_ids_differ s start = tt
received_ids_differ s (received h now request_id l t r) =
    rw (state-results l (take_events h l t)) (take_events-Unique h l t (received_ids_differ t r))
received_ids_differ s (logged now t r) =
    log_status-Unique now t.received_events (received_ids_differ t r)
received_ids_differ s (cleaned now t r) =
    rw (event_cleanup_selects now t)
      (Unique-select (λ e. not (is_irrelevant now e)) t.received_events (received_ids_differ t r))
