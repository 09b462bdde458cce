-- ===== src/Event/Order.antt =====
-- utils.order_events: the statuses are brought up to date in place, and the events are put in
-- the order of their delivery.
pub mod Laws
use openleadr_python.Base.{
  ℕ, zero, suc, Bool, true, false, not, Option, none, some, List, [], ◌∷◌, ◌++◌, map, select, take,
  drop, leb, if◌then◌else◌,
}
use openleadr_python.Base.Int.{leb_ℤ}
use openleadr_python.Base.Sort.{sort}
use openleadr_python.Event.{
  Instant, EventStatus, Event, EventDescriptor, ActivePeriod, event_status, is_active, is_cancelled,
  same_status,
}
use openleadr_python.Event.Status.{determine_event_status}

-- The loop body that updates a status, and notes the time when it changes one.
unfoldable pub update_status : Instant → Event → Event
update_status now e =
    if is_cancelled (event_status e)
    then e
    else let status = determine_event_status now e.active_period in
      if same_status (event_status e) status then e else (record e {
        event_descriptor = record e.event_descriptor {
          event_status = status;
          created_date_time = some now;
        };
      })

-- `none` is infinity: a missing priority, or the priority 0.
unfoldable pub event_priority : Event → Option ℕ
event_priority e = elim e.event_descriptor.priority [
  | none ↦ none
  | some n ↦ elim n [ zero ↦ none | suc m ↦ some (suc m) ]
]

abbrev pub priority_le : Option ℕ → Option ℕ → Bool
priority_le _ none = true
priority_le none (some b) = false
priority_le (some a) (some b) = leb a b

abbrev pub by_priority : Event → Event → Bool
by_priority a b = priority_le (event_priority a) (event_priority b)

abbrev pub by_dtstart : Event → Event → Bool
by_dtstart a b = leb_ℤ a.active_period.dtstart b.active_period.dtstart

abbrev pub active_events : List Event → List Event
active_events = select (λ e. is_active (event_status e))

abbrev pub other_events : List Event → List Event
other_events = select (λ e. not (is_active (event_status e)))

-- `active_events + other_events`, each sorted
unfoldable pub sorted_events : List Event → List Event
sorted_events events =
    sort by_dtstart (sort by_priority (active_events events))
    ++ sort by_dtstart (other_events events)

-- A number that is given and is not 0.
abbrev pub truthy : Option ℕ → Bool
truthy none = false
truthy (some zero) = false
truthy (some (suc n)) = true

-- `l[offset:offset+limit]`, if both are given
abbrev pub slice : Option ℕ → Option ℕ → List Event → List Event
slice (some (suc limit)) (some (suc offset)) l = take (suc limit) (drop (suc offset) l)
slice _ _ l = l

-- What the caller gives: None, one event, or a list.
pub data Given : Type 0 where
  nothing : Given
  one : Event → Given
  many : List Event → Given

-- What the caller gets: the very list that it gave, or a new list.
pub data Ordered : Type 0 where
  same : List Event → Ordered
  fresh : List Event → Ordered

abbrev pub items : Ordered → List Event
items (same l) = l
items (fresh l) = l

-- The short circuit for a single event, and the sort of any other number of them.
unfoldable pub order_updated : Option ℕ → Option ℕ → List Event → Ordered
unfolding sorted_events
order_updated limit offset (e ∷ []) = same (e ∷ [])
order_updated limit offset events = fresh (slice limit offset (sorted_events events))

unfoldable pub order_events : Instant → Option ℕ → Option ℕ → Given → Option Ordered
unfolding update_status order_updated
order_events now limit offset nothing = none
order_events now limit offset (one e) = some (fresh (update_status now e ∷ []))
order_events now limit offset (many l) =
    some (order_updated limit offset (map (update_status now) l))
